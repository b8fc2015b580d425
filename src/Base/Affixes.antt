-- ===== src/Base/Affixes.antt =====
-- Laws of the tests on the two ends of a text.
use Prim.Native.Nat.{◌+◌, ◌-◌}
use mathlib.Core.Path.{◌≡◌, refl, sym}
use mathlib.Core.Bool.{true}
use mathlib.Core.List.{[], ◌∷◌, ◌++◌}
use native.Mathlib.Omega.{arith}
use customrouter.Base.Lists.{
  length, take, drop, length-append, drop-append, take-append, take-append-drop,
}
use customrouter.Base.Strings.{
  Text, codes, text_eq_iff, text_eq_refl, has_prefix, has_suffix, trim_suffix,
}

pub has_prefix-append : (p r : Text) → has_prefix (p ++ r) p ≡ true
unfolding has_prefix
has_prefix-append [] r = refl
has_prefix-append (c ∷ p) r = ground (arith, has_prefix-append p r)

pub has_prefix→append : (s p : Text) → has_prefix s p ≡ true → s ≡ p ++ drop (length p) s
unfolding has_prefix
has_prefix→append s [] h = refl
has_prefix→append [] (c ∷ p) h = cc
has_prefix→append (a ∷ s) (c ∷ p) h = ground (arith, has_prefix→append s p)

-- A text either ends in a slash or does not.
pub has_suffix_slash : (b : Text) → has_suffix (b ++ codes "/") (codes "/") ≡ true
unfolding has_suffix
has_suffix_slash b =
    let e : length (b ++ codes "/") - 1 ≡ length b = omega (arith, length-append b (codes "/")) in
    let l : length (b ++ codes "/") ≡ length b + 1 = length-append b (codes "/") in
    rw (e, drop-append b (codes "/"), text_eq_refl) (ground arith)

pub trim_suffix_slash : (b : Text) → trim_suffix (b ++ codes "/") (codes "/") ≡ b
unfolding trim_suffix
trim_suffix_slash b =
    let e : length (b ++ codes "/") - 1 ≡ length b = omega (arith, length-append b (codes "/")) in
    rw (has_suffix_slash b) (rw e (take-append b (codes "/")))

pub has_suffix→append :
    (s : Text) → has_suffix s (codes "/") ≡ true → s ≡ take (length s - 1) s ++ codes "/"
unfolding has_suffix
has_suffix→append s h =
    let e : drop (length s - 1) s ≡ codes "/" = (text_eq_iff _ _).0 (ground arith) in
    sym (rw e at (take-append-drop (length s - 1) s))
