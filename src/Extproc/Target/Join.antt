-- ===== src/Extproc/Target/Join.antt =====
-- What follows a matched prefix in the request target, and how a redirect joins it to its path.
use customrouter.Base.{
  before_any, length-append, false≢true, ℕ, ◌+◌, ◌-◌, Text, codes, text_eq, text_eq_iff,
  text_eq_refl, length, Bool, true, false, not, ◌&&◌, [], ◌∷◌, ◌++◌, append_assoc, append-nil, ◌≡◌,
  ◌≢◌, ◌⊎◌, inl, inr, refl, sym, ap, subst, ◌∙◌, arith, ◌==◌, if◌then◌else◌, Bool-cases, has_prefix,
  trim_prefix, has_suffix, trim_suffix, drop, take, has_prefix→append, has_suffix→append,
  trim_suffix_slash, has_prefix-append,
}
use customrouter.Extproc.Target.{join_redirect_path, is_target_end, strip_query_string}
use customrouter.Extproc.Redirect.{matched_suffix}
use customrouter.Routes.Match.{match_prefix}
use customrouter.Routes.Match.Path.{IsUnder, match_prefix_iff}

-- A suffix that goes on with a path, and not with a query or a fragment.
abbrev pub goes_on : Text → Bool
goes_on [] = false
goes_on (c ∷ rest) = not (is_target_end c)

closed_append :
    (base s : Text)
    → has_suffix base (codes "/") ≡ true
    → base ++ s ≡ trim_suffix base (codes "/") ++ b'/' ∷ s
closed_append base s h =
    let b = take (length base - 1) base in
    rw (has_suffix→append base h, trim_suffix_slash b) (append_assoc b (codes "/") s)

open_base :
    (base : Text) → has_suffix base (codes "/") ≡ false → trim_suffix base (codes "/") ≡ base
unfolding trim_suffix
open_base base h = rw h refl

trim_prefix-slash :
    (c : ℕ) (rest : Text)
    → trim_prefix (c ∷ rest) (codes "/") ≡ (if c == b'/' then rest else c ∷ rest)
unfolding trim_prefix has_prefix
trim_prefix-slash c rest = ground arith

-- A redirect joins its path and a suffix with exactly one slash when the suffix goes on with a
-- path; an empty suffix, a query or a fragment is appended as it is.
pub join_redirect_path_lem :
    (base suffix : Text)
    → join_redirect_path base suffix ≡ (
        if goes_on suffix
        then trim_suffix base (codes "/") ++ b'/' ∷ trim_prefix suffix (codes "/")
        else base ++ suffix)
unfolding join_redirect_path
join_redirect_path_lem base [] = sym (append-nil base)
join_redirect_path_lem base (c ∷ rest) = elim (Bool-cases (is_target_end c)) [
  | inl e ↦ rw e refl
  | inr e ↦
      rw (e, trim_prefix-slash c rest)
        (elim (Bool-cases (has_suffix base (codes "/"))) [
          | inl h ↦ ground (arith, h, closed_append base rest h, closed_append base (c ∷ rest) h)
          | inr h ↦ ground (arith, h, open_base base h)
        ])
]

before_any-append : (p : ℕ → Bool) (s : Text) → (r : Text) × (s ≡ before_any p s ++ r)
unfolding before_any
before_any-append p [] = ([], refl)
before_any-append p (c ∷ s) = elim (Bool-cases (p c)) [
  | inl e ↦ (c ∷ s, rw e refl)
  | inr e ↦ let ih = before_any-append p s in (ih.0, rw e (ap (◌∷◌ c) ih.1))
]

IsUnder-append : (base path : Text) → IsUnder base path → (r : Text) × (path ≡ base ++ r)
IsUnder-append base path (inl e) = ([], e ∙ sym (append-nil base))
IsUnder-append base path (inr (rest, e)) = (b'/' ∷ rest, e)

-- The target of a request that a prefix route matches starts with the route's path, but for its
-- final slash.
target-has_prefix :
    (pattern target : Text)
    → match_prefix pattern (strip_query_string target) ≡ true
    → has_prefix target (trim_suffix pattern (codes "/")) ≡ true
unfolding strip_query_string
target-has_prefix pattern target h =
    let base = trim_suffix pattern (codes "/") in
    let (tail, e) = before_any-append is_target_end target in
    let (r, u) =
      IsUnder-append base _ ((match_prefix_iff pattern (strip_query_string target)).0 h) in
    subst (λ s. has_prefix s base ≡ true)
      (sym (e ∙ ap (λ s. s ++ tail) u ∙ append_assoc base r tail))
      (has_prefix-append base (r ++ tail))

drop-ne :
    (s p : Text) → has_prefix s p ≡ true → has_suffix p (codes "/") ≡ true → drop (length p) s ≢ s
unfolding has_suffix
drop-ne s p h closed e =
    let l : length s ≡ length p + length s =
      ap length (has_prefix→append s p h ∙ ap (◌++◌ p) e) ∙ length-append p s in
    ground (arith, l, closed)

-- What a rewrite or a redirect keeps of the target is all that follows the matched prefix, the query
-- included: a target that starts with the route's path is that path and the suffix; one that does
-- not was matched by a path with a final slash, and is the path without that slash and the suffix.
pub matched_suffix_lem :
    (pattern target : Text)
    → match_prefix pattern (strip_query_string target) ≡ true
    → ((has_prefix target pattern ≡ true) × (target ≡ pattern ++ matched_suffix pattern target))
      ⊎ ((has_prefix target pattern ≡ false)
          × (has_suffix pattern (codes "/") ≡ true)
          × (target ≡ trim_suffix pattern (codes "/") ++ matched_suffix pattern target))
unfolding matched_suffix trim_prefix
matched_suffix_lem pattern target h =
    let base = trim_suffix pattern (codes "/") in
    let under = target-has_prefix pattern target h in
    elim (Bool-cases (has_prefix target pattern)) [
      | inl p ↦
          elim (Bool-cases
            (text_eq (drop (length pattern) target) target && has_suffix pattern (codes "/"))) [
              | inl b ↦ absurd (
                  drop-ne target pattern p (ground (arith, b))
                    ((text_eq_iff _ target).0 (ground (arith, b))))
              | inr b ↦ inl (p, rw (p, b) (has_prefix→append target pattern p))
            ]
      | inr p ↦ elim (Bool-cases (has_suffix pattern (codes "/"))) [
        | inl b ↦
            inr (p, b, rw (p, text_eq_refl target, b, under) (has_prefix→append target base under))
        | inr b ↦ absurd (
            false≢true
              (sym p ∙ subst (λ q. has_prefix target q ≡ true) (open_base pattern b) under))
      ]
    ]
