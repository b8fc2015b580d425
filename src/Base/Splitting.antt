-- ===== src/Base/Splitting.antt =====
-- Laws of `split`, `join` and `before_any`.
use Prim.Native.Nat.{ℕ}
use mathlib.Core.Path.{◌∙◌, ◌≡◌, refl, ap, sym}
use mathlib.Core.Logic.{inl, inr}
use mathlib.Core.Bool.{Bool, false}
use mathlib.Core.List.{List, [], ◌∷◌, ◌++◌, append_assoc, append-nil}
use native.Mathlib.Omega.{arith}
use customrouter.Base.Tests.{◌==◌, Bool-cases}
use customrouter.Base.Lists.{All, All-append}
use customrouter.Base.Strings.{Text, cut, split, join, before_any}

module _ (sep : ℕ) where
  abbrev pub Free : Text → Type 0
  Free = All (λ c. (c == sep) ≡ false)

  cut-Free : (p cur : Text) → Free p → cut sep cur p ≡ (cur ++ p) ∷ []
  unfolding cut
  cut-Free [] cur h = ap (λ t. t ∷ []) (sym (append-nil cur))
  cut-Free (c ∷ p) cur (e, h) =
      rw (e, cut-Free p (cur ++ c ∷ []) h, append_assoc cur (c ∷ []) p) refl

  cut-append : (p cur s : Text) → Free p → cut sep cur (p ++ sep ∷ s) ≡ (cur ++ p) ∷ cut sep [] s
  unfolding cut
  cut-append [] cur s h = ground (arith, append-nil cur)
  cut-append (c ∷ p) cur s (e, h) =
      rw (e, cut-append p (cur ++ c ∷ []) s h, append_assoc cur (c ∷ []) p) refl

  join-cons :
      (p q : Text) (ps : List Text)
      → join (p ∷ q ∷ ps) (sep ∷ []) ≡ p ++ sep ∷ join (q ∷ ps) (sep ∷ [])
  unfolding join
  join-cons p q ps = append_assoc p (sep ∷ []) (join (q ∷ ps) (sep ∷ []))

  -- Joining texts without the separator and splitting again gives them back.
  pub split-join :
      (p : Text) (ps : List Text)
      → All Free (p ∷ ps)
      → split (join (p ∷ ps) (sep ∷ [])) sep ≡ p ∷ ps
  unfolding split join
  split-join p [] (h, _) = cut-Free p [] h
  split-join p (q ∷ ps) (h, hs) =
      ap (cut sep []) (join-cons p q ps)
      ∙ cut-append p [] (join (q ∷ ps) (sep ∷ [])) h
      ∙ ap (◌∷◌ p) (split-join q ps hs)

  -- No part holds the separator, and every part's bytes are those of the text.
  module _ (P : ℕ → Type 0) where
    abbrev PartOf : Text → Type 0
    PartOf part = Free part × All P part

    cut-All : (s cur : Text) → PartOf cur → All P s → All PartOf (cut sep cur s)
    unfolding cut
    cut-All [] cur h _ = (h, tt)
    cut-All (c ∷ s) cur (f, g) (p, ps) = elim (Bool-cases (c == sep)) [
      | inl e ↦ rw e ((f, g), cut-All s [] (tt, tt) ps)
      | inr e ↦ rw e (
          cut-All s (cur ++ c ∷ [])
            (All-append _ cur (c ∷ []) f (e, tt), All-append P cur (c ∷ []) g (p, tt)) ps)
    ]

    pub split-All : (s : Text) → All P s → All (λ part. Free part × All P part) (split s sep)
    unfolding split
    split-All s h = cut-All s [] (tt, tt) h

module _ (p : ℕ → Bool) where
  pub before_any-All : (s : Text) → All (λ c. p c ≡ false) (before_any p s)
  unfolding before_any
  before_any-All [] = tt
  before_any-All (c ∷ s) = elim (Bool-cases (p c)) [
    | inl e ↦ rw e tt
    | inr e ↦ rw e (e, before_any-All s)
  ]

  pub before_any-free :
      (s tail : Text) → All (λ c. p c ≡ false) s → before_any p (s ++ tail) ≡ s ++ before_any p tail
  unfolding before_any
  before_any-free [] tail h = refl
  before_any-free (c ∷ s) tail (e, h) = rw e (ap (◌∷◌ c) (before_any-free s tail h))
