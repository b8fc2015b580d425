-- ===== src/Base/Tables.antt =====
-- Go maps with text keys, as association lists.
use mathlib.Core.Path.{◌≡◌, refl, subst, ◌∙◌}
use mathlib.Core.Logic.{inl, inr}
use mathlib.Core.Option.{Option, none, some}
use mathlib.Core.List.{List, [], ◌∷◌}
use native.Mathlib.Omega.{arith}
use customrouter.Base.Tests.{if◌then◌else◌, Bool-cases}
use customrouter.Base.Strings.{Text, text_eq, text_eq_iff}

abbrev pub Table {ℓ} : Type ℓ → Type ℓ
Table V = List (Text × V)

module _ {ℓ} {V : Type ℓ} where
  unfoldable pub lookup : Text → Table V → Option V
  lookup k [] = none
  lookup k ((j, v) ∷ m) = if text_eq j k then some v else lookup k m

  unfoldable pub insert : Text → V → Table V → Table V
  insert k v [] = (k, v) ∷ []
  insert k v ((j, w) ∷ m) = if text_eq j k then (k, v) ∷ m else (j, w) ∷ insert k v m

  pub lookup-insert :
      (k j : Text) (v : V) (m : Table V)
      → lookup j (insert k v m) ≡ (if text_eq k j then some v else lookup j m)
  unfolding lookup insert
  lookup-insert k j v [] = refl
  lookup-insert k j v ((i, w) ∷ m) =
      ground (arith, text_eq_iff k j, text_eq_iff i k, text_eq_iff i j, lookup-insert k j v m)

-- The keys of a Go map are distinct.
abbrev pub IsMap {ℓ} : {V : Type ℓ} → Table V → Type ℓ
IsMap [] = Unit
IsMap ((k, v) ∷ m) = (lookup k m ≡ none) × IsMap m

pub insert-IsMap {ℓ} :
    {V : Type ℓ} (k : Text) (v : V) (m : Table V) → IsMap m → IsMap (insert k v m)
unfolding insert lookup
insert-IsMap k v [] h = (refl, tt)
insert-IsMap k v ((j, w) ∷ m) (fresh, h) = elim (Bool-cases (text_eq j k)) [
  | inl e ↦ rw e (subst (λ i. lookup i m ≡ none) ((text_eq_iff j k).0 e) fresh, h)
  | inr e ↦ rw e (
    lookup-insert k j v m ∙ ground (arith, fresh, e, text_eq_iff k j, text_eq_iff j k),
    insert-IsMap k v m h,
  )
]
