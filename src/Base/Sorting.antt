-- ===== src/Base/Sorting.antt =====
-- `sort.SliceStable` of Go, for a test `lt`: a stable insertion sort, and what it guarantees.
use mathlib.Core.Path.{◌≡◌, refl, subst, ap, ◌∙◌}
use mathlib.Core.Bool.{Bool, true, false}
use mathlib.Core.List.{List, [], ◌∷◌, Perm}
use mathlib.Core.List.Perm
use mathlib.Core.Option.{some}
use mathlib.Core.Logic.{inl, inr}
use native.Mathlib.Omega.{arith}
use customrouter.Base.Tests.{if◌then◌else◌, Bool-cases}
use customrouter.Base.Lists.{length, All, select, first}
use customrouter.Base.{suc, All-imp, subst}

-- `lt` tells which of two elements has to stand first, with ties.
pub record IsWeakOrder {ℓ} {A : Type ℓ} (lt : A → A → Bool) : Type ℓ where
  pub asym : (a b : A) → lt a b ≡ true → lt b a ≡ false
  pub trans : (a b c : A) → lt a b ≡ false → lt b c ≡ false → lt a c ≡ false

module _ {ℓ} {A : Type ℓ} (lt : A → A → Bool) where
  pub place : A → List A → List A
  place x [] = x ∷ []
  place x (y ∷ ys) = if lt y x then y ∷ place x ys else x ∷ y ∷ ys

  unfoldable pub sort_stable : List A → List A
  unfolding place
  sort_stable [] = []
  sort_stable (x ∷ xs) = place x (sort_stable xs)

  -- No element has to stand before an earlier one.
  abbrev pub IsSorted : List A → Type 0
  IsSorted [] = Unit
  IsSorted (x ∷ xs) = All (λ y. lt y x ≡ false) xs × IsSorted xs

  All-place {κ} : (P : A → Type κ) (x : A) (ys : List A) → P x → All P ys → All P (place x ys)
  unfolding place
  All-place P x [] p h = (p, tt)
  All-place P x (y ∷ ys) p (q, h) = elim (Bool-cases (lt y x)) [
    | inl e ↦ rw e (q, All-place P x ys p h)
    | inr e ↦ rw e (p, (q, h))
  ]

  pub All-sort_stable {κ} : (P : A → Type κ) (xs : List A) → All P xs → All P (sort_stable xs)
  unfolding sort_stable
  All-sort_stable P [] h = tt
  All-sort_stable P (x ∷ xs) (p, h) = All-place P x (sort_stable xs) p (All-sort_stable P xs h)

  place-perm : (x : A) (ys : List A) → Perm (place x ys) (x ∷ ys)
  unfolding place
  place-perm x [] = Perm.rfl
  place-perm x (y ∷ ys) = elim (Bool-cases (lt y x)) [
    | inl e ↦ rw e (Perm.trans (Perm.cons y (place-perm x ys)) (Perm.swap x y ys))
    | inr e ↦ rw e Perm.rfl
  ]

  pub sort_stable-perm : (xs : List A) → Perm (sort_stable xs) xs
  unfolding sort_stable
  sort_stable-perm [] = Perm.rfl
  sort_stable-perm (x ∷ xs) =
      Perm.trans (place-perm x (sort_stable xs)) (Perm.cons x (sort_stable-perm xs))

  -- Elements that `q` picks out, none of which has to stand before another, keep their order.
  module _ (q : A → Bool) (ties : (a b : A) → q a ≡ true → q b ≡ true → lt a b ≡ false) where
    select-place : (x : A) (ys : List A) → select q (place x ys) ≡ select q (x ∷ ys)
    unfolding select place
    select-place x [] = refl
    select-place x (y ∷ ys) = ground (arith, ties y x, select-place x ys)

    pub select-sort_stable : (xs : List A) → select q (sort_stable xs) ≡ select q xs
    unfolding select sort_stable
    select-sort_stable [] = refl
    select-sort_stable (x ∷ xs) =
        ground (arith, select-place x (sort_stable xs), select-sort_stable xs)

  module _ (order : IsWeakOrder lt) where
    All-not_before :
        (x y : A) (ys : List A)
        → lt x y ≡ false
        → All (λ z. lt z x ≡ false) ys
        → All (λ z. lt z y ≡ false) ys
    All-not_before x y [] e h = tt
    All-not_before x y (z ∷ ys) e (p, h) = (order.trans z x y p e, All-not_before x y ys e h)

    place-IsSorted : (x : A) (ys : List A) → IsSorted ys → IsSorted (place x ys)
    unfolding place
    place-IsSorted x [] s = (tt, tt)
    place-IsSorted x (y ∷ ys) (below, s) = elim (Bool-cases (lt y x)) [
      | inl e ↦
          rw e
            (All-place (λ z. lt z y ≡ false) x ys (order.asym y x e) below, place-IsSorted x ys s)
      | inr e ↦ rw e ((e, All-not_before y x ys e below), (below, s))
    ]

    pub sort_stable-IsSorted : (xs : List A) → IsSorted (sort_stable xs)
    unfolding sort_stable
    sort_stable-IsSorted [] = tt
    sort_stable-IsSorted (x ∷ xs) = place-IsSorted x (sort_stable xs) (sort_stable-IsSorted xs)

    irrefl : (a : A) → lt a a ≡ false
    irrefl a = elim (Bool-cases (lt a a)) [ inl e ↦ order.asym a a e | inr e ↦ e ]

    -- In a sorted list the first element that passes a test comes before every other that does.
    pub first-of_IsSorted :
        (p : A → Bool) (xs : List A) (r : A)
        → IsSorted xs
        → first p xs ≡ some r
        → All (λ y. p y ≡ true → lt y r ≡ false) xs
    unfolding first
    first-of_IsSorted p [] r s h = tt
    first-of_IsSorted p (x ∷ xs) r (below, s) h = elim (Bool-cases (p x)) [
      | inl e ↦
          let same : x ≡ r = ground (arith, h, e) in
          subst (λ z. All (λ y. p y ≡ true → lt y z ≡ false) (x ∷ xs)) same
            (λ _. irrefl x, All-imp (λ y d _. d) xs below)
      | inr e ↦ (λ t. cc, first-of_IsSorted p xs r s (ground arith))
    ]

length-place {ℓ} :
    {A : Type ℓ} (lt : A → A → Bool) (x : A) (ys : List A)
    → length (place lt x ys) ≡ suc (length ys)
unfolding place
length-place lt x [] = refl
length-place lt x (y ∷ ys) = ground (arith, length-place lt x ys)

pub length-sort_stable {ℓ} :
    {A : Type ℓ} (lt : A → A → Bool) (xs : List A) → length (sort_stable lt xs) ≡ length xs
unfolding sort_stable
length-sort_stable lt [] = refl
length-sort_stable lt (x ∷ xs) =
    length-place lt x (sort_stable lt xs) ∙ ap suc (length-sort_stable lt xs)
