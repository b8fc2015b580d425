-- ===== src/Webhook/Counting.antt =====
-- Counting criteria: a list whose members all have a counterpart in another one is not longer, and
-- if it is as long, the other one's members have their counterparts in it.
use customrouter.Base.{
  suc, ◌≤◌, Text, length, All, All-imp, any, Bool, true, false, ◌||◌, List, [], ◌∷◌, ◌++◌, ◌≡◌, ◌≢◌,
  inl, inr, refl, sym, ap, ◌∙◌, arith, Bool-cases,
}

any-middle {ℓ} :
    {A : Type ℓ} (q : A → Bool) (l : List A) (p : A) (r : List A)
    → any q (l ++ p ∷ r) ≡ (q p || any q (l ++ r))
unfolding any
any-middle q [] p r = refl
any-middle q (x ∷ l) p r = ground (arith, any-middle q l p r)

All-middle {ℓ κ} :
    {A : Type ℓ} (P : A → Type κ) (l : List A) (p : A) (r : List A)
    → P p
    → All P (l ++ r)
    → All P (l ++ p ∷ r)
All-middle P [] p r h hs = (h, hs)
All-middle P (x ∷ l) p r h (g, hs) = (g, All-middle P l p r h hs)

length-middle {ℓ} :
    {A : Type ℓ} (l : List A) (p : A) (r : List A) → length (l ++ p ∷ r) ≡ suc (length (l ++ r))
length-middle [] p r = refl
length-middle (x ∷ l) p r = ap suc (length-middle l p r)

pick {ℓ} :
    {A : Type ℓ} (q : A → Bool) (xs : List A)
    → any q xs ≡ true
    → (l : List A) × (p : A) × (r : List A) × (xs ≡ l ++ p ∷ r) × (q p ≡ true)
unfolding any
pick q [] h = cc
pick q (x ∷ xs) h = elim (Bool-cases (q x)) [
  | inl e ↦ ([], x, xs, refl, e)
  | inr e ↦ let (l, p, r, s, t) = pick q xs (rw e at h) in (x ∷ l, p, r, ap (◌∷◌ x) s, t)
]

abbrev pub DistinctBy {ℓ} : {A : Type ℓ} → (A → Text) → List A → Type 0
DistinctBy key [] = Unit
DistinctBy key (x ∷ xs) = All (λ y. key x ≢ key y) xs × DistinctBy key xs

module _ {ℓ} {A : Type ℓ} (same : A → A → Bool) (key : A → Text)
    (same-key : (s p : A) → same s p ≡ true → key s ≡ key p)
    (same-sym : (s p : A) → same s p ≡ true → same p s ≡ true) where
  abbrev pub Covered : List A → List A → Type 0
  Covered sup sub = All (λ s. any (same s) sup ≡ true) sub

  Covered-without :
      (s : A) (l : List A) (p : A) (r sub : List A)
      → same s p ≡ true
      → All (λ y. key s ≢ key y) sub
      → Covered (l ++ p ∷ r) sub
      → Covered (l ++ r) sub
  Covered-without s l p r [] e _ _ = tt
  Covered-without s l p r (y ∷ sub) e (ne, nes) (h, hs) =
      let apart : same y p ≡ false = elim (Bool-cases (same y p)) [
        | inl f ↦ absurd (ne (same-key s p e ∙ sym (same-key y p f)))
        | inr f ↦ f
      ] in
      (ground (arith, apart, h, any-middle (same y) l p r), Covered-without s l p r sub e nes hs)

  Covered-with : (s : A) (sup sub : List A) → Covered sup sub → Covered (s ∷ sup) sub
  unfolding any
  Covered-with s sup sub h = All-imp (λ y e. ground (arith, e)) sub h

  pub Covered-length :
      (sub sup : List A) → DistinctBy key sub → Covered sup sub → length sub ≤ length sup
  Covered-length [] sup d h = omega arith
  Covered-length (s ∷ sub) sup (new, d) (h, hs) =
      let (l, p, r, e, t) = pick (same s) sup h in
      let ih = Covered-length sub (l ++ r) d (Covered-without s l p r sub t new (rw e at hs)) in
      rw e (omega (arith, ih, length-middle l p r))

  pub Covered-back :
      (sub sup : List A)
      → DistinctBy key sub
      → Covered sup sub
      → length sup ≤ length sub
      → Covered sub sup
  unfolding any
  Covered-back [] [] d h n = tt
  Covered-back [] (p ∷ sup) d h n = absurd (omega (arith, n))
  Covered-back (s ∷ sub) sup (new, d) (h, hs) n =
      let (l, p, r, e, t) = pick (same s) sup h in
      let less : length (l ++ r) ≤ length sub =
        omega (arith, n, ap length e, length-middle l p r) in
      let ih = Covered-back sub (l ++ r) d (Covered-without s l p r sub t new (rw e at hs)) less in
      rw e (
        All-middle (λ y. any (same y) (s ∷ sub) ≡ true) l p r (rw (same-sym s p t) refl)
          (Covered-with s sub (l ++ r) ih))
