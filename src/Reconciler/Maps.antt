-- ===== src/Reconciler/Maps.antt =====
-- Laws of the maps in the controller's memory.
use customrouter.Base.{
  text_eq_refl, text_eq_iff, [], ◌∷◌, Bool-cases, ◌∙◌, not, none, text_eq, if◌then◌else◌, Bool, ◌≡◌,
  Table, select, lookup, Text, inl, inr, refl,
}
use customrouter.Reconciler.{remove}

-- The entries whose keys pass a test.
pub lookup-select {ℓ} :
    {V : Type ℓ} (p : Text → Bool) (k : Text) (m : Table V)
    → lookup k (select (λ (e : Text × V). p e.0) m) ≡ (if p k then lookup k m else none)
unfolding lookup select
lookup-select p k [] = elim (Bool-cases (p k)) [ inl e ↦ rw e refl | inr e ↦ rw e refl ]
lookup-select p k ((j, v) ∷ m) =
    let ih = lookup-select p k m in
    elim (Bool-cases (text_eq j k)) [
      | inl e ↦
          let same : j ≡ k = (text_eq_iff j k).0 e in
          elim (Bool-cases (p k)) [
            | inl t ↦ rw (same, t, text_eq_refl k) refl
            | inr t ↦ rw (same, t) (rw t at ih)
          ]
      | inr e ↦ elim (Bool-cases (p j)) [ inl t ↦ rw (t, e) ih | inr t ↦ rw (t, e) ih ]
    ]

pub lookup-remove {ℓ} :
    {V : Type ℓ} (j k : Text) (m : Table V)
    → lookup j (remove k m) ≡ (if text_eq j k then none else lookup j m)
unfolding remove
lookup-remove j k m =
    lookup-select (λ t. not (text_eq t k)) j m
    ∙ elim (Bool-cases (text_eq j k)) [ inl e ↦ rw e refl | inr e ↦ rw e refl ]
