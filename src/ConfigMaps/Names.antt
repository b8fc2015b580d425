-- ===== src/ConfigMaps/Names.antt =====
-- Names of partitions and back: `partitionName` and `parsePartitionName` of
-- internal/controller/customhttproute/sync.go.
use customrouter.Base.{
  some-inj, ap, sym, append_assoc, codes, some, ◌≤◌, none, ◌≢◌, ◌++◌, unsigned, subst, refl, ◌∙◌,
  zero, [], ◌+◌, inr, inl, ltb, Bool-cases, true, arith, ◌∷◌, ◌≡◌, ◌<◌, ◌*◌, is_digit, value_of,
  All, suc, digits, ℕ, Text, itoa_nat,
}
use customrouter.Base.Int.{ℤ, atoi}
use customrouter.ConfigMaps.{
  config_map_base_name, partition_name, parse_partition_name, at_last_dash,
}
use Prim.Native.Nat.{◌%◌, ◌/◌}

abbrev tens : ℕ → ℕ
tens zero = 1
tens (suc f) = 10 * tens f

value_of-digits : (f n : ℕ) (out : Text) → n < tens f → value_of 0 (digits f n out) ≡ value_of n out
unfolding digits value_of
value_of-digits zero n out h = let z : n ≡ 0 = omega arith in rw z refl
value_of-digits (suc f) n out h = elim (Bool-cases (ltb n 10)) [
  | inl e ↦ ground (arith, e)
  | inr e ↦
      rw e (value_of-digits f (n / 10) ((b'0' + n % 10) ∷ out) (ground (arith, h)) ∙ ground arith)
]

digits-All_digits :
    (f n : ℕ) (out : Text)
    → All (λ c. is_digit c ≡ true) out
    → All (λ c. is_digit c ≡ true) (digits f n out)
unfolding digits
digits-All_digits zero n out h = h
digits-All_digits (suc f) n out h = elim (Bool-cases (ltb n 10)) [
  | inl e ↦ rw e (ground (arith, e), h)
  | inr e ↦ rw e (digits-All_digits f (n / 10) ((b'0' + n % 10) ∷ out) (ground arith, h))
]

digits-eq-cons : (f n c : ℕ) (out : Text) → (d : ℕ) × (s : Text) × (digits f n (c ∷ out) ≡ d ∷ s)
unfolding digits
digits-eq-cons zero n c out = (c, out, refl)
digits-eq-cons (suc f) n c out = elim (Bool-cases (ltb n 10)) [
  | inl e ↦ rw e (b'0' + n, c ∷ out, refl)
  | inr e ↦ rw e (digits-eq-cons f (n / 10) (b'0' + n % 10) (c ∷ out))
]

itoa_nat-eq-cons : (n : ℕ) → (d : ℕ) × (s : Text) × (itoa_nat n ≡ d ∷ s)
unfolding itoa_nat digits
itoa_nat-eq-cons n = elim (Bool-cases (ltb n 10)) [
  | inl e ↦ rw e (b'0' + n, [], refl)
  | inr e ↦ rw e (digits-eq-cons 19 (n / 10) (b'0' + n % 10) [])
]

digit_of_itoa_nat : (n d : ℕ) (s : Text) → itoa_nat n ≡ d ∷ s → is_digit d ≡ true
unfolding itoa_nat
digit_of_itoa_nat n d s e =
    let h : All (λ c. is_digit c ≡ true) (d ∷ s) =
      subst (All (λ c. is_digit c ≡ true)) e (digits-All_digits 20 n [] tt) in
    h.0

unsigned-itoa_nat : (n : ℕ) → n ≤ 9223372036854775807 → unsigned (itoa_nat n) ≡ some n
unfolding unsigned
unsigned-itoa_nat n h =
    let (d, s, e) = itoa_nat-eq-cons n in
    let v : value_of 0 (itoa_nat n) ≡ some n =
      unfold itoa_nat value_of in value_of-digits 20 n [] (omega arith) in
    rw e (rw e at v)

pub atoi-itoa_nat : (n : ℕ) → n ≤ 9223372036854775807 → atoi (itoa_nat n) ≡ some (ℤ.pos n)
unfolding atoi
atoi-itoa_nat n h =
    let (d, s, e) = itoa_nat-eq-cons n in
    let u : unsigned (d ∷ s) ≡ some n = rw e at (unsigned-itoa_nat n h) in
    let t : is_digit d ≡ true = digit_of_itoa_nat n d s e in rw e (ground (arith, u, t))

dash-none : (s : Text) → All (λ c. is_digit c ≡ true) s → at_last_dash s ≡ none
unfolding at_last_dash
dash-none [] h = refl
dash-none (c ∷ s) (p, h) = rw (dash-none s h) (ground (arith, p))

at_last_dash-append :
    (t s : Text) → All (λ c. is_digit c ≡ true) s → at_last_dash (t ++ b'-' ∷ s) ≡ some (t, s)
unfolding at_last_dash
at_last_dash-append [] s h = rw (dash-none s h) refl
at_last_dash-append (c ∷ t) s h = rw (at_last_dash-append t s h) refl

partition_name-prefix :
    (target : Text) (n : ℕ)
    → partition_name target n ≡ (config_map_base_name ++ codes "-") ++ (target ++ b'-' ∷ itoa_nat n)
unfolding partition_name
partition_name-prefix target n = simp (append_assoc) refl

-- The target and the index of a partition are read back from its name, for a target that is not
-- empty (with dashes or digits of its own, too) and an index that an int holds.
pub parse_partition_name-partition_name :
    (target : Text) (n : ℕ)
    → target ≢ []
    → n ≤ 9223372036854775807
    → parse_partition_name (partition_name target n) ≡ some (target, n)
unfolding parse_partition_name
parse_partition_name-partition_name [] n t h = absurd (t refl)
parse_partition_name-partition_name (c ∷ target) n t h =
    let (d, s, e) = itoa_nat-eq-cons n in
    let digits_only : All (λ k. is_digit k ≡ true) (itoa_nat n) =
      unfold itoa_nat in digits-All_digits 20 n [] tt in
    let a : atoi (d ∷ s) ≡ some (ℤ.pos n) = rw e at (atoi-itoa_nat n h) in
    rw (partition_name-prefix (c ∷ target) n)
      (rw (at_last_dash-append target (itoa_nat n) digits_only) (rw e (rw a refl)))

-- Two partitions have one name only if they have one target and one index.
pub partition_name-inj :
    (t u : Text) (m n : ℕ)
    → t ≢ []
    → u ≢ []
    → m ≤ 9223372036854775807
    → n ≤ 9223372036854775807
    → partition_name t m ≡ partition_name u n
    → (t ≡ u) × (m ≡ n)
partition_name-inj t u m n p q h k e =
    let same : some (t, m) ≡ some (u, n) =
      sym (parse_partition_name-partition_name t m p h)
      ∙ ap parse_partition_name e
      ∙ parse_partition_name-partition_name u n q k in
    (ap (λ (x : Text × ℕ). x.0) (some-inj same), ap (λ (x : Text × ℕ). x.1) (some-inj same))
