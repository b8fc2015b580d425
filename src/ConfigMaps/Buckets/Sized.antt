-- ===== src/ConfigMaps/Buckets/Sized.antt =====
-- The sizes of the routes of a host and the number of buckets they need: `splitHostRoutes` of
-- internal/controller/customhttproute/sync.go.
use native.Mathlib.Nat.{mul-le-mul, le_refl, div-le_self, pow-le-pow_right}
use customrouter.Base.{
  Option-cases, false, ◌↔◌, true, ◌-◌, leb, ltb→lt, arith, arith, ◌∙◌, sym, ap, inr, ltb, inl, none,
  ◌*◌, if◌then◌else◌, ◌≤◌, Bool-cases, refl, [], ap₂, Bool, ◌+◌, ◌≢◌, All, select, subst, length,
  ◌∷◌, some, List, ◌≡◌, Text, Option, ◌<◌, ℕ,
}
use customrouter.Base.Results.{◌>>=◌, Result, bind-eq-ok, ok-inj, or_error, or_error-eq-ok}
use customrouter.ConfigMaps.Buckets.{
  route_too_large, max_config_map_size, ◌^◌, not_serialized, usable_size, min_buckets,
  stable_bucket_count, total_size, Route, route_sizes,
}
use customrouter.ConfigMaps.Buckets.Content.{unsized}
use customrouter.ConfigMaps.Buckets.Count.{stable_bucket_count_lem}

abbrev pub size_of : Option Text → ℕ
size_of none = 0
size_of (some text) = length text + 1

module _ (marshal : Route → Option Text) where
  -- The bytes of a host's routes, a comma behind each.
  unfoldable pub marshalled : List Route → ℕ
  marshalled [] = 0
  marshalled (r ∷ rs) = size_of (marshal r) + marshalled rs

  abbrev pub Sized : List (Route × ℕ) → Type 0
  Sized = All (λ (p : Route × ℕ). p.1 ≡ size_of (marshal p.0))

  pub select-Sized :
      (p : Route → Bool) (rs : List (Route × ℕ))
      → Sized rs
      → total_size (select (λ (q : Route × ℕ). p q.0) rs) ≡ marshalled (select p (unsized rs))
  unfolding total_size select unsized marshalled
  select-Sized p [] h = refl
  select-Sized p ((r, size) ∷ rs) (e, h) = elim (Bool-cases (p r)) [
    | inl t ↦ rw t (ap₂ ◌+◌ e (select-Sized p rs h))
    | inr t ↦ rw t (select-Sized p rs h)
  ]

  pub total_size-Sized :
      (rs : List (Route × ℕ)) → Sized rs → total_size rs ≡ marshalled (unsized rs)
  unfolding total_size unsized marshalled
  total_size-Sized [] h = refl
  total_size-Sized ((r, size) ∷ rs) (e, h) = ap₂ ◌+◌ e (total_size-Sized rs h)

  abbrev Measured : ℕ → List Route → List (Route × ℕ) → Type 0
  Measured base rs sized =
      (unsized sized ≡ rs) × Sized sized × (rs ≢ [] → base ≤ max_config_map_size)

  pub route_sizes_lem :
      (base i : ℕ) (rs : List Route) (sized : List (Route × ℕ))
      → route_sizes marshal base i rs ≡ Result.ok sized
      → Measured base rs sized
  unfolding route_sizes unsized
  route_sizes_lem base i [] sized h =
      subst (Measured base []) (ok-inj h) (refl, tt, λ n. absurd (n refl))
  route_sizes_lem base i (r ∷ rs) sized h =
      let (text, e, h1) = bind-eq-ok (or_error (marshal r) not_serialized) _ h in
      let (size, e1, h2) =
        bind-eq-ok
          (if ltb max_config_map_size (length text + 1 + base)
            then Result.error (route_too_large i)
            else Result.ok (length text + 1))
          _ h1 in
      let (rest, e2, h3) = bind-eq-ok (route_sizes marshal base (i + 1) rs) _ h2 in
      let (same, sizes, _) = route_sizes_lem base (i + 1) rs rest e2 in
      let m : marshal r ≡ some text = or_error-eq-ok (marshal r) not_serialized e in
      elim (Bool-cases (ltb max_config_map_size (length text + 1 + base))) [
        | inl t ↦
            absurd (let no : Result.error (route_too_large i) ≡ Result.ok size = rw t at e1 in cc)
        | inr t ↦
            let s : length text + 1 ≡ size = ok-inj (rw t at e1) in
            subst (Measured base (r ∷ rs)) (ok-inj h3)
              (ap (◌∷◌ r) same, (sym s ∙ ap size_of (sym m), sizes), λ _. ground (arith, t))
      ]

min_buckets-lt :
    (base total : ℕ) → total < 67108864 → min_buckets total (usable_size base) < 134217728
min_buckets-lt base total small = elim (Bool-cases (ltb (usable_size base) total)) [
  | inl e ↦ rw e (
      omega (
        arith,
        ltb→lt (usable_size base) total e,
        div-le_self (total + usable_size base - 1) (usable_size base),
      ))
  | inr e ↦ rw e (omega arith)
]

stable_bucket_count-bounds :
    (min : ℕ)
    → min < 134217728
    → (0 < stable_bucket_count min) × (stable_bucket_count min < 536870912)
stable_bucket_count-bounds min h = elim (Bool-cases (leb min 1)) [
  | inl e ↦
      let one : stable_bucket_count min ≡ 1 = unfold stable_bucket_count in rw e refl in
      (omega (arith, one), omega (arith, one))
  | inr e ↦
      let (_, low, high) = stable_bucket_count_lem min (ground (arith, e)) (omega (arith, h)) in
      (ground (arith, low, e), omega (arith, high, h))
]

-- The buckets of less than 64 MiB of routes can be counted by a `uint32`, doubled three times.
pub bucket_count_lem :
    (base total k count : ℕ)
    → total < 67108864
    → k < 4
    → count ≡ stable_bucket_count (min_buckets total (usable_size base)) * 2 ^ k
    → (0 < count) × (count < 2 ^ 32)
bucket_count_lem base total k count small l e =
    let n = stable_bucket_count (min_buckets total (usable_size base)) in
    let (low, high) =
      stable_bucket_count-bounds (min_buckets total (usable_size base))
        (min_buckets-lt base total small) in
    let most : 2 ^ k ≤ 8 =
      pow-le-pow_right {n = 2} (omega arith) {i = k} {j = 3} (omega (arith, l)) in
    let least : 1 ≤ 2 ^ k = pow-le-pow_right {n = 2} (omega arith) {i = 0} {j = k} (omega arith) in
    (
      subst (λ x. 0 < x) (sym e) (mul-le-mul low least),
      subst (λ x. x < 2 ^ 32) (sym e) (omega (arith, high, (mul-le-mul (le_refl n) most))),
    )

-- A route that fits in a partition of its own.
abbrev pub FitsAlone : ℕ → Option Text → Type 0
FitsAlone base none = ⊥
FitsAlone base (some text) = length text + 1 + base ≤ max_config_map_size

abbrev pub is_ok {ℓ κ} : {E : Type ℓ} {A : Type κ} → Result E A → Bool
is_ok (Result.ok a) = true
is_ok (Result.error e) = false

is_ok-bind {ℓ κ} :
    {E : Type ℓ} {A B : Type κ} (m : Result E A) (f : A → B)
    → is_ok (m >>= λ a. Result.ok (f a)) ≡ is_ok m
is_ok-bind (Result.ok a) f = refl
is_ok-bind (Result.error e) f = refl

-- The routes of a host are measured exactly when each is serialized and fits in a partition of its
-- own with its host; otherwise the host is refused.
pub route_sizes-ok_iff :
    (marshal : Route → Option Text) (base i : ℕ) (rs : List Route)
    → (is_ok (route_sizes marshal base i rs) ≡ true)
      ↔ All (λ (r : Route). FitsAlone base (marshal r)) rs
unfolding route_sizes
route_sizes-ok_iff marshal base i [] = (λ _. tt, λ _. refl)
route_sizes-ok_iff marshal base i (r ∷ rs) =
    let ih = route_sizes-ok_iff marshal base (i + 1) rs in
    elim (Option-cases (marshal r)) [
      | inl e ↦ rw e (λ h. cc, λ (none_fits, _). elim none_fits [ ])
      | inr (text, e) ↦ elim (Bool-cases (ltb max_config_map_size (length text + 1 + base))) [
        | inl big ↦ rw (e, big) (λ h. cc, λ (fits, _). absurd (ground (arith, big, fits)))
        | inr small ↦
            rw
              (
                e,
                small,
                is_ok-bind (route_sizes marshal base (i + 1) rs)
                    (λ rest. (r, length text + 1) ∷ rest),
              )
              (λ h. (ground (arith, small), ih.0 h), λ (_, rest). ih.1 rest)
      ]
    ]
