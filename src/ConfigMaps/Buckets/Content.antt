-- ===== src/ConfigMaps/Buckets/Content.antt =====
-- What the buckets of a host hold: the assignment of the routes in `splitHostRoutes` of
-- internal/controller/customhttproute/sync.go.
use customrouter.Base.{
  ◌*◌, if◌then◌else◌, inr, append_assoc, inl, Bool-cases, subst, append-nil, arith, sym, ◌≤◌, ap,
  ◌++◌, zero, ◌+◌, refl, [], false, select, suc, ◌∙◌, ◌∷◌, ◌≡◌, ◌==◌, ◌<◌, Bool, length, Text, List,
  ℕ,
}
use customrouter.ConfigMaps.Buckets.{
  ◌^◌, Result, attempts, assign, max_config_map_size, total_size, route_bucket, Assignment,
  assign_route, Bucket, assign_from, Route, empty_buckets, put_at, bytes_at,
}
use customrouter.ConfigMaps.Buckets.Count.{double-pow}
use customrouter.Base.Results.{ok-inj}

-- The routes of bucket `i`, of none past the last.
unfoldable pub routes_at : ℕ → List Bucket → List Route
routes_at i [] = []
routes_at zero (b ∷ bs) = b.routes
routes_at (suc i) (b ∷ bs) = routes_at i bs

-- The routes, without their sizes.
unfoldable pub unsized : List (Route × ℕ) → List Route
unsized [] = []
unsized ((r, size) ∷ rs) = r ∷ unsized rs

pub length-put_at :
    (i : ℕ) (r : Route) (size : ℕ) (bs : List Bucket) → length (put_at i r size bs) ≡ length bs
unfolding put_at
length-put_at i r size [] = refl
length-put_at zero r size (b ∷ bs) = refl
length-put_at (suc i) r size (b ∷ bs) = ap suc (length-put_at i r size bs)

routes_at-put_at :
    (i j : ℕ) (r : Route) (size : ℕ) (bs : List Bucket)
    → i < length bs
    → routes_at i (put_at j r size bs)
      ≡ (if i == j then routes_at i bs ++ r ∷ [] else routes_at i bs)
unfolding put_at routes_at
routes_at-put_at i j r size [] h = absurd (omega (arith, h))
routes_at-put_at zero zero r size (b ∷ bs) h = refl
routes_at-put_at zero (suc j) r size (b ∷ bs) h = ground arith
routes_at-put_at (suc i) zero r size (b ∷ bs) h = ground arith
routes_at-put_at (suc i) (suc j) r size (b ∷ bs) h =
    routes_at-put_at i j r size bs (omega (arith, h)) ∙ ground arith

bytes_at-put_at :
    (i j : ℕ) (r : Route) (size : ℕ) (bs : List Bucket)
    → i < length bs
    → bytes_at i (put_at j r size bs) ≡ (if i == j then bytes_at i bs + size else bytes_at i bs)
unfolding put_at bytes_at
bytes_at-put_at i j r size [] h = absurd (omega (arith, h))
bytes_at-put_at zero zero r size (b ∷ bs) h = refl
bytes_at-put_at zero (suc j) r size (b ∷ bs) h = ground arith
bytes_at-put_at (suc i) zero r size (b ∷ bs) h = ground arith
bytes_at-put_at (suc i) (suc j) r size (b ∷ bs) h =
    bytes_at-put_at i j r size bs (omega (arith, h)) ∙ ground arith

pub empty_buckets_lem :
    (n i : ℕ)
    → (length (empty_buckets n) ≡ n)
      × (routes_at i (empty_buckets n) ≡ [])
      × (bytes_at i (empty_buckets n) ≡ 0)
unfolding empty_buckets routes_at bytes_at
empty_buckets_lem zero i = (refl, refl, refl)
empty_buckets_lem (suc n) zero = (ap suc (empty_buckets_lem n zero).0, refl, refl)
empty_buckets_lem (suc n) (suc i) = let (l, r, b) = empty_buckets_lem n i in (ap suc l, r, b)

module _ (host : Text) (base count : ℕ) where
  abbrev in_bucket : ℕ → Route → Bool
  in_bucket i r = i == route_bucket host r count

  abbrev sized_in_bucket : ℕ → Route × ℕ → Bool
  sized_in_bucket i (r, size) = in_bucket i r

  length-assign_from :
      (rs : List (Route × ℕ)) (a : Assignment)
      → length (assign_from host base count rs a).buckets ≡ length a.buckets
  unfolding assign_from assign_route
  length-assign_from [] a = refl
  length-assign_from ((r, size) ∷ rs) a =
      length-assign_from rs (assign_route host base count (r, size) a)
      ∙ length-put_at (route_bucket host r count) r size a.buckets

  -- Each bucket receives the routes that hash to it, in their order.
  routes_at-assign_from :
      (i : ℕ) (rs : List (Route × ℕ)) (a : Assignment)
      → i < length a.buckets
      → routes_at i (assign_from host base count rs a).buckets
        ≡ routes_at i a.buckets ++ select (in_bucket i) (unsized rs)
  unfolding assign_from assign_route select unsized
  routes_at-assign_from i [] a h = sym (append-nil (routes_at i a.buckets))
  routes_at-assign_from i ((r, size) ∷ rs) a h =
      let j = route_bucket host r count in
      let next = put_at j r size a.buckets in
      let ih =
        routes_at-assign_from i rs (assign_route host base count (r, size) a)
          (subst (λ n. i < n) (sym (length-put_at j r size a.buckets)) h) in
      ih ∙ elim (Bool-cases (in_bucket i r)) [
        | inl e ↦
            rw (routes_at-put_at i j r size a.buckets h, e)
              (append_assoc (routes_at i a.buckets) (r ∷ []) (select (in_bucket i) (unsized rs)))
        | inr e ↦ rw (routes_at-put_at i j r size a.buckets h, e) refl
      ]

  -- Each bucket counts the bytes of those routes.
  bytes_at-assign_from :
      (i : ℕ) (rs : List (Route × ℕ)) (a : Assignment)
      → i < length a.buckets
      → bytes_at i (assign_from host base count rs a).buckets
        ≡ bytes_at i a.buckets + total_size (select (sized_in_bucket i) rs)
  unfolding assign_from assign_route select total_size
  bytes_at-assign_from i [] a h = omega arith
  bytes_at-assign_from i ((r, size) ∷ rs) a h =
      let j = route_bucket host r count in
      let ih =
        bytes_at-assign_from i rs (assign_route host base count (r, size) a)
          (subst (λ n. i < n) (sym (length-put_at j r size a.buckets)) h) in
      ih ∙ elim (Bool-cases (in_bucket i r)) [
        | inl e ↦ rw (bytes_at-put_at i j r size a.buckets h, e) (omega arith)
        | inr e ↦ rw (bytes_at-put_at i j r size a.buckets h, e) refl
      ]

  overflow-assign_from :
      (rs : List (Route × ℕ)) (a : Assignment)
      → (assign_from host base count rs a).overflow ≡ false
      → a.overflow ≡ false
  unfolding assign_from assign_route
  overflow-assign_from [] a e = e
  overflow-assign_from ((r, size) ∷ rs) a e =
      let next : (assign_route host base count (r, size) a).overflow ≡ false =
        overflow-assign_from rs (assign_route host base count (r, size) a) e in
      ground (arith, next)

  -- With no overflow every bucket fits, if it did before.
  fits-assign_route :
      (r : Route) (size : ℕ) (a : Assignment) (i : ℕ)
      → (assign_route host base count (r, size) a).overflow ≡ false
      → i < length a.buckets
      → bytes_at i a.buckets + base ≤ max_config_map_size
      → bytes_at i (assign_route host base count (r, size) a).buckets + base ≤ max_config_map_size
  unfolding assign_route
  fits-assign_route r size a i e l h =
      let j = route_bucket host r count in
      elim (Bool-cases (i == j)) [
        | inl same ↦ let eq : i ≡ j = ground (arith, same) in rw eq (ground (arith, e))
        | inr other ↦ rw (bytes_at-put_at i j r size a.buckets l, other) h
      ]

  fits-assign_from :
      (i : ℕ) (rs : List (Route × ℕ)) (a : Assignment)
      → (assign_from host base count rs a).overflow ≡ false
      → i < length a.buckets
      → bytes_at i a.buckets + base ≤ max_config_map_size
      → bytes_at i (assign_from host base count rs a).buckets + base ≤ max_config_map_size
  unfolding assign_from
  fits-assign_from i [] a e l h = h
  fits-assign_from i ((r, size) ∷ rs) a e l h =
      let next = assign_route host base count (r, size) a in
      fits-assign_from i rs next e
        (subst (λ n. i < n) (sym (length-assign_from ((r, size) ∷ []) a)) l)
        (fits-assign_route r size a i (overflow-assign_from rs next e) l h)

  pub routes_at-assign :
      (i : ℕ) (rs : List (Route × ℕ))
      → i < count
      → routes_at i (assign host base count rs).buckets ≡ select (in_bucket i) (unsized rs)
  unfolding assign
  routes_at-assign i rs l =
      let (len, none_yet, _) = empty_buckets_lem count i in
      routes_at-assign_from i rs (record { buckets = empty_buckets count; overflow = false })
        (subst (λ n. i < n) (sym len) l)
      ∙ ap (λ xs. xs ++ select (in_bucket i) (unsized rs)) none_yet

  -- What an attempt without overflow gives.
  abbrev pub Assigned : List (Route × ℕ) → List Bucket → Type 0
  Assigned rs buckets =
      (length buckets ≡ count)
      × ((i : ℕ)
          → i < count
          → (routes_at i buckets ≡ select (in_bucket i) (unsized rs))
            × (bytes_at i buckets ≡ total_size (select (sized_in_bucket i) rs))
            × (total_size (select (sized_in_bucket i) rs) + base ≤ max_config_map_size))

  assign-Assigned :
      (rs : List (Route × ℕ))
      → base ≤ max_config_map_size
      → (assign host base count rs).overflow ≡ false
      → Assigned rs (assign host base count rs).buckets
  unfolding assign
  assign-Assigned rs h e =
      let start : Assignment = record { buckets = empty_buckets count; overflow = false } in
      let len : length (empty_buckets count) ≡ count = (empty_buckets_lem count 0).0 in
      (
        length-assign_from rs start ∙ len,
        λ i l.
            let (_, _, zero_yet) = empty_buckets_lem count i in
            let inside : i < length (empty_buckets count) = subst (λ n. i < n) (sym len) l in
            let bytes = bytes_at-assign_from i rs start inside in
            let fits = fits-assign_from i rs start e inside (omega (arith, zero_yet, h)) in
            (
              routes_at-assign i rs l,
              omega (arith, bytes, zero_yet),
              omega (arith, bytes, zero_yet, fits),
            ),
      )

-- The attempts that succeed, do with the first count, doubled fewer times than there are attempts.
module _ (host : Text) (base : ℕ) (rs : List (Route × ℕ)) where
  abbrev Succeeded : ℕ → ℕ → List Bucket × ℕ → Type 0
  Succeeded n count (buckets, used) =
      ((k : ℕ) × (k < n) × (used ≡ count * 2 ^ k))
      × (buckets ≡ (assign host base used rs).buckets)
      × Assigned host base used rs buckets

  at_once :
      (n count : ℕ)
      → base ≤ max_config_map_size
      → (assign host base count rs).overflow ≡ false
      → Succeeded (suc n) count ((assign host base count rs).buckets, count)
  at_once n count h e =
      ((0, omega arith, omega arith), refl, assign-Assigned host base count rs h e)

  pub attempts_lem :
      (n count : ℕ) (out : List Bucket × ℕ)
      → base ≤ max_config_map_size
      → attempts host base n count rs ≡ Result.ok out
      → Succeeded n count out
  unfolding attempts
  attempts_lem zero count out h e = cc
  attempts_lem (suc zero) count out h e = elim (Bool-cases (assign host base count rs).overflow) [
    | inl o ↦ absurd (cc)
    | inr o ↦ subst (Succeeded 1 count) (ok-inj (rw o at e)) (at_once 0 count h o)
  ]
  attempts_lem (suc (suc n)) count out h e =
      elim (Bool-cases (assign host base count rs).overflow) [
        | inl o ↦
            let ((k, l, same), made, assigned) =
              attempts_lem (suc n) (count * 2) out h (rw o at e) in
            ((suc k, omega (arith, l), same ∙ double-pow count k), made, assigned)
        | inr o ↦
            subst (Succeeded (suc (suc n)) count) (ok-inj (rw o at e)) (at_once (suc n) count h o)
      ]
