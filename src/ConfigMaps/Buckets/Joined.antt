-- ===== src/ConfigMaps/Buckets/Joined.antt =====
-- The buckets hold the routes, sorted or not: `splitHostRoutes` of
-- internal/controller/customhttproute/sync.go.
use mathlib.Core.List.Perm
use customrouter.Base.Results.{bind-eq-ok, or_error, ok-inj}
use native.Mathlib.Nat.{mod-eq_of_lt, mod-lt}
use mathlib.Core.List.{perm_middle, Perm}
use customrouter.Base.{
  append-nil, false, inr, inl, Bool-cases, leb, if◌then◌else◌, subst, ◌∙◌, refl, append_assoc, sym,
  arith, zero, suc, ap, length, ◌++◌, ◌<◌, map, [], ◌≡◌, ◌∷◌, Option, Text, List, ℕ,
}
use customrouter.Base.Sorting.{sort_stable, sort_stable-perm}
use customrouter.ConfigMaps.Buckets.{
  assign, not_serialized, route_hash, with_keys, identity_less, ◌^◌, Assignment, Result, Bucket,
  assign_route, Route, assign_from, sort_buckets, with_keys, route_bucket, empty_buckets,
  sort_routes_by_identity, put_at,
}
use customrouter.ConfigMaps.Buckets.Content.{empty_buckets_lem, length-put_at, unsized}
use customrouter.Base.Results.{ok-inj}

-- The routes of all buckets.
abbrev pub joined : List (List Route) → List Route
joined [] = []
joined (rs ∷ rss) = rs ++ joined rss

abbrev pub bucket_routes : List Bucket → List (List Route)
bucket_routes = map (λ (b : Bucket). b.routes)

put_at-joined :
    (i : ℕ) (r : Route) (size : ℕ) (bs : List Bucket)
    → i < length bs
    → Perm (joined (bucket_routes (put_at i r size bs))) (r ∷ joined (bucket_routes bs))
unfolding put_at
put_at-joined i r size [] h = absurd (omega (arith, h))
put_at-joined zero r size (b ∷ bs) h =
    rw (append_assoc b.routes (r ∷ []) (joined (bucket_routes bs)))
      (perm_middle b.routes (joined (bucket_routes bs)))
put_at-joined (suc i) r size (b ∷ bs) h =
    Perm.trans (Perm.append_left b.routes (put_at-joined i r size bs (omega (arith, h))))
      (perm_middle b.routes (joined (bucket_routes bs)))

empty_buckets-joined : (n : ℕ) → joined (bucket_routes (empty_buckets n)) ≡ []
unfolding empty_buckets
empty_buckets-joined zero = refl
empty_buckets-joined (suc n) = empty_buckets-joined n

route_bucket-lt :
    (host : Text) (r : Route) (count : ℕ)
    → 0 < count
    → count < 2 ^ 32
    → route_bucket host r count < count
unfolding route_bucket
route_bucket-lt host r count p h = rw (mod-eq_of_lt h) (mod-lt (route_hash host r) p)

assign_from-joined :
    (host : Text) (base count : ℕ) (rs : List (Route × ℕ)) (a : Assignment)
    → 0 < count
    → count < 2 ^ 32
    → length a.buckets ≡ count
    → Perm
        (joined (bucket_routes (assign_from host base count rs a).buckets))
        (unsized rs ++ joined (bucket_routes a.buckets))
unfolding assign_from assign_route unsized
assign_from-joined host base count [] a p h l = Perm.rfl
assign_from-joined host base count ((r, size) ∷ rs) a p h l =
    let i = route_bucket host r count in
    Perm.trans
      (assign_from-joined host base count rs (assign_route host base count (r, size) a) p h
        (length-put_at i r size a.buckets ∙ l))
      (Perm.trans
        (Perm.append_left (unsized rs) (
          put_at-joined i r size a.buckets
            (subst (λ n. i < n) (sym l) (route_bucket-lt host r count p h))))
        (perm_middle (unsized rs) (joined (bucket_routes a.buckets))))

-- An attempt drops no route, adds none and puts none twice.
pub assign-joined :
    (host : Text) (base count : ℕ) (rs : List (Route × ℕ))
    → 0 < count
    → count < 2 ^ 32
    → Perm (joined (bucket_routes (assign host base count rs).buckets)) (unsized rs)
unfolding assign
assign-joined host base count rs p h =
    let start : Assignment = record { buckets = empty_buckets count; overflow = false } in
    let all = assign_from-joined host base count rs start p h (empty_buckets_lem count 0).0 in
    rw (empty_buckets-joined count, append-nil) at all

with_keys-routes :
    (marshal : Route → Option Text) (rs : List Route) {keyed : List (Route × Text)}
    → with_keys marshal rs ≡ Result.ok keyed
    → map (λ (p : Route × Text). p.0) keyed ≡ rs
unfolding with_keys
with_keys-routes marshal [] h = ap (map (λ (p : Route × Text). p.0)) (sym (ok-inj h))
with_keys-routes marshal (r ∷ rs) h =
    let (key, _, h1) = bind-eq-ok (or_error (marshal r) not_serialized) _ h in
    let (rest, e, h2) = bind-eq-ok (with_keys marshal rs) _ h1 in
    ap (map (λ (p : Route × Text). p.0)) (sym (ok-inj h2))
    ∙ ap (◌∷◌ r) (with_keys-routes marshal rs e)

sort_routes_by_identity-perm :
    (marshal : Route → Option Text) (rs : List Route) {sorted : List Route}
    → sort_routes_by_identity marshal rs ≡ Result.ok sorted
    → Perm sorted rs
unfolding sort_routes_by_identity
sort_routes_by_identity-perm marshal rs {sorted} h =
    let (keyed, e, h1) = bind-eq-ok (with_keys marshal rs) _ h in
    subst (λ xs. Perm xs rs) (ok-inj h1)
      (subst (Perm (map (λ (p : Route × Text). p.0) (sort_stable identity_less keyed)))
        (with_keys-routes marshal rs e)
        (Perm.map (λ (p : Route × Text). p.0) (sort_stable-perm identity_less keyed)))

pub sort_bucket-perm :
    (marshal : Route → Option Text) (rs : List Route) {sorted : List Route}
    → (if leb (length rs) 1 then Result.ok rs else sort_routes_by_identity marshal rs)
      ≡ Result.ok sorted
    → Perm sorted rs
sort_bucket-perm marshal rs {sorted} h = elim (Bool-cases (leb (length rs) 1)) [
  | inl e ↦ subst (λ xs. Perm xs rs) (ok-inj (rw e at h)) Perm.rfl
  | inr e ↦ sort_routes_by_identity-perm marshal rs (rw e at h)
]

pub sort_buckets-joined :
    (marshal : Route → Option Text) (bs : List Bucket) (sorted : List (List Route))
    → sort_buckets marshal bs ≡ Result.ok sorted
    → (length sorted ≡ length bs) × Perm (joined sorted) (joined (bucket_routes bs))
unfolding sort_buckets
sort_buckets-joined marshal [] sorted h =
    subst (λ xs. (length xs ≡ 0) × Perm (joined xs) []) (ok-inj h) (refl, Perm.rfl)
sort_buckets-joined marshal (b ∷ bs) sorted h =
    let (routes, e, h1) =
      bind-eq-ok
        (if leb (length b.routes) 1
          then Result.ok b.routes
          else sort_routes_by_identity marshal b.routes)
        _ h in
    let (rest, e2, h2) = bind-eq-ok (sort_buckets marshal bs) _ h1 in
    let (l, p) = sort_buckets-joined marshal bs rest e2 in
    subst
      (λ xs.
        (length xs ≡ suc (length bs)) × Perm (joined xs) (b.routes ++ joined (bucket_routes bs)))
      (ok-inj h2) (ap suc l, Perm.append (sort_bucket-perm marshal b.routes e) p)
