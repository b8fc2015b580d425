-- ===== src/ConfigMaps/Split/Sizes.antt =====
-- The sizes of the partitions: `partitionConfig` of internal/controller/customhttproute/sync.go, for
-- an encoder of JSON.
use mathlib.Core.List.Perm
use mathlib.Core.List.{Perm, foldr}
use customrouter.Base.{
  Option-cases, sym, none, ◌∙◌, lookup, insert, lookup, Table, if◌then◌else◌, some, arith, subst,
  ap, [], ◌∷◌, ◌||◌, ◌<◌, ◌≤◌, ◌+◌, ◌==◌, true, not, length, ◌≡◌, All, ◌&&◌, Text, Option, leb,
  Bool, List, suc, ℕ, inl, inr, refl,
}
use customrouter.Base.Results.{Result, bind-eq-ok, ok-inj}
use customrouter.ConfigMaps.Split.{
  config_of, max_config_map_size, ConfigMapPartition, Route, RoutesConfig,
}
use customrouter.ConfigMaps.Buckets.Sized.{select-Sized, route_sizes_lem, size_of, marshalled}
use customrouter.ConfigMaps.Buckets.Content.{attempts_lem, routes_at}
use customrouter.ConfigMaps.Buckets.{
  route_bucket, attempts, usable_size, total_size, min_buckets, stable_bucket_count, route_sizes,
  split_host_routes, emit_buckets, base_size, sort_routes_by_identity, Bucket, sort_buckets,
}
use customrouter.ConfigMaps.Buckets.Joined.{sort_bucket-perm, bucket_routes}
use customrouter.ConfigMaps.{not_serialized, to_json, strip_newline}

-- The bytes that stand for themselves in a JSON string.
abbrev pub is_plain : ℕ → Bool
is_plain c =
    leb 32 c && leb c 126 && not (c == b'"' || c == b'\\' || c == b'<' || c == b'>' || c == b'&')

-- What the sizes rely on: a host of its own that has routes takes at most the bytes around it and
-- those of its routes with a comma each (one without may be encoded as `null`, for a nil slice), and
-- one more host in a table at most the bytes of a table of its own.
pub record IsJson (encode : RoutesConfig → Option Text) (marshal : Route → Option Text)
    : Type 0 where
  pub single :
      (host : Text) (r : Route) (rs : List Route) (b : Text)
      → All (λ c. is_plain c ≡ true) host
      → encode (config_of 1 ((host, r ∷ rs) ∷ [])) ≡ some b
      → length (strip_newline b) ≤ base_size host + marshalled marshal (r ∷ rs)
  pub merged :
      (host : Text) (rs : List Route) (hosts : Table (List Route)) (b c : Text)
      → lookup host hosts ≡ none
      → encode (config_of 1 ((host, rs) ∷ [])) ≡ some b
      → encode (config_of 1 (insert host rs hosts)) ≡ some c
      → (a : Text) × (encode (config_of 1 hosts) ≡ some a)
        × (length (strip_newline c) ≤ length (strip_newline a) + length (strip_newline b))

abbrev pub Fits : List ConfigMapPartition → Type 0
Fits = All (λ (p : ConfigMapPartition). length p.content ≤ max_config_map_size)

module _ (marshal : Route → Option Text) where
  marshalled-foldr :
      (rs : List Route)
      → marshalled marshal rs ≡ foldr (λ (r : Route) (n : ℕ). size_of (marshal r) + n) 0 rs
  unfolding marshalled
  marshalled-foldr [] = refl
  marshalled-foldr (r ∷ rs) = ap (λ n. size_of (marshal r) + n) (marshalled-foldr rs)

  marshalled-perm :
      (rs ss : List Route) → Perm rs ss → marshalled marshal rs ≡ marshalled marshal ss
  marshalled-perm rs ss p =
      marshalled-foldr rs
      ∙ Perm.foldr-eq (hlevel) (λ (r : Route) (n : ℕ). size_of (marshal r) + n)
          (λ a b n. omega arith) p 0
      ∙ sym (marshalled-foldr ss)

  -- The buckets of a host fit.
  abbrev BucketsFit : ℕ → List (List Route) → Type 0
  BucketsFit base = All (λ (rs : List Route). marshalled marshal rs + base ≤ max_config_map_size)

  BucketsFit-bucket_routes :
      (base : ℕ) (bs : List Bucket)
      → ((i : ℕ) → i < length bs → marshalled marshal (routes_at i bs) + base ≤ max_config_map_size)
      → BucketsFit base (bucket_routes bs)
  unfolding routes_at
  BucketsFit-bucket_routes base [] h = tt
  BucketsFit-bucket_routes base (b ∷ bs) h =
      (h 0 (omega arith), BucketsFit-bucket_routes base bs (λ i l. h (suc i) (omega (arith, l))))

  sort_buckets-BucketsFit :
      (base : ℕ) (bs : List Bucket) (sorted : List (List Route))
      → BucketsFit base (bucket_routes bs)
      → sort_buckets marshal bs ≡ Result.ok sorted
      → BucketsFit base sorted
  unfolding sort_buckets
  sort_buckets-BucketsFit base [] sorted fit h = subst (BucketsFit base) (ok-inj h) tt
  sort_buckets-BucketsFit base (b ∷ bs) sorted (one, fit) h =
      let (routes, e, h1) =
        bind-eq-ok
          (if leb (length b.routes) 1
            then Result.ok b.routes
            else sort_routes_by_identity marshal b.routes)
          _ h in
      let (rest, e2, h2) = bind-eq-ok (sort_buckets marshal bs) _ h1 in
      let same = marshalled-perm routes b.routes (sort_bucket-perm marshal b.routes e) in
      subst (BucketsFit base) (ok-inj h2)
        (omega (arith, one, same), sort_buckets-BucketsFit base bs rest fit e2)

module _ (encode : RoutesConfig → Option Text) (marshal : Route → Option Text)
    (json : IsJson encode marshal) where
  pub to_json-eq-ok :
      (rc : RoutesConfig) (content : Text)
      → to_json encode rc ≡ Result.ok content
      → (text : Text) × (encode rc ≡ some text) × (strip_newline text ≡ content)
  unfolding to_json
  to_json-eq-ok rc content h = elim (Option-cases (encode rc)) [
    | inl e ↦ absurd (let no : Result.error not_serialized ≡ Result.ok content = rw e at h in cc)
    | inr (text, e) ↦ (text, e, ok-inj (rw e at h))
  ]

  module _ (target host : Text) (plain : All (λ c. is_plain c ≡ true) host) where
    emit_buckets-Fits :
        (i : ℕ) (bs : List (List Route)) (ps : List ConfigMapPartition)
        → BucketsFit marshal (base_size host) bs
        → emit_buckets encode marshal target host i bs ≡ Result.ok ps
        → Fits ps
    unfolding emit_buckets
    emit_buckets-Fits i [] ps fit h = subst Fits (ok-inj h) tt
    emit_buckets-Fits i ([] ∷ bs) ps (_, fit) h = emit_buckets-Fits (i + 1) bs ps fit h
    emit_buckets-Fits i ((r ∷ rs) ∷ bs) ps (one, fit) h =
        let (content, e, h1) =
          bind-eq-ok (to_json encode (config_of 1 ((host, r ∷ rs) ∷ []))) _ h in
        let (rest, e2, h2) = bind-eq-ok (emit_buckets encode marshal target host (i + 1) bs) _ h1 in
        let (text, t, same) = to_json-eq-ok (config_of 1 ((host, r ∷ rs) ∷ [])) content e in
        let small = json.single host r rs text plain t in
        subst Fits (ok-inj h2)
          (omega (arith, one, small, ap length same), emit_buckets-Fits (i + 1) bs rest fit e2)

    pub split_host_routes-Fits :
        (rs : List Route) (start : ℕ) (out : List ConfigMapPartition × ℕ)
        → split_host_routes encode marshal target host rs start ≡ Result.ok out
        → Fits out.0
    unfolding split_host_routes
    split_host_routes-Fits [] start out h =
        subst (λ (o : List ConfigMapPartition × ℕ). Fits o.0) (ok-inj h) tt
    split_host_routes-Fits (r ∷ rs) start out h =
        let base = base_size host in
        let (sized, e, h1) = bind-eq-ok (route_sizes marshal base 0 (r ∷ rs)) _ h in
        let count = stable_bucket_count (min_buckets (total_size sized) (usable_size base)) in
        let ((buckets, used), e1, h2) = bind-eq-ok (attempts host base 4 count sized) _ h1 in
        let (sorted, e2, h3) = bind-eq-ok (sort_buckets marshal buckets) _ h2 in
        let (ps, e3, h4) = bind-eq-ok (emit_buckets encode marshal target host start sorted) _ h3 in
        let (same, sizes, fits) = route_sizes_lem marshal base 0 (r ∷ rs) sized e in
        let (_, _, (len, each)) =
          attempts_lem host base sized 4 count (buckets, used) (fits (λ n. cc)) e1 in
        let fit : BucketsFit marshal base (bucket_routes buckets) =
          BucketsFit-bucket_routes marshal base buckets (λ i l.
            let (here, _, room) = each i (subst (λ n. i < n) len l) in
            let bytes =
              select-Sized marshal (λ (x : Route). i == route_bucket host x used) sized sizes in
            rw (here) (omega (arith, room, bytes))) in
        subst (λ (o : List ConfigMapPartition × ℕ). Fits o.0) (ok-inj h4)
          (emit_buckets-Fits start sorted ps
            (sort_buckets-BucketsFit marshal base buckets sorted fit e2) e3)
