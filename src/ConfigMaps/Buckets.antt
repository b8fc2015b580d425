-- ===== src/ConfigMaps/Buckets.antt =====
-- One host whose routes do not fit in a ConfigMap: `splitHostRoutes`, `stableBucketCount`,
-- `routeBucket` and `sortRoutesByIdentity` of internal/controller/customhttproute/sync.go.
pub mod Count
pub mod Content
pub mod Stable
pub mod Joined
pub mod Sized
pub mod Emit
use Prim.Native.Nat.{◌^◌, bit_xor, ◌/◌, ◌%◌}
use customrouter.Base.{
  ℕ, zero, suc, ◌+◌, ◌-◌, ◌*◌, ◌≤◌, ◌<◌, Text, codes, text_eq, text_eq_iff, text_eq_refl, length,
  All, All-append, All-imp, select, any, first, Table, lookup, insert, lookup-insert, is_empty,
  Bool, true, false, not, ◌&&◌, ◌||◌, &&_iff, List, [], ◌∷◌, ◌++◌, map, append_assoc, append-nil,
  Option, none, some, ◌≡◌, ◌≢◌, ◌⊎◌, ◌↔◌, inl, inr, refl, sym, ap, ap₂, subst, ◌∙◌, arith, ◌==◌,
  ltb, leb, if◌then◌else◌, Bool-cases, Option-cases, text_lt,
}
use customrouter.Base.Sorting.{sort_stable}
use customrouter.Base.Results.{Result, ◌>>=◌, or_error}
use customrouter.Routes.{
  Route, RoutesConfig, RouteHeaderMatch, RouteQueryParamMatch, type_text, mode_text,
}
use customrouter.ConfigMaps.{
  route_too_large, cannot_partition, not_serialized, ConfigMapPartition, SplitError,
  max_config_map_size, to_json, partition_name, config_of,
}

-- The comparison of two 64-bit integers, kept as numbers below 2 ^ 64 in two's complement.
unfoldable pub int64_lt : ℕ → ℕ → Bool
int64_lt a b = ltb ((a + 2 ^ 63) % 2 ^ 64) ((b + 2 ^ 63) % 2 ^ 64)

-- The loop of `stableBucketCount`, whose doubling wraps; `fuel` bounds its rounds. After 64 of them
-- the integer is 0 and stays so: a loop that uses them up does not end.
unfoldable pub double_until : ℕ → ℕ → ℕ → ℕ
unfolding int64_lt
double_until zero bc target = bc
double_until (suc fuel) bc target =
    let more = double_until fuel (bc * 2 % 2 ^ 64) target in if int64_lt bc target then more else bc

unfoldable pub stable_bucket_count : ℕ → ℕ
unfolding double_until
stable_bucket_count min_buckets =
    if leb min_buckets 1 then 1 else double_until 64 2 (2 * min_buckets % 2 ^ 64)

-- `fnv.New32a`: one byte at a time.
unfoldable pub fnv_write : Text → ℕ → ℕ
fnv_write [] h = h
fnv_write (c ∷ s) h = fnv_write s (bit_xor h c * 16777619 % 2 ^ 32)

unfoldable pub hash_headers : List RouteHeaderMatch → ℕ → ℕ
unfolding fnv_write mode_text
hash_headers [] h = h
hash_headers (m ∷ ms) h =
    hash_headers ms (fnv_write (m.name ++ 1 ∷ m.value ++ 1 ∷ mode_text m.type ++ 2 ∷ []) h)

unfoldable pub hash_query_params : List RouteQueryParamMatch → ℕ → ℕ
unfolding fnv_write mode_text
hash_query_params [] h = h
hash_query_params (m ∷ ms) h =
    hash_query_params ms (fnv_write (m.name ++ 1 ∷ m.value ++ 1 ∷ mode_text m.type ++ 2 ∷ []) h)

-- The hash of a host and a route's identity; 2166136261 is the hash of nothing.
unfoldable pub route_hash : Text → Route → ℕ
unfolding hash_headers hash_query_params fnv_write type_text
route_hash host route =
    let fields =
      host
      ++ 0 ∷ type_text route.type
      ++ 0 ∷ route.path
      ++ 0 ∷ route.method
      ++ 0 ∷ route.backend
      ++ 0 ∷ [] in
    hash_query_params route.query_params (hash_headers route.headers (fnv_write fields 2166136261))

-- The count is converted to a `uint32`.
unfoldable pub route_bucket : Text → Route → ℕ → ℕ
unfolding route_hash
route_bucket host route bucket_count = route_hash host route % (bucket_count % 2 ^ 32)

-- A bucket, with its entry of `bucketBytes`.
pub record Bucket : Type 0 where
  pub routes : List Route
  pub bytes : ℕ

abbrev pub empty_bucket : Bucket
empty_bucket = record { routes = []; bytes = 0 }

unfoldable pub empty_buckets : ℕ → List Bucket
empty_buckets zero = []
empty_buckets (suc n) = empty_bucket ∷ empty_buckets n

abbrev pub put : Route → ℕ → Bucket → Bucket
put route size b = record { routes = b.routes ++ route ∷ []; bytes = b.bytes + size }

-- `buckets[idx]` and `bucketBytes[idx]`, updated.
unfoldable pub put_at : ℕ → Route → ℕ → List Bucket → List Bucket
put_at i route size [] = []
put_at zero route size (b ∷ bs) = put route size b ∷ bs
put_at (suc i) route size (b ∷ bs) = b ∷ put_at i route size bs

unfoldable pub bytes_at : ℕ → List Bucket → ℕ
bytes_at i [] = 0
bytes_at zero (b ∷ bs) = b.bytes
bytes_at (suc i) (b ∷ bs) = bytes_at i bs

-- The state of the inner loop: the buckets and the flag `overflow`.
pub record Assignment : Type 0 where
  pub buckets : List Bucket
  pub overflow : Bool

module _ (host : Text) (base : ℕ) where
  unfoldable pub assign_route : ℕ → Route × ℕ → Assignment → Assignment
  unfolding put_at bytes_at
  assign_route count (route, size) a =
      let i = route_bucket host route count in
      let buckets = put_at i route size a.buckets in
      record {
        buckets = buckets;
        overflow = a.overflow || ltb max_config_map_size (bytes_at i buckets + base);
      }

  unfoldable pub assign_from : ℕ → List (Route × ℕ) → Assignment → Assignment
  unfolding assign_route
  assign_from count [] a = a
  assign_from count (r ∷ rs) a = assign_from count rs (assign_route count r a)

  -- One attempt.
  unfoldable pub assign : ℕ → List (Route × ℕ) → Assignment
  unfolding assign_from empty_buckets
  assign count rs =
      assign_from count rs (record { buckets = empty_buckets count; overflow = false })

  -- The attempts that are left: the count doubles after each that overflows but the last.
  unfoldable pub attempts : ℕ → ℕ → List (Route × ℕ) → Result SplitError (List Bucket × ℕ)
  attempts zero count rs = Result.error (cannot_partition count)
  attempts (suc zero) count rs =
      let a = assign count rs in
      if a.overflow then Result.error (cannot_partition count) else Result.ok (a.buckets, count)
  attempts (suc (suc n)) count rs =
      let a = assign count rs in
      let again = attempts (suc n) (count * 2) rs in
      if a.overflow then again else Result.ok (a.buckets, count)

-- The comparison of `routesByIdentity`; a route comes with its key.
unfoldable pub identity_less : Route × Text → Route × Text → Bool
unfolding text_lt text_eq type_text
identity_less (a, ka) (b, kb) =
    if not (text_eq a.path b.path)
    then text_lt a.path b.path
    else if not (text_eq (type_text a.type) (type_text b.type))
    then text_lt (type_text a.type) (type_text b.type)
    else if not (text_eq a.method b.method)
    then text_lt a.method b.method
    else if not (text_eq a.backend b.backend)
    then text_lt a.backend b.backend
    else text_lt ka kb

module _ (marshal : Route → Option Text) where
  unfoldable pub with_keys : List Route → Result SplitError (List (Route × Text))
  with_keys [] = Result.ok []
  with_keys (r ∷ rs) = do
    key ← or_error (marshal r) not_serialized
    rest ← with_keys rs
    Result.ok ((r, key) ∷ rest)

  unfoldable pub sort_routes_by_identity : List Route → Result SplitError (List Route)
  unfolding with_keys sort_stable identity_less
  sort_routes_by_identity rs = do
    keyed ← with_keys rs
    Result.ok (map (λ (p : Route × Text). p.0) (sort_stable identity_less keyed))

  -- The loop over the buckets; one with at most one route is left alone.
  unfoldable pub sort_buckets : List Bucket → Result SplitError (List (List Route))
  sort_buckets [] = Result.ok []
  sort_buckets (b ∷ bs) = do
    routes ←
        (if leb (length b.routes) 1 then Result.ok b.routes else sort_routes_by_identity b.routes)
    rest ← sort_buckets bs
    Result.ok (routes ∷ rest)

  -- The sizes of the routes, each with the comma; `i` is the index of the first.
  unfoldable pub route_sizes : ℕ → ℕ → List Route → Result SplitError (List (Route × ℕ))
  route_sizes base i [] = Result.ok []
  route_sizes base i (r ∷ rs) = do
    text ← or_error (marshal r) not_serialized
    size ←
        (if ltb max_config_map_size (length text + 1 + base)
          then Result.error (route_too_large i)
          else Result.ok (length text + 1))
    rest ← route_sizes base (i + 1) rs
    Result.ok ((r, size) ∷ rest)

unfoldable pub total_size : List (Route × ℕ) → ℕ
total_size [] = 0
total_size ((r, size) ∷ rs) = size + total_size rs

abbrev pub base_size : Text → ℕ
base_size host = length (codes "{\"version\":1,\"hosts\":{\"" ++ host ++ codes "\":[]}}")

abbrev pub usable_size : ℕ → ℕ
usable_size base =
    if ltb base max_config_map_size then max_config_map_size - base else max_config_map_size

abbrev pub min_buckets : ℕ → ℕ → ℕ
min_buckets total usable = if ltb usable total then (total + usable - 1) / usable else 1

module _ (encode : RoutesConfig → Option Text) (marshal : Route → Option Text)
    (target host : Text) where
  -- The partitions of the buckets from index `i` on; an empty bucket keeps its index and has none.
  unfoldable pub emit_buckets : ℕ → List (List Route) → Result SplitError (List ConfigMapPartition)
  unfolding to_json partition_name
  emit_buckets i [] = Result.ok []
  emit_buckets i ([] ∷ bs) = emit_buckets (i + 1) bs
  emit_buckets i ((r ∷ rs) ∷ bs) = do
    content ← to_json encode (config_of 1 ((host, r ∷ rs) ∷ []))
    rest ← emit_buckets (i + 1) bs
    Result.ok (record { name = partition_name target i; target = target; content = content } ∷ rest)

  -- `splitHostRoutes`, with the next index.
  unfoldable pub split_host_routes :
      List Route → ℕ → Result SplitError (List ConfigMapPartition × ℕ)
  split_host_routes [] start = Result.ok ([], start)
  split_host_routes (r ∷ rs) start = do
    sized ← route_sizes marshal (base_size host) 0 (r ∷ rs)
    fitted ←
        attempts host (base_size host) 4
          (stable_bucket_count (min_buckets (total_size sized) (usable_size (base_size host))))
          sized
    sorted ← sort_buckets marshal fitted.0
    partitions ← emit_buckets start sorted
    Result.ok (partitions, start + fitted.1)
