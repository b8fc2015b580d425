-- ===== src/Routes/Partition.antt =====
-- The per-host index by the value of one request header: `routePartitionValue`,
-- `BuildPartitionIndex` and `FindRoute` of pkg/routes/types.go. A pointer to a route of the host's
-- slice is that route.
pub mod Value
pub mod Buckets
pub mod Lookup
use customrouter.Base.{
  not, ◌++◌, ◌+◌, first, insert, text_eq, some, none, is_empty, ◌==◌, lookup, false, true,
  trim_space, if◌then◌else◌, Option, Table, select, equal_fold, Bool, to_lower, ℕ, Text, List, [],
  ◌∷◌,
}
use customrouter.Routes.{Matcher, MatchMode, Route, RouteHeaderMatch, RoutesConfig, RequestMatch}
use customrouter.Routes.Match.{matches}

abbrev pub is_regex : MatchMode → Bool
is_regex MatchMode.regex = true
is_regex _ = false

-- The loop, with `value` and `count`.
pub scan_value : Text → List RouteHeaderMatch → Text → ℕ → Option Text
scan_value header [] value count = if count == 1 then some value else none
scan_value header (h ∷ hs) value count =
    let other = scan_value header hs value count in
    let found = scan_value header hs h.value (count + 1) in
    if not (equal_fold h.name header) then other else if is_regex h.type then none else found

-- `routePartitionValue`
unfoldable pub route_partition_value : Route → Text → Option Text
unfolding scan_value equal_fold
route_partition_value r header = scan_value header r.headers [] 0

abbrev pub Buckets : Type 0
Buckets = Table (List Route)

-- `byVal[v]`, which is nil for a missing key.
abbrev pub bucket : Option (List Route) → List Route
bucket none = []
bucket (some rs) = rs

-- The first loop over a host: `byVal` and `unpartitioned`.
pub add_route : Route → Option Text → Buckets × List Route → Buckets × List Route
add_route r (some v) (by_val, unpartitioned) =
    (insert v (bucket (lookup v by_val) ++ r ∷ []) by_val, unpartitioned)
add_route r none (by_val, unpartitioned) = (by_val, unpartitioned ++ r ∷ [])

pub split_routes : Text → List Route → Buckets × List Route → Buckets × List Route
unfolding add_route
split_routes header [] acc = acc
split_routes header (r ∷ rs) acc =
    split_routes header rs (add_route r (route_partition_value r header) acc)

-- The test of the second loop: `(ok && rv == v) || !ok`.
abbrev pub fits : Text → Option Text → Bool
fits v none = true
fits v (some rv) = text_eq rv v

pub is_candidate : Text → Text → Route → Bool
is_candidate header v r = fits v (route_partition_value r header)

-- The second loop: every bucket is collected again from the whole host, in its order.
pub merge_buckets : Text → List Route → Buckets → Buckets
unfolding is_candidate
merge_buckets header routes [] = []
merge_buckets header routes ((v, old) ∷ more) =
    (v, select (is_candidate header v) routes) ∷ merge_buckets header routes more

-- One host; `none` leaves it out of the index.
pub index_host : Text → List Route → Option Buckets
unfolding split_routes merge_buckets
index_host header routes =
    let (by_val, unpartitioned) = split_routes header routes ([], []) in
    if is_empty by_val
    then none
    else if is_empty unpartitioned
    then some by_val
    else some (merge_buckets header routes by_val)

abbrev pub add_host : Text → Option Buckets → Table Buckets → Table Buckets
add_host host none parts = parts
add_host host (some by_val) parts = insert host by_val parts

pub index_hosts : Text → Table (List Route) → Table Buckets
unfolding index_host
index_hosts header [] = []
index_hosts header ((host, routes) ∷ more) =
    add_host host (index_host header routes) (index_hosts header more)

-- `BuildPartitionIndex`
unfoldable pub build_partition_index : Text → RoutesConfig → RoutesConfig
unfolding index_hosts to_lower trim_space
build_partition_index header rc =
    let name = to_lower (trim_space header) in
    if is_empty name
    then record rc { partition_header = name; partitions = none }
    else record rc { partition_header = name; partitions = some (index_hosts name rc.hosts) }

-- The bucket that the index has for a host and a value, if any. Reading the nil map or a missing
-- header gives nothing, as in the chain of tests of `FindRoute`.
abbrev pub bucket_of : Option Buckets → Text → Option (List Route)
bucket_of none v = none
bucket_of (some by_val) v = lookup v by_val

abbrev pub candidates_of : Option (Table Buckets) → Text → Option Text → Option (List Route)
candidates_of none host value = none
candidates_of (some parts) host none = none
candidates_of (some parts) host (some v) =
    if is_empty v then none else bucket_of (lookup host parts) v

unfoldable pub candidates : RoutesConfig → Text → RequestMatch → Option (List Route)
candidates rc host req =
    if is_empty rc.partition_header
    then none
    else candidates_of rc.partitions host (lookup rc.partition_header req.headers)

abbrev pub or_routes : Option (List Route) → List Route → List Route
or_routes none routes = routes
or_routes (some found) routes = found

module _ (compile : Text → Option Matcher) where
  unfoldable pub find_in_host :
      RoutesConfig → Text → RequestMatch → Option (List Route) → Option Route
  unfolding candidates
  find_in_host rc host req none = none
  find_in_host rc host req (some routes) =
      first (matches compile req) (or_routes (candidates rc host req) routes)

  -- `FindRoute`
  unfoldable pub find_route : RoutesConfig → Text → RequestMatch → Option Route
  unfolding find_in_host
  find_route rc host req = find_in_host rc host req (lookup host rc.hosts)
