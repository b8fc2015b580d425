-- ===== src/Routes/Sort.antt =====
-- The order of a route table: `SortRoutes` of pkg/routes/expand.go. Each `by_…` is one round
-- `if x != y { return … }` of the comparison; `rest` is what follows it.
pub mod Order
pub mod Ranks
use customrouter.Base.{◌==◌, if◌then◌else◌, ℕ, Bool, false, not, List, length, ltb, is_empty}
use customrouter.Base.Sorting.{sort_stable}
use customrouter.Routes.{ℤ, Route, RouteType}
use customrouter.Base.Int.{int_lt, int_eq}

abbrev pub by_priority : ℤ → ℤ → Bool → Bool
by_priority x y rest = if not (int_eq x y) then int_lt y x else rest

abbrev pub by_type : ℕ → ℕ → Bool → Bool
by_type x y rest = if not (x == y) then ltb x y else rest

abbrev pub by_count : ℕ → ℕ → Bool → Bool
by_count x y rest = if not (x == y) then ltb y x else rest

-- The map `typePriority`; a missing key reads as 0.
unfoldable pub type_priority : RouteType → ℕ
type_priority RouteType.exact = 0
type_priority RouteType.regex = 1
type_priority RouteType.prefix = 2
type_priority (RouteType.other t) = 0

unfoldable pub route_method_specificity : Route → ℕ
route_method_specificity route = if is_empty route.method then 0 else 1

-- The comparison that `SortRoutes` hands to `sort.SliceStable`.
unfoldable pub less : Route → Route → Bool
unfolding type_priority route_method_specificity
less a b = by_priority a.priority b.priority (
    by_type (type_priority a.type) (type_priority b.type) (
      by_count (length a.path) (length b.path) (
        by_count (route_method_specificity a) (route_method_specificity b) (
          by_count (length a.headers) (length b.headers)
            (by_count (length a.query_params) (length b.query_params) false)))))

unfoldable pub sort_routes : List Route → List Route
unfolding sort_stable less
sort_routes = sort_stable less
