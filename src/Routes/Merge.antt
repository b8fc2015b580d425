-- ===== src/Routes/Merge.antt =====
-- `MergeRoutesConfig` of pkg/routes/expand.go: the tables of several CustomHTTPRoutes as one. The
-- entries of a Go map are taken in the order of its association list.
pub mod Gather
use customrouter.Base.{
  ℕ, zero, suc, ◌+◌, ◌-◌, ◌*◌, ◌≤◌, ◌<◌, Text, codes, text_eq, text_eq_iff, text_eq_refl, length,
  All, All-append, All-imp, select, any, first, Table, lookup, insert, lookup-insert, is_empty,
  Bool, true, false, not, ◌&&◌, ◌||◌, &&_iff, List, [], ◌∷◌, ◌++◌, map, append_assoc, append-nil,
  Option, none, some, ◌≡◌, ◌≢◌, ◌⊎◌, ◌↔◌, inl, inr, refl, sym, ap, ap₂, subst, ◌∙◌, arith, ◌==◌,
  ltb, leb, if◌then◌else◌, Bool-cases, Option-cases,
}
use customrouter.Routes.{Route, RoutesConfig}
use customrouter.Routes.Sort.{sort_routes}

-- `append(existing, routes...)`, or the routes alone for a new host.
abbrev pub appended : Option (List Route) → List Route → List Route
appended none routes = routes
appended (some existing) routes = existing ++ routes

-- The inner loop.
unfoldable pub merge_hosts : Table (List Route) → Table (List Route) → Table (List Route)
merge_hosts merged [] = merged
merge_hosts merged ((host, routes) ∷ config) =
    merge_hosts (insert host (appended (lookup host merged) routes) merged) config

-- The outer loop.
unfoldable pub merge_configs : Table (List Route) → List (Table (List Route)) → Table (List Route)
unfolding merge_hosts
merge_configs merged [] = merged
merge_configs merged (config ∷ configs) = merge_configs (merge_hosts merged config) configs

-- The last loop.
unfoldable pub sort_hosts : Table (List Route) → Table (List Route)
sort_hosts [] = []
sort_hosts ((host, routes) ∷ more) = (host, sort_routes routes) ∷ sort_hosts more

-- A table with no index.
abbrev pub plain_config : Table (List Route) → RoutesConfig
plain_config hosts = record { version = 1; hosts = hosts; partition_header = []; partitions = none }

unfoldable pub merge_routes_config : List (Table (List Route)) → RoutesConfig
unfolding merge_configs sort_hosts
merge_routes_config configs = plain_config (sort_hosts (merge_configs [] configs))
