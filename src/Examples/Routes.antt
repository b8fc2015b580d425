-- ===== src/Examples/Routes.antt =====
-- The route table: expansion, order, merge, partition, load.
use customrouter.Base.{
  has_prefix, trim_suffix, before_any, ℕ, zero, suc, ◌+◌, ◌-◌, ◌*◌, ◌≤◌, ◌<◌, Text, codes, text_eq,
  text_eq_iff, text_eq_refl, length, All, All-append, All-imp, select, first, Table, lookup, insert,
  lookup-insert, is_empty, Bool, true, false, not, ◌&&◌, ◌||◌, &&_iff, List, [], ◌∷◌, ◌++◌, map,
  append_assoc, append-nil, Option, none, some, ◌≡◌, ◌≢◌, ◌⊎◌, ◌↔◌, inl, inr, refl, sym, ap, ap₂,
  subst, ◌∙◌, arith, ◌==◌, ltb, leb, Bool-cases, Option-cases,
}
use customrouter.Api.{PathPrefixPolicy, MatchType}
use customrouter.Routes.{Route, RouteType, RouteAction, RoutesConfig, RequestMatch}
use customrouter.Routes.Partition.{find_route, build_partition_index}
use customrouter.Routes.Partition.Lookup.{find_route-build_partition_index}
use customrouter.Routes.Loader
use customrouter.Routes.Loader.{load, new_loader}
use customrouter.Routes.Loader.Best.{Answers, load-Answers}
use customrouter.Routes.Expand.{
  fill_hosts, expand_rules, expand_routes, max_routes_per_crd, expand_match,
}
use customrouter.Routes.Expand.Bounds.{count_routes, count_routes-expand_routes}
use customrouter.Routes.Expand.Prefixes.{IsUnderSome, expand_match-IsUnderSome}
use customrouter.Routes.Merge.{merge_routes_config}
use customrouter.Routes.Merge.Gather.{gather, merge_routes_config-lookup}
use customrouter.Routes.Match.{match_prefix, matches, compile_route}
use customrouter.Routes.Match.Path.{IsUnder, match_prefix_iff}
use customrouter.Routes.Match.Compiled.{matches-compile_route}
use mathlib.Core.Option
use customrouter.Routes.Sort.{sort_routes}
use customrouter.Routes.Sort.Ranks.{IsRanked, is_tied, sort_routes-IsRanked}
use customrouter.Routes.Actions.{extract_cors, route_cors}
use customrouter.Routes.Actions.Laws.{extract_cors-append}
use customrouter.Routes.Regex.{expand_regex_with_prefixes}
use customrouter.Routes.Regex.Laws.{expand_regex_with_prefixes-anchored}
use customrouter.Examples.Data.{
  route, compile, read, files, table, request, shop, prefix_route, exact_route, tenant_route,
  regex_route, path_match, cors_action, cors_config, remove_action,
}

find_route-build_partition_index_example :
    find_route compile
      (build_partition_index (codes " X-T") table)
      (codes "h")
      (request (codes "/a"))
    ≡ find_route compile (build_partition_index [] table) (codes "h") (request (codes "/a"))
unfolding lookup
find_route-build_partition_index_example =
    find_route-build_partition_index compile (codes " X-T") (codes "h") table (request (codes "/a"))
      (refl, tt)

-- The index is used: the tenant's route stands in front.
tenant_found :
    find_route compile
      (build_partition_index (codes " X-T") table)
      (codes "h")
      (request (codes "/a"))
    ≡ some tenant_route
unfolding find_route build_partition_index lookup text_eq first
    customrouter.Routes.Partition.route_partition_value insert select matches
    customrouter.Routes.Match.match_value
tenant_found = refl

load-Answers_example :
    let l = (load compile read files new_loader).0 in
    Answers compile
      (request (codes "/a"))
      (lookup (before_any (λ c. c == b':') (codes "h:80")) l.config.hosts)
      (Loader.find_route compile l (codes "h:80") (request (codes "/a")))
unfolding load Loader.loaded text_eq customrouter.Routes.Match.compile_regexes
    customrouter.Routes.Merge.sort_hosts customrouter.Routes.Merge.merge_configs insert sort_routes
    lookup customrouter.Base.contains
load-Answers_example =
    load-Answers compile read files new_loader (codes "h:80") (request (codes "/a")) refl

abbrev other_route : Route
other_route = route (codes "/b") RouteType.exact

abbrev shop_hosts : Table (List Route)
shop_hosts =
    fill_hosts shop.spec.hostnames (expand_rules shop.spec.path_prefixes shop.spec.rules []) []

shop_expands : expand_routes shop [] ≡ some shop_hosts
unfolding expand_routes customrouter.Routes.Expand.estimated_routes
shop_expands = refl

count_routes-expand_routes_example : count_routes shop_hosts ≤ max_routes_per_crd
count_routes-expand_routes_example = count_routes-expand_routes shop [] shop_hosts shop_expands

abbrev tables : List (Table (List Route))
tables = ((codes "h", prefix_route ∷ []) ∷ []) ∷ ((codes "h", exact_route ∷ []) ∷ []) ∷ []

merge_routes_config-lookup_example :
    lookup (codes "h") (merge_routes_config tables).hosts
    ≡ Option.map sort_routes (gather (codes "h") none tables)
unfolding lookup
merge_routes_config-lookup_example =
    merge_routes_config-lookup (codes "h") tables ((refl, tt), ((refl, tt), tt))

match_prefix_iff_example :
    (match_prefix (codes "/a/") (codes "/a") ≡ true)
    ↔ IsUnder (trim_suffix (codes "/a/") (codes "/")) (codes "/a")
match_prefix_iff_example = match_prefix_iff (codes "/a/") (codes "/a")

expand_match-IsUnderSome_example : IsUnderSome (codes "es" ∷ []) (codes "/es/a/x")
unfolding matches expand_match customrouter.Routes.Policy.should_expand_match_type
expand_match-IsUnderSome_example =
    expand_match-IsUnderSome compile [] (codes "es" ∷ []) (codes "shop:80") []
      (path_match (codes "/a") MatchType.path_prefix) (codes "a") (request (codes "/es/a/x")) refl
      refl refl (refl, tt) refl

sort_routes-IsRanked_example :
    IsRanked (sort_routes (prefix_route ∷ exact_route ∷ other_route ∷ []))
    × (select (is_tied exact_route) (sort_routes (prefix_route ∷ exact_route ∷ other_route ∷ []))
        ≡ select (is_tied exact_route) (prefix_route ∷ exact_route ∷ other_route ∷ []))
sort_routes-IsRanked_example =
    sort_routes-IsRanked (prefix_route ∷ exact_route ∷ other_route ∷ []) exact_route

exact_first : sort_routes (prefix_route ∷ exact_route ∷ []) ≡ exact_route ∷ prefix_route ∷ []
unfolding sort_routes
exact_first = refl

matches-compile_route_example :
    let compiled = record regex_route {
      compiled_regex = some (λ text. has_prefix text (codes "/r"));
    } in
    (matches compile (request (codes "/r/1")) compiled
      ≡ matches compile (request (codes "/r/1")) regex_route)
    × (compiled.path ≡ regex_route.path)
    × (compiled.type ≡ regex_route.type)
    × (compiled.backend ≡ regex_route.backend)
    × (compiled.priority ≡ regex_route.priority)
    × (compiled.method ≡ regex_route.method)
    × (compiled.actions ≡ regex_route.actions)
unfolding compile_route customrouter.Base.contains
matches-compile_route_example =
    matches-compile_route compile regex_route
      (record regex_route { compiled_regex = some (λ text. has_prefix text (codes "/r")) })
      (request (codes "/r/1")) (record { path = refl; headers = tt; params = tt }) refl

extract_cors-append_example :
    extract_cors ((cors_action ∷ []) ++ cors_action ∷ remove_action ∷ [])
    ≡ route_cors (some cors_config)
unfolding extract_cors
extract_cors-append_example =
    extract_cors-append (cors_action ∷ []) (remove_action ∷ []) cors_action cors_config refl refl
      refl

expand_regex_with_prefixes-anchored_example :
    has_prefix
      (expand_regex_with_prefixes (codes "^/a") (codes "es" ∷ []) PathPrefixPolicy.required)
      (codes "^")
    ≡ has_prefix (codes "^/a") (codes "^")
expand_regex_with_prefixes-anchored_example =
    expand_regex_with_prefixes-anchored (codes "^/a") (codes "es" ∷ []) PathPrefixPolicy.required
