-- ===== src/Routes/Merge/Gather.antt =====
-- A merged table holds, for each host, the sorted routes of all the tables that have the host.
use customrouter.Base.{
  ◌++◌, Text, text_eq, text_eq_iff, All, Table, lookup, insert, lookup-insert, List, [], ◌∷◌,
  Option, none, some, ◌≡◌, inl, inr, refl, ap, subst, ◌∙◌, Bool-cases, IsMap, insert-IsMap,
}
use mathlib.Core.Option
use customrouter.Routes.{Route}
use customrouter.Routes.Sort.{sort_routes}
use customrouter.Routes.Merge.{
  appended, merge_hosts, merge_configs, sort_hosts, merge_routes_config,
}

-- Routes behind those found so far.
abbrev behind : Option (List Route) → List Route → List Route
behind none routes = routes
behind (some found) routes = found ++ routes

appended-behind :
    (o : Option (List Route)) (routes : List Route) → appended o routes ≡ behind o routes
appended-behind none routes = refl
appended-behind (some found) routes = refl

-- The routes of a host in one more table, behind those found so far.
abbrev join_routes : Option (List Route) → Option (List Route) → Option (List Route)
join_routes found none = found
join_routes found (some routes) = some (behind found routes)

-- What all the tables have for a host, in their order.
abbrev pub gather : Text → Option (List Route) → List (Table (List Route)) → Option (List Route)
gather host found [] = found
gather host found (config ∷ configs) = gather host (join_routes found (lookup host config)) configs

merge_hosts-lookup :
    (host : Text) (merged config : Table (List Route))
    → IsMap config
    → lookup host (merge_hosts merged config)
      ≡ join_routes (lookup host merged) (lookup host config)
unfolding merge_hosts lookup
merge_hosts-lookup host merged [] h = refl
merge_hosts-lookup host merged ((k, routes) ∷ config) (fresh, h) =
    let added = insert k (appended (lookup k merged) routes) merged in
    merge_hosts-lookup host added config h ∙ elim (Bool-cases (text_eq k host)) [
      | inl same ↦
          let e : k ≡ host = (text_eq_iff k host).0 same in
          let absent : lookup host config ≡ none = subst (λ x. lookup x config ≡ none) e fresh in
          rw (lookup-insert, same, e, absent)
            (ap some (appended-behind (lookup host merged) routes))
      | inr other ↦ rw (lookup-insert, other)
    ]

merge_hosts-IsMap :
    (merged config : Table (List Route)) → IsMap merged → IsMap (merge_hosts merged config)
unfolding merge_hosts
merge_hosts-IsMap merged [] h = h
merge_hosts-IsMap merged ((k, routes) ∷ config) h =
    merge_hosts-IsMap (insert k (appended (lookup k merged) routes) merged) config
      (insert-IsMap k (appended (lookup k merged) routes) merged h)

pub merge_configs-IsMap :
    (merged : Table (List Route)) (configs : List (Table (List Route)))
    → IsMap merged
    → IsMap (merge_configs merged configs)
unfolding merge_configs
merge_configs-IsMap merged [] h = h
merge_configs-IsMap merged (config ∷ configs) h =
    merge_configs-IsMap (merge_hosts merged config) configs (merge_hosts-IsMap merged config h)

merge_configs-lookup :
    (host : Text) (merged : Table (List Route)) (configs : List (Table (List Route)))
    → All IsMap configs
    → lookup host (merge_configs merged configs) ≡ gather host (lookup host merged) configs
unfolding merge_configs
merge_configs-lookup host merged [] h = refl
merge_configs-lookup host merged (config ∷ configs) (m, h) =
    merge_configs-lookup host (merge_hosts merged config) configs h
    ∙ ap (λ found. gather host found configs) (merge_hosts-lookup host merged config m)

pub sort_hosts-lookup :
    (host : Text) (hosts : Table (List Route))
    → lookup host (sort_hosts hosts) ≡ Option.map sort_routes (lookup host hosts)
unfolding sort_hosts lookup
sort_hosts-lookup host [] = refl
sort_hosts-lookup host ((k, routes) ∷ more) = elim (Bool-cases (text_eq k host)) [
  | inl same ↦ rw same
  | inr other ↦ rw other (sort_hosts-lookup host more)
]

pub sort_hosts-IsMap : (hosts : Table (List Route)) → IsMap hosts → IsMap (sort_hosts hosts)
unfolding sort_hosts
sort_hosts-IsMap [] h = tt
sort_hosts-IsMap ((k, routes) ∷ more) (fresh, h) =
    (sort_hosts-lookup k more ∙ ap (Option.map sort_routes) fresh, sort_hosts-IsMap more h)

-- For every host the merged table has the sorted concatenation, in the order of the arguments, of
-- the lists that the given maps have for the host, and has the host only if one of them has.
pub merge_routes_config-lookup :
    (host : Text) (configs : List (Table (List Route)))
    → All IsMap configs
    → lookup host (merge_routes_config configs).hosts
      ≡ Option.map sort_routes (gather host none configs)
unfolding merge_routes_config lookup
merge_routes_config-lookup host configs h =
    sort_hosts-lookup host (merge_configs [] configs)
    ∙ ap (Option.map sort_routes) (merge_configs-lookup host [] configs h)
