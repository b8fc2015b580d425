-- ===== src/Routes/Expand/Bounds.antt =====
-- How many routes a CustomHTTPRoute expands to.
use native.Mathlib.Nat.{mul-le-mul_left}
use customrouter.Routes.Actions.{convert_actions, extract_mirrors, extract_cors}
use customrouter.Base.{
  some-inj, length-append, ℕ, suc, ◌+◌, ◌*◌, ◌≤◌, Text, length, Table, insert, List, [], ◌∷◌, map,
  Option, some, ◌≡◌, inl, inr, refl, ap, arith, ltb, Bool-cases,
}
use customrouter.Base.Sorting.{length-sort_stable}
use customrouter.Api.{CustomHttpRoute, Rule, PathMatch, PathPrefixPolicy, MatchType, PathPrefixes}
use customrouter.Routes.{Route, RouteAction}
use customrouter.Routes.Sort.{less, sort_routes}
use customrouter.Routes.Expand.{
  with_mirrors, with_cors, build_backend_string, get_effective_expand_match_types,
  get_effective_policy, max_routes_per_crd, prefixed_routes, by_policy, expand_match,
  expand_matches, expand_rule, expand_rules, total_matches, estimated_routes, fill_hosts,
  expand_routes, prefix_values, route_for,
}

length-prefixed_routes :
    (backend : Text) (m : PathMatch) (actions : List RouteAction) (prefixes : List Text)
    → length (prefixed_routes backend m actions prefixes) ≡ length prefixes
unfolding prefixed_routes
length-prefixed_routes backend m actions [] = refl
length-prefixed_routes backend m actions (p ∷ prefixes) =
    ap suc (length-prefixed_routes backend m actions prefixes)

length-by_policy :
    (policy : PathPrefixPolicy) (backend : Text) (m : PathMatch) (actions : List RouteAction)
    (prefixes : List Text)
    → length (by_policy policy backend m actions prefixes) ≤ length prefixes + 1
unfolding by_policy
length-by_policy PathPrefixPolicy.disabled backend m actions prefixes = omega arith
length-by_policy PathPrefixPolicy.required backend m actions prefixes =
    omega (arith, length-prefixed_routes backend m actions prefixes)
length-by_policy PathPrefixPolicy.optional backend m actions prefixes = omega (
  arith,
  length-prefixed_routes backend m actions prefixes,
  length-append (prefixed_routes backend m actions prefixes)
      (route_for backend m m.path actions ∷ []),
)
length-by_policy (PathPrefixPolicy.other t) backend m actions prefixes = omega arith

module _ (policy : PathPrefixPolicy) (types : List MatchType) (prefixes : List Text)
    (backend : Text) (actions : List RouteAction) where
  -- One match gives a route for each prefix and one more at most.
  length-expand_match :
      (m : PathMatch)
      → length (expand_match policy types prefixes backend actions m) ≤ length prefixes + 1
  unfolding expand_match
  length-expand_match m = ground (arith, length-by_policy policy backend m actions prefixes)

  length-expand_matches :
      (ms : List PathMatch)
      → length (expand_matches policy types prefixes backend actions ms)
        ≤ length ms * (length prefixes + 1)
  unfolding expand_matches
  length-expand_matches [] = omega arith
  length-expand_matches (m ∷ ms) = omega (
    arith,
    length-append (expand_match policy types prefixes backend actions m)
        (expand_matches policy types prefixes backend actions ms),
    length-expand_match m,
    length-expand_matches ms,
  )

length-map {ℓ κ} :
    {A : Type ℓ} {B : Type κ} (f : A → B) (xs : List A) → length (map f xs) ≡ length xs
length-map f [] = refl
length-map f (x ∷ xs) = ap suc (length-map f xs)

length-expand_rule :
    (spec : Option PathPrefixes) (rule : Rule) (names : Table Text)
    → length (expand_rule spec rule names) ≤ length rule.matches * (length (prefix_values spec) + 1)
unfolding expand_rule
length-expand_rule spec rule names =
    let policy = get_effective_policy spec rule.path_prefixes in
    let types = get_effective_expand_match_types spec rule.path_prefixes in
    let backend = build_backend_string rule.backend_refs names in
    let actions = convert_actions rule.actions in
    omega (
      arith,
      length-map
          (λ r.
            with_cors (extract_cors rule.actions) (with_mirrors (extract_mirrors rule.actions) r))
          (expand_matches policy types (prefix_values spec) backend actions rule.matches),
      length-expand_matches policy types (prefix_values spec) backend actions rule.matches,
    )

length-expand_rules :
    (spec : Option PathPrefixes) (rules : List Rule) (names : Table Text)
    → length (expand_rules spec rules names)
      ≤ total_matches rules * (length (prefix_values spec) + 1)
unfolding expand_rules total_matches
length-expand_rules spec [] names = omega arith
length-expand_rules spec (rule ∷ rules) names = omega (
  arith,
  length-append (expand_rule spec rule names) (expand_rules spec rules names),
  length-expand_rule spec rule names,
  length-expand_rules spec rules names,
)

-- The number of routes in a table, over all hosts.
abbrev pub count_routes : Table (List Route) → ℕ
count_routes [] = 0
count_routes ((host, rs) ∷ more) = length rs + count_routes more

count_routes-insert :
    (host : Text) (rs : List Route) (m : Table (List Route))
    → count_routes (insert host rs m) ≤ length rs + count_routes m
unfolding insert
count_routes-insert host rs [] = omega arith
count_routes-insert host rs ((k, x) ∷ m) = ground (arith, count_routes-insert host rs m)

length-sort_routes : (rs : List Route) → length (sort_routes rs) ≡ length rs
unfolding sort_routes
length-sort_routes rs = length-sort_stable less rs

count_routes-fill_hosts :
    (names : List Text) (rs : List Route) (m : Table (List Route))
    → count_routes (fill_hosts names rs m) ≤ length names * length rs + count_routes m
unfolding fill_hosts
count_routes-fill_hosts [] rs m = omega arith
count_routes-fill_hosts (name ∷ names) rs m = omega (
  arith,
  count_routes-fill_hosts names rs (insert name (sort_routes rs) m),
  count_routes-insert name (sort_routes rs) m,
  length-sort_routes rs,
)

-- An expansion that is not refused holds at most `MaxRoutesPerCRD` routes over all hosts: the
-- estimate that the guard reads bounds what the loops really append.
pub count_routes-expand_routes :
    (cr : CustomHttpRoute) (names : Table Text) (hosts : Table (List Route))
    → expand_routes cr names ≡ some hosts
    → count_routes hosts ≤ max_routes_per_crd
unfolding expand_routes estimated_routes
count_routes-expand_routes cr names hosts e =
    elim (Bool-cases (ltb max_routes_per_crd (estimated_routes cr))) [
      | inl t ↦ absurd (ground (arith, e, t))
      | inr t ↦
          let rs = expand_rules cr.spec.path_prefixes cr.spec.rules names in
          let made : fill_hosts cr.spec.hostnames rs [] ≡ hosts = some-inj (rw t at e) in
          let fits : estimated_routes cr ≤ max_routes_per_crd = ground (arith, t) in
          rw (← made) (
            omega (
              arith,
              fits,
              count_routes-fill_hosts cr.spec.hostnames rs [],
              mul-le-mul_left (length cr.spec.hostnames)
                  (length-expand_rules cr.spec.path_prefixes cr.spec.rules names),
            ))
    ]
