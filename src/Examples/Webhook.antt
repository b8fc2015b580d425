-- ===== src/Examples/Webhook.antt =====
-- Two matches that the webhook compares.
use customrouter.Base.{
  ℕ, zero, suc, ◌+◌, ◌-◌, ◌*◌, ◌≤◌, ◌<◌, Text, codes, text_eq, text_eq_iff, text_eq_refl, length,
  All, All-append, All-imp, select, any, first, Table, lookup, insert, lookup-insert, is_empty,
  Bool, true, false, not, ◌&&◌, ◌||◌, &&_iff, List, [], ◌∷◌, ◌++◌, map, append_assoc, append-nil,
  Option, none, some, ◌≡◌, ◌≢◌, ◌⊎◌, ◌↔◌, inl, inr, refl, sym, ap, ap₂, subst, ◌∙◌, arith, ◌==◌,
  ltb, leb, if◌then◌else◌, Bool-cases, Option-cases,
}
use customrouter.Base.Int.{pos}
use customrouter.Api.{PathPrefixPolicy, MatchType}
use customrouter.Routes.Expand.{expand_match}
use customrouter.Webhook.{RouteMatch, matches_request_compat, at_least_as_specific, matches_overlap}
use customrouter.Webhook.Compat.{Satisfies, Satisfies-matches_request_compat}
use customrouter.Webhook.Specific.{at_least_as_specific-Satisfies}
use customrouter.Webhook.Expand.{
  compared, served, expand_match_path, expand_match_path-expand_match,
}
use customrouter.Webhook.{normalize_path}
use customrouter.Routes.{Route, RouteType}
use customrouter.Routes.Sort.{less}
use customrouter.Webhook.Order.{specificity_resolvable-less}
use customrouter.Examples.Data.{tenant, prefix_route, route, compile, request, path_match}

abbrev plain_match : RouteMatch
plain_match = record {
  path_type = codes "PathPrefix";
  path = codes "/a";
  method = [];
  headers = [];
  query_params = [];
  priority = pos 0;
  allow_overlap = false;
}

abbrev tenant_match : RouteMatch
tenant_match = record plain_match {
  method = codes "get";
  headers = record { name = codes "X-T"; value = codes "t"; is_regex = false } ∷ [];
}

abbrev regex_match : RouteMatch
regex_match = record plain_match {
  headers = record { name = codes "x-t"; value = codes "t"; is_regex = true } ∷ [];
}

tenant_satisfied : Satisfies compile (request (codes "/a")) tenant_match
unfolding customrouter.Routes.Match.match_method customrouter.Base.equal_fold
    customrouter.Routes.Match.match_found lookup customrouter.Routes.Match.match_value
tenant_satisfied = record { method = refl; headers = (refl, tt); query_params = tt }

regex_satisfied : Satisfies compile (request (codes "/a")) regex_match
unfolding customrouter.Routes.Match.match_method customrouter.Routes.Match.match_found lookup
    text_eq customrouter.Base.to_lower customrouter.Routes.Match.match_value
    customrouter.Base.contains
regex_satisfied = record { method = refl; headers = (refl, tt); query_params = tt }

Satisfies-matches_request_compat_example : matches_request_compat tenant_match regex_match ≡ true
Satisfies-matches_request_compat_example =
    Satisfies-matches_request_compat compile (request (codes "/a")) tenant_match regex_match refl
      refl tenant_satisfied regex_satisfied

at_least_as_specific-Satisfies_example : Satisfies compile (request (codes "/a")) plain_match
unfolding at_least_as_specific
at_least_as_specific-Satisfies_example =
    at_least_as_specific-Satisfies compile (request (codes "/a")) tenant_match plain_match refl
      tenant_satisfied

expand_match_path-expand_match_example :
    compared (
      expand_match_path
        (path_match (codes "/") MatchType.path_prefix)
        (codes "es" ∷ [])
        PathPrefixPolicy.optional
        [])
    ≡ served (
        expand_match PathPrefixPolicy.optional []
          (codes "es" ∷ [])
          (codes "shop:80")
          []
          (path_match (codes "/") MatchType.path_prefix))
unfolding customrouter.Base.has_suffix
expand_match_path-expand_match_example =
    expand_match_path-expand_match (codes "shop:80") (path_match (codes "/") MatchType.path_prefix)
      [] PathPrefixPolicy.optional [] (codes "es" ∷ []) refl (refl, tt)

-- The more specific match comes first, so the two do not overlap; a match overlaps with itself.
no_overlap : matches_overlap tenant_match plain_match ≡ false
unfolding matches_overlap text_eq customrouter.Base.equal_fold
no_overlap = refl

self_overlap : matches_overlap tenant_match tenant_match ≡ true
unfolding matches_overlap text_eq customrouter.Base.equal_fold
self_overlap = refl

abbrev tenant_prefix_route : Route
tenant_prefix_route = record prefix_route {
  method = codes "GET";
  headers = tenant (codes "t") ∷ [];
}

specificity_resolvable-less_example : less tenant_prefix_route prefix_route ≡ true
unfolding at_least_as_specific customrouter.Webhook.effective_priority customrouter.Base.equal_fold
    customrouter.Webhook.specificity_resolvable
specificity_resolvable-less_example =
    specificity_resolvable-less (record tenant_match { method = codes "GET" }) plain_match refl
      tenant_prefix_route prefix_route
      (record { priority = refl; method = refl; headers = refl; query_params = refl })
      (record { priority = refl; method = refl; headers = refl; query_params = refl }) refl refl tt
      tt refl refl

-- The paths "/a" and "/a/" are one path to the check, which reports no overlap, and the prefix
-- routes match the same paths; but the route with the longer text stands first and shadows the more
-- specific one.
one_path : normalize_path (codes "/a/") ≡ normalize_path (codes "/a")
unfolding normalize_path customrouter.Base.has_suffix customrouter.Base.trim_suffix
one_path = refl

specific_shadowed : less (route (codes "/a/") RouteType.prefix) tenant_prefix_route ≡ true
unfolding less
specific_shadowed = refl
