-- ===== src/Routes/Expand.antt =====
-- From a CustomHTTPRoute to routes per host: `ExpandRoutes`, `expandRule` and their helpers of
-- pkg/routes/expand.go. The lengths are machine integers in Go; no object that Kubernetes stores is
-- large enough to make their product wrap around.
pub mod Bounds
pub mod Prefixes
pub mod Hosts
use customrouter.Base.{
  ℕ, zero, suc, ◌+◌, ◌-◌, ◌*◌, ◌≤◌, ◌<◌, Text, codes, text_eq, text_eq_iff, text_eq_refl, length,
  All, All-append, All-imp, select, any, first, Table, lookup, insert, lookup-insert, is_empty,
  Bool, true, false, not, ◌&&◌, ◌||◌, &&_iff, List, [], ◌∷◌, ◌++◌, map, append_assoc, append-nil,
  Option, none, some, ◌≡◌, ◌≢◌, ◌⊎◌, ◌↔◌, inl, inr, refl, sym, ap, ap₂, subst, ◌∙◌, arith, ◌==◌,
  ltb, leb, if◌then◌else◌, Bool-cases, Option-cases, contains,
}
use customrouter.Base.Int.{pos, int_eq, ℤ, itoa}
use customrouter.Api.{
  CustomHttpRoute, Rule, PathMatch, PathPrefixes, PathPrefixPolicy, RulePathPrefixes, MatchType,
  HeaderMatch, HeaderMatchType, QueryParamMatch, QueryParamMatchType, BackendRef, default_priority,
}
use customrouter.Routes.{
  Route, RouteType, MatchMode, RouteAction, RouteMirror, RouteCors, RouteHeaderMatch,
  RouteQueryParamMatch,
}
use customrouter.Routes.Actions.{
  convert_actions, extract_mirrors, extract_cors, actions_need_preserve_prefix,
  apply_preserve_prefix,
}
use customrouter.Routes.Regex.{expand_regex_with_prefixes}
use customrouter.Routes.Sort.{sort_routes}
use customrouter.Routes.Policy.{
  get_effective_policy, get_effective_expand_match_types, should_expand_match_type,
}

-- The constant MaxRoutesPerCRD.
abbrev pub max_routes_per_crd : ℕ
max_routes_per_crd = 500000

unfoldable pub get_match_type : MatchType → RouteType
get_match_type MatchType.exact = RouteType.exact
get_match_type MatchType.regex = RouteType.regex
get_match_type _ = RouteType.prefix

unfoldable pub get_effective_priority : ℤ → ℤ
get_effective_priority priority = if int_eq priority (pos 0) then default_priority else priority

-- `buildBackendString`: an external host, a known ExternalName service, or the cluster name.
pub backend_of : BackendRef → Option Text → Text
backend_of ref (some external) = external ++ codes ":" ++ itoa ref.port
backend_of ref none =
    ref.name ++ codes "." ++ ref.namespace ++ codes ".svc.cluster.local:" ++ itoa ref.port

unfoldable pub build_backend_string : List BackendRef → Table Text → Text
unfolding backend_of contains lookup itoa
build_backend_string [] external_names = []
build_backend_string (ref ∷ refs) external_names =
    if contains ref.name (codes ".")
    then ref.name ++ codes ":" ++ itoa ref.port
    else backend_of ref (lookup (ref.name ++ codes "/" ++ ref.namespace) external_names)

unfoldable pub prefix_path : Text → Text → Text
unfolding text_eq
prefix_path prefix path =
    if text_eq path (codes "/") then codes "/" ++ prefix else codes "/" ++ prefix ++ path

abbrev pub header_mode : HeaderMatchType → MatchMode
header_mode HeaderMatchType.regular_expression = MatchMode.regex
header_mode _ = MatchMode.other []

abbrev pub query_mode : QueryParamMatchType → MatchMode
query_mode QueryParamMatchType.regular_expression = MatchMode.regex
query_mode _ = MatchMode.other []

unfoldable pub convert_header_matches : List HeaderMatch → List RouteHeaderMatch
convert_header_matches [] = []
convert_header_matches (h ∷ hs) =
    record { name = h.name; value = h.value; type = header_mode h.type; compiled_regex = none }
    ∷ convert_header_matches hs

unfoldable pub convert_query_param_matches : List QueryParamMatch → List RouteQueryParamMatch
convert_query_param_matches [] = []
convert_query_param_matches (q ∷ qs) =
    record { name = q.name; value = q.value; type = query_mode q.type; compiled_regex = none }
    ∷ convert_query_param_matches qs

-- The route that every branch of `expandRule` appends, with its own path and actions.
unfoldable pub route_for : Text → PathMatch → Text → List RouteAction → Route
unfolding get_match_type get_effective_priority convert_header_matches convert_query_param_matches
route_for backend m path actions = record {
  path = path;
  type = get_match_type m.type;
  backend = backend;
  priority = get_effective_priority m.priority;
  actions = actions;
  method = m.method;
  headers = convert_header_matches m.headers;
  query_params = convert_query_param_matches m.query_params;
  mirrors = [];
  cors = none;
  compiled_regex = none;
}

-- The loop over the prefixes, with `needsPreserve`.
unfoldable pub prefixed_routes : Text → PathMatch → List RouteAction → List Text → List Route
unfolding route_for prefix_path
prefixed_routes backend m actions [] = []
prefixed_routes backend m actions (prefix ∷ prefixes) =
    route_for backend m (prefix_path prefix m.path) (
      if actions_need_preserve_prefix actions
      then apply_preserve_prefix actions prefix
      else actions)
    ∷ prefixed_routes backend m actions prefixes

-- The `switch` on the policy, which has no default.
unfoldable pub by_policy :
    PathPrefixPolicy → Text → PathMatch → List RouteAction → List Text → List Route
unfolding route_for prefixed_routes
by_policy PathPrefixPolicy.disabled backend m actions prefixes =
    route_for backend m m.path actions ∷ []
by_policy PathPrefixPolicy.required backend m actions prefixes =
    prefixed_routes backend m actions prefixes
by_policy PathPrefixPolicy.optional backend m actions prefixes =
    prefixed_routes backend m actions prefixes ++ route_for backend m m.path actions ∷ []
by_policy (PathPrefixPolicy.other t) backend m actions prefixes = []

abbrev pub is_regex_match : MatchType → Bool
is_regex_match MatchType.regex = true
is_regex_match _ = false

-- The body of the loop over the matches.
unfoldable pub expand_match :
    PathPrefixPolicy → List MatchType → List Text → Text → List RouteAction → PathMatch → List Route
unfolding by_policy
expand_match policy types prefixes backend actions m =
    if not (should_expand_match_type m.type types)
    then route_for backend m m.path actions ∷ []
    else if is_regex_match m.type
    then route_for backend m (expand_regex_with_prefixes m.path prefixes policy) actions ∷ []
    else by_policy policy backend m actions prefixes

unfoldable pub expand_matches :
    PathPrefixPolicy
    → List MatchType
    → List Text
    → Text
    → List RouteAction
    → List PathMatch
    → List Route
unfolding expand_match
expand_matches policy types prefixes backend actions [] = []
expand_matches policy types prefixes backend actions (m ∷ ms) =
    expand_match policy types prefixes backend actions m
    ++ expand_matches policy types prefixes backend actions ms

abbrev pub with_mirrors : List RouteMirror → Route → Route
with_mirrors mirrors r = if is_empty mirrors then r else record r { mirrors = mirrors }

abbrev pub with_cors : Option RouteCors → Route → Route
with_cors none r = r
with_cors (some c) r = record r { cors = some c }

abbrev pub prefix_values : Option PathPrefixes → List Text
prefix_values none = []
prefix_values (some p) = p.values

-- `expandRule`
unfoldable pub expand_rule : Option PathPrefixes → Rule → Table Text → List Route
unfolding expand_matches
expand_rule spec rule external_names =
    map (λ r. with_cors (extract_cors rule.actions) (with_mirrors (extract_mirrors rule.actions) r))
      (expand_matches (get_effective_policy spec rule.path_prefixes)
        (get_effective_expand_match_types spec rule.path_prefixes) (prefix_values spec)
        (build_backend_string rule.backend_refs external_names) (convert_actions rule.actions)
        rule.matches)

unfoldable pub expand_rules : Option PathPrefixes → List Rule → Table Text → List Route
unfolding expand_rule
expand_rules spec [] external_names = []
expand_rules spec (rule ∷ rules) external_names =
    expand_rule spec rule external_names ++ expand_rules spec rules external_names

unfoldable pub total_matches : List Rule → ℕ
total_matches [] = 0
total_matches (rule ∷ rules) = length rule.matches + total_matches rules

unfoldable pub estimated_routes : CustomHttpRoute → ℕ
unfolding total_matches
estimated_routes cr =
    length cr.spec.hostnames
    * total_matches cr.spec.rules
    * (length (prefix_values cr.spec.path_prefixes) + 1)

-- The loop over the hostnames.
unfoldable pub fill_hosts : List Text → List Route → Table (List Route) → Table (List Route)
fill_hosts [] routes hosts = hosts
fill_hosts (hostname ∷ hostnames) routes hosts =
    fill_hosts hostnames routes (insert hostname (sort_routes routes) hosts)

-- `ExpandRoutes`; `none` is the error.
unfoldable pub expand_routes : CustomHttpRoute → Table Text → Option (Table (List Route))
expand_routes cr external_names =
    if ltb max_routes_per_crd (estimated_routes cr)
    then none
    else some (
        fill_hosts cr.spec.hostnames
          (expand_rules cr.spec.path_prefixes cr.spec.rules external_names) [])
