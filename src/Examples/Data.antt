-- ===== src/Examples/Data.antt =====
-- A shop: two rules, two files of routes, and the requests that reach them.
use customrouter.Base.{
  has_prefix, contains, Text, codes, text_eq, Table, true, false, List, [], ◌∷◌, ◌++◌, Option, none,
  some, if◌then◌else◌,
}
use customrouter.Base.Int.{pos}
use customrouter.Api.{
  CustomHttpRoute, Rule, PathMatch, MatchType, Action, ActionType, PathPrefixPolicy, BackendRef,
  CorsConfig,
}
use customrouter.Routes.{
  Matcher, Route, RouteType, RouteAction, RequestMatch, RoutesConfig, RouteHeaderMatch, MatchMode,
}
use customrouter.Routes.Actions.{bare_action}
use customrouter.Extproc.{HttpHeader, RequestVars}

-- A stand-in for `regexp.Compile`: a pattern with a bracket does not compile, any other matches the
-- texts that start with it.
abbrev pub compile : Text → Option Matcher
compile pattern =
    if contains pattern (codes "[") then none else some (λ text. has_prefix text pattern)

abbrev pub backend : BackendRef
backend = record { name = codes "shop"; namespace = codes "web"; port = pos 80 }

abbrev pub path_match : Text → MatchType → PathMatch
path_match path type = record {
  path = path;
  type = type;
  method = [];
  headers = [];
  query_params = [];
  priority = pos 0;
}

abbrev pub action : ActionType → Action
action type = record {
  type = type;
  redirect = none;
  rewrite = none;
  header = none;
  header_name = [];
  mirror = none;
  cors = none;
}

abbrev pub cors_config : CorsConfig
cors_config = record {
  allow_origins = codes "https://a.b" ∷ [];
  allow_methods = [];
  allow_headers = [];
  expose_headers = [];
  allow_credentials = true;
  max_age = pos 0;
}

abbrev pub cors_action : Action
cors_action = record (action ActionType.cors) { cors = some cors_config }

abbrev pub remove_action : Action
remove_action = record (action ActionType.header_remove) { header_name = codes "x-a" }

abbrev pub shop_rule : Rule
shop_rule = record {
  matches =
      path_match (codes "/a") MatchType.path_prefix ∷ path_match (codes "/b") MatchType.exact ∷ [];
  actions = cors_action ∷ remove_action ∷ [];
  backend_refs = backend ∷ [];
  path_prefixes = none;
  allow_overlap = false;
}

abbrev pub shop : CustomHttpRoute
shop = record {
  name = codes "shop";
  namespace = codes "web";
  spec = record {
    target_ref = codes "default";
    hostnames = codes "a.b" ∷ codes "c.d" ∷ [];
    path_prefixes = some (record {
      values = codes "es" ∷ [];
      policy = PathPrefixPolicy.required;
      expand_match_types = [];
    });
    catch_all_route = none;
    rules = shop_rule ∷ [];
  };
}

abbrev pub route : Text → RouteType → Route
route path type = record {
  path = path;
  type = type;
  backend = codes "shop:80";
  priority = pos 1000;
  actions = [];
  method = [];
  headers = [];
  query_params = [];
  mirrors = [];
  cors = none;
  compiled_regex = none;
}

abbrev pub tenant : Text → RouteHeaderMatch
tenant value = record {
  name = codes "X-T";
  value = value;
  type = MatchMode.exact;
  compiled_regex = none;
}

abbrev pub prefix_route : Route
prefix_route = route (codes "/a") RouteType.prefix

abbrev pub exact_route : Route
exact_route = route (codes "/a") RouteType.exact

abbrev pub tenant_route : Route
tenant_route = record exact_route { headers = tenant (codes "t") ∷ [] }

abbrev pub regex_route : Route
regex_route = route (codes "/r") RouteType.regex

abbrev pub files : List Text
files = codes "f" ∷ codes "g" ∷ []

-- A stand-in for the files: "f" holds two routes of the host, any other file two more.
abbrev pub read : Text → Option (Table (List Route))
read file =
    if text_eq file (codes "f")
    then some ((codes "h", prefix_route ∷ regex_route ∷ []) ∷ [])
    else some ((codes "h", tenant_route ∷ exact_route ∷ []) ∷ [])

abbrev pub table : RoutesConfig
table = record {
  version = 1;
  hosts = (codes "h", tenant_route ∷ exact_route ∷ prefix_route ∷ []) ∷ [];
  partition_header = [];
  partitions = none;
}

abbrev pub request : Text → RequestMatch
request path = record {
  path = path;
  method = codes "GET";
  headers = (codes "x-t", codes "t") ∷ [];
  query_params = [];
}

abbrev pub header : Text → Text → HttpHeader
header key value = record { key = key; value = value; raw_value = [] }

abbrev pub headers : List HttpHeader
headers =
    header (codes ":authority") (codes "h")
    ∷ header (codes ":path") (codes "/a/x?q=1")
    ∷ header (codes ":method") (codes "GET")
    ∷ header (codes "X-T") (codes "t")
    ∷ []

abbrev pub vars : RequestVars
vars = record {
  client_ip = [];
  request_id = codes "7";
  host = codes "h";
  path = codes "/a/x?q=1";
  method = codes "GET";
  scheme = codes "https";
  path_segments = codes "a" ∷ codes "x" ∷ [];
}

-- Rewrite the prefix, set a header, remove one.
abbrev pub forward_actions : List RouteAction
forward_actions =
    record (bare_action ActionType.rewrite) { rewrite_path = codes "/n" }
    ∷ record (bare_action ActionType.header_set) {
      header_name = codes "x-i";
      value = codes "${request_id}";
    }
    ∷ record (bare_action ActionType.response_header_add) {
      header_name = codes "x-o";
      value = codes "1";
    }
    ∷ record (bare_action ActionType.header_remove) { header_name = codes "x-r" }
    ∷ []

abbrev pub forward_route : Route
forward_route = record prefix_route { actions = forward_actions }

abbrev pub redirect_action : RouteAction
redirect_action = record (bare_action ActionType.redirect) { redirect_path = codes "/z" }

abbrev pub redirect_route : Route
redirect_route = record prefix_route { actions = forward_actions ++ redirect_action ∷ [] }
