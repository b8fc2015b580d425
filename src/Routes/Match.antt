-- ===== src/Routes/Match.antt =====
-- Matching a request against a route: `Match` and its four parts, and `CompileRegexes`, of
-- pkg/routes/types.go. `compile` stands for `regexp.Compile`; `none` is its error.
pub mod Path
pub mod Compiled
use customrouter.Base.{
  Text, codes, text_eq, lookup, to_lower, equal_fold, has_prefix, has_suffix, trim_suffix, length,
  drop, is_empty, Bool, true, false, ◌&&◌, ◌||◌, List, [], ◌∷◌, Option, none, some, Table, ◌==◌,
  if◌then◌else◌,
}
use customrouter.Routes.{
  Matcher, MatchMode, Route, RouteHeaderMatch, RouteQueryParamMatch, RouteType, RequestMatch,
  RoutesConfig,
}

-- `len(rest) == 0 || rest[0] == '/'`
unfoldable pub at_boundary : Text → Bool
at_boundary [] = true
at_boundary (c ∷ rest) = c == b'/'

-- The branch for RouteTypePrefix.
unfoldable pub match_prefix : Text → Text → Bool
unfolding at_boundary has_prefix has_suffix trim_suffix
match_prefix pattern path =
    if has_prefix path pattern
      && (at_boundary (drop (length pattern) path) || has_suffix pattern (codes "/"))
    then true
    else if has_suffix pattern (codes "/") && text_eq path (trim_suffix pattern (codes "/"))
    then true
    else false

unfoldable pub match_method : Text → Text → Bool
match_method required method = if is_empty required then true else equal_fold required method

infixl 5 ◌>>=◌
abbrev pub ◌>>=◌ {ℓ κ} : {A : Type ℓ} {B : Type κ} → Option A → (A → Option B) → Option B
none >>= f = none
some a >>= f = f a

module _ (compile : Text → Option Matcher) where
  -- A regular expression against a text: the compiled one if there is one, else on the fly.
  unfoldable pub match_regex : Option Matcher → Text → Text → Bool
  match_regex (some re) pattern value = re value
  match_regex none pattern value = elim (compile pattern) [ none ↦ false | some re ↦ re value ]

  -- `matchPath`
  unfoldable pub match_path : RouteType → Option Matcher → Text → Text → Bool
  unfolding match_regex match_prefix
  match_path RouteType.exact compiled pattern path = text_eq path pattern
  match_path RouteType.prefix compiled pattern path = match_prefix pattern path
  match_path RouteType.regex compiled pattern path = match_regex compiled pattern path
  match_path (RouteType.other t) compiled pattern path = false

  -- The `switch` on the type of a header match or of a query parameter match.
  unfoldable pub match_value : MatchMode → Option Matcher → Text → Text → Bool
  unfolding match_regex
  match_value MatchMode.regex compiled pattern value = match_regex compiled pattern value
  match_value MatchMode.exact compiled pattern value = text_eq value pattern
  match_value (MatchMode.other t) compiled pattern value = text_eq value pattern

  -- A missing header or parameter fails the match.
  unfoldable pub match_found : MatchMode → Option Matcher → Text → Option Text → Bool
  match_found type compiled pattern none = false
  match_found type compiled pattern (some value) = match_value type compiled pattern value

  unfoldable pub match_headers : Table Text → List RouteHeaderMatch → Bool
  unfolding match_found
  match_headers request [] = true
  match_headers request (h ∷ hs) =
      match_found h.type h.compiled_regex h.value (lookup (to_lower h.name) request)
      && match_headers request hs

  unfoldable pub match_query_params : Table Text → List RouteQueryParamMatch → Bool
  unfolding match_found
  match_query_params request [] = true
  match_query_params request (q ∷ qs) =
      match_found q.type q.compiled_regex q.value (lookup q.name request)
      && match_query_params request qs

  -- `Match`: method, headers, query parameters, then the path.
  unfoldable pub matches : RequestMatch → Route → Bool
  unfolding match_method match_headers match_query_params match_path
  matches req r =
      if match_method r.method req.method
      then if match_headers req.headers r.headers
        then if match_query_params req.query_params r.query_params
          then match_path r.type r.compiled_regex r.path req.path
          else false
        else false
      else false

  -- The parts of `CompileRegexes`; `none` is the first error.
  unfoldable pub compile_path : RouteType → Text → Option Matcher → Option (Option Matcher)
  compile_path RouteType.regex path compiled = do re ← compile path; some (some re)
  compile_path _ path compiled = some compiled

  unfoldable pub compile_value : MatchMode → Text → Option Matcher → Option (Option Matcher)
  compile_value MatchMode.regex value compiled = do re ← compile value; some (some re)
  compile_value _ value compiled = some compiled

  unfoldable pub compile_headers : List RouteHeaderMatch → Option (List RouteHeaderMatch)
  unfolding compile_value
  compile_headers [] = some []
  compile_headers (h ∷ hs) = do
    re ← compile_value h.type h.value h.compiled_regex
    rest ← compile_headers hs
    some (record h { compiled_regex = re } ∷ rest)

  unfoldable pub compile_query_params :
      List RouteQueryParamMatch → Option (List RouteQueryParamMatch)
  unfolding compile_value
  compile_query_params [] = some []
  compile_query_params (q ∷ qs) = do
    re ← compile_value q.type q.value q.compiled_regex
    rest ← compile_query_params qs
    some (record q { compiled_regex = re } ∷ rest)

  unfoldable pub compile_route : Route → Option Route
  unfolding compile_path compile_headers compile_query_params
  compile_route r = do
    re ← compile_path r.type r.path r.compiled_regex
    hs ← compile_headers r.headers
    qs ← compile_query_params r.query_params
    some (record r { compiled_regex = re; headers = hs; query_params = qs })

  unfoldable pub compile_routes : List Route → Option (List Route)
  unfolding compile_route
  compile_routes [] = some []
  compile_routes (r ∷ rs) = do r' ← compile_route r; rest ← compile_routes rs; some (r' ∷ rest)

  unfoldable pub compile_hosts : Table (List Route) → Option (Table (List Route))
  unfolding compile_routes
  compile_hosts [] = some []
  compile_hosts ((host, rs) ∷ more) = do
    rs' ← compile_routes rs
    rest ← compile_hosts more
    some ((host, rs') ∷ rest)

  -- `CompileRegexes`
  unfoldable pub compile_regexes : RoutesConfig → Option RoutesConfig
  unfolding compile_hosts
  compile_regexes rc = do hosts ← compile_hosts rc.hosts; some (record rc { hosts = hosts })
