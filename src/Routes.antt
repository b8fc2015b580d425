-- ===== src/Routes.antt =====
-- The route table that controller and external processor share: the types of pkg/routes/types.go.
-- The text constants of a route's type, of a header match's type and of an action's type are
-- constructors, and `other` is any other text (the empty one included). The regular expressions of
-- the package `regexp` enter as a parameter of the functions that match. JSON tags and the buffer
-- pool are left out.
pub mod Match
pub mod Sort
pub mod Partition
pub mod Merge
pub mod Loader
pub mod Actions
pub mod Regex
pub mod Policy
pub mod Expand
use customrouter.Base.{Text, codes, ℕ, Bool, List, [], ◌∷◌, Option, Table}
use customrouter.Base.{split}
use customrouter.Base.Int.{ℤ}
use customrouter.Api.{ActionType, BackendRef}

-- A compiled expression: `(*regexp.Regexp).MatchString`.
abbrev pub Matcher : Type 0
Matcher = Text → Bool

pub data RouteType : Type 0 where
  exact prefix regex : RouteType
  other : Text → RouteType

-- HeaderMatchExact and HeaderMatchRegex, for headers and query parameters.
pub data MatchMode : Type 0 where
  exact regex : MatchMode
  other : Text → MatchMode

pub record RouteAction : Type 0 where
  pub type : ActionType
  pub redirect_scheme : Text
  pub redirect_hostname : Text
  pub redirect_path : Text
  pub redirect_port : ℤ
  pub redirect_status_code : ℤ
  pub redirect_replace_prefix_match : Option Bool
  pub rewrite_path : Text
  pub rewrite_hostname : Text
  pub rewrite_replace_prefix_match : Option Bool
  pub header_name : Text
  pub value : Text
  pub preserve_prefix : Bool

pub record RouteHeaderMatch : Type 0 where
  pub name : Text
  pub value : Text
  pub type : MatchMode
  pub compiled_regex : Option Matcher

pub record RouteQueryParamMatch : Type 0 where
  pub name : Text
  pub value : Text
  pub type : MatchMode
  pub compiled_regex : Option Matcher

pub record RouteCors : Type 0 where
  pub allow_origins : List Text
  pub allow_methods : List Text
  pub allow_headers : List Text
  pub expose_headers : List Text
  pub allow_credentials : Bool
  pub max_age : ℤ

pub record RouteMirror : Type 0 where
  pub backend_ref : BackendRef
  pub percent : Option ℤ

pub record Route : Type 0 where
  pub path : Text
  pub type : RouteType
  pub backend : Text
  pub priority : ℤ
  pub actions : List RouteAction
  pub method : Text
  pub headers : List RouteHeaderMatch
  pub query_params : List RouteQueryParamMatch
  pub mirrors : List RouteMirror
  pub cors : Option RouteCors
  pub compiled_regex : Option Matcher

pub record RequestMatch : Type 0 where
  pub path : Text
  pub method : Text
  pub headers : Table Text
  pub query_params : Table Text

-- `partitions` is `none` for the nil map.
pub record RoutesConfig : Type 0 where
  pub version : ℕ
  pub hosts : Table (List Route)
  pub partition_header : Text
  pub partitions : Option (Table (Table (List Route)))

-- `ParseBackend`: exactly one colon separates host and port.
parts_of_backend : Text → List Text → Text × Text
parts_of_backend backend (host ∷ port ∷ []) = (host, port)
parts_of_backend backend _ = (backend, codes "80")

unfoldable pub parse_backend : Route → Text × Text
unfolding parts_of_backend
parse_backend r = parts_of_backend r.backend (split r.backend b':')

-- The text of a route's type.
unfoldable pub type_text : RouteType → Text
type_text RouteType.exact = codes "exact"
type_text RouteType.prefix = codes "prefix"
type_text RouteType.regex = codes "regex"
type_text (RouteType.other t) = t

-- The text of a comparison mode.
unfoldable pub mode_text : MatchMode → Text
mode_text MatchMode.exact = codes "exact"
mode_text MatchMode.regex = codes "regex"
mode_text (MatchMode.other t) = t
