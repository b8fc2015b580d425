-- ===== src/Api.antt =====
-- The CustomHTTPRoute resource: api/v1alpha1/customhttproute_types.go. Each Go string type with
-- declared constants is a data type with a constructor for each constant and `other` for any other
-- text. A pointer or an omitted struct is an `Option`. Documentation fields of Kubernetes
-- (TypeMeta, ListMeta, conditions) are left out; of the metadata the name and the namespace stay.
pub mod Validation
use customrouter.Base.{Text, Bool, List, Option}
use customrouter.Base.Int.{ℤ, pos}

pub data PathPrefixPolicy : Type 0 where
  optional required disabled : PathPrefixPolicy
  other : Text → PathPrefixPolicy

pub data MatchType : Type 0 where
  path_prefix exact regex : MatchType
  other : Text → MatchType

pub data HeaderMatchType : Type 0 where
  exact regular_expression : HeaderMatchType
  other : Text → HeaderMatchType

pub data QueryParamMatchType : Type 0 where
  exact regular_expression : QueryParamMatchType
  other : Text → QueryParamMatchType

pub record HeaderMatch : Type 0 where
  pub name : Text
  pub value : Text
  pub type : HeaderMatchType

pub record QueryParamMatch : Type 0 where
  pub name : Text
  pub value : Text
  pub type : QueryParamMatchType

pub data ActionType : Type 0 where
  redirect rewrite header_set header_add header_remove : ActionType
  response_header_set response_header_add response_header_remove : ActionType
  request_mirror cors : ActionType
  other : Text → ActionType

-- The constant 1000.
abbrev pub default_priority : ℤ
default_priority = pos 1000

pub record PathPrefixes : Type 0 where
  pub values : List Text
  pub policy : PathPrefixPolicy
  pub expand_match_types : List MatchType

pub record PathMatch : Type 0 where
  pub path : Text
  pub type : MatchType
  pub method : Text
  pub headers : List HeaderMatch
  pub query_params : List QueryParamMatch
  pub priority : ℤ

pub record BackendRef : Type 0 where
  pub name : Text
  pub namespace : Text
  pub port : ℤ

pub record RewriteConfig : Type 0 where
  pub path : Text
  pub replace_prefix_match : Option Bool
  pub hostname : Text
  pub preserve_prefix : Option Bool

pub record RedirectConfig : Type 0 where
  pub scheme : Text
  pub hostname : Text
  pub path : Text
  pub replace_prefix_match : Option Bool
  pub port : Option ℤ
  pub status_code : ℤ
  pub preserve_prefix : Option Bool

pub record MirrorConfig : Type 0 where
  pub backend_ref : BackendRef
  pub percent : Option ℤ

pub record CorsConfig : Type 0 where
  pub allow_origins : List Text
  pub allow_methods : List Text
  pub allow_headers : List Text
  pub expose_headers : List Text
  pub allow_credentials : Bool
  pub max_age : ℤ

pub record HeaderConfig : Type 0 where
  pub name : Text
  pub value : Text

pub record Action : Type 0 where
  pub type : ActionType
  pub redirect : Option RedirectConfig
  pub rewrite : Option RewriteConfig
  pub header : Option HeaderConfig
  pub header_name : Text
  pub mirror : Option MirrorConfig
  pub cors : Option CorsConfig

pub record RulePathPrefixes : Type 0 where
  pub policy : PathPrefixPolicy
  pub expand_match_types : List MatchType

pub record Rule : Type 0 where
  pub matches : List PathMatch
  pub actions : List Action
  pub backend_refs : List BackendRef
  pub path_prefixes : Option RulePathPrefixes
  pub allow_overlap : Bool

pub record CustomHttpRouteSpec : Type 0 where
  pub target_ref : Text
  pub hostnames : List Text
  pub path_prefixes : Option PathPrefixes
  pub catch_all_route : Option BackendRef
  pub rules : List Rule

pub record CustomHttpRoute : Type 0 where
  pub name : Text
  pub namespace : Text
  pub spec : CustomHttpRouteSpec
