-- ===== src/Extproc.antt =====
-- The external processor's data: internal/extproc/router.go and processor.go, with the messages of
-- Envoy's ext_proc protocol as far as the processor fills them. Logging, metrics and the clock are
-- left out, so is the request context's `processingTimeNs`; a message's error result is always nil.
pub mod Target
pub mod Variables
pub mod Reading
pub mod Redirect
pub mod Forward
pub mod Phases
use customrouter.Base.{
  ℕ, zero, suc, ◌+◌, ◌-◌, ◌*◌, ◌≤◌, ◌<◌, Text, codes, text_eq, text_eq_iff, text_eq_refl, length,
  All, All-append, All-imp, select, any, first, Table, lookup, insert, lookup-insert, is_empty,
  Bool, true, false, not, ◌&&◌, ◌||◌, &&_iff, List, [], ◌∷◌, ◌++◌, map, append_assoc, append-nil,
  Option, none, some, ◌≡◌, ◌≢◌, ◌⊎◌, ◌↔◌, inl, inr, refl, sym, ap, ap₂, subst, ◌∙◌, arith, ◌==◌,
  ltb, leb, if◌then◌else◌, Bool-cases, Option-cases,
}
use customrouter.Base.Int.{ℤ}
use customrouter.Routes.{Route, RouteType}

pub record RequestVars : Type 0 where
  pub client_ip : Text
  pub request_id : Text
  pub host : Text
  pub path : Text
  pub method : Text
  pub scheme : Text
  pub path_segments : List Text

pub record RequestContext : Type 0 where
  pub authority : Text
  pub path : Text
  pub method : Text
  pub matched_backend : Text
  pub matched_pattern : Text
  pub matched_type : RouteType
  pub matched_priority : ℤ
  pub route_found : Bool

-- The two pointers of `streamContext`, set together.
pub record StreamContext : Type 0 where
  pub matched_route : Option Route
  pub vars : Option RequestVars

pub record HttpHeader : Type 0 where
  pub key : Text
  pub value : Text
  pub raw_value : Text

-- `HeaderValueOption_AppendAction`; `unset` where the processor names none.
pub data AppendAction : Type 0 where
  unset append_if_exists_or_add overwrite_if_exists_or_add : AppendAction

pub record HeaderValueOption : Type 0 where
  pub key : Text
  pub raw_value : Text
  pub append_action : AppendAction

pub record HeaderMutation : Type 0 where
  pub set_headers : List HeaderValueOption
  pub remove_headers : List Text

-- `request_headers` carries `ClearRouteCache` and the mutation, `immediate_response` the status.
pub data ProcessingResponse : Type 0 where
  request_headers : Bool → HeaderMutation → ProcessingResponse
  immediate_response : ℤ → HeaderMutation → ProcessingResponse
  response_headers : Option HeaderMutation → ProcessingResponse
  request_body response_body : ProcessingResponse

-- The arms of `processRequest`; a nil `Headers` is `none`.
pub data ProcessingRequest : Type 0 where
  request_headers : Option (List HttpHeader) → ProcessingRequest
  response_headers request_body response_body other : ProcessingRequest
