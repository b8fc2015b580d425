-- ===== src/Extproc/Phases.antt =====
-- `processRequest` of internal/extproc/processor.go with its two handlers, `processRequestHeaders`
-- and `processResponseHeaders` of internal/extproc/router.go. The stream context comes in and goes
-- out as a value. `find_route` stands for the interface RouteFinder, `parse_query` for
-- `url.ParseQuery`.
pub mod Laws
pub mod Response
use customrouter.Base.{
  ℕ, zero, suc, ◌+◌, ◌-◌, ◌*◌, ◌≤◌, ◌<◌, Text, codes, text_eq, text_eq_iff, text_eq_refl, length,
  All, All-append, All-imp, select, any, first, Table, lookup, insert, lookup-insert, is_empty,
  Bool, true, false, not, ◌&&◌, ◌||◌, &&_iff, List, [], ◌∷◌, ◌++◌, map, append_assoc, append-nil,
  Option, none, some, ◌≡◌, ◌≢◌, ◌⊎◌, ◌↔◌, inl, inr, refl, sym, ap, ap₂, subst, ◌∙◌, arith, ◌==◌,
  ltb, leb, if◌then◌else◌, Bool-cases, Option-cases, to_lower,
}
use customrouter.Base.Int.{ℤ, pos}
use customrouter.Api.{ActionType}
use customrouter.Routes.{Route, RouteAction, RouteType, RequestMatch}
use customrouter.Extproc.{
  RequestVars, RequestContext, StreamContext, HttpHeader, ProcessingRequest, ProcessingResponse,
  HeaderMutation, HeaderValueOption, AppendAction,
}
use customrouter.Extproc.Target.{extract_first_ip}
use customrouter.Extproc.Variables.{substitute_variables}
use customrouter.Extproc.Redirect.{build_redirect_response}
use customrouter.Extproc.Forward.{build_forward_response, header_option}
use customrouter.Extproc.Reading.{request_match, Reading, read_request}

abbrev pub is_redirect : ActionType → Bool
is_redirect ActionType.redirect = true
is_redirect _ = false

-- The response for the route found: the first redirect action, or the forwarding.
unfoldable pub route_response : Option RouteAction → Route → Reading → ProcessingResponse
unfolding build_redirect_response build_forward_response
route_response (some action) route r = build_redirect_response action route r.vars
route_response none route r = build_forward_response route r.vars r.authority

unfoldable pub respond : Route → Reading → ProcessingResponse
unfolding first
respond route r = route_response (first (λ a. is_redirect a.type) route.actions) route r

abbrev pub not_found_context : Reading → RequestContext
not_found_context r = record {
  authority = r.authority;
  path = r.path;
  method = r.method;
  matched_backend = [];
  matched_pattern = [];
  matched_type = RouteType.other [];
  matched_priority = pos 0;
  route_found = false;
}

abbrev pub found_context : Route → Reading → RequestContext
found_context route r = record (not_found_context r) {
  matched_backend = route.backend;
  matched_pattern = route.path;
  matched_type = route.type;
  matched_priority = route.priority;
  route_found = true;
}

-- The cluster header is taken away, so that a client cannot choose the cluster.
abbrev pub not_found_response : ProcessingResponse
not_found_response =
    ProcessingResponse.request_headers false
      (record { set_headers = []; remove_headers = codes "x-customrouter-cluster" ∷ [] })

-- What a handler leaves: the response, nil for none, the context for the access log, and the stream
-- context.
pub record Outcome : Type 0 where
  pub response : Option ProcessingResponse
  pub request_context : Option RequestContext
  pub stream_context : StreamContext

unfoldable pub request_outcome : Option Route → Reading → StreamContext → Outcome
unfolding respond
request_outcome none r ctx = record {
  response = some not_found_response;
  request_context = some (not_found_context r);
  stream_context = ctx;
}
request_outcome (some route) r ctx = record {
  response = some (respond route r);
  request_context = some (found_context route r);
  stream_context = record { matched_route = some route; vars = some r.vars };
}

-- The loop of `processResponseHeaders`.
unfoldable pub response_set :
    AppendAction → RouteAction → Option RequestVars → HeaderMutation → HeaderMutation
response_set append action vars m = if is_empty action.header_name then m else record m {
  set_headers =
      m.set_headers
      ++ header_option action.header_name (substitute_variables action.value vars) append ∷ [];
}

unfoldable pub response_remove : RouteAction → HeaderMutation → HeaderMutation
response_remove action m =
    if is_empty action.header_name
    then m
    else record m { remove_headers = m.remove_headers ++ action.header_name ∷ [] }

unfoldable pub response_action :
    ActionType → RouteAction → Option RequestVars → HeaderMutation → HeaderMutation
unfolding response_set response_remove
response_action ActionType.response_header_set a vars m =
    response_set AppendAction.overwrite_if_exists_or_add a vars m
response_action ActionType.response_header_add a vars m =
    response_set AppendAction.append_if_exists_or_add a vars m
response_action ActionType.response_header_remove a vars m = response_remove a m
response_action _ a vars m = m

unfoldable pub response_mutation :
    List RouteAction → Option RequestVars → HeaderMutation → HeaderMutation
unfolding response_action
response_mutation [] vars m = m
response_mutation (a ∷ actions) vars m =
    response_mutation actions vars (response_action a.type a vars m)

unfoldable pub response_of : HeaderMutation → ProcessingResponse
response_of m =
    if is_empty m.set_headers && is_empty m.remove_headers
    then ProcessingResponse.response_headers none
    else ProcessingResponse.response_headers (some m)

unfoldable pub response_for : Option Route → Option RequestVars → ProcessingResponse
unfolding response_mutation response_of
response_for none vars = ProcessingResponse.response_headers none
response_for (some route) vars =
    response_of
      (response_mutation route.actions vars (record { set_headers = []; remove_headers = [] }))

unfoldable pub process_response_headers : StreamContext → ProcessingResponse
unfolding response_for
process_response_headers ctx = response_for ctx.matched_route ctx.vars

abbrev pub without_context : Option ProcessingResponse → StreamContext → Outcome
without_context response ctx = record {
  response = response;
  request_context = none;
  stream_context = ctx;
}

module _ (parse_query : Text → Option (Table (List Text)))
    (find_route : Text → RequestMatch → Option Route) where
  unfoldable pub process_request_headers : Option (List HttpHeader) → StreamContext → Outcome
  unfolding read_request request_outcome
  process_request_headers headers ctx =
      let r = read_request parse_query headers in
      request_outcome (find_route r.authority (request_match parse_query r)) r ctx

  unfoldable pub process_request : ProcessingRequest → StreamContext → Outcome
  unfolding process_request_headers process_response_headers
  process_request (ProcessingRequest.request_headers headers) ctx =
      process_request_headers headers ctx
  process_request ProcessingRequest.response_headers ctx =
      without_context (some (process_response_headers ctx)) ctx
  process_request ProcessingRequest.request_body ctx =
      without_context (some ProcessingResponse.request_body) ctx
  process_request ProcessingRequest.response_body ctx =
      without_context (some ProcessingResponse.response_body) ctx
  process_request ProcessingRequest.other ctx = without_context none ctx

  -- The loop of `Process` over the messages received, as long as the stream does not fail: the
  -- responses sent, in order, and the stream context at the end.
  pub sent : Option ProcessingResponse → List ProcessingResponse → List ProcessingResponse
  sent none responses = responses
  sent (some response) responses = response ∷ responses

  unfoldable pub process :
      List ProcessingRequest → StreamContext → List ProcessingResponse × StreamContext
  unfolding process_request sent
  process [] ctx = ([], ctx)
  process (req ∷ reqs) ctx =
      let out = process_request req ctx in
      let rest = process reqs out.stream_context in (sent out.response rest.0, rest.1)
