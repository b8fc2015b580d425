-- ===== src/Extproc/Phases/Laws.antt =====
-- The order of the phases on one stream, and what each phase answers.
use customrouter.Base.{
  Text, All, first, Table, Bool, true, false, List, [], ◌∷◌, ◌++◌, Option, none, some, ◌≡◌, ◌⊎◌,
  inl, inr, refl, ap, Bool-cases,
}
use customrouter.Routes.{Route, RouteAction, RequestMatch}
use customrouter.Extproc.{StreamContext, HttpHeader, ProcessingRequest, ProcessingResponse}
use customrouter.Extproc.Reading.{Reading, read_request, request_match}
use customrouter.Extproc.Phases.{
  process, process_request, process_request_headers, process_response_headers, response_for,
  request_outcome, respond, route_response, is_redirect,
}
use customrouter.Extproc.Redirect.{build_redirect_response}
use customrouter.Extproc.Forward.{build_forward_response}

abbrev pub new_stream : StreamContext
new_stream = record { matched_route = none; vars = none }

abbrev pub is_request_headers : ProcessingRequest → Bool
is_request_headers (ProcessingRequest.request_headers headers) = true
is_request_headers _ = false

module _ (parse_query : Text → Option (Table (List Text)))
    (find_route : Text → RequestMatch → Option Route) where
  -- Only the request headers change the stream context.
  process-stream_context :
      (reqs : List ProcessingRequest) (ctx : StreamContext)
      → All (λ req. is_request_headers req ≡ false) reqs
      → (process parse_query find_route reqs ctx).1 ≡ ctx
  unfolding process process_request
  process-stream_context [] ctx h = refl
  process-stream_context (ProcessingRequest.request_headers headers ∷ reqs) ctx (e, h) = cc
  process-stream_context (ProcessingRequest.response_headers ∷ reqs) ctx (e, h) =
      process-stream_context reqs ctx h
  process-stream_context (ProcessingRequest.request_body ∷ reqs) ctx (e, h) =
      process-stream_context reqs ctx h
  process-stream_context (ProcessingRequest.response_body ∷ reqs) ctx (e, h) =
      process-stream_context reqs ctx h
  process-stream_context (ProcessingRequest.other ∷ reqs) ctx (e, h) =
      process-stream_context reqs ctx h

  request_outcome-response :
      (found : Option Route) (r : Reading)
      → process_response_headers (request_outcome found r new_stream).stream_context
        ≡ response_for found (some r.vars)
  unfolding request_outcome process_response_headers response_for
  request_outcome-response none r = refl
  request_outcome-response (some route) r = refl

  -- On a fresh stream, after the request headers and any messages that are not request headers,
  -- the answer to the response headers is built from the route found for that request, if one was
  -- found, and from that request's own variables.
  pub process-response :
      (headers : Option (List HttpHeader)) (between : List ProcessingRequest)
      → All (λ req. is_request_headers req ≡ false) between
      → (process_request parse_query find_route ProcessingRequest.response_headers
          (process parse_query find_route
            (ProcessingRequest.request_headers headers ∷ between)
            new_stream).1).response
        ≡ some (
            response_for
              (find_route
                (read_request parse_query headers).authority
                (request_match parse_query (read_request parse_query headers)))
              (some (read_request parse_query headers).vars))
  unfolding process process_request process_request_headers
  process-response headers between h = rw (process-stream_context between _ h) (
      ap some (
        request_outcome-response
          (find_route (read_request parse_query headers).authority
            (request_match parse_query (read_request parse_query headers)))
          (read_request parse_query headers)))

abbrev pub IsFirstRedirect : RouteAction → List RouteAction → Type 0
IsFirstRedirect action actions =
    (before : List RouteAction) × (after : List RouteAction) × (actions ≡ before ++ action ∷ after)
    × All (λ a. is_redirect a.type ≡ false) before
    × (is_redirect action.type ≡ true)

-- The response is the redirect of the first redirect action, or, when no action redirects, the
-- forwarding.
abbrev pub RespondsTo : Route → Reading → ProcessingResponse → Type 0
RespondsTo route r response =
    ((action : RouteAction) × IsFirstRedirect action route.actions
      × (response ≡ build_redirect_response action route r.vars))
    ⊎ (All (λ a. is_redirect a.type ≡ false) route.actions
        × (response ≡ build_forward_response route r.vars r.authority))

first-IsFirstRedirect :
    (actions : List RouteAction)
    → ((action : RouteAction) × IsFirstRedirect action actions
        × (first (λ a. is_redirect a.type) actions ≡ some action))
      ⊎ (All (λ a. is_redirect a.type ≡ false) actions
          × (first (λ a. is_redirect a.type) actions ≡ none))
unfolding first
first-IsFirstRedirect [] = inr (tt, refl)
first-IsFirstRedirect (a ∷ actions) = elim (Bool-cases (is_redirect a.type)) [
  | inl e ↦ inl (a, ([], actions, refl, tt, e), rw e refl)
  | inr e ↦ elim (first-IsFirstRedirect actions) [
    | inl (b, (before, after, q, h, g), f) ↦
        inl (b, (a ∷ before, after, ap (◌∷◌ a) q, (e, h), g), rw e f)
    | inr (h, f) ↦ inr ((e, h), rw e f)
  ]
]

-- Redirects take precedence over forwarding, whatever the other actions are.
pub respond-RespondsTo : (route : Route) (r : Reading) → RespondsTo route r (respond route r)
unfolding respond route_response
respond-RespondsTo route r = elim (first-IsFirstRedirect route.actions) [
  | inl (action, h, e) ↦ inl (action, h, rw e refl)
  | inr (h, e) ↦ inr (h, rw e refl)
]
