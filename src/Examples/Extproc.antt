-- ===== src/Examples/Extproc.antt =====
-- The phases of a request through the external processor.
use customrouter.Base.{
  has_prefix, has_suffix, false, is_empty, trim_prefix, trim_suffix, join, Text, codes, text_eq,
  Table, true, List, [], ◌∷◌, ◌++◌, Option, none, some, ◌≡◌, ◌⊎◌, refl, if◌then◌else◌,
}
use customrouter.Routes.{Route, RequestMatch}
use customrouter.Extproc.{ProcessingRequest, ProcessingResponse}
use customrouter.Extproc.Reading.{Reading, read_request, request_match, no_reading}
use customrouter.Extproc.Reading.Laws.{IsConsistent, read_request-IsConsistent}
use customrouter.Extproc.Target.{strip_query_string, split_path, join_redirect_path}
use customrouter.Extproc.Target.Path.{split_path-join}
use customrouter.Extproc.Target.Join.{goes_on, join_redirect_path_lem, matched_suffix_lem}
use customrouter.Extproc.Redirect.{matched_suffix}
use customrouter.Extproc.Forward.{build_forward_response}
use customrouter.Extproc.Forward.Asked.{
  collect, last_or, envoy_headers, new_authority, new_path, hostname_of, path_of, header_of,
  removal_of,
}
use customrouter.Extproc.Forward.Laws.{build_forward_response-collect}
use customrouter.Extproc.Phases.{process, process_request, response_for, respond}
use customrouter.Extproc.Phases.Laws.{new_stream, process-response, RespondsTo, respond-RespondsTo}
use customrouter.Extproc.Phases.Response.{
  response_header_of, response_removal_of, changes_response, response_for-collect,
}
use customrouter.Routes.Match.{match_prefix}
use customrouter.Examples.Data.{headers, vars, forward_route, redirect_route}

-- A stand-in for `url.ParseQuery`.
abbrev parse_query : Text → Option (Table (List Text))
parse_query query = some ((codes "q", query ∷ []) ∷ [])

abbrev find : Text → RequestMatch → Option Route
find host req = if text_eq host (codes "h") then some forward_route else none

abbrev reading : Reading
reading = record no_reading { authority = codes "h"; vars = vars }

process-response_example :
    (process_request parse_query find ProcessingRequest.response_headers
      (process parse_query find
        (ProcessingRequest.request_headers (some headers) ∷ ProcessingRequest.request_body ∷ [])
        new_stream).1).response
    ≡ some (
        response_for
          (find
            (read_request parse_query (some headers)).authority
            (request_match parse_query (read_request parse_query (some headers))))
          (some (read_request parse_query (some headers)).vars))
process-response_example =
    process-response parse_query find (some headers) (ProcessingRequest.request_body ∷ [])
      (refl, tt)

respond-RespondsTo_example : RespondsTo redirect_route reading (respond redirect_route reading)
respond-RespondsTo_example = respond-RespondsTo redirect_route reading

build_forward_response-collect_example :
    build_forward_response forward_route vars (codes "h")
    ≡ ProcessingResponse.request_headers true (record {
      set_headers =
          (envoy_headers forward_route (codes "h")
            ++ collect (λ a. header_of vars a.type a) forward_route.actions)
          ++ new_authority forward_route.backend (
              last_or forward_route.backend
                (collect (λ a. hostname_of a.type a) forward_route.actions))
          ++ new_path vars.path (
              last_or vars.path
                (collect (λ a. path_of forward_route vars a.type a) forward_route.actions));
      remove_headers = collect (λ a. removal_of a.type a) forward_route.actions;
    })
build_forward_response-collect_example =
    build_forward_response-collect forward_route vars (codes "h")

response_for-collect_example :
    response_for (some forward_route) (some vars)
    ≡ ProcessingResponse.response_headers (
        if changes_response (some vars) forward_route.actions
        then some (record {
          set_headers =
              collect (λ a. response_header_of (some vars) a.type a) forward_route.actions;
          remove_headers = collect (λ a. response_removal_of a.type a) forward_route.actions;
        })
        else none)
response_for-collect_example = response_for-collect (some vars) forward_route

matched_suffix_lem_example :
    ((has_prefix (codes "/a?x") (codes "/a/") ≡ true)
      × (codes "/a?x" ≡ codes "/a/" ++ matched_suffix (codes "/a/") (codes "/a?x")))
    ⊎ ((has_prefix (codes "/a?x") (codes "/a/") ≡ false)
        × (has_suffix (codes "/a/") (codes "/") ≡ true)
        × (codes "/a?x"
            ≡ trim_suffix (codes "/a/") (codes "/") ++ matched_suffix (codes "/a/") (codes "/a?x")))
unfolding match_prefix strip_query_string
matched_suffix_lem_example = matched_suffix_lem (codes "/a/") (codes "/a?x") refl

join_redirect_path_lem_example : join_redirect_path (codes "/n/") (codes "/x") ≡ (
    if goes_on (codes "/x")
    then trim_suffix (codes "/n/") (codes "/") ++ b'/' ∷ trim_prefix (codes "/x") (codes "/")
    else codes "/n/" ++ codes "/x")
join_redirect_path_lem_example = join_redirect_path_lem (codes "/n/") (codes "/x")

split_path-join_example :
    split_path (b'/' ∷ join (codes "a" ∷ codes "b" ∷ []) (codes "/") ++ codes "?q")
    ≡ codes "a" ∷ codes "b" ∷ []
split_path-join_example =
    split_path-join (codes "a" ∷ codes "b" ∷ []) (codes "?q")
      ((refl, ((refl, refl), tt)), ((refl, ((refl, refl), tt)), tt)) refl

read_request-IsConsistent_example :
    IsConsistent parse_query (read_request parse_query (some headers))
    × (is_empty (read_request parse_query (some headers)).vars.scheme ≡ false)
read_request-IsConsistent_example = read_request-IsConsistent parse_query (some headers)
