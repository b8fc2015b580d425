-- ===== src/Extproc/Redirect.antt =====
-- `buildRedirectResponse` and `shouldReplacePrefixMatchForRedirect` of internal/extproc/router.go.
use customrouter.Base.{
  Text, codes, text_eq, is_empty, Bool, true, false, not, ◌&&◌, ◌||◌, [], ◌∷◌, ◌++◌, Option, none,
  some, if◌then◌else◌, trim_prefix, trim_suffix, has_suffix,
}
use customrouter.Base.Int.{int_eq, int_lt, ℤ, pos, itoa}
use customrouter.Routes.{Route, RouteAction, RouteType}
use customrouter.Extproc.{RequestVars, ProcessingResponse, AppendAction}
use customrouter.Extproc.Target.{strip_port, join_redirect_path}
use customrouter.Extproc.Variables.{substitute_variables}

abbrev pub is_prefix_type : RouteType → Bool
is_prefix_type RouteType.prefix = true
is_prefix_type _ = false

abbrev pub flag : Option Bool → Bool
flag none = false
flag (some b) = b

unfoldable pub should_replace_prefix_match_for_redirect : RouteAction → Route → Bool
should_replace_prefix_match_for_redirect action route =
    flag action.redirect_replace_prefix_match && is_prefix_type route.type

-- What follows the matched prefix in the request target, as redirects and rewrites compute it: a
-- route with a final slash may have matched the path without it.
unfoldable pub matched_suffix : Text → Text → Text
matched_suffix pattern path =
    let suffix = trim_prefix path pattern in
    if text_eq suffix path && has_suffix pattern (codes "/")
    then trim_prefix path (trim_suffix pattern (codes "/"))
    else suffix

unfoldable pub redirect_path : RouteAction → Route → RequestVars → Text
redirect_path action route vars =
    let path = substitute_variables action.redirect_path (some vars) in
    if is_empty path
    then vars.path
    else if should_replace_prefix_match_for_redirect action route
    then join_redirect_path path (matched_suffix route.path vars.path)
    else path

-- The port stands in the location unless it is the scheme's own.
unfoldable pub redirect_port : Text → ℤ → Text
unfolding text_eq itoa
redirect_port scheme port =
    if int_lt (pos 0) port
    then (if (not (text_eq scheme (codes "http")) || not (int_eq port (pos 80)))
          && (not (text_eq scheme (codes "https")) || not (int_eq port (pos 443)))
        then codes ":" ++ itoa port
        else [])
    else []

abbrev pub or_else : Text → Text → Text
or_else text fallback = if is_empty text then fallback else text

unfoldable pub redirect_url : RouteAction → Route → RequestVars → Text
redirect_url action route vars =
    let scheme = or_else action.redirect_scheme vars.scheme in
    let hostname = or_else action.redirect_hostname (strip_port vars.host) in
    scheme
    ++ codes "://"
    ++ hostname
    ++ redirect_port scheme action.redirect_port
    ++ redirect_path action route vars

abbrev pub redirect_status : ℤ → ℤ
redirect_status code = if int_eq code (pos 0) then pos 302 else code

unfoldable pub build_redirect_response : RouteAction → Route → RequestVars → ProcessingResponse
build_redirect_response action route vars =
    ProcessingResponse.immediate_response (redirect_status action.redirect_status_code) (record {
      set_headers =
          record {
            key = codes "location";
            raw_value = redirect_url action route vars;
            append_action = AppendAction.unset;
          }
          ∷ [];
      remove_headers = [];
    })
