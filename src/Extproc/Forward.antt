-- ===== src/Extproc/Forward.antt =====
-- `buildForwardResponse` and `shouldReplacePrefixMatch` of internal/extproc/router.go.
pub mod Asked
pub mod Laws
use customrouter.Base.{
  ℕ, zero, suc, ◌+◌, ◌-◌, ◌*◌, ◌≤◌, ◌<◌, Text, codes, text_eq, text_eq_iff, text_eq_refl, length,
  All, All-append, All-imp, select, any, first, Table, lookup, insert, lookup-insert, is_empty,
  Bool, true, false, not, ◌&&◌, ◌||◌, &&_iff, List, [], ◌∷◌, ◌++◌, map, append_assoc, append-nil,
  Option, none, some, ◌≡◌, ◌≢◌, ◌⊎◌, ◌↔◌, inl, inr, refl, sym, ap, ap₂, subst, ◌∙◌, arith, ◌==◌,
  ltb, leb, if◌then◌else◌, Bool-cases, Option-cases, contains,
}
use customrouter.Base.Int.{ℤ, pos}
use customrouter.Api.{ActionType}
use customrouter.Routes.{Route, RouteAction, RouteType, parse_backend, type_text}
use customrouter.Extproc.{
  RequestVars, ProcessingResponse, HeaderMutation, HeaderValueOption, AppendAction,
}
use customrouter.Extproc.Redirect.{matched_suffix, is_prefix_type}
use customrouter.Extproc.Variables.{substitute_variables}

abbrev pub header_option : Text → Text → AppendAction → HeaderValueOption
header_option key value append = record { key = key; raw_value = value; append_action = append }

unfoldable pub replaces_prefix : Option Bool → RouteAction → Route → Bool
unfolding contains
replaces_prefix (some b) action route = b
replaces_prefix none action route =
    is_prefix_type route.type && not (contains action.rewrite_path (codes "${"))

unfoldable pub should_replace_prefix_match : RouteAction → Route → Bool
unfolding replaces_prefix
should_replace_prefix_match action route =
    replaces_prefix action.rewrite_replace_prefix_match action route

-- The path that one rewrite action asks for.
unfoldable pub rewritten_path : RouteAction → Route → RequestVars → Text
rewritten_path action route vars =
    let base = substitute_variables action.rewrite_path (some vars) in
    if should_replace_prefix_match action route
    then base ++ matched_suffix route.path vars.path
    else base

-- The variables of the loop over the actions.
pub record Forward : Type 0 where
  pub final_authority : Text
  pub final_path : Text
  pub set_headers : List HeaderValueOption
  pub remove_headers : List Text

module _ (route : Route) (vars : RequestVars) where
  unfoldable pub apply_rewrite : RouteAction → Forward → Forward
  apply_rewrite action f = record f {
    final_path =
        if is_empty action.rewrite_path then f.final_path else rewritten_path action route vars;
    final_authority =
        if is_empty action.rewrite_hostname then f.final_authority else action.rewrite_hostname;
  }

  unfoldable pub apply_header : AppendAction → RouteAction → Forward → Forward
  apply_header append action f = if is_empty action.header_name then f else record f {
    set_headers =
        f.set_headers
        ++ header_option action.header_name (substitute_variables action.value (some vars)) append
          ∷ [];
  }

  unfoldable pub apply_remove : RouteAction → Forward → Forward
  apply_remove action f =
      if is_empty action.header_name
      then f
      else record f { remove_headers = f.remove_headers ++ action.header_name ∷ [] }

  -- The `switch` on the action's type.
  unfoldable pub apply_typed : ActionType → RouteAction → Forward → Forward
  unfolding apply_rewrite apply_header apply_remove
  apply_typed ActionType.rewrite a f = apply_rewrite a f
  apply_typed ActionType.header_set a f = apply_header AppendAction.overwrite_if_exists_or_add a f
  apply_typed ActionType.header_add a f = apply_header AppendAction.append_if_exists_or_add a f
  apply_typed ActionType.header_remove a f = apply_remove a f
  apply_typed ActionType.redirect a f = f
  apply_typed ActionType.request_mirror a f = f
  apply_typed ActionType.cors a f = f
  apply_typed ActionType.response_header_set a f = f
  apply_typed ActionType.response_header_add a f = f
  apply_typed ActionType.response_header_remove a f = f
  apply_typed (ActionType.other t) a f = f

  unfoldable pub apply_actions : List RouteAction → Forward → Forward
  unfolding apply_typed
  apply_actions [] f = f
  apply_actions (a ∷ actions) f = apply_actions actions (apply_typed a.type a f)

  unfoldable pub cluster_name : Text
  cluster_name =
      let backend = parse_backend route in codes "outbound|" ++ backend.1 ++ codes "||" ++ backend.0

  unfoldable pub base_headers : Text → List HeaderValueOption
  unfolding cluster_name type_text
  base_headers authority =
      header_option (codes "x-customrouter-cluster") cluster_name AppendAction.unset
      ∷ header_option (codes "x-original-authority") authority AppendAction.unset
      ∷ header_option (codes "x-customrouter-matched-path") route.path AppendAction.unset
      ∷ header_option (codes "x-customrouter-matched-type") (type_text route.type)
          AppendAction.unset
      ∷ []

  unfoldable pub authority_headers : Text → List HeaderValueOption
  authority_headers authority =
      if not (text_eq authority route.backend)
      then header_option (codes ":authority") authority AppendAction.overwrite_if_exists_or_add
        ∷ header_option (codes "host") authority AppendAction.overwrite_if_exists_or_add
        ∷ []
      else []

  unfoldable pub path_headers : Text → List HeaderValueOption
  path_headers path =
      if not (text_eq path vars.path)
      then header_option (codes "x-envoy-original-path") vars.path
          AppendAction.overwrite_if_exists_or_add
        ∷ header_option (codes ":path") path AppendAction.overwrite_if_exists_or_add
        ∷ []
      else []

  -- The variables after the loop.
  unfoldable pub forwarded : Text → Forward
  unfolding apply_actions base_headers
  forwarded authority = apply_actions route.actions (record {
    final_authority = route.backend;
    final_path = vars.path;
    set_headers = base_headers authority;
    remove_headers = [];
  })

  unfoldable pub build_forward_response : Text → ProcessingResponse
  unfolding forwarded authority_headers path_headers
  build_forward_response authority =
      let f = forwarded authority in
      ProcessingResponse.request_headers true (record {
        set_headers =
            f.set_headers ++ authority_headers f.final_authority ++ path_headers f.final_path;
        remove_headers = f.remove_headers;
      })
