-- ===== src/Routes/Actions.antt =====
-- From API actions to route actions: `convertActions`, `extractMirrors`, `extractCORS`,
-- `actionsNeedPreservePrefix` and `applyPreservePrefix` of pkg/routes/expand.go. A pointer to a
-- fresh Bool is that Bool.
pub mod Laws
use customrouter.Base.{
  ℕ, zero, suc, ◌+◌, ◌-◌, ◌*◌, ◌≤◌, ◌<◌, Text, codes, text_eq, text_eq_iff, text_eq_refl, length,
  All, All-append, All-imp, select, any, first, Table, lookup, insert, lookup-insert, is_empty,
  Bool, true, false, not, ◌&&◌, ◌||◌, &&_iff, List, [], ◌∷◌, ◌++◌, map, append_assoc, append-nil,
  Option, none, some, ◌≡◌, ◌≢◌, ◌⊎◌, ◌↔◌, inl, inr, refl, sym, ap, ap₂, subst, ◌∙◌, arith, ◌==◌,
  ltb, leb, if◌then◌else◌, Bool-cases, Option-cases,
}
use customrouter.Base.Int.{int_eq, ℤ, pos}
use customrouter.Api.{
  MirrorConfig, Action, ActionType, RedirectConfig, RewriteConfig, HeaderConfig, CorsConfig,
}
use customrouter.Routes.{RouteAction, RouteMirror, RouteCors}

-- `p != nil && *p`
abbrev pub is_set : Option Bool → Bool
is_set none = false
is_set (some b) = b

abbrev pub port_or_zero : Option ℤ → ℤ
port_or_zero none = pos 0
port_or_zero (some p) = p

abbrev pub default_status : ℤ → ℤ
default_status code = if int_eq code (pos 0) then pos 302 else code

-- `RouteAction{Type: …}`
abbrev pub bare_action : ActionType → RouteAction
bare_action type = record {
  type = type;
  redirect_scheme = [];
  redirect_hostname = [];
  redirect_path = [];
  redirect_port = pos 0;
  redirect_status_code = pos 0;
  redirect_replace_prefix_match = none;
  rewrite_path = [];
  rewrite_hostname = [];
  rewrite_replace_prefix_match = none;
  header_name = [];
  value = [];
  preserve_prefix = false;
}

pub set_redirect : RouteAction → Option RedirectConfig → RouteAction
set_redirect action none = action
set_redirect action (some r) = record action {
  redirect_scheme = r.scheme;
  redirect_hostname = r.hostname;
  redirect_path = r.path;
  redirect_port = port_or_zero r.port;
  redirect_status_code = default_status r.status_code;
  redirect_replace_prefix_match = r.replace_prefix_match;
  preserve_prefix = is_set r.preserve_prefix;
}

pub set_rewrite : RouteAction → Option RewriteConfig → RouteAction
set_rewrite action none = action
set_rewrite action (some r) = record action {
  rewrite_path = r.path;
  rewrite_hostname = r.hostname;
  rewrite_replace_prefix_match = r.replace_prefix_match;
  preserve_prefix = is_set r.preserve_prefix;
}

pub set_header : RouteAction → Option HeaderConfig → RouteAction
set_header action none = action
set_header action (some h) = record action { header_name = h.name; value = h.value }

-- The `switch` on the type.
pub fill_action : ActionType → Action → RouteAction → RouteAction
unfolding set_redirect set_rewrite set_header
fill_action ActionType.redirect a action = set_redirect action a.redirect
fill_action ActionType.rewrite a action = set_rewrite action a.rewrite
fill_action ActionType.header_set a action = set_header action a.header
fill_action ActionType.header_add a action = set_header action a.header
fill_action ActionType.response_header_set a action = set_header action a.header
fill_action ActionType.response_header_add a action = set_header action a.header
fill_action ActionType.header_remove a action = record action { header_name = a.header_name }
fill_action ActionType.response_header_remove a action = record action {
  header_name = a.header_name;
}
fill_action ActionType.request_mirror a action = action
fill_action ActionType.cors a action = action
fill_action (ActionType.other t) a action = action

-- The actions that Envoy itself performs.
abbrev pub is_native : ActionType → Bool
is_native ActionType.request_mirror = true
is_native ActionType.cors = true
is_native _ = false

unfoldable pub convert_actions : List Action → List RouteAction
unfolding fill_action
convert_actions [] = []
convert_actions (a ∷ actions) =
    if is_native a.type
    then convert_actions actions
    else fill_action a.type a (bare_action a.type) ∷ convert_actions actions

abbrev pub mirror_of : ActionType → Option MirrorConfig → List RouteMirror
mirror_of ActionType.request_mirror (some m) =
    record { backend_ref = m.backend_ref; percent = m.percent } ∷ []
mirror_of _ _ = []

unfoldable pub extract_mirrors : List Action → List RouteMirror
extract_mirrors [] = []
extract_mirrors (a ∷ actions) = mirror_of a.type a.mirror ++ extract_mirrors actions

-- The loop of `extractCORS`, with `last`.
abbrev pub next_cors : ActionType → Option CorsConfig → Option CorsConfig → Option CorsConfig
next_cors ActionType.cors (some c) last = some c
next_cors _ _ last = last

pub last_cors : List Action → Option CorsConfig → Option CorsConfig
last_cors [] last = last
last_cors (a ∷ actions) last = last_cors actions (next_cors a.type a.cors last)

abbrev pub route_cors : Option CorsConfig → Option RouteCors
route_cors none = none
route_cors (some c) = some (record {
  allow_origins = c.allow_origins;
  allow_methods = c.allow_methods;
  allow_headers = c.allow_headers;
  expose_headers = c.expose_headers;
  allow_credentials = c.allow_credentials;
  max_age = c.max_age;
})

unfoldable pub extract_cors : List Action → Option RouteCors
unfolding last_cors
extract_cors actions = route_cors (last_cors actions none)

unfoldable pub actions_need_preserve_prefix : List RouteAction → Bool
actions_need_preserve_prefix [] = false
actions_need_preserve_prefix (a ∷ actions) =
    if a.preserve_prefix then true else actions_need_preserve_prefix actions

abbrev pub prefixed_text : Text → Text → Text
prefixed_text pfx path = if is_empty path then path else pfx ++ path

-- The body of the loop of `applyPreservePrefix`.
unfoldable pub preserve_in : Text → RouteAction → RouteAction
preserve_in prefix a = if not a.preserve_prefix then a else record a {
  rewrite_path = prefixed_text (b'/' ∷ prefix) a.rewrite_path;
  redirect_path = prefixed_text (b'/' ∷ prefix) a.redirect_path;
}

unfoldable pub apply_preserve_prefix : List RouteAction → Text → List RouteAction
unfolding preserve_in
apply_preserve_prefix actions prefix = map (preserve_in prefix) actions
