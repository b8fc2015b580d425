-- ===== src/Extproc/Forward/Asked.antt =====
-- What the actions of a route ask for in a forwarded request, told without the loop of
-- `buildForwardResponse` in internal/extproc/router.go, and that its helpers agree with it.
use customrouter.Base.{
  Text, is_empty, true, List, [], ◌∷◌, ◌++◌, append-nil, some, ◌≡◌, inl, inr, refl, if◌then◌else◌,
  Bool-cases, text_eq, codes, contains, Bool, Option, false, none, sym,
}
use customrouter.Api.{ActionType}
use customrouter.Routes.{Route, RouteAction, RouteType, parse_backend, type_text}
use customrouter.Extproc.Redirect.{matched_suffix}
use customrouter.Extproc.{RequestVars, HeaderValueOption, AppendAction}
use customrouter.Extproc.Variables.{substitute_variables}
use customrouter.Extproc.Forward.{
  header_option, rewritten_path, base_headers, authority_headers, path_headers,
  should_replace_prefix_match, cluster_name,
}

-- The last of some values, or a default.
module _ {ℓ} {A : Type ℓ} where
  abbrev pub last_or : A → List A → A
  last_or d [] = d
  last_or d (x ∷ xs) = last_or x xs

  pub last_or-append : (d : A) (xs ys : List A) → last_or d (xs ++ ys) ≡ last_or (last_or d xs) ys
  last_or-append d [] ys = refl
  last_or-append d (x ∷ xs) ys = last_or-append x xs ys

abbrev pub collect {ℓ κ} : {A : Type ℓ} {B : Type κ} → (A → List B) → List A → List B
collect f [] = []
collect f (x ∷ xs) = f x ++ collect f xs

abbrev pub unless_empty {ℓ} : {A : Type ℓ} → Text → A → List A
unless_empty text x = if is_empty text then [] else x ∷ []

-- What one action of each type asks for.
abbrev pub hostname_of : ActionType → RouteAction → List Text
hostname_of ActionType.rewrite a = unless_empty a.rewrite_hostname a.rewrite_hostname
hostname_of _ a = []

-- What a rewrite keeps of the request's path: what follows the matched prefix if its flag says so,
-- and without the flag if the route is one of a prefix and the path to set has no variable.
abbrev pub kept_suffix : Option Bool → RouteType → RouteAction → Route → RequestVars → Text
kept_suffix (some true) t a route vars = matched_suffix route.path vars.path
kept_suffix (some false) t a route vars = []
kept_suffix none RouteType.prefix a route vars =
    if contains a.rewrite_path (codes "${") then [] else matched_suffix route.path vars.path
kept_suffix none _ a route vars = []

abbrev pub path_of : Route → RequestVars → ActionType → RouteAction → List Text
path_of route vars ActionType.rewrite a = unless_empty a.rewrite_path (
    substitute_variables a.rewrite_path (some vars)
    ++ kept_suffix a.rewrite_replace_prefix_match route.type a route vars)
path_of route vars _ a = []

abbrev pub named_header : AppendAction → RouteAction → RequestVars → List HeaderValueOption
named_header append a vars =
    unless_empty a.header_name
      (header_option a.header_name (substitute_variables a.value (some vars)) append)

abbrev pub header_of : RequestVars → ActionType → RouteAction → List HeaderValueOption
header_of vars ActionType.header_set a = named_header AppendAction.overwrite_if_exists_or_add a vars
header_of vars ActionType.header_add a = named_header AppendAction.append_if_exists_or_add a vars
header_of vars _ a = []

abbrev pub removal_of : ActionType → RouteAction → List Text
removal_of ActionType.header_remove a = unless_empty a.header_name a.header_name
removal_of _ a = []

-- The headers that tell Envoy of the match.
abbrev pub envoy_headers : Route → Text → List HeaderValueOption
envoy_headers route authority =
    header_option (codes "x-customrouter-cluster")
      (codes "outbound|" ++ (parse_backend route).1 ++ codes "||" ++ (parse_backend route).0)
      AppendAction.unset
    ∷ header_option (codes "x-original-authority") authority AppendAction.unset
    ∷ header_option (codes "x-customrouter-matched-path") route.path AppendAction.unset
    ∷ header_option (codes "x-customrouter-matched-type") (type_text route.type) AppendAction.unset
    ∷ []

-- The headers for an authority that is not the backend.
abbrev pub new_authority : Text → Text → List HeaderValueOption
new_authority backend authority =
    if text_eq authority backend
    then []
    else header_option (codes ":authority") authority AppendAction.overwrite_if_exists_or_add
      ∷ header_option (codes "host") authority AppendAction.overwrite_if_exists_or_add
      ∷ []

-- The headers for a path that is not the request's.
abbrev pub new_path : Text → Text → List HeaderValueOption
new_path asked path =
    if text_eq path asked
    then []
    else header_option (codes "x-envoy-original-path") asked AppendAction.overwrite_if_exists_or_add
      ∷ header_option (codes ":path") path AppendAction.overwrite_if_exists_or_add
      ∷ []

module _ (route : Route) (vars : RequestVars) where
  kept_suffix_lem :
      (flag : Option Bool) (t : RouteType) (a : RouteAction) (base : Text)
      → a.rewrite_replace_prefix_match ≡ flag
      → route.type ≡ t
      → (if should_replace_prefix_match a route
          then base ++ matched_suffix route.path vars.path
          else base)
        ≡ base ++ kept_suffix flag t a route vars
  unfolding should_replace_prefix_match
  kept_suffix_lem (some true) t a base f e = rw f refl
  kept_suffix_lem (some false) t a base f e = rw f (sym (append-nil base))
  kept_suffix_lem none RouteType.exact a base f e = rw (f, e) (sym (append-nil base))
  kept_suffix_lem none RouteType.regex a base f e = rw (f, e) (sym (append-nil base))
  kept_suffix_lem none (RouteType.other o) a base f e = rw (f, e) (sym (append-nil base))
  kept_suffix_lem none RouteType.prefix a base f e =
      rw (f, e)
        (elim (Bool-cases (contains a.rewrite_path (codes "${"))) [
          | inl c ↦ rw c (sym (append-nil base))
          | inr c ↦ rw c refl
        ])

  pub rewritten_path_lem :
      (a : RouteAction)
      → rewritten_path a route vars
        ≡ substitute_variables a.rewrite_path (some vars)
          ++ kept_suffix a.rewrite_replace_prefix_match route.type a route vars
  unfolding rewritten_path
  rewritten_path_lem a =
      kept_suffix_lem a.rewrite_replace_prefix_match route.type a
        (substitute_variables a.rewrite_path (some vars)) refl refl

  pub base_headers_lem :
      (authority : Text) → base_headers route vars authority ≡ envoy_headers route authority
  unfolding base_headers cluster_name
  base_headers_lem authority = refl

  pub authority_headers_lem :
      (authority : Text)
      → authority_headers route vars authority ≡ new_authority route.backend authority
  unfolding authority_headers
  authority_headers_lem authority = elim (Bool-cases (text_eq authority route.backend)) [
    | inl e ↦ rw e refl
    | inr e ↦ rw e refl
  ]

  pub path_headers_lem : (path : Text) → path_headers route vars path ≡ new_path vars.path path
  unfolding path_headers
  path_headers_lem path = elim (Bool-cases (text_eq path vars.path)) [
    | inl e ↦ rw e refl
    | inr e ↦ rw e refl
  ]
