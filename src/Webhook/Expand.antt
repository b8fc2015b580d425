-- ===== src/Webhook/Expand.antt =====
-- The paths that the webhook compares: `expandMatchPath` of internal/webhook/hostname_checker.go, and
-- its agreement with the expansion that the operator performs.
use customrouter.Base.{
  ℕ, Text, codes, text_eq, text_eq_iff, length, All, Bool, true, false, not, List, [], ◌∷◌, ◌++◌,
  map, ◌≡◌, inl, inr, refl, sym, ap, ap₂, ◌∙◌, arith, ltb, if◌then◌else◌, Bool-cases, has_suffix,
  has_suffix_slash, trim_suffix_slash, length-append,
}
use customrouter.Api.{MatchType, PathMatch, PathPrefixPolicy}
use customrouter.Routes.{Route, RouteAction}
use customrouter.Routes.Regex.{expand_regex_with_prefixes}
use customrouter.Routes.Policy.{should_expand_match_type}
use customrouter.Routes.Expand.{
  is_regex_match, prefix_path, route_for, prefixed_routes, by_policy, expand_match,
}
use customrouter.Webhook.{normalize_path}
use mathlib.Core.List.{map-append}

pub record ExpandedPath : Type 0 where
  pub path_type : Text
  pub path : Text

-- The text of a match type.
unfoldable pub match_type_text : MatchType → Text
match_type_text MatchType.path_prefix = codes "PathPrefix"
match_type_text MatchType.exact = codes "Exact"
match_type_text MatchType.regex = codes "Regex"
match_type_text (MatchType.other t) = t

unfoldable pub prefixed_paths : Text → Text → List Text → List ExpandedPath
prefixed_paths path_type path [] = []
prefixed_paths path_type path (prefix ∷ prefixes) =
    record { path_type = path_type; path = codes "/" ++ prefix ++ path }
    ∷ prefixed_paths path_type path prefixes

-- The `switch` on the policy.
unfoldable pub paths_by_policy : PathPrefixPolicy → Text → Text → List Text → List ExpandedPath
unfolding prefixed_paths
paths_by_policy PathPrefixPolicy.disabled path_type path prefixes =
    record { path_type = path_type; path = path } ∷ []
paths_by_policy PathPrefixPolicy.required path_type path prefixes =
    prefixed_paths path_type path prefixes
paths_by_policy PathPrefixPolicy.optional path_type path prefixes =
    prefixed_paths path_type path prefixes ++ record { path_type = path_type; path = path } ∷ []
paths_by_policy (PathPrefixPolicy.other t) path_type path prefixes =
    record { path_type = path_type; path = path } ∷ []

unfoldable pub expand_match_path :
    PathMatch → List Text → PathPrefixPolicy → List MatchType → List ExpandedPath
unfolding match_type_text paths_by_policy should_expand_match_type expand_regex_with_prefixes
expand_match_path m prefixes policy types =
    if not (should_expand_match_type m.type types)
    then record { path_type = match_type_text m.type; path = m.path } ∷ []
    else if is_regex_match m.type
    then record {
      path_type = match_type_text m.type;
      path = expand_regex_with_prefixes m.path prefixes policy;
    }
      ∷ []
    else paths_by_policy policy (match_type_text m.type) m.path prefixes

-- The policies that the resource's schema allows.
abbrev pub is_known : PathPrefixPolicy → Bool
is_known (PathPrefixPolicy.other t) = false
is_known _ = true

abbrev pub compared : List ExpandedPath → List Text
compared = map (λ (p : ExpandedPath). normalize_path p.path)

abbrev pub served : List Route → List Text
served = map (λ (r : Route). normalize_path r.path)

normalize_path-slash : (c : ℕ) (s : Text) → normalize_path ((c ∷ s) ++ codes "/") ≡ c ∷ s
unfolding normalize_path
normalize_path-slash c s =
    let long : ltb 1 (length ((c ∷ s) ++ codes "/")) ≡ true =
      ground (arith, length-append s (codes "/")) in
    rw (long, has_suffix_slash (c ∷ s)) (trim_suffix_slash (c ∷ s))

normalize_path-open : (s : Text) → has_suffix s (codes "/") ≡ false → normalize_path s ≡ s
unfolding normalize_path
normalize_path-open s h = ground (arith, h)

-- The webhook adds a final slash for the root path, which the normalization takes away.
normalize_path-prefix_path :
    (prefix path : Text)
    → has_suffix (b'/' ∷ prefix) (codes "/") ≡ false
    → normalize_path (codes "/" ++ prefix ++ path) ≡ normalize_path (prefix_path prefix path)
unfolding prefix_path
normalize_path-prefix_path prefix path h = elim (Bool-cases (text_eq path (codes "/"))) [
  | inl e ↦
      let root : path ≡ codes "/" = (text_eq_iff path (codes "/")).0 e in
      rw root (normalize_path-slash b'/' prefix ∙ sym (normalize_path-open (b'/' ∷ prefix) h))
  | inr e ↦ rw e refl
]

module _ (backend : Text) (m : PathMatch) (actions : List RouteAction) where
  prefixed_paths-prefixed_routes :
      (type : Text) (prefixes : List Text)
      → All (λ p. has_suffix (b'/' ∷ p) (codes "/") ≡ false) prefixes
      → compared (prefixed_paths type m.path prefixes)
        ≡ served (prefixed_routes backend m actions prefixes)
  unfolding prefixed_paths prefixed_routes route_for
  prefixed_paths-prefixed_routes type [] h = refl
  prefixed_paths-prefixed_routes type (p ∷ ps) (h, hs) =
      ap₂ ◌∷◌ (normalize_path-prefix_path p m.path h) (prefixed_paths-prefixed_routes type ps hs)

  by_policy-agrees :
      (policy : PathPrefixPolicy) (type : Text) (prefixes : List Text)
      → is_known policy ≡ true
      → All (λ p. has_suffix (b'/' ∷ p) (codes "/") ≡ false) prefixes
      → compared (paths_by_policy policy type m.path prefixes)
        ≡ served (by_policy policy backend m actions prefixes)
  unfolding paths_by_policy by_policy route_for
  by_policy-agrees PathPrefixPolicy.disabled type prefixes k h = refl
  by_policy-agrees PathPrefixPolicy.required type prefixes k h =
      prefixed_paths-prefixed_routes type prefixes h
  by_policy-agrees PathPrefixPolicy.optional type prefixes k h =
      map-append _ (prefixed_paths type m.path prefixes) _
      ∙ ap (λ t. t ++ normalize_path m.path ∷ []) (prefixed_paths-prefixed_routes type prefixes h)
      ∙ sym (map-append _ (prefixed_routes backend m actions prefixes) _)
  by_policy-agrees (PathPrefixPolicy.other t) type prefixes k h = cc

  -- Under a policy that the schema allows, and for prefixes that are not empty and do not end in a
  -- slash, the webhook compares, up to one final slash, the very paths of the routes into which the
  -- operator expands the match, in their order.
  pub expand_match_path-expand_match :
      (policy : PathPrefixPolicy) (types : List MatchType) (prefixes : List Text)
      → is_known policy ≡ true
      → All (λ p. has_suffix (b'/' ∷ p) (codes "/") ≡ false) prefixes
      → compared (expand_match_path m prefixes policy types)
        ≡ served (expand_match policy types prefixes backend actions m)
  unfolding expand_match_path expand_match route_for
  expand_match_path-expand_match policy types prefixes k h =
      elim (Bool-cases (should_expand_match_type m.type types)) [
        | inr e ↦ rw e refl
        | inl e ↦ elim (Bool-cases (is_regex_match m.type)) [
          | inl f ↦ rw (e, f) refl
          | inr f ↦ rw (e, f) (by_policy-agrees policy (match_type_text m.type) prefixes k h)
        ]
      ]
