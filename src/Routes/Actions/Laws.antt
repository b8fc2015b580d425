-- ===== src/Routes/Actions/Laws.antt =====
-- What the conversion of actions keeps, drops and changes.
use customrouter.Base.{
  Text, select, false, not, List, [], ◌∷◌, ◌++◌, map, Option, none, some, ◌≡◌, ◌≢◌, inl, inr, refl,
  sym, ap, ap₂, subst, ◌∙◌, arith, Bool-cases, Option-cases,
}
use customrouter.Api.{Action, ActionType, CorsConfig}
use customrouter.Routes.{RouteAction}
use customrouter.Routes.Actions.{
  bare_action, fill_action, is_native, convert_actions, next_cors, last_cors, route_cors,
  extract_cors, actions_need_preserve_prefix, apply_preserve_prefix,
}

type-fill_action : (t : ActionType) (a : Action) → (fill_action t a (bare_action t)).type ≡ t
unfolding fill_action
type-fill_action ActionType.redirect a = ground arith
type-fill_action ActionType.rewrite a = ground arith
type-fill_action ActionType.header_set a = ground arith
type-fill_action ActionType.header_add a = ground arith
type-fill_action ActionType.response_header_set a = ground arith
type-fill_action ActionType.response_header_add a = ground arith
type-fill_action _ a = refl

-- The converted actions have the types of the API actions that are not performed by Envoy itself
-- (mirror and CORS), in their order: none is lost and none is added.
pub types-convert_actions :
    (actions : List Action)
    → map (λ (a : RouteAction). a.type) (convert_actions actions)
      ≡ map (λ (a : Action). a.type) (select (λ a. not (is_native a.type)) actions)
unfolding convert_actions select
types-convert_actions [] = refl
types-convert_actions (a ∷ actions) = elim (Bool-cases (is_native a.type)) [
  | inl t ↦ rw t (types-convert_actions actions)
  | inr t ↦ rw t (ap₂ ◌∷◌ (type-fill_action a.type a) (types-convert_actions actions))
]

last_cors-append :
    (actions more : List Action) (last : Option CorsConfig)
    → last_cors (actions ++ more) last ≡ last_cors more (last_cors actions last)
unfolding last_cors
last_cors-append [] more last = refl
last_cors-append (a ∷ actions) more last =
    last_cors-append actions more (next_cors a.type a.cors last)

last_cors-ne-none : (actions : List Action) (c : CorsConfig) → last_cors actions (some c) ≢ none
unfolding last_cors
last_cors-ne-none [] c = cc
last_cors-ne-none (a ∷ actions) c =
    let (d, e) = next_cors-some a.type a.cors c in
    subst (λ o. last_cors actions o ≢ none) (sym e) (last_cors-ne-none actions d)
  where
    next_cors-some :
        (t : ActionType) (o : Option CorsConfig) (c : CorsConfig)
        → (d : CorsConfig) × (next_cors t o (some c) ≡ some d)
    next_cors-some ActionType.cors (some d) c = (d, refl)
    next_cors-some ActionType.cors none c = (c, refl)
    next_cors-some _ o c = (c, refl)

next_cors-none :
    (t : ActionType) (o last : Option CorsConfig)
    → next_cors t o none ≡ none
    → next_cors t o last ≡ last
next_cors-none ActionType.cors (some d) last h = cc
next_cors-none ActionType.cors none last h = refl
next_cors-none _ o last h = refl

last_cors-none :
    (actions : List Action) (last : Option CorsConfig)
    → last_cors actions none ≡ none
    → last_cors actions last ≡ last
unfolding last_cors
last_cors-none [] last h = refl
last_cors-none (a ∷ actions) last h = elim (Option-cases (next_cors a.type a.cors none)) [
  | inl e ↦
      ap (last_cors actions) (next_cors-none a.type a.cors last e)
      ∙ last_cors-none actions last (subst (λ o. last_cors actions o ≡ none) e h)
  | inr (c, e) ↦ absurd (last_cors-ne-none actions c (subst (λ o. last_cors actions o ≡ none) e h))
]

route_cors-none : (o : Option CorsConfig) → route_cors o ≡ none → o ≡ none
route_cors-none none h = refl
route_cors-none (some c) h = cc

-- Without a later cors action the last one with a configuration wins, whatever stands before it.
pub extract_cors-append :
    (before after : List Action) (a : Action) (c : CorsConfig)
    → a.type ≡ ActionType.cors
    → a.cors ≡ some c
    → extract_cors after ≡ none
    → extract_cors (before ++ a ∷ after) ≡ route_cors (some c)
unfolding extract_cors
extract_cors-append before after a c t e h =
    let now : next_cors a.type a.cors (last_cors before none) ≡ some c = rw (t, e) in
    ap route_cors (
      last_cors-append before (a ∷ after) none
      ∙ ap (last_cors after) now
      ∙ last_cors-none after (some c) (route_cors-none (last_cors after none) h))

-- The guard `needsPreserve` saves a copy and nothing else: where no action is flagged, prepending
-- the prefix changes no action.
pub apply_preserve_prefix_unflagged :
    (actions : List RouteAction) (prefix : Text)
    → actions_need_preserve_prefix actions ≡ false
    → apply_preserve_prefix actions prefix ≡ actions
unfolding actions_need_preserve_prefix apply_preserve_prefix
apply_preserve_prefix_unflagged [] prefix h = refl
apply_preserve_prefix_unflagged (a ∷ actions) prefix h = elim (Bool-cases a.preserve_prefix) [
  | inl t ↦ absurd (ground (arith, h, t))
  | inr t ↦
      ap₂ ◌∷◌ (ground (arith, t))
        (apply_preserve_prefix_unflagged actions prefix (ground (arith, h, t)))
]
