-- ===== src/Examples/Api.antt =====
-- The checks of resources and actions.
use customrouter.Base.{
  contains, ℕ, zero, suc, ◌+◌, ◌-◌, ◌*◌, ◌≤◌, ◌<◌, Text, codes, text_eq, text_eq_iff, text_eq_refl,
  length, All-append, All-imp, select, any, first, Table, lookup, insert, lookup-insert, is_empty,
  Bool, true, false, not, ◌&&◌, ◌||◌, &&_iff, List, [], ◌∷◌, ◌++◌, map, append_assoc, append-nil,
  Option, none, some, ◌≡◌, ◌≢◌, ◌⊎◌, ◌↔◌, inl, inr, refl, sym, ap, ap₂, subst, ◌∙◌, arith, ◌==◌,
  ltb, leb, if◌then◌else◌, Bool-cases, Option-cases,
}
use customrouter.Api.{Action, ActionType, CustomHttpRoute, CustomHttpRouteSpec, Rule}
use customrouter.Api.Validation.{validate, validate_action, is_valid_cors_origin}
use customrouter.Api.Validation.Actions.{IsValidAction, validate_action_iff}
use customrouter.Api.Validation.Origin.{IsOrigin, is_valid_cors_origin_iff}
use customrouter.Examples.Data.{shop, cors_action}

abbrev compiles : Text → Bool
compiles pattern = not (contains pattern (codes "["))

validate_action_iff_example :
    (validate_action ActionType.cors cors_action ≡ none) ↔ IsValidAction ActionType.cors cors_action
validate_action_iff_example = validate_action_iff ActionType.cors cors_action

is_valid_cors_origin_iff_example :
    (is_valid_cors_origin (codes "https://a.b") ≡ true) ↔ IsOrigin (codes "https://a.b")
is_valid_cors_origin_iff_example = is_valid_cors_origin_iff (codes "https://a.b")

-- The shop is accepted; an origin with a path is not.
shop_valid : validate compiles shop ≡ none
unfolding validate customrouter.Api.Validation.validate_rules
    customrouter.Api.Validation.validate_rule customrouter.Api.Validation.has_redirect_action any
    customrouter.Api.Validation.check_actions validate_action
    customrouter.Api.Validation.validate_cors_action customrouter.Api.Validation.scan_origins
    text_eq is_valid_cors_origin customrouter.Base.has_prefix
    customrouter.Api.Validation.validate_header_remove_action
    customrouter.Api.Validation.check_patterns customrouter.Api.Validation.is_bad_pattern
    customrouter.Api.Validation.rule_has_preserve_prefix
    customrouter.Api.Validation.rule_has_redirect_replace_prefix_match
shop_valid = refl

path_refused : is_valid_cors_origin (codes "https://a.b/c") ≡ false
unfolding is_valid_cors_origin customrouter.Base.has_prefix any
path_refused = refl
