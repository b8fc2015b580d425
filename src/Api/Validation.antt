-- ===== src/Api/Validation.antt =====
-- The checks of a CustomHTTPRoute: api/v1alpha1/customhttproute_validation.go. The text of an error
-- is left out; its kind and its indices stay. `none` is a nil error. `compiles` tells whether
-- `regexp.Compile` accepts a pattern.
pub mod Origin
pub mod Actions
pub mod Rules
use customrouter.Base.{
  ℕ, zero, suc, ◌+◌, ◌-◌, ◌*◌, ◌≤◌, ◌<◌, Text, codes, text_eq, text_eq_iff, text_eq_refl, length,
  All, All-append, All-imp, select, any, first, Table, lookup, insert, lookup-insert, is_empty,
  Bool, true, false, not, ◌&&◌, ◌||◌, &&_iff, List, [], ◌∷◌, ◌++◌, map, append_assoc, append-nil,
  Option, none, some, ◌≡◌, ◌≢◌, ◌⊎◌, ◌↔◌, inl, inr, refl, sym, ap, ap₂, subst, ◌∙◌, arith, ◌==◌,
  ltb, leb, if◌then◌else◌, Bool-cases, Option-cases, has_prefix, contains, replace_all, drop,
  is_some,
}
use customrouter.Base.Int.{int_lt, ℤ, pos}
use customrouter.Api.{
  Action, ActionType, RedirectConfig, RewriteConfig, HeaderConfig, MirrorConfig, CorsConfig, Rule,
  PathMatch, MatchType, CustomHttpRoute,
}

pub data ActionError : Type 0 where
  redirect_missing redirect_empty rewrite_missing rewrite_empty : ActionError
  header_missing header_unnamed header_name_missing : ActionError
  mirror_missing mirror_unnamed mirror_no_namespace mirror_bad_port mirror_bad_percent : ActionError
  cors_missing cors_no_origins cors_credentials : ActionError
  cors_bad_origin : ℕ → ActionError
  unknown_type : Text → ActionError

pub data RuleError : Type 0 where
  backend_required : ℕ → RuleError
  bad_action : ℕ → ℕ → ActionError → RuleError
  bad_placeholder : ℕ → ℕ → RuleError
  preserve_with_regex : ℕ → RuleError
  replace_with_regex : ℕ → RuleError

-- `if err := …; err != nil { return err }`
infixr 20 ◌then_check◌
abbrev pub ◌then_check◌ {ℓ} : {E : Type ℓ} → Option E → Option E → Option E
none then_check rest = rest
some e then_check rest = some e

abbrev pub fail_if {ℓ} : {E : Type ℓ} → Bool → E → Option E
fail_if true e = some e
fail_if false e = none

abbrev pub int_le : ℤ → ℤ → Bool
int_le a b = not (int_lt b a)

-- `strings.ContainsAny(rest, "/?#")`
abbrev pub is_delimiter : ℕ → Bool
is_delimiter c = c == b'/' || (c == b'?' || c == b'#')

abbrev pub is_bare_host : Text → Bool
is_bare_host rest = not (is_empty rest) && not (any is_delimiter rest)

unfoldable pub is_valid_cors_origin : Text → Bool
is_valid_cors_origin origin =
    if has_prefix origin (codes "https://")
    then is_bare_host (drop 8 origin)
    else if has_prefix origin (codes "http://")
    then is_bare_host (drop 7 origin)
    else false

-- The loop over the origins: an error, or `hasWildcardOrigin`.
unfoldable pub scan_origins : ℕ → List Text → Bool → ActionError ⊎ Bool
scan_origins i [] wildcard = inr wildcard
scan_origins i (origin ∷ origins) wildcard =
    let star = scan_origins (i + 1) origins true in
    let plain = scan_origins (i + 1) origins wildcard in
    if text_eq origin (codes "*")
    then star
    else if not (is_valid_cors_origin origin)
    then inl (cors_bad_origin i)
    else plain

abbrev pub check_wildcard : ActionError ⊎ Bool → Bool → Option ActionError
check_wildcard (inl e) credentials = some e
check_wildcard (inr wildcard) credentials = fail_if (wildcard && credentials) cors_credentials

unfoldable pub validate_redirect_action : Option RedirectConfig → Option ActionError
validate_redirect_action none = some redirect_missing
validate_redirect_action (some r) =
    fail_if
      (is_empty r.scheme && (is_empty r.hostname && (is_empty r.path && not (is_some r.port))))
      redirect_empty

unfoldable pub validate_rewrite_action : Option RewriteConfig → Option ActionError
validate_rewrite_action none = some rewrite_missing
validate_rewrite_action (some r) = fail_if (is_empty r.path && is_empty r.hostname) rewrite_empty

unfoldable pub validate_header_action : Option HeaderConfig → Option ActionError
validate_header_action none = some header_missing
validate_header_action (some h) = fail_if (is_empty h.name) header_unnamed

unfoldable pub validate_header_remove_action : Text → Option ActionError
validate_header_remove_action name = fail_if (is_empty name) header_name_missing

abbrev pub bad_percent : Option ℤ → Bool
bad_percent none = false
bad_percent (some p) = int_lt p (pos 0) || int_lt (pos 100) p

unfoldable pub validate_mirror_action : Option MirrorConfig → Option ActionError
validate_mirror_action none = some mirror_missing
validate_mirror_action (some m) =
    fail_if (is_empty m.backend_ref.name) mirror_unnamed
    then_check fail_if (is_empty m.backend_ref.namespace) mirror_no_namespace
    then_check fail_if (int_le m.backend_ref.port (pos 0) || int_lt (pos 65535) m.backend_ref.port)
        mirror_bad_port
    then_check fail_if (bad_percent m.percent) mirror_bad_percent

unfoldable pub validate_cors_action : Option CorsConfig → Option ActionError
validate_cors_action none = some cors_missing
validate_cors_action (some c) =
    fail_if (is_empty c.allow_origins) cors_no_origins
    then_check check_wildcard (scan_origins 0 c.allow_origins false) c.allow_credentials

-- The `switch` of `validateAction`.
unfoldable pub validate_action : ActionType → Action → Option ActionError
validate_action ActionType.redirect a = validate_redirect_action a.redirect
validate_action ActionType.rewrite a = validate_rewrite_action a.rewrite
validate_action ActionType.header_set a = validate_header_action a.header
validate_action ActionType.header_add a = validate_header_action a.header
validate_action ActionType.response_header_set a = validate_header_action a.header
validate_action ActionType.response_header_add a = validate_header_action a.header
validate_action ActionType.header_remove a = validate_header_remove_action a.header_name
validate_action ActionType.response_header_remove a = validate_header_remove_action a.header_name
validate_action ActionType.request_mirror a = validate_mirror_action a.mirror
validate_action ActionType.cors a = validate_cors_action a.cors
validate_action (ActionType.other t) a = some (unknown_type t)

abbrev pub is_redirect : ActionType → Bool
is_redirect ActionType.redirect = true
is_redirect _ = false

abbrev pub is_regex_type : MatchType → Bool
is_regex_type MatchType.regex = true
is_regex_type _ = false

abbrev pub is_true : Option Bool → Bool
is_true none = false
is_true (some b) = b

abbrev pub redirect_replaces : Option RedirectConfig → Bool
redirect_replaces none = false
redirect_replaces (some r) = is_true r.replace_prefix_match

abbrev pub redirect_preserves : Option RedirectConfig → Bool
redirect_preserves none = false
redirect_preserves (some r) = is_true r.preserve_prefix

abbrev pub rewrite_preserves : Option RewriteConfig → Bool
rewrite_preserves none = false
rewrite_preserves (some r) = is_true r.preserve_prefix

-- `HasRedirectAction`, and the first loop of `validateRule`.
unfoldable pub has_redirect_action : List Action → Bool
has_redirect_action actions = any (λ (a : Action). is_redirect a.type) actions

unfoldable pub rule_has_redirect_replace_prefix_match : Rule → Bool
rule_has_redirect_replace_prefix_match rule =
    any (λ (a : Action). redirect_replaces a.redirect) rule.actions

unfoldable pub rule_has_preserve_prefix : Rule → Bool
rule_has_preserve_prefix rule =
    any (λ (a : Action). rewrite_preserves a.rewrite || redirect_preserves a.redirect) rule.actions

unfoldable pub rule_has_regex_match : Rule → Bool
rule_has_regex_match rule = any (λ (m : PathMatch). is_regex_type m.type) rule.matches

abbrev pub at_action : ℕ → ℕ → Option ActionError → Option RuleError
at_action i j none = none
at_action i j (some e) = some (bad_action i j e)

unfoldable pub check_actions : ℕ → ℕ → List Action → Option RuleError
check_actions i j [] = none
check_actions i j (a ∷ actions) =
    at_action i j (validate_action a.type a) then_check check_actions i (j + 1) actions

module _ (compiles : Text → Bool) where
  -- A regular expression with the placeholder has to compile when that stands for a group.
  unfoldable pub is_bad_pattern : PathMatch → Bool
  is_bad_pattern m =
      is_regex_type m.type
      && (contains m.path (codes "{prefix}")
          && not (compiles (replace_all m.path (codes "{prefix}") (codes "(test)"))))

  unfoldable pub check_patterns : ℕ → ℕ → List PathMatch → Option RuleError
  check_patterns i j [] = none
  check_patterns i j (m ∷ ms) =
      if is_bad_pattern m then some (bad_placeholder i j) else check_patterns i (j + 1) ms

  unfoldable pub validate_rule : ℕ → Rule → Option RuleError
  validate_rule i rule =
      fail_if (not (has_redirect_action rule.actions) && is_empty rule.backend_refs)
        (backend_required i)
      then_check check_actions i 0 rule.actions
      then_check check_patterns i 0 rule.matches
      then_check fail_if (rule_has_preserve_prefix rule && rule_has_regex_match rule)
          (preserve_with_regex i)
      then_check fail_if (rule_has_redirect_replace_prefix_match rule && rule_has_regex_match rule)
          (replace_with_regex i)

  unfoldable pub validate_rules : ℕ → List Rule → Option RuleError
  validate_rules i [] = none
  validate_rules i (rule ∷ rules) = validate_rule i rule then_check validate_rules (i + 1) rules

  -- `Validate`
  unfoldable pub validate : CustomHttpRoute → Option RuleError
  validate cr = validate_rules 0 cr.spec.rules
