-- ===== src/Api/Validation/Rules.antt =====
-- What a valid resource is.
use customrouter.Base.{Text, All, any, Bool, true, false, ◌||◌, List, [], ◌≡◌, ◌≢◌, ◌⊎◌}
use customrouter.Api.{Action, Rule, PathMatch}
use customrouter.Api.Validation.Actions.{IsValidAction}
use customrouter.Api.Validation.{
  is_bad_pattern, is_redirect, is_regex_type, rewrite_preserves, redirect_preserves,
  redirect_replaces,
}

-- A property of no element of a list.
abbrev NoAction : (Action → Bool) → List Action → Type 0
NoAction p = All (λ a. p a ≡ false)

abbrev NoMatch : (PathMatch → Bool) → List PathMatch → Type 0
NoMatch p = All (λ m. p m ≡ false)

module _ (compiles : Text → Bool) where
  -- A rule that can be served: a backend or a redirect, valid actions, placeholders that leave a
  -- regular expression, and no prefix handling of a regular expression.
  pub record IsValidRule (rule : Rule) : Type 0 where
    pub target :
        (rule.backend_refs ≢ []) ⊎ (any (λ (a : Action). is_redirect a.type) rule.actions ≡ true)
    pub actions : All (λ (a : Action). IsValidAction a.type a) rule.actions
    pub patterns : All (λ m. is_bad_pattern compiles m ≡ false) rule.matches
    pub preserve :
        All (λ (m : PathMatch). is_regex_type m.type ≡ false) rule.matches
        ⊎ All
            (λ (a : Action). (rewrite_preserves a.rewrite || redirect_preserves a.redirect) ≡ false)
            rule.actions
    pub replace :
        All (λ (m : PathMatch). is_regex_type m.type ≡ false) rule.matches
        ⊎ All (λ (a : Action). redirect_replaces a.redirect ≡ false) rule.actions
