-- ===== src/Routes/Policy.antt =====
-- Which prefix policy holds for a rule, and which match types it expands: `GetEffectivePolicy`,
-- `GetEffectiveExpandMatchTypes` and `ShouldExpandMatchType` of pkg/routes/expand.go.
use customrouter.Base.{
  text_eq, any, is_empty, Bool, true, false, List, [], Option, none, some, if◌then◌else◌,
}
use customrouter.Api.{PathPrefixPolicy, PathPrefixes, RulePathPrefixes, MatchType}

abbrev pub policy_is_empty : PathPrefixPolicy → Bool
policy_is_empty (PathPrefixPolicy.other []) = true
policy_is_empty _ = false

abbrev pub spec_policy : Option PathPrefixes → PathPrefixPolicy
spec_policy none = PathPrefixPolicy.optional
spec_policy (some p) = if policy_is_empty p.policy then PathPrefixPolicy.optional else p.policy

-- `GetEffectivePolicy`: the rule's own, the spec's, or Optional.
unfoldable pub get_effective_policy :
    Option PathPrefixes → Option RulePathPrefixes → PathPrefixPolicy
get_effective_policy spec (some rule) = rule.policy
get_effective_policy spec none = spec_policy spec

abbrev pub spec_types : Option PathPrefixes → List MatchType
spec_types none = []
spec_types (some p) = p.expand_match_types

-- `GetEffectiveExpandMatchTypes`
unfoldable pub get_effective_expand_match_types :
    Option PathPrefixes → Option RulePathPrefixes → List MatchType
get_effective_expand_match_types spec none = spec_types spec
get_effective_expand_match_types spec (some rule) =
    if is_empty rule.expand_match_types then spec_types spec else rule.expand_match_types

pub match_type_eq : MatchType → MatchType → Bool
match_type_eq MatchType.path_prefix MatchType.path_prefix = true
match_type_eq MatchType.exact MatchType.exact = true
match_type_eq MatchType.regex MatchType.regex = true
match_type_eq (MatchType.other s) (MatchType.other t) = text_eq s t
match_type_eq _ _ = false

-- `ShouldExpandMatchType`
unfoldable pub should_expand_match_type : MatchType → List MatchType → Bool
unfolding match_type_eq any
should_expand_match_type type types =
    if is_empty types then true else any (λ t. match_type_eq t type) types
