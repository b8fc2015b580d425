-- ===== src/Routes/Regex/Laws.antt =====
-- The start anchor of an expanded pattern.
use customrouter.Base.{
  Text, codes, is_empty, Bool, ◌||◌, List, [], ◌∷◌, ◌++◌, ◌≡◌, inl, inr, refl, arith, ◌==◌,
  Bool-cases, has_prefix, contains, replace_all, join,
}
use customrouter.Api.{PathPrefixPolicy}
use customrouter.Routes.Regex.{
  lang_group, placeholder, is_disabled, substitute_inline, unanchored, insert_prefix,
  expand_regex_with_prefixes,
}

abbrev is_anchored : Text → Bool
is_anchored pattern = has_prefix pattern (codes "^")

replace_all-anchored :
    (pattern new : Text)
    → is_anchored (replace_all pattern placeholder (codes "(" ++ new)) ≡ is_anchored pattern
unfolding replace_all placeholder
replace_all-anchored [] new = refl
replace_all-anchored (c ∷ s) new = elim (Bool-cases (c == b'{')) [
  | inl e ↦ ground (arith, e)
  | inr e ↦ rw e
]

insert_prefix-anchored :
    (pattern : Text) (group : Text) (policy : PathPrefixPolicy)
    → is_anchored (insert_prefix pattern group policy) ≡ is_anchored pattern
unfolding insert_prefix has_prefix
insert_prefix-anchored pattern group PathPrefixPolicy.required = ground arith
insert_prefix-anchored pattern group PathPrefixPolicy.optional = ground arith
insert_prefix-anchored pattern group _ = refl

substitute_inline-anchored :
    (pattern : Text) (prefixes : List Text) (policy : PathPrefixPolicy)
    → is_anchored (substitute_inline pattern (lang_group prefixes) policy) ≡ is_anchored pattern
unfolding substitute_inline
substitute_inline-anchored pattern prefixes PathPrefixPolicy.required =
    replace_all-anchored pattern (join prefixes (codes "|") ++ codes ")")
substitute_inline-anchored pattern prefixes PathPrefixPolicy.optional =
    replace_all-anchored pattern ((join prefixes (codes "|") ++ codes ")") ++ codes "?")
substitute_inline-anchored pattern prefixes _ = refl

-- Expanding a pattern never adds a start anchor and never loses one, whatever the policy, with or
-- without the placeholder, and whatever the prefixes are.
pub expand_regex_with_prefixes-anchored :
    (pattern : Text) (prefixes : List Text) (policy : PathPrefixPolicy)
    → has_prefix (expand_regex_with_prefixes pattern prefixes policy) (codes "^")
      ≡ has_prefix pattern (codes "^")
unfolding expand_regex_with_prefixes
expand_regex_with_prefixes-anchored pattern prefixes policy =
    elim (Bool-cases (is_disabled policy || is_empty prefixes)) [
      | inl e ↦ rw e
      | inr e ↦ rw e (elim (Bool-cases (contains pattern placeholder)) [
        | inl p ↦ rw p (substitute_inline-anchored pattern prefixes policy)
        | inr p ↦ rw p (elim (Bool-cases (has_prefix (unanchored pattern) (codes "/"))) [
          | inl s ↦ rw s (insert_prefix-anchored pattern (lang_group prefixes) policy)
          | inr s ↦ rw s
        ])
      ])
    ]
