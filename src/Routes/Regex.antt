-- ===== src/Routes/Regex.antt =====
-- `ExpandRegexWithPrefixes` of pkg/routes/expand.go.
pub mod Laws
use customrouter.Base.{
  drop, ℕ, zero, suc, ◌+◌, ◌-◌, ◌*◌, ◌≤◌, ◌<◌, Text, codes, text_eq, text_eq_iff, text_eq_refl,
  length, All, All-append, All-imp, select, any, first, Table, lookup, insert, lookup-insert,
  is_empty, Bool, true, false, not, ◌&&◌, ◌||◌, &&_iff, List, [], ◌∷◌, ◌++◌, map, append_assoc,
  append-nil, Option, none, some, ◌≡◌, ◌≢◌, ◌⊎◌, ◌↔◌, inl, inr, refl, sym, ap, ap₂, subst, ◌∙◌,
  arith, ◌==◌, ltb, leb, if◌then◌else◌, Bool-cases, Option-cases, has_prefix, contains, replace_all,
  join,
}
use customrouter.Api.{PathPrefixPolicy}

-- The group of the alternatives, `(es|fr|it)`.
abbrev pub lang_group : List Text → Text
lang_group prefixes = codes "(" ++ join prefixes (codes "|") ++ codes ")"

unfoldable pub placeholder : Text
placeholder = codes "{prefix}"

abbrev pub is_disabled : PathPrefixPolicy → Bool
is_disabled PathPrefixPolicy.disabled = true
is_disabled _ = false

-- The pattern holds the placeholder: it is substituted in place.
unfoldable pub substitute_inline : Text → Text → PathPrefixPolicy → Text
unfolding placeholder
substitute_inline pattern group PathPrefixPolicy.required = replace_all pattern placeholder group
substitute_inline pattern group PathPrefixPolicy.optional =
    replace_all pattern placeholder (group ++ codes "?")
substitute_inline pattern group _ = pattern

-- `workPattern`: the pattern without its start anchor.
abbrev pub unanchored : Text → Text
unanchored pattern = if has_prefix pattern (codes "^") then drop 1 pattern else pattern

abbrev pub reanchored : Text → Text → Text
reanchored pattern result = if has_prefix pattern (codes "^") then codes "^" ++ result else result

-- The prefix pattern is inserted in front of the first slash.
unfoldable pub insert_prefix : Text → Text → PathPrefixPolicy → Text
insert_prefix pattern group PathPrefixPolicy.required =
    reanchored pattern ((codes "/" ++ group) ++ unanchored pattern)
insert_prefix pattern group PathPrefixPolicy.optional =
    reanchored pattern ((codes "(?:/" ++ group ++ codes ")?") ++ unanchored pattern)
insert_prefix pattern group _ = pattern

unfoldable pub expand_regex_with_prefixes : Text → List Text → PathPrefixPolicy → Text
expand_regex_with_prefixes pattern prefixes policy =
    if is_disabled policy || is_empty prefixes
    then pattern
    else if contains pattern placeholder
    then substitute_inline pattern (lang_group prefixes) policy
    else if not (has_prefix (unanchored pattern) (codes "/"))
    then pattern
    else insert_prefix pattern (lang_group prefixes) policy
