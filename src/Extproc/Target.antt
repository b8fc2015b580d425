-- ===== src/Extproc/Target.antt =====
-- The request target and the host of internal/extproc/router.go: `extractFirstIP`, `stripPort`,
-- `stripQueryString`, `extractQueryParams`, `splitPath` and `joinRedirectPath`.
pub mod Path
pub mod Join
use customrouter.Base.{
  ℕ, zero, suc, ◌+◌, ◌-◌, ◌*◌, ◌≤◌, ◌<◌, Text, codes, text_eq, text_eq_iff, text_eq_refl, length,
  All, All-append, All-imp, select, any, first, Table, lookup, insert, lookup-insert, is_empty,
  Bool, true, false, not, ◌&&◌, ◌||◌, &&_iff, List, [], ◌∷◌, ◌++◌, map, append_assoc, append-nil,
  Option, none, some, ◌≡◌, ◌≢◌, ◌⊎◌, ◌↔◌, inl, inr, refl, sym, ap, ap₂, subst, ◌∙◌, arith, ◌==◌,
  ltb, leb, if◌then◌else◌, Bool-cases, Option-cases, split, before_any, from_any, trim_space,
  has_suffix, contains,
}

abbrev pub head_or_empty : List Text → Text
head_or_empty [] = []
head_or_empty (p ∷ ps) = p

unfoldable pub extract_first_ip : Text → Text
unfolding split trim_space
extract_first_ip xff = if is_empty xff then [] else trim_space (head_or_empty (split xff b','))

-- The text before the last `c`: `s[:strings.LastIndex(s, c)]`.
abbrev pub last_here : ℕ → ℕ → Option Text → Option Text
last_here c x (some r) = some (x ∷ r)
last_here c x none = if x == c then some [] else none

unfoldable pub before_last : ℕ → Text → Option Text
before_last c [] = none
before_last c (x ∷ s) = last_here c x (before_last c s)

-- `strings.Count` of one byte
unfoldable pub count_byte : ℕ → Text → ℕ
count_byte c [] = 0
count_byte c (x ∷ s) = if x == c then suc (count_byte c s) else count_byte c s

-- The two tests once the last colon and the last bracket, if any, are known.
abbrev pub port_cut : Text → Option Text → Option Text → Text
port_cut host none bracket = host
port_cut host (some before) (some bracket) =
    if ltb (length bracket) (length before) then before else host
port_cut host (some before) none = if count_byte b':' host == 1 then before else host

unfoldable pub strip_port : Text → Text
unfolding before_last count_byte
strip_port host = port_cut host (before_last b':' host) (before_last b']' host)

abbrev pub is_target_end : ℕ → Bool
is_target_end c = c == b'?' || c == b'#'

unfoldable pub strip_query_string : Text → Text
unfolding before_any
strip_query_string path = before_any is_target_end path

-- The first value of each parameter.
unfoldable pub first_values : Table (List Text) → Table Text
first_values [] = []
first_values ((k, []) ∷ more) = first_values more
first_values ((k, v ∷ vs) ∷ more) = (k, v) ∷ first_values more

-- The part behind the question mark, without the fragment; `parse_query` stands for
-- `url.ParseQuery`, with `none` for an error.
module _ (parse_query : Text → Option (Table (List Text))) where
  unfoldable pub query_values : Option (Table (List Text)) → Table Text
  unfolding first_values
  query_values none = []
  query_values (some values) = first_values values

  unfoldable pub params_from : Option Text → Table Text
  unfolding query_values before_any
  params_from none = []
  params_from (some []) = []
  params_from (some (mark ∷ [])) = []
  params_from (some (mark ∷ c ∷ query)) =
      query_values (parse_query (before_any (λ x. x == b'#') (c ∷ query)))

  unfoldable pub extract_query_params : Text → Table Text
  unfolding params_from from_any
  extract_query_params raw_path = params_from (from_any (λ c. c == b'?') raw_path)

unfoldable pub split_path : Text → List Text
unfolding split before_any select
split_path path = select (λ p. not (is_empty p)) (split (before_any is_target_end path) b'/')

-- The `switch` on the first byte of the suffix.
unfoldable pub join_redirect_path : Text → Text → Text
unfolding has_suffix
join_redirect_path base [] = base
join_redirect_path base (c ∷ rest) =
    if is_target_end c
    then base ++ c ∷ rest
    else if c == b'/'
    then (if has_suffix base (codes "/") then base ++ rest else base ++ c ∷ rest)
    else if has_suffix base (codes "/")
    then base ++ c ∷ rest
    else base ++ b'/' ∷ c ∷ rest
