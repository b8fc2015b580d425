-- ===== src/Webhook.antt =====
-- The conflict check of the admission webhook: the route matches of
-- internal/webhook/hostname_checker.go and how two of them are compared. The text of a warning or an
-- error is left out; the match that it reports stays.
pub mod Compat
pub mod Counting
pub mod Order
pub mod Specific
pub mod Expand
use customrouter.Base.{
  ℕ, zero, suc, ◌+◌, ◌-◌, ◌*◌, ◌≤◌, ◌<◌, Text, codes, text_eq, text_eq_iff, text_eq_refl, length,
  All, All-append, All-imp, select, any, first, Table, lookup, insert, lookup-insert, is_empty,
  Bool, true, false, not, ◌&&◌, ◌||◌, &&_iff, List, [], ◌∷◌, ◌++◌, map, append_assoc, append-nil,
  Option, none, some, ◌≡◌, ◌≢◌, ◌⊎◌, ◌↔◌, inl, inr, refl, sym, ap, ap₂, subst, ◌∙◌, arith, ◌==◌,
  ltb, leb, if◌then◌else◌, Bool-cases, Option-cases, equal_fold, to_lower, has_suffix, trim_suffix,
}
use customrouter.Base.Int.{ℤ, int_lt, pos}
use customrouter.Api.{default_priority}

pub record HeaderMatch : Type 0 where
  pub name : Text
  pub value : Text
  pub is_regex : Bool

pub record QueryParamMatch : Type 0 where
  pub name : Text
  pub value : Text
  pub is_regex : Bool

pub record RouteMatch : Type 0 where
  pub path_type : Text
  pub path : Text
  pub method : Text
  pub headers : List HeaderMatch
  pub query_params : List QueryParamMatch
  pub priority : ℤ
  pub allow_overlap : Bool

unfoldable pub normalize_path : Text → Text
normalize_path p =
    if ltb 1 (length p) && has_suffix p (codes "/") then trim_suffix p (codes "/") else p

unfoldable pub methods_compatible : Text → Text → Bool
methods_compatible a b = if is_empty a || is_empty b then true else equal_fold a b

-- The map `bMap`: a later match of the same name replaces an earlier one.
unfoldable pub header_map : List HeaderMatch → Table HeaderMatch → Table HeaderMatch
unfolding insert to_lower
header_map [] m = m
header_map (h ∷ hs) m = header_map hs (insert (to_lower h.name) h m)

-- One round of the loop: a missing name and a regular expression are passed over.
abbrev pub header_agrees : HeaderMatch → Option HeaderMatch → Bool
header_agrees h none = true
header_agrees h (some bh) = if h.is_regex || bh.is_regex then true else text_eq bh.value h.value

unfoldable pub headers_agree : Table HeaderMatch → List HeaderMatch → Bool
unfolding lookup to_lower
headers_agree m [] = true
headers_agree m (h ∷ hs) =
    if header_agrees h (lookup (to_lower h.name) m) then headers_agree m hs else false

unfoldable pub headers_compatible : List HeaderMatch → List HeaderMatch → Bool
unfolding header_map headers_agree
headers_compatible a b =
    if is_empty a || is_empty b then true else headers_agree (header_map b []) a

unfoldable pub query_param_map :
    List QueryParamMatch → Table QueryParamMatch → Table QueryParamMatch
unfolding insert
query_param_map [] m = m
query_param_map (q ∷ qs) m = query_param_map qs (insert q.name q m)

abbrev pub query_param_agrees : QueryParamMatch → Option QueryParamMatch → Bool
query_param_agrees q none = true
query_param_agrees q (some bq) =
    if q.is_regex || bq.is_regex then true else text_eq bq.value q.value

unfoldable pub query_params_agree : Table QueryParamMatch → List QueryParamMatch → Bool
unfolding lookup
query_params_agree m [] = true
query_params_agree m (q ∷ qs) =
    if query_param_agrees q (lookup q.name m) then query_params_agree m qs else false

unfoldable pub query_params_compatible : List QueryParamMatch → List QueryParamMatch → Bool
unfolding query_param_map query_params_agree
query_params_compatible a b =
    if is_empty a || is_empty b then true else query_params_agree (query_param_map b []) a

unfoldable pub matches_request_compat : RouteMatch → RouteMatch → Bool
unfolding methods_compatible headers_compatible query_params_compatible
matches_request_compat a b =
    if not (text_eq a.path_type b.path_type) || not (text_eq a.path b.path)
    then false
    else methods_compatible a.method b.method
      && headers_compatible a.headers b.headers
      && query_params_compatible a.query_params b.query_params

abbrev pub bool_eq : Bool → Bool → Bool
bool_eq true b = b
bool_eq false b = not b

abbrev pub same_header : HeaderMatch → HeaderMatch → Bool
same_header s p =
    equal_fold p.name s.name && text_eq p.value s.value && bool_eq p.is_regex s.is_regex

unfoldable pub headers_subsume : List HeaderMatch → List HeaderMatch → Bool
unfolding any
headers_subsume sup [] = true
headers_subsume sup (s ∷ sub) = if any (same_header s) sup then headers_subsume sup sub else false

abbrev pub same_query_param : QueryParamMatch → QueryParamMatch → Bool
same_query_param s p =
    text_eq p.name s.name && text_eq p.value s.value && bool_eq p.is_regex s.is_regex

unfoldable pub query_params_subsume : List QueryParamMatch → List QueryParamMatch → Bool
unfolding any
query_params_subsume sup [] = true
query_params_subsume sup (s ∷ sub) =
    if any (same_query_param s) sup then query_params_subsume sup sub else false

unfoldable pub at_least_as_specific : RouteMatch → RouteMatch → Bool
unfolding headers_subsume query_params_subsume
at_least_as_specific a b =
    if not (is_empty b.method) && not (equal_fold a.method b.method)
    then false
    else if not (headers_subsume a.headers b.headers)
    then false
    else query_params_subsume a.query_params b.query_params

unfoldable pub effective_priority : RouteMatch → ℤ
effective_priority rm = if int_lt (pos 0) rm.priority then rm.priority else default_priority

-- `x >= y`
abbrev pub int_ge : ℤ → ℤ → Bool
int_ge x y = not (int_lt x y)

unfoldable pub specificity_resolvable : RouteMatch → RouteMatch → Bool
unfolding at_least_as_specific effective_priority
specificity_resolvable a b =
    let a_subsumes_b = at_least_as_specific a b in
    let b_subsumes_a = at_least_as_specific b a in
    if a_subsumes_b && b_subsumes_a
    then false
    else if a_subsumes_b
    then int_ge (effective_priority a) (effective_priority b)
    else if b_subsumes_a
    then int_ge (effective_priority b) (effective_priority a)
    else true

unfoldable pub matches_overlap : RouteMatch → RouteMatch → Bool
unfolding matches_request_compat specificity_resolvable
matches_overlap a b =
    if not (matches_request_compat a b) then false else not (specificity_resolvable a b)

unfoldable pub matches_cross_kind_overlap : RouteMatch → RouteMatch → Bool
unfolding matches_request_compat
matches_cross_kind_overlap a b = matches_request_compat a b

-- `findOverlapWith`
module _ (overlap : RouteMatch → RouteMatch → Bool) where
  unfoldable pub find_overlap_with : List RouteMatch → List RouteMatch → List RouteMatch
  unfolding any
  find_overlap_with [] b = []
  find_overlap_with (ma ∷ a) b =
      if any (overlap ma) b then ma ∷ find_overlap_with a b else find_overlap_with a b

unfoldable pub find_cross_kind_route_match_overlap :
    List RouteMatch → List RouteMatch → List RouteMatch
unfolding find_overlap_with matches_cross_kind_overlap
find_cross_kind_route_match_overlap a b = find_overlap_with matches_cross_kind_overlap a b

pub record OverlapResult : Type 0 where
  pub warnings : List RouteMatch
  pub errors : List RouteMatch

abbrev pub report : RouteMatch → OverlapResult → OverlapResult
report nm result =
    if nm.allow_overlap
    then record result { warnings = nm ∷ result.warnings }
    else record result { errors = nm ∷ result.errors }

unfoldable pub classify_overlaps : List RouteMatch → List RouteMatch → OverlapResult
unfolding matches_overlap any
classify_overlaps [] existing = record { warnings = []; errors = [] }
classify_overlaps (nm ∷ new) existing =
    let rest = classify_overlaps new existing in
    if any (matches_overlap nm) existing then report nm rest else rest
