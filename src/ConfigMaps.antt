-- ===== src/ConfigMaps.antt =====
-- The ConfigMaps that carry the route table from the operator to the external processors:
-- internal/controller/customhttproute/sync.go, the names of the partitions, and `ToJSON` of
-- pkg/routes/types.go. `encode` stands for the encoder of encoding/json and `marshal` for
-- `json.Marshal` of a route, with `none` for an error.
pub mod Names
pub mod Held
pub mod Buckets
pub mod Split
use customrouter.Base.{
  ℕ, zero, suc, ◌+◌, ◌-◌, ◌*◌, ◌≤◌, ◌<◌, Text, codes, text_eq, text_eq_iff, text_eq_refl, length,
  All, All-append, All-imp, select, any, first, Table, lookup, insert, lookup-insert, is_empty,
  Bool, true, false, not, ◌&&◌, ◌||◌, &&_iff, List, [], ◌∷◌, ◌++◌, map, append_assoc, append-nil,
  Option, none, some, ◌≡◌, ◌≢◌, ◌⊎◌, ◌↔◌, inl, inr, refl, sym, ap, ap₂, subst, ◌∙◌, arith, ◌==◌,
  ltb, leb, if◌then◌else◌, Bool-cases, Option-cases, has_prefix, drop, itoa_nat,
}
use customrouter.Base.Int.{ℤ, atoi}
use customrouter.Base.Results.{Result}
use customrouter.Routes.{Route, RoutesConfig}
use customrouter.Routes.Merge.{plain_config}

-- 900 * 1024
abbrev pub max_config_map_size : ℕ
max_config_map_size = 921600

abbrev pub config_map_base_name : Text
config_map_base_name = codes "customrouter-routes"

pub record ConfigMapPartition : Type 0 where
  pub name : Text
  pub target : Text
  pub content : Text

-- The kinds of errors of a split.
pub data SplitError : Type 0 where
  not_serialized : SplitError
  route_too_large : ℕ → SplitError
  cannot_partition : ℕ → SplitError

-- The trailing newline of the encoder is cut off.
unfoldable pub strip_newline : Text → Text
strip_newline [] = []
strip_newline (c ∷ []) = if c == 10 then [] else c ∷ []
strip_newline (c ∷ d ∷ s) = c ∷ strip_newline (d ∷ s)

module _ (encode : RoutesConfig → Option Text) where
  abbrev pub stripped : Option Text → Result SplitError Text
  stripped none = Result.error not_serialized
  stripped (some text) = Result.ok (strip_newline text)

  unfoldable pub to_json : RoutesConfig → Result SplitError Text
  unfolding strip_newline
  to_json rc = stripped (encode rc)

unfoldable pub partition_name : Text → ℕ → Text
unfolding itoa_nat
partition_name target index =
    config_map_base_name ++ codes "-" ++ target ++ codes "-" ++ itoa_nat index

-- The text before the last dash and the text behind it, if there is one.
abbrev pub dash_here : ℕ → Text → Option (Text × Text) → Option (Text × Text)
dash_here c s (some (before, after)) = some (c ∷ before, after)
dash_here c s none = if c == b'-' then some ([], s) else none

unfoldable pub at_last_dash : Text → Option (Text × Text)
at_last_dash [] = none
at_last_dash (c ∷ s) = dash_here c s (at_last_dash s)

abbrev pub with_index : Text → Option ℤ → Option (Text × ℕ)
with_index target none = none
with_index target (some (ℤ.pos n)) = some (target, n)
with_index target (some (ℤ.negsuc n)) = none

abbrev pub parse_parts : Option (Text × Text) → Option (Text × ℕ)
parse_parts none = none
parse_parts (some (target, index)) =
    if is_empty target || is_empty index then none else with_index target (atoi index)

unfoldable pub parse_partition_name : Text → Option (Text × ℕ)
unfolding has_prefix at_last_dash atoi
parse_partition_name name =
    if has_prefix name (config_map_base_name ++ codes "-")
    then parse_parts (at_last_dash (drop (length (config_map_base_name ++ codes "-")) name))
    else none

-- A configuration that holds some hosts, before it is indexed.
abbrev pub config_of : ℕ → Table (List Route) → RoutesConfig
config_of version hosts = record (plain_config hosts) { version = version }
