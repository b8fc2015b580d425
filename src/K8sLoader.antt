-- ===== src/K8sLoader.antt =====
-- The loader of the external processor that reads ConfigMaps: pkg/routes/k8s_loader.go. The list of
-- the ConfigMaps is an argument, `none` for an error; `parse` stands for `json.Unmarshal` of a
-- configuration's hosts and `compile` for `regexp.Compile`.
pub mod Reload
use customrouter.Base.{
  ◌==◌, Table, List, Text, Option, Bool, [], ◌∷◌, none, some, ℕ, true, false, lookup, before_any,
  text_lt,
}
use customrouter.Base.Sorting.{sort_stable}
use customrouter.Routes.{Matcher, Route, RoutesConfig, RequestMatch}
use customrouter.Routes.Match.{◌>>=◌, compile_regexes}
use customrouter.Routes.Merge.{merge_configs, sort_hosts, plain_config}
use customrouter.Routes.Partition.{build_partition_index}
use customrouter.Routes.Partition
use customrouter.Reconciler.Cluster.{ConfigMap, routes_data_key}

pub record Loader : Type 0 where
  pub partition_header : Text
  pub config : RoutesConfig

-- `NewK8sLoader`
abbrev pub new_k8s_loader : Text → Loader
new_k8s_loader header = record { partition_header = header; config = plain_config [] }

unfoldable pub config_map_less : ConfigMap → ConfigMap → Bool
unfolding text_lt
config_map_less a b = text_lt a.name b.name

abbrev pub and_then {ℓ} : {A : Type ℓ} → Option A → Option (List A) → Option (List A)
and_then none rest = none
and_then (some a) none = none
and_then (some a) (some as') = some (a ∷ as')

module _ (compile : Text → Option Matcher) (parse : Text → Option (Table (List Route))) where
  abbrev pub parsed :
      Option Text → Option (List (Table (List Route))) → Option (List (Table (List Route)))
  parsed none rest = rest
  parsed (some text) rest = and_then (parse text) rest

  -- The tables of the ConfigMaps, in order; one without the key is passed over.
  unfoldable pub parse_all : List ConfigMap → Option (List (Table (List Route)))
  unfolding lookup
  parse_all [] = some []
  parse_all (cm ∷ cms) = parsed (lookup routes_data_key cm.content) (parse_all cms)

  unfoldable pub build_config : Text → Option (List ConfigMap) → Option RoutesConfig
  unfolding parse_all sort_stable config_map_less
  build_config header listed = do
    cms ← listed
    tables ← parse_all (sort_stable config_map_less cms)
    compiled ← compile_regexes compile (plain_config (sort_hosts (merge_configs [] tables)))
    some (build_partition_index header compiled)

  abbrev pub swapped : Loader → Option RoutesConfig → Loader × Bool
  swapped l none = (l, false)
  swapped l (some config) = (record l { config = config }, true)

  -- `Load`: an error leaves the loader as it was. The flag tells whether there was none.
  unfoldable pub load : Option (List ConfigMap) → Loader → Loader × Bool
  unfolding build_config
  load listed l = swapped l (build_config l.partition_header listed)

  unfoldable pub find_route : Loader → Text → RequestMatch → Option Route
  unfolding before_any
  find_route l host req =
      Partition.find_route compile l.config (before_any (λ c. c == b':') host) req
