-- ===== src/Reconciler/Cluster.antt =====
-- The ConfigMaps of a target in the cluster: `upsertConfigMaps` and
-- `deleteStaleConfigMapsForTarget` of internal/controller/customhttproute/sync.go. The client of the API
-- server and its retries are parameters; `W` is what they act on.
pub mod Relied
pub mod Stored
pub mod Hashes
pub mod Stale
use customrouter.Base.{
  ◌||◌, not, text_lt, ◌++◌, is_some, any, has_prefix, insert, ◌==◌, ◌&&◌, false, length, lookup,
  List, true, codes, if◌then◌else◌, Option, itoa_nat, Bool, Text, Table, text_eq, [], ◌∷◌, none,
  some, ℕ,
}
use customrouter.Base.Results.{Result, ◌>>=◌, or_error}
use customrouter.Base.Sorting.{sort_stable}
use customrouter.Api.{CustomHttpRoute, BackendRef, Rule}
use customrouter.Routes.{Route, RoutesConfig}
use customrouter.Routes.Expand.{expand_routes}
use customrouter.Routes.Merge.{merge_routes_config}
use customrouter.ConfigMaps.{
  ConfigMapPartition, SplitError, parse_partition_name, config_map_base_name,
}
use customrouter.ConfigMaps.Split.{partition_config}
use customrouter.Reconciler.{
  Memory, partition_hash_hit, set_partition_hash, clear_partition_hash, clear_target_state,
  fnv_hash,
}

-- The errors that the code tells apart.
pub data ApiError : Type 0 where
  not_found : ApiError
  conflict : ApiError
  already_exists : ApiError
  other : Text → ApiError

pub record ConfigMap : Type 0 where
  pub name : Text
  pub labels : Table Text
  pub content : Table Text

-- A CustomHTTPRoute of the cluster, with whether it is being deleted.
pub record Listed : Type 0 where
  pub route : CustomHttpRoute
  pub is_deleted : Bool

pub record Service : Type 0 where
  pub type : Text
  pub external_name : Text

-- The client, in the namespace of the ConfigMaps; `list` is by the labels of the controller and of
-- a target, and `retry` is `retry.OnError` with the backoff of the code.
pub record Client (W : Type 0) : Type 0 where
  pub get : Text → W → Result ApiError ConfigMap × W
  pub create : ConfigMap → W → Option ApiError × W
  pub update : ConfigMap → W → Option ApiError × W
  pub delete : Text → W → Option ApiError × W
  pub list : Text → W → Result ApiError (List ConfigMap) × W
  pub list_routes : Text → W → Result ApiError (List Listed)
  pub get_service : Text → Text → W → Option Service
  pub retry : (ApiError → Bool) → (W → Option ApiError × W) → W → Option ApiError × W

-- A key that is missing reads as the empty text.
abbrev pub or_empty : Option Text → Text
or_empty none = []
or_empty (some s) = s

unfoldable pub has_entries : Table Text → Table Text → Bool
unfolding text_eq lookup
has_entries [] b = true
has_entries ((k, v) ∷ a) b = text_eq (or_empty (lookup k b)) v && has_entries a b

unfoldable pub maps_equal : Table Text → Table Text → Bool
unfolding has_entries
maps_equal a b = length a == length b && has_entries a b

abbrev pub routes_data_key : Text
routes_data_key = codes "routes.json"

abbrev pub part_number : Option (Text × ℕ) → Text
part_number none = codes "0"
part_number (some (target, index)) = itoa_nat index

unfoldable pub config_map_labels : ConfigMapPartition → Table Text
unfolding parse_partition_name itoa_nat
config_map_labels p =
    (codes "app.kubernetes.io/name", codes "customrouter")
    ∷ (codes "app.kubernetes.io/managed-by", codes "customrouter-controller")
    ∷ (codes "customrouter.freepik.com/target", p.target)
    ∷ (codes "customrouter.freepik.com/part", part_number (parse_partition_name p.name))
    ∷ []

abbrev pub config_map_of : ConfigMapPartition → ConfigMap
config_map_of p = record {
  name = p.name;
  labels = config_map_labels p;
  content = (routes_data_key, p.content) ∷ [];
}

abbrev pub is_retriable : ApiError → Bool
is_retriable ApiError.conflict = true
is_retriable ApiError.already_exists = true
is_retriable ApiError.not_found = false
is_retriable (ApiError.other text) = false

module _ {W : Type 0} (client : Client W) where
  -- One attempt of `upsertSingleConfigMap`, after the `Get`.
  unfoldable pub write : ConfigMapPartition → Result ApiError ConfigMap × W → Option ApiError × W
  unfolding maps_equal text_eq lookup config_map_labels
  write p (Result.error ApiError.not_found, w) = client.create (config_map_of p) w
  write p (Result.error e, w) = (some e, w)
  write p (Result.ok existing, w) =
      if text_eq (or_empty (lookup routes_data_key existing.content)) p.content
        && maps_equal existing.labels (config_map_labels p)
      then (none, w)
      else client.update
          (record existing {
            labels = config_map_labels p;
            content = (routes_data_key, p.content) ∷ [];
          })
          w

  unfoldable pub attempt : ConfigMapPartition → W → Option ApiError × W
  unfolding write
  attempt p w = write p (client.get p.name w)

  abbrev pub remembered :
      ConfigMapPartition → Memory → Option ApiError × W → Option ApiError × W × Memory
  remembered p s (some e, w) = (some e, w, s)
  remembered p s (none, w) = (none, w, set_partition_hash p.name (fnv_hash p.content) s)

  unfoldable pub upsert_single_config_map :
      ConfigMapPartition → W → Memory → Option ApiError × W × Memory
  unfolding attempt partition_hash_hit fnv_hash set_partition_hash
  upsert_single_config_map p w s =
      if partition_hash_hit p.name (fnv_hash p.content) s
      then (none, w, s)
      else remembered p s (client.retry is_retriable (attempt p) w)

  -- The first error ends the loop.
  unfoldable pub upsert_config_maps :
      List ConfigMapPartition → W → Memory → Option ApiError × W × Memory
  unfolding upsert_single_config_map
  upsert_config_maps [] w s = (none, w, s)
  upsert_config_maps (p ∷ ps) w s =
      let out = upsert_single_config_map p w s in
      let rest = upsert_config_maps ps out.1 out.2 in if is_some out.0 then out else rest

  abbrev pub is_failure : Option ApiError → Bool
  is_failure none = false
  is_failure (some ApiError.not_found) = false
  is_failure (some e) = true

  unfoldable pub delete_stale :
      List Text → List ConfigMap → W → Memory → Option ApiError × W × Memory
  unfolding has_prefix any text_eq clear_partition_hash
  delete_stale active [] w s = (none, w, s)
  delete_stale active (cm ∷ cms) w s =
      let skip = not (has_prefix cm.name config_map_base_name) || any (text_eq cm.name) active in
      let gone = client.delete cm.name w in
      let kept = delete_stale active cms w s in
      let removed = delete_stale active cms gone.1 (clear_partition_hash cm.name s) in
      if skip then kept else if is_failure gone.0 then (gone.0, gone.1, s) else removed

  abbrev pub delete_listed :
      List Text → Memory → Result ApiError (List ConfigMap) × W → Option ApiError × W × Memory
  delete_listed active s (Result.error e, w) = (some e, w, s)
  delete_listed active s (Result.ok cms, w) = delete_stale active cms w s

  unfoldable pub delete_stale_config_maps_for_target :
      Text → List Text → W → Memory → Option ApiError × W × Memory
  unfolding delete_stale
  delete_stale_config_maps_for_target target active w s =
      delete_listed active s (client.list target w)
