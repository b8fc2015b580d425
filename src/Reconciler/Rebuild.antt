-- ===== src/Reconciler/Rebuild.antt =====
-- The rebuild of a target: `rebuildConfigMapsForTarget` and `resolveExternalNames` of
-- internal/controller/customhttproute/sync.go.
use customrouter.Base.{
  not, text_lt, ◌++◌, any, insert, List, codes, if◌then◌else◌, Option, Bool, Text, Table, text_eq,
  [], ◌∷◌, none, some,
}
use customrouter.Base.Results.{Result}
use customrouter.Base.Sorting.{sort_stable}
use customrouter.Api.{CustomHttpRoute, BackendRef, Rule}
use customrouter.Routes.{Route, RoutesConfig}
use customrouter.Routes.Expand.{expand_routes}
use customrouter.Routes.Merge.{merge_routes_config}
use customrouter.ConfigMaps.{ConfigMapPartition, SplitError}
use customrouter.ConfigMaps.Split.{partition_config}
use customrouter.Reconciler.{Memory, clear_target_state}
use customrouter.Reconciler.Cluster.{
  delete_stale_config_maps_for_target, upsert_config_maps, Client, ApiError, Service, Listed,
}

abbrev pub with_expanded {ℓ} : {A : Type ℓ} → Option A → List A → List A
with_expanded none more = more
with_expanded (some a) more = a ∷ more

-- The services that the backends of the routes name, each looked up once.
unfoldable pub refs_of_rules : List Rule → List BackendRef
refs_of_rules [] = []
refs_of_rules (rule ∷ rules) = rule.backend_refs ++ refs_of_rules rules

unfoldable pub refs_of : List CustomHttpRoute → List BackendRef
unfolding refs_of_rules
refs_of [] = []
refs_of (cr ∷ crs) = refs_of_rules cr.spec.rules ++ refs_of crs

abbrev pub with_service : Text → Option Service → Table Text → Table Text
with_service key none names = names
with_service key (some service) names =
    if text_eq service.type (codes "ExternalName")
    then insert key service.external_name names
    else names

unfoldable pub active_routes : List Listed → List CustomHttpRoute
active_routes [] = []
active_routes (l ∷ ls) = if l.is_deleted then active_routes ls else l.route ∷ active_routes ls

unfoldable pub route_less : CustomHttpRoute → CustomHttpRoute → Bool
unfolding text_eq text_lt
route_less a b =
    if not (text_eq a.namespace b.namespace)
    then text_lt a.namespace b.namespace
    else text_lt a.name b.name

-- A route that expands to too many is left out.
unfoldable pub expand_all : Table Text → List CustomHttpRoute → List (Table (List Route))
unfolding expand_routes
expand_all names [] = []
expand_all names (cr ∷ crs) = with_expanded (expand_routes cr names) (expand_all names crs)

unfoldable pub partition_names : List ConfigMapPartition → List Text
partition_names [] = []
partition_names (p ∷ ps) = p.name ∷ partition_names ps

module _ {W : Type 0} (client : Client W) where
  unfoldable pub resolve : W → List BackendRef → List Text → Table Text → Table Text
  unfolding any text_eq insert
  resolve w [] seen names = names
  resolve w (ref ∷ refs) seen names =
      let key = ref.name ++ codes "/" ++ ref.namespace in
      let found = with_service key (client.get_service ref.name ref.namespace w) names in
      let again = any (text_eq key) seen in
      resolve w refs (if again then seen else key ∷ seen) (if again then names else found)

  unfoldable pub resolve_external_names : List CustomHttpRoute → W → Table Text
  unfolding resolve refs_of
  resolve_external_names crs w = resolve w (refs_of crs) [] []

-- The errors of a rebuild.
pub data RebuildError : Type 0 where
  api : ApiError → RebuildError
  split : SplitError → RebuildError

module _ {W : Type 0} (client : Client W) (encode : RoutesConfig → Option Text)
    (marshal : Route → Option Text) where
  abbrev pub as_api : Option ApiError × W × Memory → Option RebuildError × W × Memory
  as_api (none, w, s) = (none, w, s)
  as_api (some e, w, s) = (some (RebuildError.api e), w, s)

  -- The partitions are written, then the others of the target deleted.
  abbrev pub delete_others :
      Text
      → List ConfigMapPartition
      → Option ApiError × W × Memory
      → Option RebuildError × W × Memory
  delete_others target ps (some e, w, s) = (some (RebuildError.api e), w, s)
  delete_others target ps (none, w, s) =
      as_api (delete_stale_config_maps_for_target client target (partition_names ps) w s)

  abbrev pub store :
      Text
      → Result SplitError (List ConfigMapPartition)
      → W
      → Memory
      → Option RebuildError × W × Memory
  store target (Result.error e) w s = (some (RebuildError.split e), w, s)
  store target (Result.ok ps) w s = delete_others target ps (upsert_config_maps client ps w s)

  -- A target without routes loses its ConfigMaps and its state.
  abbrev pub cleared : Text → Option ApiError × W × Memory → Option RebuildError × W × Memory
  cleared target (some e, w, s) = (some (RebuildError.api e), w, s)
  cleared target (none, w, s) = (none, w, clear_target_state target s)

  unfoldable pub config_of_routes : List CustomHttpRoute → W → RoutesConfig
  unfolding merge_routes_config expand_all resolve_external_names sort_stable route_less
  config_of_routes crs w =
      let sorted = sort_stable route_less crs in
      merge_routes_config (expand_all (resolve_external_names client sorted w) sorted)

  abbrev pub rebuild_active :
      Text → List CustomHttpRoute → W → Memory → Option RebuildError × W × Memory
  rebuild_active target [] w s =
      cleared target (delete_stale_config_maps_for_target client target [] w s)
  rebuild_active target (cr ∷ crs) w s =
      store target (partition_config encode marshal target (config_of_routes (cr ∷ crs) w)) w s

  abbrev pub rebuild_listed :
      Text → Result ApiError (List Listed) → W → Memory → Option RebuildError × W × Memory
  rebuild_listed target (Result.error e) w s = (some (RebuildError.api e), w, s)
  rebuild_listed target (Result.ok ls) w s = rebuild_active target (active_routes ls) w s

  unfoldable pub rebuild_config_maps_for_target :
      Text → W → Memory → Option RebuildError × W × Memory
  unfolding delete_stale_config_maps_for_target upsert_config_maps partition_names partition_config
      config_of_routes active_routes clear_target_state
  rebuild_config_maps_for_target target w s =
      rebuild_listed target (client.list_routes target w) w s
