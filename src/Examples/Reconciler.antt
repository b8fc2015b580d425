-- ===== src/Examples/Reconciler.antt =====
-- Two targets whose names share a prefix, two workers, and a cluster that is a table.
use customrouter.Examples.Data.{shop}
use customrouter.Base.{
  text_eq_comm, text_eq_iff, lookup-insert, subst, ◌∙◌, sym, ap, List, Bool-cases, insert, Table,
  arith, text_eq, ◌-◌, if◌then◌else◌, ◌+◌, Option, lookup, ◌≡◌, Text, [], ◌∷◌, none, some, true,
  false, inl, inr, refl, codes,
}
use customrouter.Base.Results.{ok-inj, Result}
use customrouter.Base.Int.{ℤ}
use customrouter.Reconciler.{
  remove, Memory, clear_target_state, rebuild_target, Outcome, target_try_lock, or_false,
}
use customrouter.Reconciler.Flight.{
  System, Phase, Step, Reachable, Reachable-Exclusive, holders, flag,
}
use customrouter.Reconciler.Cleanup.{clear_target_state_lem, rebuild_target-Throttled}
use customrouter.Reconciler.Cluster.{
  upsert_config_maps, delete_stale_config_maps_for_target, Client, ApiError, ConfigMap,
}
use customrouter.Reconciler.Cluster.Relied.{IsClient, IsCache, Runs}
use customrouter.Reconciler.Annotations.{ensure_annotations, tracked, ensure_annotations-Settled}
use customrouter.ConfigMaps.{ConfigMapPartition, partition_name}
use customrouter.Reconciler.Maps.{lookup-remove}
use customrouter.ConfigMaps.Split.{partition_config}
use customrouter.Reconciler.Cluster.Stale.{SweptAt, delete_stale_config_maps_for_target-Swept}
use customrouter.Routes.{Route, RoutesConfig}
use customrouter.Reconciler.Rebuild.{
  config_of_routes, rebuild_config_maps_for_target, active_routes,
}
use customrouter.Reconciler.Synced.{rebuild_config_maps_for_target-Synced, Synced}
use customrouter.Reconciler.Cluster.Hashes.{Remembers}

abbrev memory : Memory
memory = record {
  last_rebuild_at = (codes "foo", 5) ∷ [];
  rebuilding = [];
  partition_hashes =
      (codes "customrouter-routes-foo-bar-0", 7) ∷ (codes "customrouter-routes-foo-0", 8) ∷ [];
}

clear_target_state_lem_example :
    (lookup
        (partition_name (codes "foo-bar") 0)
        (clear_target_state (codes "foo") memory).partition_hashes
      ≡ (if text_eq (codes "foo-bar") (codes "foo")
          then none
          else lookup (partition_name (codes "foo-bar") 0) memory.partition_hashes))
    × (lookup (codes "foo-bar") (clear_target_state (codes "foo") memory).last_rebuild_at ≡ (
        if text_eq (codes "foo-bar") (codes "foo")
        then none
        else lookup (codes "foo-bar") memory.last_rebuild_at))
    × ((clear_target_state (codes "foo") memory).rebuilding ≡ memory.rebuilding)
clear_target_state_lem_example =
    clear_target_state_lem (codes "foo") (codes "foo-bar") 0 memory (λ e. cc) (omega arith)

-- A rebuild that succeeds.
abbrev rebuild : Text → Memory → Option ApiError × Memory
rebuild target s = (none, s)

rebuild_test :
    rebuild_target (ℤ.pos 10) rebuild 20 21 (codes "foo") false memory
    ≡ (Outcome.rebuilt, record memory { last_rebuild_at = (codes "foo", 21) ∷ [] })
unfolding rebuild_target text_eq
rebuild_test = refl

rebuild_target-Throttled_example :
    (rebuild_target
      (ℤ.pos 10)
      rebuild
      25
      26
      (codes "foo")
      false
      (record memory { last_rebuild_at = (codes "foo", 21) ∷ [] })).0
    ≡ Outcome.deferred (21 + 10 - 25)
rebuild_target-Throttled_example =
    rebuild_target-Throttled 10 rebuild rebuild 20 21 25 26 (codes "foo") false memory
      (record memory { last_rebuild_at = (codes "foo", 21) ∷ [] }) (omega arith) (omega arith)
      rebuild_test

abbrev idle_system : System
idle_system = record { memory = memory; workers = Phase.idle ∷ Phase.idle ∷ [] }

abbrev locked_system : System
locked_system = record {
  memory = record memory { rebuilding = (codes "foo", true) ∷ [] };
  workers = Phase.idle ∷ Phase.locked (codes "foo") false ∷ [];
}

lock_test : target_try_lock (codes "foo") memory ≡ some locked_system.memory
unfolding target_try_lock
lock_test = refl

locked-Reachable : Reachable (ℤ.pos 10) locked_system
locked-Reachable =
    Reachable.next (Reachable.start {s = idle_system} (refl, (refl, tt)) refl)
      (Step.lock (codes "foo") false (Phase.idle ∷ [], [], refl, refl) lock_test)

Reachable-Exclusive_example :
    holders (codes "foo") locked_system.workers
    ≡ flag (or_false (lookup (codes "foo") locked_system.memory.rebuilding))
Reachable-Exclusive_example = Reachable-Exclusive locked-Reachable (codes "foo")

ensure_annotations-Settled_example :
    ensure_annotations
      (some (tracked none (codes "foo") true false true))
      (codes "foo")
      true
      false
      true
    ≡ none
ensure_annotations-Settled_example = ensure_annotations-Settled none (codes "foo") true false true

-- A cluster that is a table of ConfigMaps, which refuses nothing.
abbrev Server : Type 0
Server = Table ConfigMap

got : Text → Option ConfigMap → Result ApiError ConfigMap
got k none = Result.error ApiError.not_found
got k (some cm) = if text_eq cm.name k then Result.ok cm else Result.error ApiError.not_found

all : Server → List ConfigMap
all [] = []
all ((k, cm) ∷ w) = cm ∷ all w

abbrev cluster : Client Server
cluster = record {
  get = λ k w. (got k (lookup k w), w);
  create = λ cm w. (none, insert cm.name cm w);
  update = λ cm w. (none, insert cm.name cm w);
  delete = λ k w. (none, remove k w);
  list = λ target w. (Result.ok (all w), w);
  list_routes = λ target w. Result.ok (record { route = shop; is_deleted = false } ∷ []);
  get_service = λ name namespace w. none;
  retry = λ retriable act w. act w;
}

got-ok :
    (k : Text) (o : Option ConfigMap) (cm : ConfigMap)
    → got k o ≡ Result.ok cm
    → (o ≡ some cm) × (cm.name ≡ k)
unfolding got
got-ok k none cm h = cc
got-ok k (some found) cm h = elim (Bool-cases (text_eq found.name k)) [
  | inl e ↦
      let same : found ≡ cm = ok-inj (rw e at h) in
      (ap some same, subst (λ (c : ConfigMap). c.name ≡ k) same ((text_eq_iff found.name k).0 e))
  | inr e ↦ absurd (let no : Result.error ApiError.not_found ≡ Result.ok cm = rw e at h in cc)
]

abbrev stored : Server → Text → Option ConfigMap
stored w k = lookup k w

cluster-IsClient : IsClient cluster stored
cluster-IsClient = record {
  get_ok = λ k w v cm h. (
    (got-ok k (lookup k w) cm (ap (λ (o : Result ApiError ConfigMap × Server). o.0) h)).1,
    λ j. ap (lookup j) (sym (ap (λ (o : Result ApiError ConfigMap × Server). o.1) h)),
  );
  get_error =
      λ k w v e h j. ap (lookup j) (sym (ap (λ (o : Result ApiError ConfigMap × Server). o.1) h));
  create_ok = λ cm w v h j.
      ap (lookup j) (sym (ap (λ (o : Option ApiError × Server). o.1) h))
      ∙ lookup-insert cm.name j cm w;
  create_refused = λ cm w v e h r j.
      absurd (let no : none ≡ some e = ap (λ (o : Option ApiError × Server). o.0) h in cc);
  update_ok = λ cm w v h j.
      ap (lookup j) (sym (ap (λ (o : Option ApiError × Server). o.1) h))
      ∙ lookup-insert cm.name j cm w;
  update_refused = λ cm w v e h r j.
      absurd (let no : none ≡ some e = ap (λ (o : Option ApiError × Server). o.0) h in cc);
  delete_ok = λ k w v e h r j.
      ap (lookup j) (sym (ap (λ (o : Option ApiError × Server). o.1) h))
      ∙ lookup-remove j k w
      ∙ rw (text_eq_comm j k) refl;
  list_ok = λ target w v cms h j.
      ap (lookup j) (sym (ap (λ (o : Result ApiError (List ConfigMap) × Server). o.1) h));
  retry_runs = λ retriable act w. Runs.once refl;
}

-- Its cache is never behind.
cluster-IsCache : IsCache cluster stored stored
cluster-IsCache = record {
  get_cached = λ k w v cm h.
      (got-ok k (lookup k w) cm (ap (λ (o : Result ApiError ConfigMap × Server). o.0) h)).0;
  get_keeps = λ k j w v got h same now. refl;
  create_keeps = λ cm j w v e h same now. refl;
  update_keeps = λ cm j w v e h same now. refl;
}

abbrev config_map : Text → ConfigMap
config_map name = record { name = name; labels = []; content = [] }

-- A partition of an earlier rebuild.
abbrev server : Server
server = (codes "customrouter-routes-foo-1", config_map (codes "customrouter-routes-foo-1")) ∷ []

abbrev clean_memory : Memory
clean_memory = record { last_rebuild_at = []; rebuilding = []; partition_hashes = [] }

sweep_test :
    (delete_stale_config_maps_for_target cluster (codes "foo") [] server clean_memory).0 ≡ none
unfolding delete_stale_config_maps_for_target all
sweep_test = refl

delete_stale_config_maps_for_target-Swept_example :
    SweptAt cluster stored cluster-IsClient []
      (all server)
      server
      clean_memory
      (delete_stale_config_maps_for_target cluster (codes "foo") [] server clean_memory).1
      (delete_stale_config_maps_for_target cluster (codes "foo") [] server clean_memory).2
      (codes "customrouter-routes-foo-1")
delete_stale_config_maps_for_target-Swept_example =
    delete_stale_config_maps_for_target-Swept cluster stored cluster-IsClient (codes "foo") []
      server server clean_memory (all server) (codes "customrouter-routes-foo-1") refl sweep_test

abbrev encode_any : RoutesConfig → Option Text
encode_any rc = some (codes "{}")

abbrev marshal_any : Route → Option Text
marshal_any r = some (codes "{}")

abbrev partitions : List ConfigMapPartition
partitions =
    record { name = codes "customrouter-routes-foo-0"; target = codes "foo"; content = codes "{}" }
    ∷ []

split_test :
    partition_config encode_any marshal_any
      (codes "foo")
      (config_of_routes cluster encode_any marshal_any (shop ∷ []) server)
    ≡ Result.ok partitions
unfolding partition_config
split_test = refl

rebuild_cluster_test :
    (rebuild_config_maps_for_target cluster encode_any marshal_any
      (codes "foo")
      server
      clean_memory).0
    ≡ none
unfolding rebuild_config_maps_for_target got all
rebuild_cluster_test = refl

clean-Remembers : Remembers cluster stored cluster-IsClient server clean_memory
unfolding lookup
clean-Remembers name hash h = cc

rebuild_config_maps_for_target-Synced_example :
    Synced cluster stored cluster-IsClient partitions
      (all (upsert_config_maps cluster partitions server clean_memory).1)
      (rebuild_config_maps_for_target cluster encode_any marshal_any
        (codes "foo")
        server
        clean_memory).1
unfolding active_routes
rebuild_config_maps_for_target-Synced_example =
    rebuild_config_maps_for_target-Synced cluster stored cluster-IsClient stored cluster-IsCache
      encode_any marshal_any (codes "foo") server
      (upsert_config_maps cluster partitions server clean_memory).1 clean_memory
      (record { route = shop; is_deleted = false } ∷ []) shop [] partitions
      (all (upsert_config_maps cluster partitions server clean_memory).1) clean-Remembers refl refl
      split_test (tt, tt) (refl, tt) refl rebuild_cluster_test
