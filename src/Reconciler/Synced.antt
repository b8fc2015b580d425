-- ===== src/Reconciler/Synced.antt =====
-- What a rebuild of a target that succeeds leaves in the cluster: `rebuildConfigMapsForTarget` of
-- internal/controller/customhttproute/sync.go.
use customrouter.Base.{
  if◌then◌else◌, is_some, ◌∙◌, ◌||◌, ◌&&◌, Bool, has_prefix, text_eq_iff, Bool-cases, false, arith,
  text_eq_refl, true, ◌≡◌, All, text_eq, Option, List, Text, any, [], ◌∷◌, none, some, inl, inr,
  refl,
}
use customrouter.Base.Results.{Result}
use customrouter.Reconciler.{fnv_hash, Memory}
use customrouter.Reconciler.Cluster.{
  delete_stale_config_maps_for_target, Listed, upsert_config_maps, Client, ApiError, ConfigMap,
}
use customrouter.Reconciler.Cluster.Relied.{IsClient, IsCache}
use customrouter.Reconciler.Cluster.Stored.{routes_of}
use customrouter.Reconciler.Cluster.Hashes.{
  upsert_config_maps-Stored, Remembers, Distinct, AreCurrent,
}
use customrouter.Reconciler.Rebuild.{
  config_of_routes, active_routes, as_api, delete_others, rebuild_config_maps_for_target,
  partition_names,
}
use customrouter.ConfigMaps.{config_map_base_name, ConfigMapPartition}
use customrouter.Reconciler.Cluster.Stale.{delete_stale_config_maps_for_target-Swept, is_stale}
use customrouter.Routes.{Route, RoutesConfig}
use customrouter.Api.{CustomHttpRoute}
use customrouter.ConfigMaps.Split.{partition_config}

no_stale {ℓ} :
    {A : Type ℓ} (b : Bool) (o : Option A) → (b && is_some (if b then none else o)) ≡ false
no_stale true o = refl
no_stale false o = refl

no_and : (a b : Bool) → (a && b && false || false) ≡ false
no_and a b = ground arith

-- A name that is active is not stale.
active-kept :
    (active : List Text) (j : Text) (cms : List ConfigMap)
    → any (text_eq j) active ≡ true
    → any (is_stale active j) cms ≡ false
unfolding any
active-kept active j [] h = refl
active-kept active j (cm ∷ cms) h = elim (Bool-cases (text_eq cm.name j)) [
  | inl e ↦
      let same : cm.name ≡ j = (text_eq_iff cm.name j).0 e in
      rw (same, h, active-kept active j cms h)
        (no_and (text_eq j j) (has_prefix j config_map_base_name))
  | inr e ↦ rw (e, active-kept active j cms h) refl
]

names-active :
    (ps : List ConfigMapPartition) (active : List Text)
    → ((j : Text) → any (text_eq j) (partition_names ps) ≡ true → any (text_eq j) active ≡ true)
    → All (λ (p : ConfigMapPartition). any (text_eq p.name) active ≡ true) ps
unfolding any partition_names
names-active [] active h = tt
names-active (p ∷ ps) active h = (
  h p.name (rw (text_eq_refl p.name) refl),
  names-active ps active (λ j e. h j (ground (arith, e))),
)

All-zip {ℓ κ μ ν} :
    {A : Type ℓ} {P : A → Type κ} {Q : A → Type μ} {R : A → Type ν} (xs : List A)
    → All P xs
    → All Q xs
    → ((a : A) → P a → Q a → R a)
    → All R xs
All-zip [] p q f = tt
All-zip (x ∷ xs) (p, ps) (q, qs) f = (f x p q, All-zip xs ps qs f)

module _ {W : Type 0} (client : Client W) (stored : W → Text → Option ConfigMap)
    (server : IsClient client stored) where
  -- The partitions are stored, with the routes that have their hashes, and of the ConfigMaps that
  -- were listed no other partition is left.
  abbrev pub Synced : List ConfigMapPartition → List ConfigMap → W → Type 0
  Synced ps cms v =
      All
        (λ (p : ConfigMapPartition).
          (cm : ConfigMap) × (stored v p.name ≡ some cm)
          × (fnv_hash (routes_of client stored server cm) ≡ fnv_hash p.content))
        ps
      × ((j : Text) → (any (is_stale (partition_names ps) j) cms && is_some (stored v j)) ≡ false)

  as_api-none :
      (encode : RoutesConfig → Option Text) (marshal : Route → Option Text)
      (out : Option ApiError × W × Memory)
      → (as_api client encode marshal out).0 ≡ none
      → (out.0 ≡ none) × ((as_api client encode marshal out).1 ≡ out.1)
  as_api-none encode marshal (some e, w, s) h = cc
  as_api-none encode marshal (none, w, s) h = (refl, refl)

  delete_others-Synced :
      (encode : RoutesConfig → Option Text) (marshal : Route → Option Text) (target : Text)
      (ps : List ConfigMapPartition) (v : W) (cms : List ConfigMap)
      (out : Option ApiError × W × Memory)
      → (out.0 ≡ none
          → All
              (λ (p : ConfigMapPartition).
                (cm : ConfigMap) × (stored out.1 p.name ≡ some cm)
                × (fnv_hash (routes_of client stored server cm) ≡ fnv_hash p.content))
              ps)
      → client.list target out.1 ≡ (Result.ok cms, v)
      → (delete_others client encode marshal target ps out).0 ≡ none
      → Synced ps cms (delete_others client encode marshal target ps out).1
  delete_others-Synced encode marshal target ps v cms (some e, w, s) known l h = cc
  delete_others-Synced encode marshal target ps v cms (none, w, s) known l h =
      let names = partition_names ps in
      let out = delete_stale_config_maps_for_target client target names w s in
      let (fine, world) = as_api-none encode marshal out h in
      let swept = λ (j : Text).
        delete_stale_config_maps_for_target-Swept client stored server target names w v s cms j l
          fine in
      rw world (
        All-zip ps (names-active ps names (λ j e. e)) (known refl) (λ p active (cm, here, hash).
            (cm, (swept p.name).0 ∙ rw (active-kept names p.name cms active) here, hash)),
        λ j. rw ((swept j).0) (no_stale (any (is_stale names j) cms) (stored w j)),
      )

  -- A rebuild of a target with routes that succeeds leaves each of its partitions in a ConfigMap of
  -- the partition's name, with routes of the partition's hash, and of the ConfigMaps that were
  -- listed for the target no partition that is not one of these. When it starts, the hashes in
  -- memory stand for what is stored and the client's cache is current for the partitions' names,
  -- which are distinct; no other client writes meanwhile.
  pub rebuild_config_maps_for_target-Synced :
      (cached : W → Text → Option ConfigMap) (cache : IsCache client stored cached)
      (encode : RoutesConfig → Option Text) (marshal : Route → Option Text) (target : Text)
      (w v : W) (s : Memory) (ls : List Listed) (cr : CustomHttpRoute) (crs : List CustomHttpRoute)
      (ps : List ConfigMapPartition) (cms : List ConfigMap)
      → Remembers client stored server w s
      → client.list_routes target w ≡ Result.ok ls
      → active_routes ls ≡ cr ∷ crs
      → partition_config encode marshal target (config_of_routes client encode marshal (cr ∷ crs) w)
        ≡ Result.ok ps
      → Distinct client stored server ps
      → AreCurrent client stored server cached cache w ps
      → client.list target (upsert_config_maps client ps w s).1 ≡ (Result.ok cms, v)
      → (rebuild_config_maps_for_target client encode marshal target w s).0 ≡ none
      → Synced ps cms (rebuild_config_maps_for_target client encode marshal target w s).1
  unfolding rebuild_config_maps_for_target
  rebuild_config_maps_for_target-Synced cached cache encode marshal target w v s ls cr crs ps cms
        before listed active split d now l h =
      let run : rebuild_config_maps_for_target client encode marshal target w s
          ≡ delete_others client encode marshal target ps (upsert_config_maps client ps w s) =
        rw (listed) (rw (active) (rw (split) refl)) in
      rw run (
        delete_others-Synced encode marshal target ps v cms (upsert_config_maps client ps w s)
          (λ fine.
            (upsert_config_maps-Stored client stored server cached cache ps w s before d now
              fine).1)
          l (rw run at h))
