-- ===== src/Reconciler/Cluster/Stale.antt =====
-- Which ConfigMaps are deleted: `deleteStaleConfigMapsForTarget` of
-- internal/controller/customhttproute/sync.go.
use customrouter.Base.{
  text_eq_comm, ◌∙◌, arith, false, true, ◌||◌, has_prefix, lookup, Bool-cases, if◌then◌else◌, not,
  ◌&&◌, ◌≡◌, text_eq, any, Bool, Option, Text, List, [], ◌∷◌, none, inl, inr, refl,
}
use customrouter.Base.Results.{Result}
use customrouter.Reconciler.{clear_partition_hash, Memory}
use customrouter.Reconciler.Maps.{lookup-remove}
use customrouter.Reconciler.Cluster.{
  delete_stale_config_maps_for_target, is_failure, config_map_base_name, Client, ConfigMap,
  delete_stale,
}
use customrouter.Reconciler.Cluster.Relied.{IsClient}

-- A listed ConfigMap of the name is one of the controller's partitions and not an active one.
abbrev pub is_stale : List Text → Text → ConfigMap → Bool
is_stale active j cm =
    text_eq cm.name j
    && has_prefix cm.name config_map_base_name
    && not (any (text_eq cm.name) active)

-- The test of the loop against the one of a name.
not_stale : (a b c : Bool) → (not b || c) ≡ true → (a && b && not c) ≡ false
not_stale a b c h = ground (arith, h)

stale_name : (a b c : Bool) → (not b || c) ≡ false → (a && b && not c) ≡ a
stale_name a b c h = ground (arith, h)

if-or {ℓ} :
    {A : Type ℓ} (a b : Bool) (x y : A)
    → (if b then x else if a then x else y) ≡ (if a || b then x else y)
if-or true true x y = refl
if-or true false x y = refl
if-or false b x y = refl

module _ {W : Type 0} (client : Client W) (stored : W → Text → Option ConfigMap)
    (server : IsClient client stored) where
  -- The stale names are gone, from the server and from the hashes, and the others are as before.
  abbrev pub SweptAt : List Text → List ConfigMap → W → Memory → W → Memory → Text → Type 0
  SweptAt active cms w s v t j =
      (stored v j ≡ (if any (is_stale active j) cms then none else stored w j))
      × (lookup j t.partition_hashes
          ≡ (if any (is_stale active j) cms then none else lookup j s.partition_hashes))

  abbrev Swept : List Text → List ConfigMap → W → Memory → W → Memory → Type 0
  Swept active cms w s v t = (j : Text) → SweptAt active cms w s v t j

  skip-Swept :
      (active : List Text) (cm : ConfigMap) (cms : List ConfigMap) (w v : W) (s t : Memory)
      → (not (has_prefix cm.name config_map_base_name) || any (text_eq cm.name) active) ≡ true
      → Swept active cms w s v t
      → Swept active (cm ∷ cms) w s v t
  unfolding any
  skip-Swept active cm cms w v s t skip h j =
      let fresh : is_stale active j cm ≡ false =
        not_stale (text_eq cm.name j) (has_prefix cm.name config_map_base_name)
          (any (text_eq cm.name) active) skip in
      rw fresh (h j)

  delete-Swept :
      (active : List Text) (cm : ConfigMap) (cms : List ConfigMap) (w v : W) (s t : Memory)
      → (not (has_prefix cm.name config_map_base_name) || any (text_eq cm.name) active) ≡ false
      → is_failure client (client.delete cm.name w).0 ≡ false
      → Swept active cms (client.delete cm.name w).1 (clear_partition_hash cm.name s) v t
      → Swept active (cm ∷ cms) w s v t
  unfolding any clear_partition_hash
  delete-Swept active cm cms w v s t stale fine h j =
      let gone =
        server.delete_ok cm.name w (client.delete cm.name w).1 (client.delete cm.name w).0 refl fine
          j in
      let (after, hashes) = h j in
      let forgot = lookup-remove j cm.name s.partition_hashes in
      let named : is_stale active j cm ≡ text_eq cm.name j =
        stale_name (text_eq cm.name j) (has_prefix cm.name config_map_base_name)
          (any (text_eq cm.name) active) stale in
      rw named (
        after ∙ rw gone (if-or (text_eq cm.name j) (any (is_stale active j) cms) none (stored w j)),
        hashes
            ∙ rw (forgot, text_eq_comm j cm.name)
                (if-or (text_eq cm.name j) (any (is_stale active j) cms) none
                  (lookup j s.partition_hashes)),
      )

  delete_stale-Swept :
      (active : List Text) (cms : List ConfigMap) (w : W) (s : Memory)
      → (delete_stale client active cms w s).0 ≡ none
      → Swept active cms w s
          (delete_stale client active cms w s).1
          (delete_stale client active cms w s).2
  unfolding delete_stale any
  delete_stale-Swept active [] w s h = λ j. (refl, refl)
  delete_stale-Swept active (cm ∷ cms) w s h =
      elim (Bool-cases
        (not (has_prefix cm.name config_map_base_name) || any (text_eq cm.name) active)) [
          | inl skip ↦ rw skip (
              skip-Swept active cm cms w (delete_stale client active cms w s).1 s
                (delete_stale client active cms w s).2 skip
                (delete_stale-Swept active cms w s (rw skip at h)))
          | inr stale ↦ elim (Bool-cases (is_failure client (client.delete cm.name w).0)) [
            | inl failed ↦
                let gave : (client.delete cm.name w).0 ≡ none = rw (stale, failed) at h in
                absurd (let no : is_failure client none ≡ true = rw gave at failed in cc)
            | inr fine ↦
                let next =
                  delete_stale client active cms (client.delete cm.name w).1
                    (clear_partition_hash cm.name s) in
                rw (stale, fine)
                  (delete-Swept active cm cms w next.1 s next.2 stale fine (
                    delete_stale-Swept active cms (client.delete cm.name w).1
                      (clear_partition_hash cm.name s) (rw (stale, fine) at h)))
          ]
        ]

  -- A sweep of a target that succeeds removes the ConfigMaps that were listed for it, have the
  -- partitions' prefix and are not active, with their hashes, and nothing else.
  pub delete_stale_config_maps_for_target-Swept :
      (target : Text) (active : List Text) (w v : W) (s : Memory) (cms : List ConfigMap) (j : Text)
      → client.list target w ≡ (Result.ok cms, v)
      → (delete_stale_config_maps_for_target client target active w s).0 ≡ none
      → SweptAt active cms w s
          (delete_stale_config_maps_for_target client target active w s).1
          (delete_stale_config_maps_for_target client target active w s).2
          j
  unfolding delete_stale_config_maps_for_target
  delete_stale_config_maps_for_target-Swept target active w v s cms j l h =
      let (stored_after, hashes) = delete_stale-Swept active cms v s (rw l at h) j in
      rw l (stored_after ∙ rw (server.list_ok target w v cms l j) refl, hashes)
