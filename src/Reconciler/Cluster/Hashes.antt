-- ===== src/Reconciler/Cluster/Hashes.antt =====
-- The hashes of the partitions and the ConfigMaps they stand for: `upsertConfigMaps` of
-- internal/controller/customhttproute/sync.go.
use customrouter.Base.{
  subst, All-imp, some-inj, All, sym, text_eq_iff, ==_iff, Bool-cases, ◌==◌, Option-cases,
  lookup-insert, ap, text_eq_comm, List, text_eq_refl, ◌∙◌, false, lookup, text_eq, true, ◌≡◌,
  Option, Text, [], ◌∷◌, none, some, ℕ, inl, inr, refl,
}
use customrouter.Reconciler.{fnv_hash, set_partition_hash, partition_hash_hit, Memory}
use customrouter.Reconciler.Cluster.{
  remembered, upsert_single_config_map, upsert_config_maps, attempt, is_retriable,
  ConfigMapPartition, Client, ApiError, ConfigMap,
}
use customrouter.Reconciler.Cluster.Relied.{Runs, IsClient, IsCache}
use customrouter.Reconciler.Cluster.Stored.{Written, Runs-Written, routes_of, Current}

module _ {W : Type 0} (client : Client W) (stored : W → Text → Option ConfigMap)
    (server : IsClient client stored) where
  -- The hashes are those of what is stored.
  abbrev pub Remembers : W → Memory → Type 0
  Remembers w s =
      (name : Text) (hash : ℕ)
      → lookup name s.partition_hashes ≡ some hash
      → (cm : ConfigMap) × (stored w name ≡ some cm)
        × (fnv_hash (routes_of client stored server cm) ≡ hash)

  -- The hash of a partition is remembered and those of other names are as before.
  abbrev Noted : ConfigMapPartition → Memory → Memory → Type 0
  Noted p s t =
      (lookup p.name t.partition_hashes ≡ some (fnv_hash p.content))
      × ((j : Text)
          → text_eq p.name j ≡ false
          → lookup j t.partition_hashes ≡ lookup j s.partition_hashes)

  hit-Noted :
      (p : ConfigMapPartition) (s : Memory)
      → partition_hash_hit p.name (fnv_hash p.content) s ≡ true
      → Noted p s s
  unfolding partition_hash_hit
  hit-Noted p s h = elim (Option-cases (lookup p.name s.partition_hashes)) [
    | inl e ↦ absurd (let no : false ≡ true = rw e at h in cc)
    | inr (hash, e) ↦
        let same : (hash == fnv_hash p.content) ≡ true = rw e at h in
        (e ∙ ap some ((==_iff hash (fnv_hash p.content)).0 same), λ j other. refl)
  ]

  abbrev pub Distinct : List ConfigMapPartition → Type 0
  Distinct [] = Unit
  Distinct (p ∷ ps) =
      All (λ (q : ConfigMapPartition). text_eq q.name p.name ≡ false) ps × Distinct ps

  -- Every partition's hash is remembered.
  abbrev AllNoted : List ConfigMapPartition → Memory → Type 0
  AllNoted ps t =
      All (λ (p : ConfigMapPartition). lookup p.name t.partition_hashes ≡ some (fnv_hash p.content))
        ps

  abbrev Loop : List ConfigMapPartition → Memory → Option ApiError × W × Memory → Type 0
  Loop ps s (e, v, t) =
      Remembers v t
      × AllNoted ps t
      × ((j : Text)
          → All (λ (p : ConfigMapPartition). text_eq p.name j ≡ false) ps
          → lookup j t.partition_hashes ≡ lookup j s.partition_hashes)

  module _ (cached : W → Text → Option ConfigMap) (cache : IsCache client stored cached) where
    -- The cache is current for the names of the partitions.
    abbrev pub AreCurrent : W → List ConfigMapPartition → Type 0
    AreCurrent w =
        All (λ (p : ConfigMapPartition). Current client stored server cached cache w p.name)

    -- The cache stays current for the other names.
    abbrev Keeps : ConfigMapPartition → W → W → Type 0
    Keeps p w v =
        (j : Text)
        → text_eq p.name j ≡ false
        → Current client stored server cached cache w j
        → Current client stored server cached cache v j

    Keeps-AreCurrent :
        (p : ConfigMapPartition) (w v : W) (ps : List ConfigMapPartition)
        → Keeps p w v
        → All (λ (q : ConfigMapPartition). text_eq q.name p.name ≡ false) ps
        → AreCurrent w ps
        → AreCurrent v ps
    Keeps-AreCurrent p w v [] keeps fresh now = tt
    Keeps-AreCurrent p w v (q ∷ ps) keeps (one, fresh) (c, now) = (
      keeps q.name (text_eq_comm p.name q.name ∙ one) c,
      Keeps-AreCurrent p w v ps keeps fresh now,
    )

    Written-Remembers :
        (p : ConfigMapPartition) (w v : W) (s : Memory)
        → Remembers w s
        → Written client stored server cached cache p w v
        → Remembers v (set_partition_hash p.name (fnv_hash p.content) s)
          × Noted p s (set_partition_hash p.name (fnv_hash p.content) s)
    unfolding set_partition_hash
    Written-Remembers p w v s before ((cm, here, routes), others) = (
      λ name hash h.
          let found = lookup-insert p.name name (fnv_hash p.content) s.partition_hashes in
          elim (Bool-cases (text_eq p.name name)) [
            | inl same ↦
                let hashes : some (fnv_hash p.content) ≡ some hash = sym (rw same at found) ∙ h in
                let equal : p.name ≡ name = (text_eq_iff p.name name).0 same in
                (cm, rw equal at here, ap fnv_hash routes ∙ some-inj hashes)
            | inr other ↦
                let (old, there, hashed) = before name hash (sym (rw other at found) ∙ h) in
                (old, (others name other).0 ∙ there, hashed)
          ],
      (
        lookup-insert p.name p.name (fnv_hash p.content) s.partition_hashes
            ∙ rw (text_eq_refl) refl,
        λ j other. lookup-insert p.name j (fnv_hash p.content) s.partition_hashes ∙ rw other refl,
      ),
    )

    -- What one partition's turn does when it gives no error.
    abbrev After : ConfigMapPartition → W → Memory → Option ApiError × W × Memory → Type 0
    After p w s (e, v, t) = Remembers v t × Noted p s t × Keeps p w v

    remembered-After :
        (p : ConfigMapPartition) (w : W) (s : Memory) (out : Option ApiError × W)
        → Remembers w s
        → Current client stored server cached cache w p.name
        → Runs is_retriable (attempt client p) w out
        → (remembered client p s out).0 ≡ none
        → After p w s (remembered client p s out)
    remembered-After p w s (some e, v) before now runs h = cc
    remembered-After p w s (none, v) before now runs h =
        let written = Runs-Written client stored server cached cache p w (none, v) now runs refl in
        let (after, noted) = Written-Remembers p w v s before written in
        (after, noted, λ j other. (written.1 j other).1)

    upsert_single-After :
        (p : ConfigMapPartition) (w : W) (s : Memory)
        → Remembers w s
        → Current client stored server cached cache w p.name
        → (upsert_single_config_map client p w s).0 ≡ none
        → After p w s (upsert_single_config_map client p w s)
    unfolding upsert_single_config_map
    upsert_single-After p w s before now h =
        elim (Bool-cases (partition_hash_hit p.name (fnv_hash p.content) s)) [
          | inl hit ↦ rw hit (before, hit-Noted p s hit, λ j other c. c)
          | inr miss ↦ rw miss (
              remembered-After p w s (client.retry is_retriable (attempt client p) w) before now
                (server.retry_runs is_retriable (attempt client p) w) (rw miss at h))
        ]

    upsert_config_maps-AllNoted :
        (ps : List ConfigMapPartition) (w : W) (s : Memory)
        → Remembers w s
        → Distinct ps
        → AreCurrent w ps
        → (upsert_config_maps client ps w s).0 ≡ none
        → Loop ps s (upsert_config_maps client ps w s)
    unfolding upsert_config_maps
    upsert_config_maps-AllNoted [] w s before d now h = (before, tt, λ j _. refl)
    upsert_config_maps-AllNoted (p ∷ ps) w s before (fresh, d) (c, now) h =
        let out = upsert_single_config_map client p w s in
        elim (Option-cases out.0) [
          | inr (e, failed) ↦ absurd (let no : some e ≡ none = sym failed ∙ rw failed at h in cc)
          | inl fine ↦
              let (after, (noted, kept), keeps) = upsert_single-After p w s before c fine in
              let (last, all, others) =
                upsert_config_maps-AllNoted ps out.1 out.2 after d
                  (Keeps-AreCurrent p w out.1 ps keeps fresh now) (rw fine at h) in
              let step : upsert_config_maps client (p ∷ ps) w s
                  ≡ upsert_config_maps client ps out.1 out.2 =
                rw fine refl in
              subst (Loop (p ∷ ps) s) (sym step) (
                last,
                (others p.name fresh ∙ noted, all),
                λ j (one, rest). others j rest ∙ kept j one,
              )
        ]

    -- After the partitions are written with no error, from a cache that is current for them, each has a ConfigMap of its name whose routes
    -- have the hash of the partition's, and so has every name whose hash is remembered.
    pub upsert_config_maps-Stored :
        (ps : List ConfigMapPartition) (w : W) (s : Memory)
        → Remembers w s
        → Distinct ps
        → AreCurrent w ps
        → (upsert_config_maps client ps w s).0 ≡ none
        → Remembers (upsert_config_maps client ps w s).1 (upsert_config_maps client ps w s).2
          × All
              (λ (p : ConfigMapPartition).
                (cm : ConfigMap) × (stored (upsert_config_maps client ps w s).1 p.name ≡ some cm)
                × (fnv_hash (routes_of client stored server cm) ≡ fnv_hash p.content))
              ps
    upsert_config_maps-Stored ps w s before d now h =
        let (after, noted, _) = upsert_config_maps-AllNoted ps w s before d now h in
        (after, All-imp (λ p e. after p.name (fnv_hash p.content) e) ps noted)
