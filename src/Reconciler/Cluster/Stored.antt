-- ===== src/Reconciler/Cluster/Stored.antt =====
-- What the ConfigMaps hold once the partitions are written: `upsertConfigMaps` of
-- internal/controller/customhttproute/sync.go, for what the API server documents.
use customrouter.Base.{
  text_eq_iff, arith, Bool-cases, ap, sym, subst, ◌&&◌, text_eq_refl, ◌∙◌, false, if◌then◌else◌,
  lookup, text_eq, true, ◌≡◌, Option, Bool, Text, [], ◌∷◌, none, some, inl, inr, refl,
}
use customrouter.Base.Results.{Result}
use customrouter.Reconciler.Cluster.Relied.{Runs, IsClient, IsCache}
use customrouter.Reconciler.Cluster.{
  config_map_labels, maps_equal, attempt, routes_data_key, is_retriable, config_map_of,
  ConfigMapPartition, write, or_empty, Client, ApiError, ConfigMap,
}

module _ {W : Type 0} (client : Client W) (stored : W → Text → Option ConfigMap)
    (server : IsClient client stored) where
  -- The routes of a ConfigMap.
  abbrev pub routes_of : ConfigMap → Text
  routes_of cm = or_empty (lookup routes_data_key cm.content)

  -- Reading changes nothing.
  get-same :
      (k : Text) (w u : W) (got : Result ApiError ConfigMap)
      → client.get k w ≡ (got, u)
      → (j : Text) → stored u j ≡ stored w j
  get-same k w u (Result.error e) g j = server.get_error k w u e g j
  get-same k w u (Result.ok cm) g j = (server.get_ok k w u cm g).1 j

  -- The ConfigMap that replaces another.
  abbrev updated : ConfigMapPartition → ConfigMap → ConfigMap
  updated p existing = record existing {
    labels = config_map_labels p;
    content = (routes_data_key, p.content) ∷ [];
  }

  -- The test that skips the update.
  abbrev matches_partition : ConfigMapPartition → ConfigMap → Bool
  matches_partition p existing =
      text_eq (routes_of existing) p.content && maps_equal existing.labels (config_map_labels p)

  write-refused :
      (p : ConfigMapPartition) (w u v : W) (got : Result ApiError ConfigMap) (e : ApiError)
      → client.get p.name w ≡ (got, u)
      → write client p (got, u) ≡ (some e, v)
      → is_retriable e ≡ true
      → (j : Text) → stored v j ≡ stored u j
  unfolding write
  write-refused p w u v (Result.error ApiError.not_found) e g h r j =
      server.create_refused (config_map_of p) u v e h r j
  write-refused p w u v (Result.error ApiError.conflict) e g h r j =
      ap (λ (o : Option ApiError × W). stored o.1 j) (sym h)
  write-refused p w u v (Result.error ApiError.already_exists) e g h r j =
      ap (λ (o : Option ApiError × W). stored o.1 j) (sym h)
  write-refused p w u v (Result.error (ApiError.other text)) e g h r j =
      ap (λ (o : Option ApiError × W). stored o.1 j) (sym h)
  write-refused p w u v (Result.ok existing) e g h r j =
      elim (Bool-cases (matches_partition p existing)) [
        | inl t ↦
            absurd
              (let no : none ≡ some e = ap (λ (o : Option ApiError × W). o.0) (rw t at h) in cc)
        | inr t ↦ server.update_refused (updated p existing) u v e (rw t at h) r j
      ]

  module _ (cached : W → Text → Option ConfigMap) (cache : IsCache client stored cached) where
    -- The cache holds for the name what the server holds.
    abbrev pub Current : W → Text → Type 0
    Current w j = cached w j ≡ stored w j

    write-Current :
        (p : ConfigMapPartition) (u v : W) (got : Result ApiError ConfigMap) (e : Option ApiError)
        → write client p (got, u) ≡ (e, v)
        → (j : Text) → stored v j ≡ stored u j
        → Current u j
        → Current v j
    unfolding write
    write-Current p u v (Result.error ApiError.not_found) e h j same now =
        cache.create_keeps (config_map_of p) j u v e h same now
    write-Current p u v (Result.error ApiError.conflict) e h j same now =
        subst (λ (o : Option ApiError × W). Current o.1 j) h now
    write-Current p u v (Result.error ApiError.already_exists) e h j same now =
        subst (λ (o : Option ApiError × W). Current o.1 j) h now
    write-Current p u v (Result.error (ApiError.other text)) e h j same now =
        subst (λ (o : Option ApiError × W). Current o.1 j) h now
    write-Current p u v (Result.ok existing) e h j same now =
        elim (Bool-cases (matches_partition p existing)) [
          | inl t ↦ subst (λ (o : Option ApiError × W). Current o.1 j) (rw t at h) now
          | inr t ↦ cache.update_keeps (updated p existing) j u v e (rw t at h) same now
        ]

    -- A partition is written: its name has its routes, and nothing else has changed, nor has the
    -- cache fallen behind for another name.
    abbrev pub Written : ConfigMapPartition → W → W → Type 0
    Written p w v =
        ((cm : ConfigMap) × (stored v p.name ≡ some cm) × (routes_of cm ≡ p.content))
        × ((j : Text)
            → text_eq p.name j ≡ false
            → (stored v j ≡ stored w j) × (Current w j → Current v j))

    -- What the last attempt stores, and what it leaves as it is.
    abbrev Put : ConfigMapPartition → W → W → Type 0
    Put p u v =
        ((cm : ConfigMap) × (stored v p.name ≡ some cm) × (routes_of cm ≡ p.content))
        × ((j : Text) → text_eq p.name j ≡ false → stored v j ≡ stored u j)

    -- A write of a ConfigMap with the partition's name and routes.
    stored-Put :
        (p : ConfigMapPartition) (cm : ConfigMap) (u v : W)
        → cm.name ≡ p.name
        → routes_of cm ≡ p.content
        → ((j : Text) → stored v j ≡ (if text_eq cm.name j then some cm else stored u j))
        → Put p u v
    stored-Put p cm u v name routes put = (
      (cm, put p.name ∙ rw (name, text_eq_refl) refl, routes),
      λ j other. put j ∙ rw (name, other) refl,
    )

    write-Put :
        (p : ConfigMapPartition) (w u v : W) (got : Result ApiError ConfigMap)
        → Current w p.name
        → client.get p.name w ≡ (got, u)
        → write client p (got, u) ≡ (none, v)
        → Put p u v
    unfolding write
    write-Put p w u v (Result.error ApiError.not_found) now g h =
        stored-Put p (config_map_of p) u v refl (unfold lookup text_eq in refl)
          (server.create_ok (config_map_of p) u v h)
    write-Put p w u v (Result.error ApiError.conflict) now g h = cc
    write-Put p w u v (Result.error ApiError.already_exists) now g h = cc
    write-Put p w u v (Result.error (ApiError.other text)) now g h = cc
    write-Put p w u v (Result.ok existing) now g h =
        let (name, same) = server.get_ok p.name w u existing g in
        let here : stored w p.name ≡ some existing =
          sym now ∙ cache.get_cached p.name w u existing g in
        elim (Bool-cases (matches_partition p existing)) [
          | inl t ↦
              let equal : text_eq (routes_of existing) p.content ≡ true = ground (arith, t) in
              subst (λ (o : Option ApiError × W). Put p u o.1) (rw t at h)
                (
                  (
                    existing,
                    same p.name ∙ here,
                    (text_eq_iff (routes_of existing) p.content).0 equal,
                  ),
                  λ j other. refl,
                )
          | inr t ↦
              stored-Put p (updated p existing) u v name (unfold lookup text_eq in refl)
                (server.update_ok (updated p existing) u v (rw t at h))
        ]

    -- One attempt that fails for a conflict leaves all as it was.
    attempt-Current :
        (p : ConfigMapPartition) (w v : W) (e : ApiError)
        → attempt client p w ≡ (some e, v)
        → is_retriable e ≡ true
        → (j : Text) → (stored v j ≡ stored w j) × (Current w j → Current v j)
    unfolding attempt
    attempt-Current p w v e failed retriable j =
        let got = (client.get p.name w).0 in
        let u = (client.get p.name w).1 in
        let read = get-same p.name w u got refl j in
        let kept = write-refused p w u v got e refl failed retriable j in
        (
          kept ∙ read,
          λ now.
              write-Current p u v got (some e) failed j kept
                (cache.get_keeps p.name j w u got refl read now),
        )

    -- The attempts together write the partition when the last does.
    pub Runs-Written :
        (p : ConfigMapPartition) (w : W) (out : Option ApiError × W)
        → Current w p.name
        → Runs is_retriable (attempt client p) w out
        → out.0 ≡ none
        → Written p w out.1
    unfolding attempt
    Runs-Written p w out now (Runs.once e) n =
        let got = (client.get p.name w).0 in
        let u = (client.get p.name w).1 in
        let done : write client p (got, u) ≡ (none, out.1) = e ∙ ap (λ o. (o, out.1)) n in
        let (here, others) = write-Put p w u out.1 got now refl done in
        (
          here,
          λ j other.
              let read = get-same p.name w u got refl j in
              (
                others j other ∙ read,
                λ current.
                    write-Current p u out.1 got none done j (others j other)
                      (cache.get_keeps p.name j w u got refl read current),
              ),
        )
    Runs-Written p w out now (Runs.again {v = v} e failed retriable rest) n =
        let kept = attempt-Current p w v e failed retriable in
        let (here, others) = Runs-Written p v out ((kept p.name).1 now) rest n in
        (
          here,
          λ j other.
              let (same, current) = kept j in
              let (last, then_current) = others j other in
              (last ∙ same, λ c. then_current (current c)),
        )
