-- ===== src/ConfigMaps/Split/Bounds.antt =====
-- No partition is too large for a ConfigMap: `partitionConfig` and `splitByHosts` of
-- internal/controller/customhttproute/sync.go.
use mathlib.Core.List.Perm
use customrouter.Base.{
  ◌<◌, leb, ◌++◌, IsMap, ◌∙◌, sym, some-inj, not, ◌&&◌, ◌+◌, ◌+◌, ltb, ap, arith, none, All-append,
  length, subst, text_eq, ◌≤◌, some, Bool-cases, if◌then◌else◌, [], ◌∷◌, false, true, ◌≡◌, All,
  is_empty, Bool, Option, List, Text, Table, inl, inr, refl, lookup, insert, ◌⊎◌,
}
use customrouter.Base.Results.{Result, bind-eq-ok, ok-inj}
use customrouter.ConfigMaps.Split.{
  empty_packing, host_less, flush_last, split_by_hosts, pack_host, split_host_routes, split_host,
  max_config_map_size, to_json, config_of, add_host, Packing, flush, Route, RoutesConfig, pack,
  partition_config,
}
use customrouter.ConfigMaps.Split.Sizes.{
  is_plain, IsJson, Fits, to_json-eq-ok, split_host_routes-Fits,
}
use customrouter.ConfigMaps.Split.Packed.{New-empty, AreSmall, Packed, New, pack_host-Packed}
use customrouter.ConfigMaps.{plain_config, ConfigMapPartition, strip_newline}
use customrouter.ConfigMaps.Held.{held}
use customrouter.Base.Sorting.{All-sort_stable, sort_stable}
use customrouter.ConfigMaps.Split.Hosts.{sort_stable-IsMap}
use customrouter.ConfigMaps.Buckets.Sized.{marshalled}

abbrev pub ArePlain : Table (List Route) → Type 0
ArePlain = All (λ (e : Text × List Route). All (λ c. is_plain c ≡ true) e.0)

insert-nonempty :
    (host : Text) (rs : List Route) (hosts : Table (List Route))
    → is_empty (insert host rs hosts) ≡ false
unfolding insert
insert-nonempty host rs [] = refl
insert-nonempty host rs ((k, ss) ∷ hosts) = elim (Bool-cases (text_eq k host)) [
  | inl e ↦ rw e refl
  | inr e ↦ rw e refl
]

module _ (encode : RoutesConfig → Option Text) (marshal : Route → Option Text)
    (json : IsJson encode marshal) (target : Text) where
  -- The estimate of the current partition's size is one of a partition that fits.
  abbrev Estimated : Packing → Type 0
  Estimated s =
      (is_empty s.hosts ≡ false)
      × (s.size ≤ max_config_map_size)
      × ((text : Text)
          → encode (config_of 1 s.hosts) ≡ some text
          → length (strip_newline text) ≤ s.size)

  abbrev Room : Packing → Type 0
  Room s = Fits s.partitions × (((s.hosts ≡ []) × (s.size ≡ 0)) ⊎ Estimated s)

  flush-Room :
      (s next : Packing)
      → Fits s.partitions
      → Estimated s
      → flush encode marshal target 1 s ≡ Result.ok next
      → Fits next.partitions × (next.hosts ≡ []) × (next.size ≡ 0)
  unfolding flush
  flush-Room s next fit (_, room, estimate) h =
      let (content, e, h1) = bind-eq-ok (to_json encode (config_of 1 s.hosts)) _ h in
      let (text, t, same) = to_json-eq-ok encode marshal json (config_of 1 s.hosts) content e in
      let small = estimate text t in
      subst (λ (r : Packing). Fits r.partitions × (r.hosts ≡ []) × (r.size ≡ 0)) (ok-inj h1)
        (
          All-append _ s.partitions _ fit (omega (arith, small, room, ap length same), tt),
          refl,
          refl,
        )

  -- What is ready to take one more host.
  flush_if-Room :
      (full : Bool) (s ready : Packing)
      → Room s
      → (full ≡ true → is_empty s.hosts ≡ false)
      → (if full then flush encode marshal target 1 s else Result.ok s) ≡ Result.ok ready
      → Fits ready.partitions
        × (((ready.hosts ≡ []) × (ready.size ≡ 0))
            ⊎ (Estimated ready × (full ≡ false) × (ready ≡ s)))
  flush_if-Room true s ready (fit, inl (none_left, zero_size)) held_some h = absurd (
      let no : is_empty s.hosts ≡ false = held_some refl in
      let yes' : is_empty s.hosts ≡ true = rw none_left refl in cc)
  flush_if-Room true s ready (fit, inr estimated) held_some h =
      let (f, n, z) = flush-Room s ready fit estimated h in (f, inl (n, z))
  flush_if-Room false s ready (fit, inl empty) held_some h =
      subst
        (λ (r : Packing).
          Fits r.partitions
          × (((r.hosts ≡ []) × (r.size ≡ 0))
              ⊎ (Estimated r × ◌≡◌ {A = Bool} false false × (r ≡ s))))
        (ok-inj h) (fit, inl empty)
  flush_if-Room false s ready (fit, inr estimated) held_some h =
      subst
        (λ (r : Packing).
          Fits r.partitions
          × (((r.hosts ≡ []) × (r.size ≡ 0))
              ⊎ (Estimated r × ◌≡◌ {A = Bool} false false × (r ≡ s))))
        (ok-inj h) (fit, inr (estimated, refl, refl))

  add_host-Room :
      (host : Text) (rs : List Route) (text : Text) (s next : Packing)
      → encode (config_of 1 ((host, rs) ∷ [])) ≡ some text
      → length (strip_newline text) ≤ max_config_map_size
      → lookup host s.hosts ≡ none
      → Room s
      → add_host encode marshal target 1 host rs (length (strip_newline text)) s ≡ Result.ok next
      → Room next
  unfolding add_host insert
  add_host-Room host rs text s next own small fresh room h =
      let size = length (strip_newline text) in
      let full = ltb max_config_map_size (s.size + size) && not (is_empty s.hosts) in
      let (ready, e, h1) =
        bind-eq-ok (if full then flush encode marshal target 1 s else Result.ok s) _ h in
      let (fit, kind) = flush_if-Room full s ready room (λ t. ground (arith, t)) e in
      subst Room (ok-inj h1) (
        fit,
        inr (
          insert-nonempty host rs ready.hosts,
          elim kind [
            | inl (none_left, zero_size) ↦ omega (arith, small, zero_size)
            | inr ((some_left, _, _), not_full, same) ↦
                let left : is_empty s.hosts ≡ false =
                  subst (λ (r : Packing). is_empty r.hosts ≡ false) same some_left in
                let room_left : s.size + size ≤ max_config_map_size =
                  ground (arith, not_full, left) in
                omega (arith, room_left, ap (λ (r : Packing). r.size) same)
          ],
          elim kind [
            | inl (none_left, zero_size) ↦ λ c t.
                let alone : encode (config_of 1 ((host, rs) ∷ [])) ≡ some c = rw none_left at t in
                let same_text : text ≡ c = some-inj (sym own ∙ alone) in
                omega (arith, ap (λ (x : Text). length (strip_newline x)) same_text)
            | inr ((_, _, estimate), _, same) ↦ λ c t.
                let fresh' : lookup host ready.hosts ≡ none =
                  subst (λ (r : Packing). lookup host r.hosts ≡ none) (sym same) fresh in
                let (a, ea, le) = json.merged host rs ready.hosts text c fresh' own t in
                omega (arith, le, estimate a ea)
          ],
        ),
      )

  clear-Room :
      (s ready : Packing)
      → Room s
      → (if is_empty s.hosts then Result.ok s else flush encode marshal target 1 s)
        ≡ Result.ok ready
      → Fits ready.partitions × (ready.hosts ≡ []) × (ready.size ≡ 0)
  clear-Room s ready (fit, inl (none_left, zero_size)) h =
      let t : is_empty s.hosts ≡ true = rw none_left refl in
      subst (λ (r : Packing). Fits r.partitions × (r.hosts ≡ []) × (r.size ≡ 0))
        (ok-inj (rw t at h)) (fit, none_left, zero_size)
  clear-Room s ready (fit, inr (some_left, room, estimate)) h =
      flush-Room s ready fit (some_left, room, estimate) (rw some_left at h)

  split_host-Room :
      (host : Text) (rs : List Route) (s next : Packing)
      → All (λ c. is_plain c ≡ true) host
      → Room s
      → split_host encode marshal target 1 host rs s ≡ Result.ok next
      → Room next
  unfolding split_host
  split_host-Room host rs s next plain room h =
      let (ready, e, h1) =
        bind-eq-ok (if is_empty s.hosts then Result.ok s else flush encode marshal target 1 s) _
          h in
      let (split, e2, h2) =
        bind-eq-ok (split_host_routes encode marshal target host rs ready.index) _ h1 in
      let (fit, none_left, zero_size) = clear-Room s ready room e in
      subst Room (ok-inj h2) (
        All-append _ ready.partitions split.0 fit
            (split_host_routes-Fits encode marshal json target host plain rs ready.index split e2),
        inl (none_left, zero_size),
      )

  pack-Room :
      (done todo : Table (List Route)) (s next : Packing)
      → IsMap todo
      → AreSmall marshal todo
      → ArePlain todo
      → New todo s.hosts
      → Packed encode marshal target done s
      → Room s
      → pack encode marshal target 1 todo s ≡ Result.ok next
      → Room next
  unfolding pack pack_host
  pack-Room done [] s next m small plain new packed room h = subst Room (ok-inj h) room
  pack-Room done ((host, rs) ∷ todo) s next (fresh, m) (one, small) (p, plain) new packed room h =
      let (after, e, h1) = bind-eq-ok (pack_host encode marshal target 1 host rs s) _ h in
      let (packed', new') =
        pack_host-Packed encode marshal target done todo host rs s after one fresh new packed e in
      let (content, e2, h2) = bind-eq-ok (to_json encode (config_of 1 ((host, rs) ∷ []))) _ e in
      let (text, t, same) =
        to_json-eq-ok encode marshal json (config_of 1 ((host, rs) ∷ [])) content e2 in
      let room' : Room after = elim (Bool-cases (ltb max_config_map_size (length content))) [
        | inl big ↦ split_host-Room host rs s after p room (rw big at h2)
        | inr fits ↦
            add_host-Room host rs text s after t (rw same (ground (arith, fits))) new.0 room
              (rw (sym same) at (rw fits at h2))
      ] in
      pack-Room (done ++ (host, rs) ∷ []) todo after next m small plain new' packed' room' h1

  -- A table is split into partitions of at most 900 KiB each, for an encoder of JSON and hosts of
  -- less than 64 MiB of routes each with no byte in their names that JSON escapes.
  pub partition_config-Fits :
      (hosts : Table (List Route)) (ps : List ConfigMapPartition)
      → IsMap hosts
      → AreSmall marshal hosts
      → ArePlain hosts
      → partition_config encode marshal target (plain_config hosts) ≡ Result.ok ps
      → Fits ps
  unfolding partition_config split_by_hosts flush_last held
  partition_config-Fits hosts ps m small plain h =
      let (content, e, h1) = bind-eq-ok (to_json encode (plain_config hosts)) _ h in
      elim (Bool-cases (leb (length content) max_config_map_size)) [
        | inl t ↦ subst Fits (ok-inj (rw t at h1)) (ground (arith, t), tt)
        | inr t ↦
            let sorted = sort_stable host_less hosts in
            let split : split_by_hosts encode marshal target (plain_config hosts) ≡ Result.ok ps =
              rw t at h1 in
            let (packed, e2, h2) =
              bind-eq-ok (pack encode marshal target 1 sorted empty_packing) _ split in
            let start : Packed encode marshal target [] empty_packing =
              ([], omega arith, λ k. Perm.rfl, tt) in
            let room =
              pack-Room [] sorted empty_packing packed (sort_stable-IsMap hosts m)
                (All-sort_stable host_less
                  (λ (x : Text × List Route). marshalled marshal x.1 < 67108864) hosts small)
                (All-sort_stable host_less
                  (λ (x : Text × List Route). All (λ c. is_plain c ≡ true) x.0) hosts plain)
                (New-empty sorted [] refl) start (tt, inl (refl, refl)) e2 in
            let (last, e3, h3) =
              bind-eq-ok
                (if is_empty packed.hosts
                  then Result.ok packed
                  else flush encode marshal target 1 packed)
                _ h2 in
            subst Fits (ok-inj h3) (clear-Room packed last room e3).0
      ]
