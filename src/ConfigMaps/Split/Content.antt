-- ===== src/ConfigMaps/Split/Content.antt =====
-- What the partitions of a route table hold: `partitionConfig` and `splitByHosts` of
-- internal/controller/customhttproute/sync.go.
use mathlib.Core.List.Perm
use mathlib.Core.List.{Perm}
use customrouter.Base.{
  leb, length, nil-of_is_empty, is_empty, if◌then◌else◌, IsMap, append-nil, inl, inr, refl, inr,
  refl, inl, arith, Bool-cases, ◌∷◌, subst, ◌<◌, [], ◌≡◌, Option, Text, List, Table, ℕ,
}
use customrouter.Base.Results.{Result, bind-eq-ok, ok-inj}
use customrouter.ConfigMaps.Split.{
  empty_packing, host_less, split_by_hosts, ConfigMapPartition, flush_last, max_config_map_size,
  to_json, flush, Packing, RoutesConfig, Route, pack, partition_config,
}
use customrouter.ConfigMaps.Held.{Holds, held, routes_for}
use customrouter.ConfigMaps.Buckets.Sized.{marshalled}
use customrouter.Routes.Merge.{plain_config}
use customrouter.Base.Sorting.{All-sort_stable, sort_stable}
use customrouter.ConfigMaps.Split.Hosts.{routes_for-sort_stable, sort_stable-IsMap}
use customrouter.ConfigMaps.Split.Packed.{AreSmall, Packed, flush-Packed, pack-Packed, New-empty}

module _ (encode : RoutesConfig → Option Text) (marshal : Route → Option Text) (target : Text) where
  -- The tables that are encoded, and the routes of each host in them.
  abbrev pub Partitioned : Table (List Route) → List ConfigMapPartition → Type 0
  Partitioned hosts ps =
      (tables : List (Table (List Route))) × (next : ℕ) × Holds encode target 0 next ps tables
      × ((k : Text) → Perm (held k tables) (routes_for k hosts))

  flush_last-Partitioned :
      (done : Table (List Route)) (s : Packing) (ps : List ConfigMapPartition)
      → Packed encode marshal target done s
      → flush_last encode marshal target 1 s ≡ Result.ok ps
      → Partitioned done ps
  unfolding flush_last routes_for
  flush_last-Partitioned done s ps packed h =
      let (last, e, h1) =
        bind-eq-ok (if is_empty s.hosts then Result.ok s else flush encode marshal target 1 s) _
          h in
      let ok_state : Packed encode marshal target done last × (last.hosts ≡ []) =
        elim (Bool-cases (is_empty s.hosts)) [
          | inl t ↦
              subst (λ (r : Packing). Packed encode marshal target done r × (r.hosts ≡ []))
                (ok-inj (rw t at e)) (packed, nil-of_is_empty s.hosts t)
          | inr t ↦ flush-Packed encode marshal target done s last packed (rw t at e)
        ] in
      let ((tables, holds, routes, _), none_left) = ok_state in
      subst (Partitioned done) (ok-inj h1)
        (tables, last.index, holds, λ k. rw (none_left, append-nil) at (routes k))

  split_by_hosts-Partitioned :
      (hosts : Table (List Route)) (ps : List ConfigMapPartition)
      → IsMap hosts
      → AreSmall marshal hosts
      → split_by_hosts encode marshal target (plain_config hosts) ≡ Result.ok ps
      → Partitioned hosts ps
  unfolding split_by_hosts held routes_for
  split_by_hosts-Partitioned hosts ps m small h =
      let sorted = sort_stable host_less hosts in
      let (packed, e, h1) = bind-eq-ok (pack encode marshal target 1 sorted empty_packing) _ h in
      let start : Packed encode marshal target [] empty_packing =
        ([], omega arith, λ k. Perm.rfl, tt) in
      let all =
        pack-Packed encode marshal target [] sorted empty_packing packed (sort_stable-IsMap hosts m)
          (All-sort_stable host_less (λ (x : Text × List Route). marshalled marshal x.1 < 67108864)
            hosts small)
          (New-empty sorted [] refl) start e in
      let (tables, next, holds, routes) = flush_last-Partitioned sorted packed ps all h1 in
      (tables, next, holds, λ k. rw (routes_for-sort_stable k hosts) at (routes k))

  -- The partitions that a table is split into encode tables in which no host stands twice and whose
  -- routes of a host, taken together, are those of the host in the whole table in some order, and
  -- carry increasing indices in their names; the hosts are distinct and have less than 64 MiB of
  -- routes each.
  pub partition_config-Partitioned :
      (hosts : Table (List Route)) (ps : List ConfigMapPartition)
      → IsMap hosts
      → AreSmall marshal hosts
      → partition_config encode marshal target (plain_config hosts) ≡ Result.ok ps
      → Partitioned hosts ps
  unfolding partition_config held
  partition_config-Partitioned hosts ps m small h =
      let (content, e, h1) = bind-eq-ok (to_json encode (plain_config hosts)) _ h in
      elim (Bool-cases (leb (length content) max_config_map_size)) [
        | inl t ↦ subst (Partitioned hosts) (ok-inj (rw t at h1)) (
          hosts ∷ [],
          1,
          (0, omega arith, refl, refl, (m, e), omega arith),
          λ k. rw (append-nil) Perm.rfl,
        )
        | inr t ↦ split_by_hosts-Partitioned hosts ps m small (rw t at h1)
      ]
