-- ===== src/ConfigMaps/Split.antt =====
-- The partitions of a route table: `partitionConfig` and `splitByHosts` of
-- internal/controller/customhttproute/sync.go.
pub mod Hosts
pub mod Packed
pub mod Content
pub mod Sizes
pub mod Bounds
use customrouter.Base.{
  ℕ, ◌+◌, Text, length, is_empty, Table, insert, text_lt, not, ◌&&◌, List, [], ◌∷◌, ◌++◌, Bool,
  true, false, Option, ltb, leb, if◌then◌else◌,
}
use customrouter.Base.Sorting.{sort_stable}
use customrouter.Base.Results.{Result, ◌>>=◌}
use customrouter.Routes.{Route, RoutesConfig}
use customrouter.ConfigMaps.{
  ConfigMapPartition, SplitError, max_config_map_size, to_json, partition_name, config_of,
}
use customrouter.ConfigMaps.Buckets.{split_host_routes}

-- The state of the loop of `splitByHosts`; `hosts` are those of `currentPartition`.
pub record Packing : Type 0 where
  pub partitions : List ConfigMapPartition
  pub hosts : Table (List Route)
  pub size : ℕ
  pub index : ℕ

abbrev pub host_less : Text × List Route → Text × List Route → Bool
host_less (a, _) (b, _) = text_lt a b

module _ (encode : RoutesConfig → Option Text) (marshal : Route → Option Text) (target : Text)
    (version : ℕ) where
  abbrev pub flushed : Packing → Text → Packing
  flushed s content = record {
    partitions =
        s.partitions
        ++ record { name = partition_name target s.index; target = target; content = content } ∷ [];
    hosts = [];
    size = 0;
    index = s.index + 1;
  }

  -- The current partition is written out and a new one is begun.
  unfoldable pub flush : Packing → Result SplitError Packing
  unfolding to_json partition_name
  flush s = do content ← to_json encode (config_of version s.hosts); Result.ok (flushed s content)

  -- A host that does not fit in a partition is split.
  unfoldable pub split_host : Text → List Route → Packing → Result SplitError Packing
  unfolding flush split_host_routes
  split_host host rs s = do
    ready ← (if is_empty s.hosts then Result.ok s else flush s)
    split ← split_host_routes encode marshal target host rs ready.index
    Result.ok (record ready { partitions = ready.partitions ++ split.0; index = split.1 })

  -- A host that fits is added to the current partition, or to a new one.
  unfoldable pub add_host : Text → List Route → ℕ → Packing → Result SplitError Packing
  unfolding flush insert
  add_host host rs host_size s = do
    ready ←
        (if ltb max_config_map_size (s.size + host_size) && not (is_empty s.hosts)
          then flush s
          else Result.ok s)
    Result.ok (record ready { hosts = insert host rs ready.hosts; size = ready.size + host_size })

  unfoldable pub pack_host : Text → List Route → Packing → Result SplitError Packing
  unfolding split_host add_host to_json
  pack_host host rs s = do
    content ← to_json encode (config_of version ((host, rs) ∷ []))
    if ltb max_config_map_size (length content)
        then split_host host rs s
        else add_host host rs (length content) s

  unfoldable pub pack : Table (List Route) → Packing → Result SplitError Packing
  unfolding pack_host
  pack [] s = Result.ok s
  pack ((host, rs) ∷ hosts) s = do next ← pack_host host rs s; pack hosts next

  -- The last partition.
  unfoldable pub flush_last : Packing → Result SplitError (List ConfigMapPartition)
  unfolding flush
  flush_last s = do
    last ← (if is_empty s.hosts then Result.ok s else flush s)
    Result.ok last.partitions

abbrev pub empty_packing : Packing
empty_packing = record { partitions = []; hosts = []; size = 0; index = 0 }

module _ (encode : RoutesConfig → Option Text) (marshal : Route → Option Text) where
  unfoldable pub split_by_hosts : Text → RoutesConfig → Result SplitError (List ConfigMapPartition)
  unfolding pack flush_last sort_stable
  split_by_hosts target config = do
    packed ←
        pack encode marshal target config.version (sort_stable host_less config.hosts) empty_packing
    flush_last encode marshal target config.version packed

  unfoldable pub partition_config :
      Text → RoutesConfig → Result SplitError (List ConfigMapPartition)
  unfolding to_json partition_name split_by_hosts
  partition_config target config = do
    content ← to_json encode config
    if leb (length content) max_config_map_size
        then Result.ok
            (record { name = partition_name target 0; target = target; content = content } ∷ [])
        else split_by_hosts target config
