-- ===== src/Examples/ConfigMaps.antt =====
-- Names, buckets and partitions of a small table.
use Prim.Native.Nat.{◌^◌}
use customrouter.Base.{
  ◌<◌, ◌*◌, text_eq, Bool-cases, ◌∙◌, All, length-append, ◌≤◌, ◌↔◌, ap, ◌+◌, some-inj, arith,
  append-nil, IsMap, ◌++◌, length, ◌≡◌, lookup, sym, insert, Option, Text, Table, List, [], ◌∷◌,
  none, some, ℕ, true, inl, inr, refl, codes,
}
use customrouter.Base.Results.{Result}
use customrouter.Routes.{Route, RoutesConfig}
use customrouter.ConfigMaps.{
  partition_name, parse_partition_name, partition_name, ConfigMapPartition, strip_newline,
}
use customrouter.ConfigMaps.Names.{parse_partition_name-partition_name}
use customrouter.ConfigMaps.Buckets.{route_sizes, stable_bucket_count, assign, route_bucket}
use customrouter.ConfigMaps.Buckets.Count.{stable_bucket_count_lem}
use customrouter.ConfigMaps.Buckets.Stable.{assign-Stable}
use customrouter.ConfigMaps.Buckets.Content.{routes_at}
use customrouter.ConfigMaps.Buckets.Sized.{FitsAlone, is_ok, marshalled, route_sizes-ok_iff}
use customrouter.ConfigMaps.Split.Content.{partition_config-Partitioned, Partitioned}
use customrouter.ConfigMaps.Split.Bounds.{ArePlain, partition_config-Fits}
use customrouter.ConfigMaps.Split.Sizes.{IsJson, Fits}
use customrouter.Examples.Data.{regex_route, exact_route, prefix_route}
use customrouter.ConfigMaps.Split.{partition_config}
use customrouter.ConfigMaps.Split.Packed.{AreSmall}
use customrouter.Routes.Merge.{plain_config}

parse_partition_name-partition_name_example :
    parse_partition_name (partition_name (codes "shop-2") 10) ≡ some (codes "shop-2", 10)
parse_partition_name-partition_name_example =
    parse_partition_name-partition_name (codes "shop-2") 10 (λ e. cc) (omega arith)

stable_bucket_count_lem_example :
    ((k : ℕ) × (stable_bucket_count 3 ≡ 2 ^ k))
    × (2 * 3 ≤ stable_bucket_count 3)
    × (stable_bucket_count 3 < 4 * 3)
stable_bucket_count_lem_example = stable_bucket_count_lem 3 (omega arith) (omega arith)

stable_bucket_count_test : stable_bucket_count 3 ≡ 8
unfolding stable_bucket_count
stable_bucket_count_test = refl

bucket_test : route_bucket (codes "a.b") prefix_route 2 ≡ 0
unfolding route_bucket
bucket_test = refl

-- One byte for each route and a newline.
ticks : List Route → Text
ticks [] = []
ticks (r ∷ rs) = b'r' ∷ ticks rs

tally : Table (List Route) → Text
tally [] = []
tally ((host, rs) ∷ hosts) = ticks rs ++ tally hosts

abbrev encode : RoutesConfig → Option Text
encode rc = some (tally rc.hosts ++ 10 ∷ [])

abbrev marshal : Route → Option Text
marshal r = some []

strip_newline-append : (s : Text) → strip_newline (s ++ 10 ∷ []) ≡ s
unfolding strip_newline
strip_newline-append [] = refl
strip_newline-append (c ∷ []) = refl
strip_newline-append (c ∷ d ∷ s) = ap (◌∷◌ c) (strip_newline-append (d ∷ s))

length-ticks : (rs : List Route) → length (ticks rs) ≤ marshalled marshal rs
unfolding ticks marshalled
length-ticks [] = omega arith
length-ticks (r ∷ rs) = omega (arith, length-ticks rs)

length-tally-insert :
    (host : Text) (rs : List Route) (hosts : Table (List Route))
    → lookup host hosts ≡ none
    → length (tally (insert host rs hosts)) ≡ length (tally hosts) + length (ticks rs)
unfolding tally insert lookup
length-tally-insert host rs [] h = length-append (ticks rs) [] ∙ omega arith
length-tally-insert host rs ((k, ss) ∷ hosts) h = elim (Bool-cases (text_eq k host)) [
  | inl e ↦ absurd (ground (arith, e, h))
  | inr e ↦ rw e (
      omega (
        arith,
        length-append (ticks ss) (tally (insert host rs hosts)),
        length-append (ticks ss) (tally hosts),
        length-tally-insert host rs hosts (rw e at h),
      ))
]

tally-own : (host : Text) (rs : List Route) → tally ((host, rs) ∷ []) ≡ ticks rs
unfolding tally
tally-own host rs = append-nil (ticks rs)

encode-IsJson : IsJson encode marshal
encode-IsJson = record {
  single = λ host r rs b plain e.
      rw
        (
          sym (some-inj e),
          strip_newline-append (tally ((host, r ∷ rs) ∷ [])),
          tally-own host (r ∷ rs),
        )
        (omega (arith, length-ticks (r ∷ rs)));
  merged = λ host rs hosts b c fresh e f. (
    tally hosts ++ 10 ∷ [],
    refl,
    rw
        (
          sym (some-inj e),
          sym (some-inj f),
          strip_newline-append (tally (insert host rs hosts)),
          strip_newline-append (tally hosts),
          strip_newline-append (tally ((host, rs) ∷ [])),
          tally-own host rs,
        )
        (omega (arith, length-tally-insert host rs hosts fresh)),
  );
}

abbrev hosts : Table (List Route)
hosts = (codes "a.b", prefix_route ∷ exact_route ∷ []) ∷ (codes "c.d", regex_route ∷ []) ∷ []

abbrev one_partition : List ConfigMapPartition
one_partition =
    record {
      name = codes "customrouter-routes-shop-0";
      target = codes "shop";
      content = codes "rrr";
    }
    ∷ []

hosts-IsMap : IsMap hosts
unfolding lookup text_eq
hosts-IsMap = (refl, (refl, tt))

hosts-AreSmall : AreSmall marshal hosts
unfolding marshalled
hosts-AreSmall = (omega arith, (omega arith, tt))

hosts-ArePlain : ArePlain hosts
hosts-ArePlain = (ground arith, (ground arith, tt))

partition_config_test :
    partition_config encode marshal (codes "shop") (plain_config hosts) ≡ Result.ok one_partition
unfolding partition_config tally ticks
partition_config_test = refl

partition_config-Partitioned_example : Partitioned encode marshal (codes "shop") hosts one_partition
partition_config-Partitioned_example =
    partition_config-Partitioned encode marshal (codes "shop") hosts one_partition hosts-IsMap
      hosts-AreSmall partition_config_test

partition_config-Fits_example : Fits one_partition
partition_config-Fits_example =
    partition_config-Fits encode marshal encode-IsJson (codes "shop") hosts one_partition
      hosts-IsMap hosts-AreSmall hosts-ArePlain partition_config_test

route_sizes-ok_iff_example :
    (is_ok (route_sizes marshal 10 0 (prefix_route ∷ exact_route ∷ [])) ≡ true)
    ↔ All (λ (r : Route). FitsAlone 10 (marshal r)) (prefix_route ∷ exact_route ∷ [])
route_sizes-ok_iff_example = route_sizes-ok_iff marshal 10 0 (prefix_route ∷ exact_route ∷ [])

assign-Stable_example :
    routes_at 1
      (assign
        (codes "a.b")
        10
        2
        ((exact_route, 5) ∷ (prefix_route, 7) ∷ (regex_route, 9) ∷ [])).buckets
    ≡ routes_at 1 (assign (codes "a.b") 10 2 ((exact_route, 5) ∷ (regex_route, 9) ∷ [])).buckets
assign-Stable_example =
    assign-Stable (codes "a.b") 10 2 1 7 prefix_route ((exact_route, 5) ∷ [])
      ((regex_route, 9) ∷ []) (omega arith)
      (λ e. let no : ◌≡◌ {A = ℕ} 1 0 = e ∙ bucket_test in absurd (omega (arith, no)))
