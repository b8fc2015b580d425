-- ===== src/Routes/Loader/Best.antt =====
-- After a load, `FindRoute` returns the best route for the request: the first match of a sorted list.
use customrouter.Base.{
  Text, text_eq, All, first, Table, lookup, Bool, true, false, List, [], ◌∷◌, Option, none, some,
  ◌≡◌, inl, inr, refl, sym, subst, arith, ◌==◌, Bool-cases, Option-cases, IsMap, before_any,
  some-inj,
}
use mathlib.Core.List.{Mem, mem-cons_self, mem-cons_of_mem}
use customrouter.Base.Sorting.{IsSorted, sort_stable-IsSorted, first-of_IsSorted}
use customrouter.Routes.{Matcher, Route, RoutesConfig, RequestMatch}
use customrouter.Routes.Match.{◌>>=◌, matches, compile_hosts, compile_regexes}
use customrouter.Routes.Match.Compiled.{bind-eq-some}
use customrouter.Routes.Sort.{less, sort_routes}
use customrouter.Routes.Sort.Order.{less-IsWeakOrder}
use customrouter.Routes.Merge.{merge_configs, sort_hosts, plain_config}
use customrouter.Routes.Merge.Gather.{merge_configs-IsMap, sort_hosts-IsMap}
use customrouter.Routes.Partition
use customrouter.Routes.Partition.{candidates, find_in_host, build_partition_index}
use customrouter.Routes.Partition.Lookup.{find_route-build_partition_index}
use customrouter.Routes.Loader.{Loader, loaded, load, find_route, read_files}
use customrouter.Routes.Loader.Compiled.{
  compile_hosts-IsSortedTable, compile_hosts-IsMap, IsSortedTable,
}

module _ (compile : Text → Option Matcher) where
  sort_hosts-IsSortedTable : (hosts : Table (List Route)) → IsSortedTable (sort_hosts hosts)
  unfolding sort_hosts sort_routes
  sort_hosts-IsSortedTable [] = tt
  sort_hosts-IsSortedTable ((host, rs) ∷ more) =
      (sort_stable-IsSorted less less-IsWeakOrder rs, sort_hosts-IsSortedTable more)

  lookup-IsSorted :
      (host : Text) (hosts : Table (List Route)) (rs : List Route)
      → IsSortedTable hosts
      → lookup host hosts ≡ some rs
      → IsSorted less rs
  unfolding lookup
  lookup-IsSorted host [] rs h e = cc
  lookup-IsSorted host ((k, x) ∷ more) rs (s, h) e = elim (Bool-cases (text_eq k host)) [
    | inl t ↦ subst (IsSorted less) (some-inj (rw t at e)) s
    | inr t ↦ lookup-IsSorted host more rs h (rw t at e)
  ]

  first-none : (p : Route → Bool) (rs : List Route) → first p rs ≡ none → All (λ y. p y ≡ false) rs
  unfolding first
  first-none p [] e = tt
  first-none p (r ∷ rs) e = elim (Bool-cases (p r)) [
    | inl t ↦ absurd (ground (arith, e, t))
    | inr t ↦ (t, first-none p rs (ground (arith, e, t)))
  ]

  first-some :
      (p : Route → Bool) (rs : List Route) (r : Route)
      → first p rs ≡ some r
      → Mem r rs × (p r ≡ true)
  unfolding first
  first-some p [] r e = cc
  first-some p (x ∷ rs) r e = elim (Bool-cases (p x)) [
    | inl t ↦
        let same : x ≡ r = ground (arith, e, t) in
        (subst (λ y. Mem y (x ∷ rs)) same mem-cons_self, subst (λ y. p y ≡ true) same t)
    | inr t ↦ let (m, h) = first-some p rs r (ground (arith, e, t)) in (mem-cons_of_mem x m, h)
  ]

  -- The right answer to a request among the routes of its host, if the host has any: a route of the
  -- list that matches and that no other matching route precedes in the order; or none matches.
  abbrev pub Answers : RequestMatch → Option (List Route) → Option Route → Type 0
  Answers req none none = Unit
  Answers req none (some r) = ⊥
  Answers req (some rs) none = All (λ y. matches compile req y ≡ false) rs
  Answers req (some rs) (some r) =
      (Mem r rs × (matches compile req r ≡ true))
      × All (λ y. matches compile req y ≡ true → less y r ≡ false) rs

  first-Answers :
      (req : RequestMatch) (rs : List Route) (o : Option Route)
      → IsSorted less rs
      → first (matches compile req) rs ≡ o
      → Answers req (some rs) o
  first-Answers req rs none s e = first-none (matches compile req) rs e
  first-Answers req rs (some r) s e = (
    first-some (matches compile req) rs r e,
    first-of_IsSorted less less-IsWeakOrder (matches compile req) rs r s e,
  )

  find_in_host-Answers :
      (rc : RoutesConfig) (host : Text) (req : RequestMatch) (o : Option (List Route))
      → IsSortedTable rc.hosts
      → lookup host rc.hosts ≡ o
      → Answers req o
          (find_in_host compile (record rc { partition_header = []; partitions = none }) host req o)
  unfolding find_in_host candidates
  find_in_host-Answers rc host req none s e = tt
  find_in_host-Answers rc host req (some rs) s e =
      first-Answers req rs (first (matches compile req) rs) (lookup-IsSorted host rc.hosts rs s e)
        refl

  hosts-build_partition_index :
      (header : Text) (rc : RoutesConfig) → (build_partition_index header rc).hosts ≡ rc.hosts
  unfolding build_partition_index
  hosts-build_partition_index header rc = ground arith

  indexed-Answers :
      (header : Text) (rc : RoutesConfig) (host : Text) (req : RequestMatch)
      → IsMap rc.hosts
      → IsSortedTable rc.hosts
      → Answers req
          (lookup host (build_partition_index header rc).hosts)
          (Partition.find_route compile (build_partition_index header rc) host req)
  indexed-Answers header rc host req m s =
      rw
        (
          find_route-build_partition_index compile header host rc req m,
          hosts-build_partition_index header rc,
        )
        (unfold Partition.find_route build_partition_index in
          find_in_host-Answers rc host req (lookup host rc.hosts) s refl)

  -- What a load builds: an index over sorted lists under distinct hosts.
  loaded-IsIndexed :
      (read : Text → Option (Table (List Route))) (header : Text) (files : List Text)
      (config : RoutesConfig)
      → loaded compile read header files ≡ some config
      → (rc : RoutesConfig) × IsMap rc.hosts
        × IsSortedTable rc.hosts
        × (build_partition_index header rc ≡ config)
  unfolding loaded compile_regexes
  loaded-IsIndexed read header files config e =
      let (tables, e₁, k) =
        bind-eq-some (read_files read files)
          (λ tables. do
            compiled ← compile_regexes compile (plain_config (sort_hosts (merge_configs [] tables)))
            some (build_partition_index header compiled))
          e in
      let merged = sort_hosts (merge_configs [] tables) in
      let (rc, e₂, same) =
        bind-eq-some (compile_regexes compile (plain_config merged))
          (λ compiled. some (build_partition_index header compiled)) k in
      let (hosts, e₃, made) =
        bind-eq-some (compile_hosts compile merged)
          (λ hosts. some (record (plain_config merged) { hosts = hosts })) e₂ in
      let is_map =
        compile_hosts-IsMap compile merged hosts e₃
          (sort_hosts-IsMap _ (merge_configs-IsMap [] tables tt)) in
      let is_sorted =
        compile_hosts-IsSortedTable compile merged hosts e₃
          (sort_hosts-IsSortedTable (merge_configs [] tables)) in
      (
        rc,
        subst (λ (c : RoutesConfig). IsMap c.hosts) (some-inj made) is_map,
        subst (λ (c : RoutesConfig). IsSortedTable c.hosts) (some-inj made) is_sorted,
        some-inj same,
      )

  load-config :
      (read : Text → Option (Table (List Route))) (files : List Text) (l : Loader)
      → (load compile read files l).1 ≡ true
      → (config : RoutesConfig) × (loaded compile read l.partition_header files ≡ some config)
        × ((load compile read files l).0 ≡ record l { config = config })
  unfolding load
  load-config read files l h = elim (Option-cases (loaded compile read l.partition_header files)) [
    | inl e ↦ absurd (ground (arith, h, e))
    | inr (config, e) ↦ (config, e, ground (arith, e))
  ]

  -- A load that reports no error leaves a table from which `FindRoute` answers every request with
  -- the best route of the host, the port cut off, or with none where no route of the host matches
  -- or the host is unknown: whichever files, in whichever order, and whichever header the index is
  -- built for.
  pub load-Answers :
      (read : Text → Option (Table (List Route))) (files : List Text) (l : Loader) (host : Text)
      (req : RequestMatch)
      → (load compile read files l).1 ≡ true
      → let l' = (load compile read files l).0 in
        Answers req
          (lookup (before_any (λ c. c == b':') host) l'.config.hosts)
          (find_route compile l' host req)
  unfolding find_route
  load-Answers read files l host req h =
      let (config, e, after) = load-config read files l h in
      let (rc, m, s, same) = loaded-IsIndexed read l.partition_header files config e in
      let name = before_any (λ c. c == b':') host in
      subst
        (λ (l' : Loader).
          Answers req (lookup name l'.config.hosts) (find_route compile l' host req))
        (sym after)
        (subst (λ c. Answers req (lookup name c.hosts) (Partition.find_route compile c name req))
          same (indexed-Answers l.partition_header rc name req m s))
