-- ===== src/Routes/Partition/Lookup.antt =====
-- The index changes no answer of `FindRoute`.
use customrouter.Base.{
  nil-of_is_empty, Text, text_eq, text_eq_iff, select, first, Table, lookup, lookup-insert,
  is_empty, Bool, true, false, List, [], ◌∷◌, Option, none, some, ◌≡◌, inl, inr, refl, ap, subst,
  ◌∙◌, arith, if◌then◌else◌, Bool-cases, Option-cases, IsMap, to_lower, trim_space,
}
use customrouter.Routes.{Matcher, Route, RoutesConfig, RequestMatch}
use customrouter.Routes.Match.{match_headers, matches}
use customrouter.Routes.Partition.{
  route_partition_value, is_candidate, index_host, index_hosts, add_host, Buckets, bucket_of,
  build_partition_index, find_route, find_in_host, candidates, candidates_of, or_routes,
}
use customrouter.Routes.Partition.Value.{route_partition_value-lookup, to_lower_idem}
use customrouter.Routes.Partition.Buckets.{index_host-lookup}

abbrev index_of : Text → Option (List Route) → Option Buckets
index_of header none = none
index_of header (some routes) = index_host header routes

add_host-lookup :
    (header host k : Text) (routes : List Route) (more : Table (List Route)) (parts : Table Buckets)
    (o : Option Buckets)
    → lookup k more ≡ none
    → lookup host parts ≡ index_of header (lookup host more)
    → o ≡ index_host header routes
    → lookup host (add_host k o parts)
      ≡ index_of header (if text_eq k host then some routes else lookup host more)
add_host-lookup header host k routes more parts none fresh ih e =
    elim (Bool-cases (text_eq k host)) [
      | inl same ↦
          let absent : lookup host more ≡ none =
            subst (λ x. lookup x more ≡ none) ((text_eq_iff k host).0 same) fresh in
          rw same (ih ∙ ap (index_of header) absent ∙ e)
      | inr other ↦ rw other ih
    ]
add_host-lookup header host k routes more parts (some b) fresh ih e =
    elim (Bool-cases (text_eq k host)) [
      | inl same ↦ lookup-insert k host b parts ∙ rw same e
      | inr other ↦ lookup-insert k host b parts ∙ rw other ih
    ]

-- The index of a host is computed from that host's routes alone.
index_hosts-lookup :
    (header host : Text) (hosts : Table (List Route))
    → IsMap hosts
    → lookup host (index_hosts header hosts) ≡ index_of header (lookup host hosts)
unfolding index_hosts lookup
index_hosts-lookup header host [] h = refl
index_hosts-lookup header host ((k, routes) ∷ more) (fresh, h) =
    add_host-lookup header host k routes more (index_hosts header more) (index_host header routes)
      fresh (index_hosts-lookup header host more h) refl

module _ (compile : Text → Option Matcher) where
  -- Leaving out routes that do not match keeps the first match.
  first-select :
      (p q : Route → Bool) (rs : List Route)
      → ((r : Route) → q r ≡ false → p r ≡ false)
      → first p (select q rs) ≡ first p rs
  unfolding first select
  first-select p q [] f = refl
  first-select p q (r ∷ rs) f = ground (arith, f r, first-select p q rs f)

  -- A route that is no candidate for the request's value does not match.
  not_candidate :
      (header v : Text) (req : RequestMatch) (r : Route)
      → to_lower header ≡ header
      → lookup header req.headers ≡ some v
      → is_candidate header v r ≡ false
      → matches compile req r ≡ false
  unfolding is_candidate matches
  not_candidate header v req r low l n = elim (Option-cases (route_partition_value r header)) [
    | inl e ↦ absurd (ground (arith, n, e))
    | inr (w, e) ↦ elim (Bool-cases (match_headers compile req.headers r.headers)) [
      | inl m ↦
          let found = route_partition_value-lookup compile header low req.headers r w m e in
          let same : text_eq w v ≡ true = (text_eq_iff w v).1 (ground (arith, found, l)) in
          absurd (ground (arith, n, e, same))
      | inr m ↦ ground (arith, m)
    ]
  ]

  -- A bucket that the index offers gives the answer of the whole list.
  bucket-first :
      (header v host : Text) (hosts : Table (List Route)) (routes c : List Route)
      (req : RequestMatch)
      → IsMap hosts
      → to_lower header ≡ header
      → lookup header req.headers ≡ some v
      → lookup host hosts ≡ some routes
      → bucket_of (lookup host (index_hosts header hosts)) v ≡ some c
      → first (matches compile req) c ≡ first (matches compile req) routes
  bucket-first header v host hosts routes c req h low l found b =
      let at_host = index_hosts-lookup header host hosts h ∙ ap (index_of header) found in
      let b' = subst (λ o. bucket_of o v ≡ some c) at_host b in
      go (index_host header routes) refl b'
    where
      go :
          (o : Option Buckets)
          → index_host header routes ≡ o
          → bucket_of o v ≡ some c
          → first (matches compile req) c ≡ first (matches compile req) routes
      go none e b' = cc
      go (some by_val) e b' = rw (index_host-lookup header v routes by_val c e b') (
          first-select (matches compile req) (is_candidate header v) routes
            (λ r n. not_candidate header v req r low l n))

  candidates-first :
      (header host : Text) (hosts : Table (List Route)) (routes : List Route) (req : RequestMatch)
      (o : Option Text)
      → IsMap hosts
      → to_lower header ≡ header
      → lookup header req.headers ≡ o
      → lookup host hosts ≡ some routes
      → first
          (matches compile req)
          (or_routes (candidates_of (some (index_hosts header hosts)) host o) routes)
        ≡ first (matches compile req) routes
  candidates-first header host hosts routes req none h low l found = refl
  candidates-first header host hosts routes req (some v) h low l found =
      elim (Bool-cases (is_empty v)) [
        | inl e ↦ rw e
        | inr e ↦ rw e (elim (Option-cases (bucket_of (lookup host (index_hosts header hosts)) v)) [
          | inl b ↦ rw b
          | inr (c, b) ↦ rw b (bucket-first header v host hosts routes c req h low l found b)
        ])
      ]

  find_in_host-index :
      (header host : Text) (rc : RoutesConfig) (req : RequestMatch) (o : Option (List Route))
      → IsMap rc.hosts
      → to_lower header ≡ header
      → lookup host rc.hosts ≡ o
      → find_in_host compile
          (record rc { partition_header = header; partitions = some (index_hosts header rc.hosts) })
          host
          req
          o
        ≡ find_in_host compile (record rc { partition_header = []; partitions = none }) host req o
  unfolding find_in_host candidates
  find_in_host-index header host rc req none h low found = refl
  find_in_host-index header host rc req (some routes) h low found =
      elim (Bool-cases (is_empty header)) [
        | inl e ↦ rw e
        | inr e ↦ rw e (
            candidates-first header host rc.hosts routes req (lookup header req.headers) h low refl
              found)
      ]

  -- Whatever header the index is built for, and whatever the request carries, `FindRoute` on the
  -- indexed table returns the route that it returns on the table without an index: the first match
  -- of the full scan. The hosts of the table are a Go map, with distinct keys.
  pub find_route-build_partition_index :
      (header host : Text) (rc : RoutesConfig) (req : RequestMatch)
      → IsMap rc.hosts
      → find_route compile (build_partition_index header rc) host req
        ≡ find_route compile (build_partition_index [] rc) host req
  unfolding find_route build_partition_index
  find_route-build_partition_index header host rc req h =
      elim (Bool-cases (is_empty (to_lower (trim_space header)))) [
        | inl e ↦ rw (nil-of_is_empty (to_lower (trim_space header)) e)
        | inr e ↦ rw e (
            find_in_host-index (to_lower (trim_space header)) host rc req (lookup host rc.hosts) h
              (to_lower_idem (trim_space header)) refl)
      ]
