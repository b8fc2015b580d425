-- ===== src/ConfigMaps/Split/Packed.antt =====
-- What the state of the loop of `splitByHosts` holds, in internal/controller/customhttproute/sync.go.
use mathlib.Core.List.Perm
use mathlib.Core.List.{Perm}
use customrouter.Base.{
  sym, not, length, nil-of_is_empty, ◌&&◌, is_empty, append_assoc, if◌then◌else◌, IsMap,
  insert-IsMap, ltb, lookup-insert, text_eq_iff, append-nil, false, inl, inr, refl, inr, refl, inl,
  arith, text_eq, ◌+◌, Bool-cases, ◌∷◌, subst, ◌<◌, insert, [], ◌++◌, none, All, ◌≡◌, Option, Text,
  List, Table, lookup, ℕ,
}
use customrouter.Base.Results.{Result, bind-eq-ok, ok-inj}
use customrouter.ConfigMaps.Split.{
  split_host_routes, max_config_map_size, pack_host, add_host, split_host, config_of, to_json,
  flush, Packing, RoutesConfig, Route, pack,
}
use customrouter.ConfigMaps.Held.{
  routes_for-insert, held-append, routes_for-append, Holds-append, Holds, held, routes_for,
}
use customrouter.ConfigMaps.Buckets.Sized.{marshalled}
use customrouter.ConfigMaps.Buckets.Emit.{split_host_routes-Split}

-- Each host's routes take less than 64 MiB of JSON.
abbrev pub AreSmall : (Route → Option Text) → Table (List Route) → Type 0
AreSmall marshal hosts = All (λ (e : Text × List Route). marshalled marshal e.1 < 67108864) hosts

-- No host of `todo` is in the table, and none is there twice.
abbrev pub New : Table (List Route) → Table (List Route) → Type 0
New todo hosts = All (λ (e : Text × List Route). lookup e.0 hosts ≡ none) todo

New-insert :
    (host : Text) (rs : List Route) (hosts todo : Table (List Route))
    → lookup host todo ≡ none
    → New todo hosts
    → New todo (insert host rs hosts)
unfolding lookup
New-insert host rs hosts [] fresh h = tt
New-insert host rs hosts ((k, ss) ∷ todo) fresh (e, h) = elim (Bool-cases (text_eq k host)) [
  | inl t ↦ absurd (ground (arith, t, fresh))
  | inr t ↦
      let other : text_eq host k ≡ false =
        ground (arith, t, text_eq_iff host k, text_eq_iff k host) in
      (rw (lookup-insert, other) e, New-insert host rs hosts todo (rw t at fresh) h)
]

pub New-empty : (todo hosts : Table (List Route)) → hosts ≡ [] → New todo hosts
unfolding lookup
New-empty [] hosts h = tt
New-empty ((k, rs) ∷ todo) hosts h = (rw h refl, New-empty todo hosts h)

module _ (encode : RoutesConfig → Option Text) (marshal : Route → Option Text) (target : Text) where
  -- The partitions so far and the current one, a map, hold the routes of the hosts that are done.
  abbrev pub Packed : Table (List Route) → Packing → Type 0
  Packed done s =
      (tables : List (Table (List Route))) × Holds encode target 0 s.index s.partitions tables
      × ((k : Text) → Perm (held k tables ++ routes_for k s.hosts) (routes_for k done))
      × IsMap s.hosts

  pub flush-Packed :
      (done : Table (List Route)) (s next : Packing)
      → Packed done s
      → flush encode marshal target 1 s ≡ Result.ok next
      → Packed done next × (next.hosts ≡ [])
  unfolding flush held routes_for
  flush-Packed done s next (tables, holds, routes, m) h =
      let (content, e, h1) = bind-eq-ok (to_json encode (config_of 1 s.hosts)) _ h in
      subst (λ (t : Packing). Packed done t × (t.hosts ≡ [])) (ok-inj h1)
        (
          (
            tables ++ s.hosts ∷ [],
            Holds-append encode target 0 s.index (s.index + 1) s.partitions _ tables (s.hosts ∷ [])
                holds (s.index, omega arith, refl, refl, (m, e), omega arith),
            λ k. rw (append-nil, held-append, append-nil) (routes k),
            tt,
          ),
          refl,
        )

  -- The routes of one more host.
  more-perm :
      (k host : Text) (rs new : List Route) (done : Table (List Route)) {old : List Route}
      → Perm old (routes_for k done)
      → Perm new (routes_for k ((host, rs) ∷ []))
      → Perm (old ++ new) (routes_for k (done ++ (host, rs) ∷ []))
  more-perm k host rs new done p q =
      rw (routes_for-append k done ((host, rs) ∷ [])) (Perm.append p q)

  add_host-Packed :
      (done todo : Table (List Route)) (host : Text) (rs : List Route) (size : ℕ) (s next : Packing)
      → lookup host todo ≡ none
      → New ((host, rs) ∷ todo) s.hosts
      → Packed done s
      → add_host encode marshal target 1 host rs size s ≡ Result.ok next
      → Packed (done ++ (host, rs) ∷ []) next × New todo next.hosts
  unfolding add_host
  add_host-Packed done todo host rs size s next fresh new packed h =
      let full = ltb max_config_map_size (s.size + size) && not (is_empty s.hosts) in
      let (ready, e, h1) =
        bind-eq-ok (if full then flush encode marshal target 1 s else Result.ok s) _ h in
      let ok_state : Packed done ready × New ((host, rs) ∷ todo) ready.hosts =
        elim (Bool-cases full) [
          | inl t ↦
              let (p, none_left) = flush-Packed done s ready packed (rw t at e) in
              (p, New-empty ((host, rs) ∷ todo) ready.hosts none_left)
          | inr t ↦
              subst (λ (r : Packing). Packed done r × New ((host, rs) ∷ todo) r.hosts)
                (ok-inj (rw t at e)) (packed, new)
        ] in
      let ((tables, holds, routes, m), (absent, others)) = ok_state in
      subst (λ (r : Packing). Packed (done ++ (host, rs) ∷ []) r × New todo r.hosts) (ok-inj h1)
        (
          (
            tables,
            holds,
            λ k.
                rw (routes_for-insert k host rs ready.hosts absent, routes_for-append)
                  (rw
                    (sym (
                      append_assoc (held k tables) (routes_for k ready.hosts)
                        (routes_for k ((host, rs) ∷ []))))
                    (more-perm k host rs (routes_for k ((host, rs) ∷ [])) done (routes k)
                      Perm.rfl)),
            insert-IsMap host rs ready.hosts m,
          ),
          New-insert host rs ready.hosts todo fresh others,
        )

  split_host-Packed :
      (done todo : Table (List Route)) (host : Text) (rs : List Route) (s next : Packing)
      → marshalled marshal rs < 67108864
      → Packed done s
      → split_host encode marshal target 1 host rs s ≡ Result.ok next
      → Packed (done ++ (host, rs) ∷ []) next × New todo next.hosts
  unfolding split_host routes_for
  split_host-Packed done todo host rs s next small packed h =
      let (ready, e, h1) =
        bind-eq-ok (if is_empty s.hosts then Result.ok s else flush encode marshal target 1 s) _
          h in
      let ok_state : Packed done ready × (ready.hosts ≡ []) = elim (Bool-cases (is_empty s.hosts)) [
        | inl t ↦
            subst (λ (r : Packing). Packed done r × (r.hosts ≡ [])) (ok-inj (rw t at e))
              (packed, nil-of_is_empty s.hosts t)
        | inr t ↦ flush-Packed done s ready packed (rw t at e)
      ] in
      let ((tables, holds, routes, m), none_left) = ok_state in
      let (split, e2, h2) =
        bind-eq-ok (split_host_routes encode marshal target host rs ready.index) _ h1 in
      let (more, more_holds, more_routes) =
        split_host_routes-Split encode marshal target host rs ready.index split small e2 in
      subst (λ (r : Packing). Packed (done ++ (host, rs) ∷ []) r × New todo r.hosts) (ok-inj h2)
        (
          (
            tables ++ more,
            Holds-append encode target 0 ready.index split.1 ready.partitions split.0 tables more
                holds more_holds,
            λ k.
                let before : Perm (held k tables) (routes_for k done) =
                  rw (none_left, append-nil) at (routes k) in
                rw (none_left, append-nil, held-append)
                  (more-perm k host rs (held k more) done before (more_routes k)),
            m,
          ),
          New-empty todo ready.hosts none_left,
        )

  pub pack_host-Packed :
      (done todo : Table (List Route)) (host : Text) (rs : List Route) (s next : Packing)
      → marshalled marshal rs < 67108864
      → lookup host todo ≡ none
      → New ((host, rs) ∷ todo) s.hosts
      → Packed done s
      → pack_host encode marshal target 1 host rs s ≡ Result.ok next
      → Packed (done ++ (host, rs) ∷ []) next × New todo next.hosts
  unfolding pack_host
  pack_host-Packed done todo host rs s next small fresh new packed h =
      let (content, e, h1) = bind-eq-ok (to_json encode (config_of 1 ((host, rs) ∷ []))) _ h in
      elim (Bool-cases (ltb max_config_map_size (length content))) [
        | inl t ↦ split_host-Packed done todo host rs s next small packed (rw t at h1)
        | inr t ↦
            add_host-Packed done todo host rs (length content) s next fresh new packed (rw t at h1)
      ]

  pub pack-Packed :
      (done todo : Table (List Route)) (s next : Packing)
      → IsMap todo
      → AreSmall marshal todo
      → New todo s.hosts
      → Packed done s
      → pack encode marshal target 1 todo s ≡ Result.ok next
      → Packed (done ++ todo) next
  unfolding pack
  pack-Packed done [] s next m small new packed h =
      rw (append-nil) (subst (Packed done) (ok-inj h) packed)
  pack-Packed done ((host, rs) ∷ todo) s next (fresh, m) (one, small) new packed h =
      let (after, e, h1) = bind-eq-ok (pack_host encode marshal target 1 host rs s) _ h in
      let (packed', new') = pack_host-Packed done todo host rs s after one fresh new packed e in
      subst (λ d. Packed d next) (append_assoc done ((host, rs) ∷ []) todo)
        (pack-Packed (done ++ (host, rs) ∷ []) todo after next m small new' packed' h1)
