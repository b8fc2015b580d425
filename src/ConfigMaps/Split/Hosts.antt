-- ===== src/ConfigMaps/Split/Hosts.antt =====
-- The hosts of a route table in the order in which `splitByHosts` of
-- internal/controller/customhttproute/sync.go goes through them.
use customrouter.Base.{
  [], text_eq_iff, text_eq_refl, subst, text_eq, arith, Bool-cases, ◌↔◌, ◌++◌, suc, ◌≤◌, sym,
  length, Bool, IsMap, none, ◌∷◌, false, ◌≡◌, List, Table, lookup, select, Text, text_lt, inl, inr,
  refl,
}
use customrouter.ConfigMaps.Split.{Route, host_less}
use customrouter.ConfigMaps.Held.{routes_for}
use customrouter.Base.Sorting.{select-sort_stable, sort_stable}

abbrev is_host : Text → Text × List Route → Bool
is_host host (k, rs) = text_eq k host

text_lt_irrefl : (s : Text) → text_lt s s ≡ false
unfolding text_lt
text_lt_irrefl [] = refl
text_lt_irrefl (c ∷ s) = ground (arith, text_lt_irrefl s)

abbrev flat : Table (List Route) → List Route
flat [] = []
flat ((k, rs) ∷ hosts) = rs ++ flat hosts

routes_for-flat :
    (host : Text) (hosts : Table (List Route))
    → routes_for host hosts ≡ flat (select (is_host host) hosts)
unfolding routes_for select
routes_for-flat host [] = refl
routes_for-flat host ((k, rs) ∷ hosts) = elim (Bool-cases (text_eq k host)) [
  | inl e ↦ rw (e, routes_for-flat host hosts) refl
  | inr e ↦ rw (e, routes_for-flat host hosts) refl
]

select-sorted :
    (host : Text) (hosts : Table (List Route))
    → select (is_host host) (sort_stable host_less hosts) ≡ select (is_host host) hosts
select-sorted host = select-sort_stable host_less (is_host host) (λ (j, _) (k, _) p q.
    rw ((text_eq_iff j host).0 p, (text_eq_iff k host).0 q) (text_lt_irrefl host))

-- Each host keeps its routes.
pub routes_for-sort_stable :
    (host : Text) (hosts : Table (List Route))
    → routes_for host (sort_stable host_less hosts) ≡ routes_for host hosts
routes_for-sort_stable host hosts =
    rw (routes_for-flat host (sort_stable host_less hosts), select-sorted host hosts)
      (sym (routes_for-flat host hosts))

-- A table is a map exactly when no host has two entries.
abbrev AtMostOnce : Table (List Route) → Type 0
AtMostOnce hosts = (host : Text) → length (select (is_host host) hosts) ≤ 1

select-absent :
    (host : Text) (hosts : Table (List Route))
    → (lookup host hosts ≡ none) ↔ (length (select (is_host host) hosts) ≡ 0)
unfolding lookup select
select-absent host [] = (λ _. refl, λ _. refl)
select-absent host ((k, rs) ∷ hosts) = elim (Bool-cases (text_eq k host)) [
  | inl e ↦ rw e (λ h. cc, λ h. absurd (omega (arith, h)))
  | inr e ↦ rw e (select-absent host hosts)
]

IsMap→AtMostOnce : (hosts : Table (List Route)) → IsMap hosts → AtMostOnce hosts
unfolding select
IsMap→AtMostOnce [] h host = omega arith
IsMap→AtMostOnce ((k, rs) ∷ hosts) (fresh, h) host = elim (Bool-cases (text_eq k host)) [
  | inl e ↦
      let absent : lookup host hosts ≡ none =
        subst (λ x. lookup x hosts ≡ none) ((text_eq_iff k host).0 e) fresh in
      rw e (omega (arith, (select-absent host hosts).0 absent))
  | inr e ↦ rw e (IsMap→AtMostOnce hosts h host)
]

AtMostOnce→IsMap : (hosts : Table (List Route)) → AtMostOnce hosts → IsMap hosts
unfolding select
AtMostOnce→IsMap [] h = tt
AtMostOnce→IsMap ((k, rs) ∷ hosts) h =
    let own : suc (length (select (is_host k) hosts)) ≤ 1 = rw (text_eq_refl k) at (h k) in
    (
      (select-absent k hosts).1 (omega (arith, own)),
      AtMostOnce→IsMap hosts (λ host. elim (Bool-cases (text_eq k host)) [
        | inl e ↦
            let le : suc (length (select (is_host host) hosts)) ≤ 1 = rw e at (h host) in
            omega (arith, le)
        | inr e ↦ rw e at (h host)
      ]),
    )

pub sort_stable-IsMap :
    (hosts : Table (List Route)) → IsMap hosts → IsMap (sort_stable host_less hosts)
sort_stable-IsMap hosts h =
    AtMostOnce→IsMap (sort_stable host_less hosts)
      (λ host. rw (select-sorted host hosts) (IsMap→AtMostOnce hosts h host))
