-- ===== src/ConfigMaps/Held.antt =====
-- What a list of partitions holds: the tables that were encoded into them, the routes of a host in
-- these, and the indices in the partitions' names.
use customrouter.Base.{
  append-nil, text_eq_iff, subst, some, refl, ◌+◌, inr, arith, append_assoc, inl, [], if◌then◌else◌,
  sym, Bool-cases, none, ◌≤◌, ◌++◌, IsMap, ◌∷◌, ◌≡◌, Option, List, Table, text_eq, insert, lookup,
  Text, ℕ,
}
use customrouter.ConfigMaps.{
  Result, Route, RoutesConfig, ConfigMapPartition, to_json, config_of, partition_name,
}

-- The routes of a host in a table, those of each entry in turn.
unfoldable pub routes_for : Text → Table (List Route) → List Route
unfolding text_eq
routes_for host [] = []
routes_for host ((k, rs) ∷ hosts) =
    let rest = routes_for host hosts in if text_eq k host then rs ++ rest else rest

unfoldable pub held : Text → List (Table (List Route)) → List Route
unfolding routes_for
held host [] = []
held host (table ∷ tables) = routes_for host table ++ held host tables

-- The partitions encode the tables, which are maps, one by one, and their names have increasing
-- indices of the target, from `lo` on and below `hi`.
abbrev pub Holds :
    (encode : RoutesConfig → Option Text) (target : Text)
    → ℕ
    → ℕ
    → List ConfigMapPartition
    → List (Table (List Route))
    → Type 0
Holds encode target lo hi [] [] = lo ≤ hi
Holds encode target lo hi (p ∷ ps) (table ∷ tables) =
    ((i : ℕ) × (lo ≤ i)
      × (p.name ≡ partition_name target i)
      × (p.target ≡ target)
      × (IsMap table × (to_json encode (config_of 1 table) ≡ Result.ok p.content))
      × Holds encode target (i + 1) hi ps tables)
Holds encode target lo hi _ _ = ⊥

pub routes_for-append :
    (host : Text) (xs ys : Table (List Route))
    → routes_for host (xs ++ ys) ≡ routes_for host xs ++ routes_for host ys
unfolding routes_for
routes_for-append host [] ys = refl
routes_for-append host ((k, rs) ∷ xs) ys = elim (Bool-cases (text_eq k host)) [
  | inl e ↦
      rw (e, routes_for-append host xs ys)
        (sym (append_assoc rs (routes_for host xs) (routes_for host ys)))
  | inr e ↦ rw (e, routes_for-append host xs ys) refl
]

pub held-append :
    (host : Text) (xs ys : List (Table (List Route)))
    → held host (xs ++ ys) ≡ held host xs ++ held host ys
unfolding held
held-append host [] ys = refl
held-append host (table ∷ xs) ys =
    rw (held-append host xs ys)
      (sym (append_assoc (routes_for host table) (held host xs) (held host ys)))

-- A host that is new to a table comes behind the table's.
pub routes_for-insert :
    (host k : Text) (rs : List Route) (table : Table (List Route))
    → lookup k table ≡ none
    → routes_for host (insert k rs table) ≡ routes_for host (table ++ (k, rs) ∷ [])
unfolding routes_for insert lookup
routes_for-insert host k rs [] h = refl
routes_for-insert host k rs ((j, ss) ∷ table) h = elim (Bool-cases (text_eq j k)) [
  | inl e ↦ absurd (ground (arith, e, h))
  | inr e ↦ rw (e, routes_for-insert host k rs table (rw e at h)) refl
]

abbrev pub or_nil : Option (List Route) → List Route
or_nil none = []
or_nil (some rs) = rs

routes_for-absent :
    (host : Text) (table : Table (List Route))
    → lookup host table ≡ none
    → routes_for host table ≡ []
unfolding routes_for lookup
routes_for-absent host [] h = refl
routes_for-absent host ((k, rs) ∷ table) h = elim (Bool-cases (text_eq k host)) [
  | inl e ↦ absurd (ground (arith, e, h))
  | inr e ↦ rw e (routes_for-absent host table (rw e at h))
]

-- In a map a host has one entry.
pub routes_for-lookup :
    (host : Text) (table : Table (List Route))
    → IsMap table
    → routes_for host table ≡ or_nil (lookup host table)
unfolding routes_for lookup
routes_for-lookup host [] h = refl
routes_for-lookup host ((k, rs) ∷ table) (fresh, h) = elim (Bool-cases (text_eq k host)) [
  | inl e ↦
      let absent : lookup host table ≡ none =
        subst (λ x. lookup x table ≡ none) ((text_eq_iff k host).0 e) fresh in
      rw (e, routes_for-absent host table absent) (append-nil rs)
  | inr e ↦ rw e (routes_for-lookup host table h)
]

module _ (encode : RoutesConfig → Option Text) (target : Text) where
  pub Holds-le :
      (lo hi : ℕ) (ps : List ConfigMapPartition) (ts : List (Table (List Route)))
      → Holds encode target lo hi ps ts
      → lo ≤ hi
  Holds-le lo hi [] [] h = h
  Holds-le lo hi [] (t ∷ ts) h = elim h [ ]
  Holds-le lo hi (p ∷ ps) [] h = elim h [ ]
  Holds-le lo hi (p ∷ ps) (t ∷ ts) (i, l, n, e, c, h) =
      omega (arith, l, Holds-le (i + 1) hi ps ts h)

  pub Holds-weaken :
      (low lo hi : ℕ) (ps : List ConfigMapPartition) (ts : List (Table (List Route)))
      → low ≤ lo
      → Holds encode target lo hi ps ts
      → Holds encode target low hi ps ts
  Holds-weaken low lo hi [] [] l h = omega (arith, l, h)
  Holds-weaken low lo hi [] (t ∷ ts) l h = elim h [ ]
  Holds-weaken low lo hi (p ∷ ps) [] l h = elim h [ ]
  Holds-weaken low lo hi (p ∷ ps) (t ∷ ts) l (i, k, n, e, c, h) =
      (i, omega (arith, l, k), n, e, c, h)

  pub Holds-append :
      (lo mid hi : ℕ) (ps qs : List ConfigMapPartition) (ts us : List (Table (List Route)))
      → Holds encode target lo mid ps ts
      → Holds encode target mid hi qs us
      → Holds encode target lo hi (ps ++ qs) (ts ++ us)
  Holds-append lo mid hi [] qs [] us h k = Holds-weaken lo mid hi qs us h k
  Holds-append lo mid hi [] qs (t ∷ ts) us h k = elim h [ ]
  Holds-append lo mid hi (p ∷ ps) qs [] us h k = elim h [ ]
  Holds-append lo mid hi (p ∷ ps) qs (t ∷ ts) us (i, l, n, e, c, h) k =
      (i, l, n, e, c, Holds-append (i + 1) mid hi ps qs ts us h k)
