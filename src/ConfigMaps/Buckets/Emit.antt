-- ===== src/ConfigMaps/Buckets/Emit.antt =====
-- What the partitions of one host hold: `splitHostRoutes` of
-- internal/controller/customhttproute/sync.go, as a whole.
use mathlib.Core.List.Perm
use mathlib.Core.List.{Perm}
use customrouter.Base.{
  ◌<◌, ◌∙◌, ap, suc, suc, sym, arith, subst, refl, append-nil, inr, length, inl, ◌+◌, text_eq,
  Table, ◌≡◌, lookup, Bool-cases, ◌++◌, ◌∷◌, [], List, Option, Text, ℕ,
}
use customrouter.Base.Results.{Result, bind-eq-ok, ok-inj}
use customrouter.ConfigMaps.Buckets.{
  sort_buckets, attempts, usable_size, total_size, min_buckets, stable_bucket_count, route_sizes,
  base_size, assign, config_of, to_json, ConfigMapPartition, Route, RoutesConfig, emit_buckets,
  split_host_routes,
}
use customrouter.ConfigMaps.Held.{Holds-weaken, Holds, held, routes_for}
use customrouter.ConfigMaps.Buckets.Joined.{
  assign-joined, bucket_routes, sort_buckets-joined, joined,
}
use customrouter.ConfigMaps.Buckets.Content.{attempts_lem}
use customrouter.ConfigMaps.Buckets.Sized.{
  bucket_count_lem, total_size-Sized, route_sizes_lem, marshalled,
}

-- The routes of a table with one entry.
single-joined :
    (host k : Text) (rs ss : List Route)
    → routes_for k ((host, rs ++ ss) ∷ [])
      ≡ routes_for k ((host, rs) ∷ []) ++ routes_for k ((host, ss) ∷ [])
unfolding routes_for
single-joined host k rs ss = elim (Bool-cases (text_eq host k)) [
  | inl e ↦ rw e (simp (append-nil) refl)
  | inr e ↦ rw e refl
]

single-nil : (host k : Text) → routes_for k ((host, []) ∷ []) ≡ []
unfolding routes_for
single-nil host k = elim (Bool-cases (text_eq host k)) [ inl e ↦ rw e refl | inr e ↦ rw e refl ]

single-perm :
    (host k : Text) {rs ss : List Route}
    → Perm rs ss
    → Perm (routes_for k ((host, rs) ∷ [])) (routes_for k ((host, ss) ∷ []))
unfolding routes_for
single-perm host k p = elim (Bool-cases (text_eq host k)) [
  | inl e ↦ rw e (Perm.append_right [] p)
  | inr e ↦ rw e Perm.rfl
]

module _ (encode : RoutesConfig → Option Text) (marshal : Route → Option Text)
    (target host : Text) where
  -- The partitions hold tables, one for each bucket that is not empty, with the buckets' routes.
  abbrev Emitted : ℕ → ℕ → List Route → List ConfigMapPartition → Type 0
  Emitted lo hi rs ps =
      (tables : List (Table (List Route))) × Holds encode target lo hi ps tables
      × ((k : Text) → held k tables ≡ routes_for k ((host, rs) ∷ []))

  emit_buckets-Emitted :
      (i : ℕ) (bs : List (List Route)) (ps : List ConfigMapPartition)
      → emit_buckets encode marshal target host i bs ≡ Result.ok ps
      → Emitted i (i + length bs) (joined bs) ps
  unfolding emit_buckets held lookup
  emit_buckets-Emitted i [] ps h =
      subst (Emitted i (i + 0) []) (ok-inj h) ([], omega arith, λ k. sym (single-nil host k))
  emit_buckets-Emitted i ([] ∷ bs) ps h =
      let (tables, holds, same) = emit_buckets-Emitted (i + 1) bs ps h in
      let hi : i + 1 + length bs ≡ i + suc (length bs) = omega arith in
      (
        tables,
        Holds-weaken encode target i (i + 1) (i + suc (length bs)) ps tables (omega arith)
            (subst (λ n. Holds encode target (i + 1) n ps tables) hi holds),
        same,
      )
  emit_buckets-Emitted i ((r ∷ rs) ∷ bs) ps h =
      let (content, e, h1) = bind-eq-ok (to_json encode (config_of 1 ((host, r ∷ rs) ∷ []))) _ h in
      let (rest, e2, h2) = bind-eq-ok (emit_buckets encode marshal target host (i + 1) bs) _ h1 in
      let (tables, holds, same) = emit_buckets-Emitted (i + 1) bs rest e2 in
      let hi : i + 1 + length bs ≡ i + suc (length bs) = omega arith in
      subst (Emitted i (i + suc (length bs)) (r ∷ rs ++ joined bs)) (ok-inj h2) (
        ((host, r ∷ rs) ∷ []) ∷ tables,
        (
          i,
          omega arith,
          refl,
          refl,
          ((refl, tt), e),
          subst (λ n. Holds encode target (i + 1) n rest tables) hi holds,
        ),
        λ k.
            ap (λ xs. routes_for k ((host, r ∷ rs) ∷ []) ++ xs) (same k)
            ∙ sym (single-joined host k (r ∷ rs) (joined bs)),
      )

  -- The partitions of one host.
  abbrev pub Split : ℕ → ℕ → List Route → List ConfigMapPartition → Type 0
  Split lo hi rs ps =
      (tables : List (Table (List Route))) × Holds encode target lo hi ps tables
      × ((k : Text) → Perm (held k tables) (routes_for k ((host, rs) ∷ [])))

  pub split_host_routes-Split :
      (rs : List Route) (start : ℕ) (out : List ConfigMapPartition × ℕ)
      → marshalled marshal rs < 67108864
      → split_host_routes encode marshal target host rs start ≡ Result.ok out
      → Split start out.1 rs out.0
  unfolding split_host_routes held
  split_host_routes-Split [] start out small h =
      subst (λ (o : List ConfigMapPartition × ℕ). Split start o.1 [] o.0) (ok-inj h)
        ([], omega arith, λ k. rw (single-nil host k) Perm.rfl)
  split_host_routes-Split (r ∷ rs) start out small h =
      let base = base_size host in
      let (sized, e, h1) = bind-eq-ok (route_sizes marshal base 0 (r ∷ rs)) _ h in
      let count = stable_bucket_count (min_buckets (total_size sized) (usable_size base)) in
      let ((buckets, used), e1, h2) = bind-eq-ok (attempts host base 4 count sized) _ h1 in
      let (sorted, e2, h3) = bind-eq-ok (sort_buckets marshal buckets) _ h2 in
      let (ps, e3, h4) = bind-eq-ok (emit_buckets encode marshal target host start sorted) _ h3 in
      let (same, sizes, fits) = route_sizes_lem marshal base 0 (r ∷ rs) sized e in
      let ((k, l, doubled), made, (len, _)) =
        attempts_lem host base sized 4 count (buckets, used) (fits (λ n. cc)) e1 in
      let total : total_size sized < 67108864 =
        rw (total_size-Sized marshal sized sizes, same) small in
      let (low, high) = bucket_count_lem base (total_size sized) k used total l doubled in
      let (sorted_len, sorted_perm) = sort_buckets-joined marshal buckets sorted e2 in
      let (tables, holds, routes) = emit_buckets-Emitted start sorted ps e3 in
      let all : Perm (joined (bucket_routes buckets)) (r ∷ rs) =
        subst (λ bs. Perm (joined (bucket_routes bs)) (r ∷ rs)) (sym made)
          (subst (Perm (joined (bucket_routes (assign host base used sized).buckets))) same
            (assign-joined host base used sized low high)) in
      let whole : Perm (joined sorted) (r ∷ rs) = Perm.trans sorted_perm all in
      subst (λ (o : List ConfigMapPartition × ℕ). Split start o.1 (r ∷ rs) o.0) (ok-inj h4)
        (
          tables,
          subst (λ n. Holds encode target start (start + n) ps tables) (sorted_len ∙ len) holds,
          λ j. rw (routes j) (single-perm host j whole),
        )
