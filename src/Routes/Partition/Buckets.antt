-- ===== src/Routes/Partition/Buckets.antt =====
-- A bucket of the index holds the routes of its host that are candidates for its value, in order.
use customrouter.Base.{
  nil-of_is_empty, Text, text_eq, text_eq_iff, select, lookup, lookup-insert, is_empty, Bool, true,
  false, List, [], ◌∷◌, ◌++◌, append_assoc, append-nil, Option, none, some, ◌≡◌, inl, inr, refl,
  sym, ap, subst, ◌∙◌, arith, if◌then◌else◌, Bool-cases, Option-cases,
}
use customrouter.Routes.{Route}
use customrouter.Routes.Partition.{
  route_partition_value, add_route, split_routes, is_candidate, merge_buckets, index_host, bucket,
  Buckets,
}

-- The two ways a route goes in the first loop.
abbrev is_value : Text → Option Text → Bool
is_value v none = false
is_value v (some w) = text_eq w v

abbrev is_missing : Option Text → Bool
is_missing none = true
is_missing (some w) = false

has_value : Text → Text → Route → Bool
has_value header v r = is_value v (route_partition_value r header)

no_value : Text → Route → Bool
no_value header r = is_missing (route_partition_value r header)

-- What a bucket becomes when routes are appended one by one.
abbrev extend : Option (List Route) → List Route → Option (List Route)
extend o [] = o
extend o (r ∷ rs) = some (bucket o ++ r ∷ rs)

lookup-add_route :
    (v : Text) (r : Route) (o : Option Text) (acc : Buckets × List Route) (rs : List Route)
    → extend (lookup v (add_route r o acc).0) rs
      ≡ extend (lookup v acc.0) (if is_value v o then r ∷ rs else rs)
unfolding add_route
lookup-add_route v r none acc rs = refl
lookup-add_route v r (some w) acc rs =
    let added = lookup-insert w v (bucket (lookup w acc.0) ++ r ∷ []) acc.0 in
    elim (Bool-cases (text_eq w v)) [
      | inl e ↦
          let same = (text_eq_iff w v).0 e in
          rw (added, e, same) (extend-some (bucket (lookup v acc.0)) r rs)
      | inr e ↦ rw (added, e)
    ]
  where
    extend-some :
        (old : List Route) (r : Route) (rs : List Route)
        → extend (some (old ++ r ∷ [])) rs ≡ some (old ++ r ∷ rs)
    extend-some old r [] = refl
    extend-some old r (x ∷ xs) = ap some (append_assoc old (r ∷ []) (x ∷ xs))

rest-add_route :
    (r : Route) (o : Option Text) (acc : Buckets × List Route) (rs : List Route)
    → (add_route r o acc).1 ++ rs ≡ acc.1 ++ (if is_missing o then r ∷ rs else rs)
unfolding add_route
rest-add_route r none acc rs = append_assoc acc.1 (r ∷ []) rs
rest-add_route r (some w) acc rs = refl

split_routes-lookup :
    (header v : Text) (rs : List Route) (acc : Buckets × List Route)
    → lookup v (split_routes header rs acc).0
      ≡ extend (lookup v acc.0) (select (has_value header v) rs)
unfolding split_routes select has_value
split_routes-lookup header v [] acc = refl
split_routes-lookup header v (r ∷ rs) acc =
    let o = route_partition_value r header in
    split_routes-lookup header v rs (add_route r o acc)
    ∙ lookup-add_route v r o acc (select (has_value header v) rs)

split_routes-rest :
    (header : Text) (rs : List Route) (acc : Buckets × List Route)
    → (split_routes header rs acc).1 ≡ acc.1 ++ select (no_value header) rs
unfolding split_routes select no_value
split_routes-rest header [] acc = sym (append-nil acc.1)
split_routes-rest header (r ∷ rs) acc =
    let o = route_partition_value r header in
    split_routes-rest header rs (add_route r o acc)
    ∙ rest-add_route r o acc (select (no_value header) rs)

-- With no route that lacks a value, the candidates are the routes with the value.
candidates-of_no_rest :
    (header v : Text) (rs : List Route)
    → select (no_value header) rs ≡ []
    → select (has_value header v) rs ≡ select (is_candidate header v) rs
unfolding select has_value no_value is_candidate
candidates-of_no_rest header v [] h = refl
candidates-of_no_rest header v (r ∷ rs) h = elim (Option-cases (route_partition_value r header)) [
  | inl e ↦ ground (arith, h, e)
  | inr (w, e) ↦ ground (arith, e, candidates-of_no_rest header v rs)
]

merge_buckets-lookup :
    (header v : Text) (routes : List Route) (m : Buckets) (c : List Route)
    → lookup v (merge_buckets header routes m) ≡ some c
    → c ≡ select (is_candidate header v) routes
unfolding merge_buckets lookup
merge_buckets-lookup header v routes [] c h = cc
merge_buckets-lookup header v routes ((w, old) ∷ m) c h = elim (Bool-cases (text_eq w v)) [
  | inl e ↦
      subst (λ x. c ≡ select (is_candidate header x) routes) ((text_eq_iff w v).0 e)
        (ground (arith, h, e))
  | inr e ↦ merge_buckets-lookup header v routes m c (ground (arith, h, e))
]

extend-none : (rs c : List Route) → extend none rs ≡ some c → c ≡ rs
extend-none [] c h = cc
extend-none (r ∷ rs) c h = ground arith

-- Every bucket of an indexed host is the host's list, in its order, without the routes that
-- require another value.
pub index_host-lookup :
    (header v : Text) (routes : List Route) (by_val : Buckets) (c : List Route)
    → index_host header routes ≡ some by_val
    → lookup v by_val ≡ some c
    → c ≡ select (is_candidate header v) routes
unfolding index_host lookup
index_host-lookup header v routes by_val c h l =
    let m = (split_routes header routes ([], [])).0 in
    let un = (split_routes header routes ([], [])).1 in
    elim (Bool-cases (is_empty m)) [
      | inl e ↦ absurd (ground (arith, h, e))
      | inr e ↦ elim (Bool-cases (is_empty un)) [
        | inl u ↦
            let same : m ≡ by_val = ground (arith, h, e, u) in
            let found : lookup v m ≡ some c = subst (λ b. lookup v b ≡ some c) (sym same) l in
            let here = split_routes-lookup header v routes ([], []) in
            let rest : select (no_value header) routes ≡ [] =
              sym (split_routes-rest header routes ([], [])) ∙ nil-of_is_empty un u in
            extend-none (select (has_value header v) routes) c (sym here ∙ found)
            ∙ candidates-of_no_rest header v routes rest
        | inr u ↦ merge_buckets-lookup header v routes m c (
            let same : merge_buckets header routes m ≡ by_val = ground (arith, h, e, u) in
            subst (λ b. lookup v b ≡ some c) (sym same) l)
      ]
    ]
