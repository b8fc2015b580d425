-- ===== src/ConfigMaps/Buckets/Stable.antt =====
-- What a change of one route changes: `splitHostRoutes` of
-- internal/controller/customhttproute/sync.go.
use customrouter.Base.{
  sym, ◌∙◌, [], arith, ap, ◌==◌, Bool-cases, ◌∷◌, ◌++◌, ◌≢◌, false, ◌≡◌, ◌<◌, List, Bool, Text,
  select, inl, inr, refl, ℕ,
}
use customrouter.ConfigMaps.Buckets.{Route, assign, route_bucket}
use customrouter.ConfigMaps.Buckets.Content.{routes_at-assign, unsized, routes_at}

select-unsized-append :
    (p : Route → Bool) (r : Route) (size : ℕ) (xs ys : List (Route × ℕ))
    → p r ≡ false
    → select p (unsized (xs ++ (r, size) ∷ ys)) ≡ select p (unsized (xs ++ ys))
unfolding select unsized
select-unsized-append p r size [] ys h = rw h refl
select-unsized-append p r size ((x, n) ∷ xs) ys h = elim (Bool-cases (p x)) [
  | inl e ↦ rw e (ap (◌∷◌ x) (select-unsized-append p r size xs ys h))
  | inr e ↦ rw e (select-unsized-append p r size xs ys h)
]

-- With one count of buckets, a route that is added, removed or moved leaves every bucket as it is
-- but the one that the route hashes to.
pub assign-Stable :
    (host : Text) (base count i size : ℕ) (r : Route) (xs ys : List (Route × ℕ))
    → i < count
    → i ≢ route_bucket host r count
    → routes_at i (assign host base count (xs ++ (r, size) ∷ ys)).buckets
      ≡ routes_at i (assign host base count (xs ++ ys)).buckets
assign-Stable host base count i size r xs ys l other =
    let miss : (i == route_bucket host r count) ≡ false = ground (arith, other) in
    routes_at-assign host base count i (xs ++ (r, size) ∷ ys) l
    ∙ select-unsized-append (λ (x : Route). i == route_bucket host x count) r size xs ys miss
    ∙ sym (routes_at-assign host base count i (xs ++ ys) l)
