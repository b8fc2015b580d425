-- ===== src/Routes/Sort/Ranks.antt =====
-- What `SortRoutes` of pkg/routes/expand.go sorts by, told without its comparison.
use customrouter.Base.{
  ℕ, ◌+◌, ◌<◌, Bool, true, false, ◌&&◌, List, [], ◌∷◌, ◌≡◌, ◌⊎◌, inl, inr, refl, sym, ap, arith,
  ◌==◌, if◌then◌else◌, length, is_empty, All, All-imp, select, Bool-cases, ==_iff,
}
use customrouter.Base.Int.{pos, negsuc, int_lt, int_eq}
use customrouter.Base.Sorting.{IsSorted, sort_stable-IsSorted, select-sort_stable}
use customrouter.Routes.{ℤ, Route, RouteType}
use customrouter.Routes.Sort.{
  type_priority, route_method_specificity, less, sort_routes, by_priority, by_type, by_count,
}
use customrouter.Routes.Sort.Order.{less-IsWeakOrder}

-- Exact paths rank above patterns and these above prefixes; a type that is none of them ranks with
-- the exact ones.
abbrev pub type_rank : RouteType → ℕ
type_rank RouteType.exact = 2
type_rank RouteType.regex = 1
type_rank RouteType.prefix = 0
type_rank (RouteType.other t) = 2

-- What ranks a route among those of its priority, the weightiest first: its type, the length of its
-- path, whether it has a method, and the numbers of its headers and query parameters.
abbrev pub ranks : Route → List ℕ
ranks r =
    type_rank r.type
    ∷ length r.path
    ∷ (if is_empty r.method then 0 else 1)
    ∷ length r.headers
    ∷ length r.query_params
    ∷ []

-- The first difference of two lists of ranks, if there is one, is in favour of the first list.
abbrev pub RanksAbove : List ℕ → List ℕ → Type 0
RanksAbove (x ∷ xs) (y ∷ ys) = (y < x) ⊎ ((x ≡ y) × RanksAbove xs ys)
RanksAbove _ _ = Unit

-- A route may stand before another if its priority is greater, or the same and it ranks no lower.
abbrev pub MayPrecede : Route → Route → Type 0
MayPrecede a b =
    (int_lt b.priority a.priority ≡ true)
    ⊎ ((a.priority ≡ b.priority) × RanksAbove (ranks a) (ranks b))

-- Each route may stand before all that follow it.
abbrev pub IsRanked : List Route → Type 0
IsRanked [] = Unit
IsRanked (a ∷ rs) = All (MayPrecede a) rs × IsRanked rs

abbrev pub same_ranks : List ℕ → List ℕ → Bool
same_ranks (x ∷ xs) (y ∷ ys) = x == y && same_ranks xs ys
same_ranks _ _ = true

-- The same priority and the same ranks.
abbrev pub is_tied : Route → Route → Bool
is_tied a b = int_eq a.priority b.priority && same_ranks (ranks a) (ranks b)

int_eq→≡ : (x y : ℤ) → int_eq x y ≡ true → x ≡ y
int_eq→≡ (pos x) (pos y) h = ap pos ((==_iff x y).0 h)
int_eq→≡ (pos x) (negsuc y) h = cc
int_eq→≡ (negsuc x) (pos y) h = cc
int_eq→≡ (negsuc x) (negsuc y) h = ap negsuc ((==_iff x y).0 h)

type_rank_lem : (t : RouteType) → type_rank t + type_priority t ≡ 2
unfolding type_priority
type_rank_lem RouteType.exact = refl
type_rank_lem RouteType.regex = refl
type_rank_lem RouteType.prefix = refl
type_rank_lem (RouteType.other t) = refl

-- One round that does not put `y` first puts `x` above, or leaves the order to what follows it.
priority_round :
    (x y : ℤ) (rest : Bool)
    → by_priority y x rest ≡ false
    → (int_lt y x ≡ true) ⊎ ((x ≡ y) × (rest ≡ false))
priority_round (pos x) (pos y) rest h = elim (Bool-cases (y == x)) [
  | inl e ↦ inr (ap pos (sym ((==_iff y x).0 e)), ground (arith, h, e))
  | inr e ↦ inl (ground (arith, h, e))
]
priority_round (pos x) (negsuc y) rest h = inl refl
priority_round (negsuc x) (pos y) rest h = cc
priority_round (negsuc x) (negsuc y) rest h = elim (Bool-cases (y == x)) [
  | inl e ↦ inr (ap negsuc (sym ((==_iff y x).0 e)), ground (arith, h, e))
  | inr e ↦ inl (ground (arith, h, e))
]

count_round :
    (x y : ℕ) (rest : Bool) → by_count y x rest ≡ false → (y < x) ⊎ ((x ≡ y) × (rest ≡ false))
count_round x y rest h = elim (Bool-cases (y == x)) [
  | inl e ↦ inr (sym ((==_iff y x).0 e), ground (arith, h, e))
  | inr e ↦ inl (ground (arith, h, e))
]

type_round :
    (s t : RouteType) (rest : Bool)
    → by_type (type_priority t) (type_priority s) rest ≡ false
    → (type_rank t < type_rank s) ⊎ ((type_rank s ≡ type_rank t) × (rest ≡ false))
type_round s t rest h =
    let es = type_rank_lem s in
    let et = type_rank_lem t in
    elim (Bool-cases (type_priority t == type_priority s)) [
      | inl e ↦ inr (ground (arith, e, es, et), ground (arith, h, e))
      | inr e ↦ inl (ground (arith, h, e, es, et))
    ]

-- Going on after a round.
or_then {ℓ κ μ} :
    {A : Type ℓ} {E : Type κ} {C : Type μ} {rest : Bool}
    → A ⊎ (E × (rest ≡ false))
    → (rest ≡ false → C)
    → A ⊎ (E × C)
or_then (inl a) f = inl a
or_then (inr (e, h)) f = inr (e, f h)

less-MayPrecede : (a b : Route) → less b a ≡ false → MayPrecede a b
unfolding less route_method_specificity
less-MayPrecede a b h = or_then (priority_round a.priority b.priority _ h) (λ h1.
    or_then (type_round a.type b.type _ h1) (λ h2.
      or_then (count_round (length a.path) (length b.path) _ h2) (λ h3.
        or_then
          (count_round (if is_empty a.method then 0 else 1) (if is_empty b.method then 0 else 1) _
            h3)
          (λ h4. or_then (count_round (length a.headers) (length b.headers) _ h4) (λ h5.
            or_then (count_round (length a.query_params) (length b.query_params) _ h5)
              (λ _. tt))))))

IsSorted-IsRanked : (rs : List Route) → IsSorted less rs → IsRanked rs
IsSorted-IsRanked [] h = tt
IsSorted-IsRanked (a ∷ rs) (first_of, h) =
    (All-imp (λ b e. less-MayPrecede a b e) rs first_of, IsSorted-IsRanked rs h)

same-priority : (x : ℤ) (rest : Bool) → by_priority x x rest ≡ rest
same-priority (pos x) rest = ground arith
same-priority (negsuc x) rest = ground arith

tied-less : (c a b : Route) → is_tied c a ≡ true → is_tied c b ≡ true → less a b ≡ false
unfolding less route_method_specificity
tied-less c a b h k =
    let x = int_eq→≡ c.priority a.priority (ground (arith, h)) in
    let y = int_eq→≡ c.priority b.priority (ground (arith, k)) in
    rw (sym x, sym y, same-priority c.priority)
      (ground (arith, h, k, type_rank_lem a.type, type_rank_lem b.type))

-- `SortRoutes` puts no route before one of a greater priority or, with the same priority, of a higher
-- rank: exact before regex before prefix, then longer paths, those with a method, more headers and
-- more query parameters first. Routes of one priority and rank stay in the order in which they stood.
pub sort_routes-IsRanked :
    (rs : List Route) (c : Route)
    → IsRanked (sort_routes rs) × (select (is_tied c) (sort_routes rs) ≡ select (is_tied c) rs)
unfolding sort_routes
sort_routes-IsRanked rs c = (
  IsSorted-IsRanked _ (sort_stable-IsSorted less less-IsWeakOrder rs),
  select-sort_stable less (is_tied c) (tied-less c) rs,
)
