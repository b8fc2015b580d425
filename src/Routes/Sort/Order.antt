-- ===== src/Routes/Sort/Order.antt =====
-- The comparison of `SortRoutes` is a strict weak order, and what the sort guarantees.
use customrouter.Base.Int.{pos, negsuc}
use customrouter.Base.{length, ℕ, Bool, true, false, List, ◌≡◌, refl, arith}
use customrouter.Base.Sorting.{IsWeakOrder}
use customrouter.Routes.{ℤ, Route}
use customrouter.Routes.Sort.{
  type_priority, route_method_specificity, less, by_priority, by_type, by_count,
}

-- One round keeps asymmetry and transitivity of what follows it.
priority_asym :
    (x y : ℤ) (p q : Bool)
    → (p ≡ true → q ≡ false)
    → by_priority x y p ≡ true
    → by_priority y x q ≡ false
priority_asym (pos x) (pos y) p q f h = ground arith
priority_asym (pos x) (negsuc y) p q f h = ground arith
priority_asym (negsuc x) (pos y) p q f h = ground arith
priority_asym (negsuc x) (negsuc y) p q f h = ground arith

type_asym :
    (x y : ℕ) (p q : Bool) → (p ≡ true → q ≡ false) → by_type x y p ≡ true → by_type y x q ≡ false
type_asym x y p q f h = ground arith

count_asym :
    (x y : ℕ) (p q : Bool) → (p ≡ true → q ≡ false) → by_count x y p ≡ true → by_count y x q ≡ false
count_asym x y p q f h = ground arith

priority_trans :
    (x y z : ℤ) (p q r : Bool)
    → (p ≡ false → q ≡ false → r ≡ false)
    → by_priority x y p ≡ false
    → by_priority y z q ≡ false
    → by_priority x z r ≡ false
priority_trans (pos x) (pos y) (pos z) p q r f h k = ground arith
priority_trans (negsuc x) (negsuc y) (negsuc z) p q r f h k = ground arith
priority_trans (pos x) (pos y) (negsuc z) p q r f h k = ground arith
priority_trans (pos x) (negsuc y) (pos z) p q r f h k = ground arith
priority_trans (pos x) (negsuc y) (negsuc z) p q r f h k = ground arith
priority_trans (negsuc x) (pos y) (pos z) p q r f h k = ground arith
priority_trans (negsuc x) (pos y) (negsuc z) p q r f h k = ground arith
priority_trans (negsuc x) (negsuc y) (pos z) p q r f h k = ground arith

type_trans :
    (x y z : ℕ) (p q r : Bool)
    → (p ≡ false → q ≡ false → r ≡ false)
    → by_type x y p ≡ false
    → by_type y z q ≡ false
    → by_type x z r ≡ false
type_trans x y z p q r f h k = ground arith

count_trans :
    (x y z : ℕ) (p q r : Bool)
    → (p ≡ false → q ≡ false → r ≡ false)
    → by_count x y p ≡ false
    → by_count y z q ≡ false
    → by_count x z r ≡ false
count_trans x y z p q r f h k = ground arith

module _ {rest : Route → Route → Bool} (order : IsWeakOrder rest) where
  priority-IsWeakOrder : (f : Route → ℤ) → IsWeakOrder (λ a b. by_priority (f a) (f b) (rest a b))
  priority-IsWeakOrder f = record {
    asym = λ a b. priority_asym (f a) (f b) (rest a b) (rest b a) (order.asym a b);
    trans = λ a b c.
        priority_trans (f a) (f b) (f c) (rest a b) (rest b c) (rest a c) (order.trans a b c);
  }

  type-IsWeakOrder : (f : Route → ℕ) → IsWeakOrder (λ a b. by_type (f a) (f b) (rest a b))
  type-IsWeakOrder f = record {
    asym = λ a b. type_asym (f a) (f b) (rest a b) (rest b a) (order.asym a b);
    trans =
        λ a b c. type_trans (f a) (f b) (f c) (rest a b) (rest b c) (rest a c) (order.trans a b c);
  }

  count-IsWeakOrder : (f : Route → ℕ) → IsWeakOrder (λ a b. by_count (f a) (f b) (rest a b))
  count-IsWeakOrder f = record {
    asym = λ a b. count_asym (f a) (f b) (rest a b) (rest b a) (order.asym a b);
    trans =
        λ a b c. count_trans (f a) (f b) (f c) (rest a b) (rest b c) (rest a c) (order.trans a b c);
  }

ties-IsWeakOrder : IsWeakOrder {A = Route} (λ a b. false)
ties-IsWeakOrder = record { asym = λ a b h. refl; trans = λ a b c h k. refl }

-- The comparison is asymmetric, and "not before" is transitive: what `sort.SliceStable` requires.
pub less-IsWeakOrder : IsWeakOrder less
unfolding less
less-IsWeakOrder =
    priority-IsWeakOrder
      (type-IsWeakOrder
        (count-IsWeakOrder
          (count-IsWeakOrder
            (count-IsWeakOrder (count-IsWeakOrder ties-IsWeakOrder (λ r. length r.query_params))
              (λ r. length r.headers))
            route_method_specificity)
          (λ r. length r.path))
        (λ r. type_priority r.type))
      (λ r. r.priority)
