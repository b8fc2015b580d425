-- ===== src/ConfigMaps/Buckets/Count.antt =====
-- The number of buckets: `stableBucketCount` of internal/controller/customhttproute/sync.go.
use Prim.Native.Nat.{◌%◌}
use native.Mathlib.Nat.{mul_assoc, pow-succ'}
use customrouter.Base.{
  sym, ap, zero, false, ◌∙◌, inr, ltb, suc, inl, arith, leb, ◌+◌, Bool-cases, ◌*◌, ◌≡◌, ◌<◌, ◌≤◌, ℕ,
}
use customrouter.ConfigMaps.Buckets.{◌^◌, double_until, int64_lt, stable_bucket_count}

ltb-add : (a b c : ℕ) → ltb (a + c) (b + c) ≡ ltb a b
ltb-add a b c = ground arith

pub double-pow : (b k : ℕ) → b * 2 * 2 ^ k ≡ b * 2 ^ suc k
double-pow b k = mul_assoc b 2 (2 ^ k) ∙ ap (λ t. b * t) (sym (pow-succ' 2 k))

-- Below 2 ^ 63 the integers are compared as numbers.
int64_lt-ltb : (a b : ℕ) → a < 2 ^ 63 → b < 2 ^ 63 → int64_lt a b ≡ ltb a b
unfolding int64_lt
int64_lt-ltb a b p q =
    let x : (a + 2 ^ 63) % 2 ^ 64 ≡ a + 2 ^ 63 = omega (arith, p) in
    let y : (b + 2 ^ 63) % 2 ^ 64 ≡ b + 2 ^ 63 = omega (arith, q) in
    rw (x, y) (ltb-add a b (2 ^ 63))

-- The loop ends at the first of bc, 2 * bc, 4 * bc, ... that reaches the target, when that is at
-- most 2 ^ 62: none of them wraps.
double_until_lem :
    (fuel bc target : ℕ)
    → bc < 2 * target
    → target ≤ 2 ^ 62
    → target ≤ bc * 2 ^ fuel
    → (k : ℕ) × (double_until fuel bc target ≡ bc * 2 ^ k)
      × (target ≤ double_until fuel bc target)
      × (double_until fuel bc target < 2 * target)
unfolding double_until
double_until_lem zero bc target h most f = (0, omega arith, omega (arith, f), h)
double_until_lem (suc fuel) bc target h most f =
    let same : int64_lt bc target ≡ ltb bc target =
      int64_lt-ltb bc target (omega (arith, h, most)) (omega (arith, most)) in
    let exact : bc * 2 % 2 ^ 64 ≡ bc * 2 = omega (arith, h, most) in
    elim (Bool-cases (ltb bc target)) [
      | inl e ↦
          let (k, equal, low, high) =
            double_until_lem fuel (bc * 2) target (ground (arith, e)) most
              (rw (double-pow bc fuel) f) in
          rw (same, e, exact) (suc k, equal ∙ double-pow bc k, low, high)
      | inr e ↦ rw (same, e) (0, omega arith, ground (arith, e), h)
    ]

-- The loop of the bucket count ends: for a minimum of at least two buckets and at most 2 ^ 61, so
-- that no doubling of the 64-bit integers wraps, it gives a power of two that is at least twice and
-- less than four times the minimum.
pub stable_bucket_count_lem :
    (min : ℕ)
    → 2 ≤ min
    → min ≤ 2 ^ 61
    → ((k : ℕ) × (stable_bucket_count min ≡ 2 ^ k))
      × (2 * min ≤ stable_bucket_count min)
      × (stable_bucket_count min < 4 * min)
unfolding stable_bucket_count
stable_bucket_count_lem min h most =
    let many : leb min 1 ≡ false = ground (arith, h) in
    let exact : 2 * min % 2 ^ 64 ≡ 2 * min = omega (arith, most) in
    let (k, same, low, high) =
      double_until_lem 64 2 (2 * min) (omega (arith, h)) (omega (arith, most))
        (omega (arith, most)) in
    rw (many, exact) ((suc k, same ∙ sym (pow-succ' 2 k)), low, omega (arith, high))
