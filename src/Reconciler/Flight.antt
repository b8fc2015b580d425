-- ===== src/Reconciler/Flight.antt =====
-- The rebuilds of the targets by several workers at once: the phases of `rebuildTarget` of
-- internal/controller/customhttproute/controller.go as steps.
use customrouter.Base.{
  text_eq_comm, ◌≤◌, lookup-insert, some-inj, subst, insert, Bool-cases, text_eq_iff, none, ◌⊎◌, ap,
  arith, false, lookup, text_eq, [], some, if◌then◌else◌, ◌++◌, ◌≡◌, ◌+◌, All, ◌∷◌, true, Bool,
  List, Text, ℕ, inl, inr, refl,
}
use customrouter.Reconciler.{
  ℤ, Memory, target_try_lock, target_unlock, mark_rebuilt, rebuild_wait, or_false,
}
use customrouter.Reconciler.Maps.{lookup-remove}

-- Where a worker stands: outside, behind the lock with the cooldown still to be checked, or in the
-- rebuild.
pub data Phase : Type 0 where
  idle : Phase
  locked : Text → Bool → Phase
  working : Text → Phase

pub record System : Type 0 where
  pub memory : Memory
  pub workers : List Phase

-- One worker goes from a phase to another.
abbrev pub Moves : Phase → Phase → System → System → Type 0
Moves p q s t =
    (xs : List Phase) × (ys : List Phase) × (s.workers ≡ xs ++ p ∷ ys) × (t.workers ≡ xs ++ q ∷ ys)

-- The steps of `rebuildTarget`. In `work` a rebuild changes anything but the locks.
pub data Step (cooldown : ℤ) : System → System → Type 0 where
  lock :
      {s t : System} (target : Text) (deletion : Bool)
      → Moves Phase.idle (Phase.locked target deletion) s t
      → target_try_lock target s.memory ≡ some t.memory
      → Step cooldown s t
  throttle :
      {s t : System} (target : Text) (now wait : ℕ)
      → Moves (Phase.locked target false) Phase.idle s t
      → rebuild_wait cooldown target now s.memory ≡ some wait
      → t.memory ≡ target_unlock target s.memory
      → Step cooldown s t
  begin :
      {s t : System} (target : Text) (deletion : Bool) (now : ℕ)
      → Moves (Phase.locked target deletion) (Phase.working target) s t
      → (deletion ≡ true) ⊎ (rebuild_wait cooldown target now s.memory ≡ none)
      → t.memory ≡ s.memory
      → Step cooldown s t
  work :
      {s t : System} (target : Text)
      → Moves (Phase.working target) (Phase.working target) s t
      → t.memory.rebuilding ≡ s.memory.rebuilding
      → Step cooldown s t
  fail :
      {s t : System} (target : Text)
      → Moves (Phase.working target) Phase.idle s t
      → t.memory ≡ target_unlock target s.memory
      → Step cooldown s t
  succeed :
      {s t : System} (target : Text) (now : ℕ)
      → Moves (Phase.working target) Phase.idle s t
      → t.memory ≡ target_unlock target (mark_rebuilt target now s.memory)
      → Step cooldown s t

-- The workers start outside, with no lock held.
abbrev AreIdle : List Phase → Type 0
AreIdle = All (λ p. p ≡ Phase.idle)

pub data Reachable (cooldown : ℤ) : System → Type 0 where
  start : {s : System} → AreIdle s.workers → s.memory.rebuilding ≡ [] → Reachable cooldown s
  next : {s t : System} → Reachable cooldown s → Step cooldown s t → Reachable cooldown t

-- The workers that hold a target's lock.
abbrev inside : Text → Phase → ℕ
inside target Phase.idle = 0
inside target (Phase.locked t deletion) = if text_eq t target then 1 else 0
inside target (Phase.working t) = if text_eq t target then 1 else 0

abbrev pub holders : Text → List Phase → ℕ
holders target [] = 0
holders target (p ∷ ps) = inside target p + holders target ps

holders-append :
    (target : Text) (xs ys : List Phase)
    → holders target (xs ++ ys) ≡ holders target xs + holders target ys
holders-append target [] ys = omega arith
holders-append target (p ∷ xs) ys = omega (arith, holders-append target xs ys)

holders-Moves :
    (target : Text) (p q : Phase) (s t : System)
    → Moves p q s t
    → holders target t.workers + inside target p ≡ holders target s.workers + inside target q
holders-Moves target p q s t (xs, ys, before, after) = omega (
  arith,
  ap (holders target) before,
  ap (holders target) after,
  holders-append target xs (p ∷ ys),
  holders-append target xs (q ∷ ys),
)

holders-idle : (target : Text) (ps : List Phase) → AreIdle ps → holders target ps ≡ 0
holders-idle target [] h = refl
holders-idle target (p ∷ ps) (e, h) = rw e (omega (arith, holders-idle target ps h))

abbrev pub flag : Bool → ℕ
flag true = 1
flag false = 0

-- The lock of every target is held by exactly the workers that are inside: by one, or by none.
abbrev pub Exclusive : System → Type 0
Exclusive s =
    (target : Text) → holders target s.workers ≡ flag (or_false (lookup target s.memory.rebuilding))

-- The flag of a target before and after its lock is taken.
target_try_lock-flag :
    (target x : Text) (m n : Memory)
    → target_try_lock target m ≡ some n
    → flag (or_false (lookup x n.rebuilding))
      ≡ flag (or_false (lookup x m.rebuilding)) + (if text_eq target x then 1 else 0)
unfolding target_try_lock
target_try_lock-flag target x m n h = elim (Bool-cases (or_false (lookup target m.rebuilding))) [
  | inl e ↦ absurd (let no : none ≡ some n = rw e at h in cc)
  | inr e ↦
      let free : some (record m { rebuilding = insert target true m.rebuilding }) ≡ some n =
        rw e at h in
      subst
        (λ (o : Memory).
          flag (or_false (lookup x o.rebuilding))
          ≡ flag (or_false (lookup x m.rebuilding)) + (if text_eq target x then 1 else 0))
        (some-inj free)
        (elim (Bool-cases (text_eq target x)) [
          | inl same ↦
              let off : or_false (lookup x m.rebuilding) ≡ false =
                subst (λ k. or_false (lookup k m.rebuilding) ≡ false)
                  ((text_eq_iff target x).0 same) e in
              rw (lookup-insert, same, off) (omega arith)
          | inr other ↦ rw (lookup-insert, other) (omega arith)
        ])
]

target_unlock-flag :
    (target x : Text) (m : Memory)
    → flag (or_false (lookup x (target_unlock target m).rebuilding))
      ≡ (if text_eq target x then 0 else flag (or_false (lookup x m.rebuilding)))
unfolding target_unlock
target_unlock-flag target x m =
    rw (lookup-remove x target m.rebuilding, text_eq_comm x target)
      (elim (Bool-cases (text_eq target x)) [ inl e ↦ rw e refl | inr e ↦ rw e refl ])

flag-le : (b : Bool) → flag b ≤ 1
flag-le true = omega arith
flag-le false = omega arith

-- A worker that leaves takes its target's only lock with it.
leave-Exclusive :
    (p : Phase) (target : Text) (s t : System) (m : Memory)
    → ((x : Text) → inside x p ≡ (if text_eq target x then 1 else 0))
    → m.rebuilding ≡ s.memory.rebuilding
    → Moves p Phase.idle s t
    → t.memory ≡ target_unlock target m
    → Exclusive s
    → Exclusive t
leave-Exclusive p target s t m own kept moves after h x =
    let count = holders-Moves x p Phase.idle s t moves in
    let before : holders x s.workers ≡ flag (or_false (lookup x m.rebuilding)) = rw kept (h x) in
    rw (after, target_unlock-flag target x m)
      (elim (Bool-cases (text_eq target x)) [
        | inl e ↦
            let one : inside x p ≡ 1 = rw e at (own x) in
            rw e (omega (arith, count, before, one, flag-le (or_false (lookup x m.rebuilding))))
        | inr e ↦
            let zero_here : inside x p ≡ 0 = rw e at (own x) in
            rw e (omega (arith, count, before, zero_here))
      ])

stay-Exclusive :
    (p q : Phase) (s t : System)
    → ((x : Text) → inside x p ≡ inside x q)
    → Moves p q s t
    → t.memory.rebuilding ≡ s.memory.rebuilding
    → Exclusive s
    → Exclusive t
stay-Exclusive p q s t same moves kept h x =
    rw kept (omega (arith, holders-Moves x p q s t moves, h x, same x))

lock-Exclusive :
    (target : Text) (deletion : Bool) (s t : System)
    → Moves Phase.idle (Phase.locked target deletion) s t
    → target_try_lock target s.memory ≡ some t.memory
    → Exclusive s
    → Exclusive t
lock-Exclusive target deletion s t moves taken h x = omega (
  arith,
  holders-Moves x Phase.idle (Phase.locked target deletion) s t moves,
  target_try_lock-flag target x s.memory t.memory taken,
  h x,
)

Step-Exclusive : {cooldown : ℤ} {s t : System} → Step cooldown s t → Exclusive s → Exclusive t
Step-Exclusive {cooldown} {s} {t} (Step.lock target deletion moves taken) h =
    lock-Exclusive target deletion s t moves taken h
Step-Exclusive {cooldown} {s} {t} (Step.throttle target now wait moves _ after) h =
    leave-Exclusive (Phase.locked target false) target s t s.memory (λ x. refl) refl moves after h
Step-Exclusive {cooldown} {s} {t} (Step.begin target deletion now moves _ after) h =
    stay-Exclusive (Phase.locked target deletion) (Phase.working target) s t (λ x. refl) moves
      (ap (λ (m : Memory). m.rebuilding) after) h
Step-Exclusive {cooldown} {s} {t} (Step.work target moves kept) h =
    stay-Exclusive (Phase.working target) (Phase.working target) s t (λ x. refl) moves kept h
Step-Exclusive {cooldown} {s} {t} (Step.fail target moves after) h =
    leave-Exclusive (Phase.working target) target s t s.memory (λ x. refl) refl moves after h
Step-Exclusive {cooldown} {s} {t} (Step.succeed target now moves after) h =
    leave-Exclusive (Phase.working target) target s t (mark_rebuilt target now s.memory) (λ x. refl)
      (unfold mark_rebuilt in refl) moves after h

-- In every state that workers can reach, a target has one worker behind its lock when the lock is
-- taken and none when it is free: no two rebuilds of a target run at once, and no lock is lost.
pub Reachable-Exclusive :
    {cooldown : ℤ} {s : System}
    → Reachable cooldown s
    → (target : Text)
    → holders target s.workers ≡ flag (or_false (lookup target s.memory.rebuilding))
unfolding lookup
Reachable-Exclusive (Reachable.start {s} idles free) =
    λ target. rw free (holders-idle target s.workers idles)
Reachable-Exclusive (Reachable.next before step) = Step-Exclusive step (Reachable-Exclusive before)
