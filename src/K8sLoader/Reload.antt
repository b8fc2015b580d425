-- ===== src/K8sLoader/Reload.antt =====
-- The reload loop of pkg/routes/k8s_loader.go as steps: `signalReload`, `reloadLoop`, `Load` and
-- `handleWatchEvents`. A loader without a debounce leaves its window at once. What is loaded is told
-- by the number of changes that it has seen.
use customrouter.Base.{
  sym, ◌∙◌, ◌+◌, ◌*◌, ◌≤◌, ◌≡◌, Bool, ℕ, suc, ◌-◌, true, false, inl, inr, refl, ◌⊎◌, arith,
  Bool-cases, if◌then◌else◌,
}

-- Where `reloadLoop` stands: at the receive of `dirty`, in the debounce window, before the list, or
-- with a configuration that is built and not yet swapped in.
pub data Phase : Type 0 where
  waiting absorbing loading : Phase
  built : ℕ → Phase

-- `changes` counts those of the ConfigMaps, `events` the watch events that are not handled yet,
-- `dirty` is the slot of the channel and `config` the changes that the table has seen.
pub record State : Type 0 where
  pub changes : ℕ
  pub events : ℕ
  pub dirty : Bool
  pub phase : Phase
  pub config : ℕ

-- The send of `signalReload` to the channel of one slot.
abbrev pub signal_reload : State → State
signal_reload s = record s { dirty = true }

-- What the loader does by itself: the handling of an event, and the loop.
pub data Work : State → State → Type 0 where
  deliver :
      {s : State} (n : ℕ) → s.events ≡ suc n → Work s (signal_reload (record s { events = n }))
  receive :
      {s : State}
      → s.phase ≡ Phase.waiting
      → s.dirty ≡ true
      → Work s (record s { dirty = false; phase = Phase.absorbing })
  absorb :
      {s : State} → s.phase ≡ Phase.absorbing → s.dirty ≡ true → Work s (record s { dirty = false })
  expire : {s : State} → s.phase ≡ Phase.absorbing → Work s (record s { phase = Phase.loading })
  build :
      {s : State} → s.phase ≡ Phase.loading → Work s (record s { phase = Phase.built s.changes })
  swap :
      {s : State} (n : ℕ)
      → s.phase ≡ Phase.built n
      → Work s (record s { config = n; phase = Phase.waiting })

-- A change of the ConfigMaps, which the watch tells of, or the loader's work.
pub data Step : State → State → Type 0 where
  change : {s : State} → Step s (record s { changes = s.changes + 1; events = s.events + 1 })
  work : {s t : State} → Work s t → Step s t

pub data Reachable : State → Type 0 where
  start : {s : State} → s.config ≡ s.changes → s.phase ≡ Phase.waiting → Reachable s
  next : {s t : State} → Reachable s → Step s t → Reachable t

abbrev Fresh : Phase → ℕ → ℕ → Type 0
Fresh Phase.waiting config changes = config ≡ changes
Fresh Phase.absorbing config changes = Unit
Fresh Phase.loading config changes = Unit
Fresh (Phase.built n) config changes = n ≡ changes

-- A change is on its way to the loop, or the loop has it or is about to see it.
abbrev Pending : State → Type 0
Pending s = (1 ≤ s.events) ⊎ ((s.dirty ≡ true) ⊎ Fresh s.phase s.config s.changes)

Work-Pending : {s t : State} → Work s t → Pending s → Pending t
Work-Pending (Work.deliver n e) h = inr (inl refl)
Work-Pending (Work.receive w d) h = inr (inr tt)
Work-Pending (Work.absorb a d) h = inr (inr (rw a tt))
Work-Pending (Work.expire a) h = inr (inr tt)
Work-Pending (Work.build l) h = inr (inr refl)
Work-Pending (Work.swap n b) h = elim h [
  | inl u ↦ inl u
  | inr (inl d) ↦ inr (inl d)
  | inr (inr f) ↦ inr (inr (rw b at f))
]

Step-Pending : {s t : State} → Step s t → Pending s → Pending t
Step-Pending Step.change h = inl (omega arith)
Step-Pending (Step.work w) h = Work-Pending w h

Reachable-Pending : {s : State} → Reachable s → Pending s
Reachable-Pending (Reachable.start {s} fresh waits) = inr (inr (rw waits fresh))
Reachable-Pending (Reachable.next before step) = Step-Pending step (Reachable-Pending before)

-- The work of a loader while the ConfigMaps stay as they are: so many steps from one state to another.
pub data Works : ℕ → State → State → Type 0 where
  done : {s : State} → Works 0 s s
  also : {n : ℕ} {s t u : State} → Work s t → Works n t u → Works (suc n) s u

abbrev phase_left : Phase → ℕ
phase_left Phase.waiting = 0
phase_left Phase.absorbing = 3
phase_left Phase.loading = 2
phase_left (Phase.built n) = 1

-- The most steps that are left to do: five for an event, four for a signal, and those of the phase.
abbrev pub work_left : State → ℕ
work_left s = s.events * 5 + (if s.dirty then 4 else 0) + phase_left s.phase

Work-left : {s t : State} → Work s t → work_left t + 1 ≤ work_left s
Work-left (Work.deliver {s} n e) = elim (Bool-cases s.dirty) [
  | inl d ↦ rw (e, d) (omega arith)
  | inr d ↦ rw (e, d) (omega arith)
]
Work-left (Work.receive w d) = rw (w, d) (omega arith)
Work-left (Work.absorb a d) = rw (a, d) (omega arith)
Work-left (Work.expire a) = rw a (omega arith)
Work-left (Work.build l) = rw l (omega arith)
Work-left (Work.swap n b) = rw b (omega arith)

Works-left : {n : ℕ} {s t : State} → Works n s t → work_left t + n ≤ work_left s
Works-left Works.done = omega arith
Works-left (Works.also step steps) = omega (arith, Work-left step, Works-left steps)

Work-changes : {s t : State} → Work s t → t.changes ≡ s.changes
Work-changes (Work.deliver n e) = refl
Work-changes (Work.receive w d) = refl
Work-changes (Work.absorb a d) = refl
Work-changes (Work.expire a) = refl
Work-changes (Work.build l) = refl
Work-changes (Work.swap n b) = refl

Works-changes : {n : ℕ} {s t : State} → Works n s t → t.changes ≡ s.changes
Works-changes Works.done = refl
Works-changes (Works.also step steps) = Works-changes steps ∙ Work-changes step

Works-Pending : {n : ℕ} {s t : State} → Works n s t → Pending s → Pending t
Works-Pending Works.done h = h
Works-Pending (Works.also step steps) h = Works-Pending steps (Work-Pending step h)

-- The loop is at its receive with the changes loaded.
abbrev pub Settled : State → ℕ → Type 0
Settled t changes = (t.config ≡ changes) × (t.phase ≡ Phase.waiting) × (t.dirty ≡ false)

-- There is something that the loader can do.
abbrev pub CanWork : State → Type 0
CanWork t = (u : State) × Work t u

waiting-progress :
    (t : State) → t.phase ≡ Phase.waiting → Pending t → Settled t t.changes ⊎ CanWork t
waiting-progress t w pending = elim (Bool-cases t.dirty) [
  | inl d ↦ inr (record t { dirty = false; phase = Phase.absorbing }, Work.receive w d)
  | inr d ↦ elim pending [
    | inl late ↦
        let n = t.events - 1 in
        inr (signal_reload (record t { events = n }), Work.deliver n (omega (arith, late)))
    | inr (inl set) ↦ absurd (let no : true ≡ false = sym set ∙ d in cc)
    | inr (inr fresh) ↦ inl (rw w at fresh, w, d)
  ]
]

progress : (t : State) (p : Phase) → t.phase ≡ p → Pending t → Settled t t.changes ⊎ CanWork t
progress t Phase.waiting e pending = waiting-progress t e pending
progress t Phase.absorbing e pending = inr (record t { phase = Phase.loading }, Work.expire e)
progress t Phase.loading e pending = inr (record t { phase = Phase.built t.changes }, Work.build e)
progress t (Phase.built n) e pending =
    inr (record t { config = n; phase = Phase.waiting }, Work.swap n e)

-- No change is lost while loads succeed and the watch lasts: once the ConfigMaps stay as they are,
-- the loader takes, from a state that it can be in, at most the steps that were left to do,
-- whatever their order, and it can go on until all changes are loaded and the loop is back at its
-- receive.
pub Works-Settled :
    (s t : State) (n : ℕ)
    → Reachable s
    → Works n s t
    → (n ≤ work_left s) × (Settled t s.changes ⊎ CanWork t)
Works-Settled s t n r works = (
  omega (arith, Works-left works),
  rw (sym (Works-changes works))
      (progress t t.phase refl (Works-Pending works (Reachable-Pending r))),
)
