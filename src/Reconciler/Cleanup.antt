-- ===== src/Reconciler/Cleanup.antt =====
-- What a sweep of the controller's memory removes and what it keeps: `clearTargetState` and
-- `gcStateOnce` of internal/controller/customhttproute/controller.go.
use customrouter.Base.{
  leb, lookup-insert, arith, text_eq_refl, subst, ◌==◌, ap, some, ◌-◌, false, ◌+◌, ◌<◌, true,
  Option, Bool, ◌∙◌, not, none, any, text_eq, if◌then◌else◌, ◌≡◌, lookup, ◌≤◌, ◌≢◌, List, Text, ℕ,
  refl, [],
}
use customrouter.Reconciler.{
  effective_rebuild_cooldown, target_unlock, rebuild_wait, requeue_delay, mark_rebuilt,
  target_try_lock, Outcome, or_false, rebuild_locked, rebuild_from, finish, ℤ, is_owner, is_live,
  clear_target_state, gc_state_once, rebuild_target, Memory,
}
use customrouter.Reconciler.Maps.{lookup-select, lookup-remove}
use customrouter.ConfigMaps.{parse_partition_name, partition_name}
use customrouter.ConfigMaps.Names.{parse_partition_name-partition_name}

if-not {ℓ} : {A : Type ℓ} (b : Bool) (x y : A) → (if not b then x else y) ≡ (if b then y else x)
if-not true x y = refl
if-not false x y = refl

-- Clearing a target removes the hashes of its partitions and no other target's, whatever dashes
-- the names have, and its time of the last rebuild, and leaves its lock.
pub clear_target_state_lem :
    (target owner : Text) (i : ℕ) (s : Memory)
    → owner ≢ []
    → i ≤ 9223372036854775807
    → (lookup (partition_name owner i) (clear_target_state target s).partition_hashes ≡ (
        if text_eq owner target then none else lookup (partition_name owner i) s.partition_hashes))
      × (lookup owner (clear_target_state target s).last_rebuild_at
          ≡ (if text_eq owner target then none else lookup owner s.last_rebuild_at))
      × ((clear_target_state target s).rebuilding ≡ s.rebuilding)
unfolding clear_target_state
clear_target_state_lem target owner i s n l = (
  lookup-select (λ k. not (is_owner target (parse_partition_name k))) (partition_name owner i)
        s.partition_hashes
      ∙ rw (parse_partition_name-partition_name owner i n l) (if-not (text_eq owner target) _ _),
  lookup-remove owner target s.last_rebuild_at,
  refl,
)

-- A sweep keeps the hashes and the times of the targets that are live and removes all others'.
pub gc_state_once_lem :
    (live : List Text) (owner : Text) (i : ℕ) (s : Memory)
    → owner ≢ []
    → i ≤ 9223372036854775807
    → (lookup (partition_name owner i) (gc_state_once live s).partition_hashes ≡ (
        if any (text_eq owner) live
        then lookup (partition_name owner i) s.partition_hashes
        else none))
      × (lookup owner (gc_state_once live s).last_rebuild_at
          ≡ (if any (text_eq owner) live then lookup owner s.last_rebuild_at else none))
      × ((gc_state_once live s).rebuilding ≡ s.rebuilding)
unfolding gc_state_once
gc_state_once_lem live owner i s n l = (
  lookup-select (λ k. is_live live (parse_partition_name k)) (partition_name owner i)
        s.partition_hashes
      ∙ rw (parse_partition_name-partition_name owner i n l) refl,
  lookup-select (λ k. any (text_eq k) live) owner s.last_rebuild_at,
  refl,
)

module _ {ℓ} {E : Type ℓ} (cooldown : ℤ) (rebuild : Text → Memory → Option E × Memory)
    (before after : ℕ) where
  -- What a rebuild that succeeds leaves: no lock of the target, and its time.
  abbrev Left : Text → Memory → Type 0
  Left target t =
      (or_false (lookup target t.rebuilding) ≡ false)
      × (lookup target t.last_rebuild_at ≡ some after)

  finish-Left :
      (target : Text) (r : Option E × Memory) (t : Memory)
      → finish cooldown rebuild before after target r ≡ (Outcome.rebuilt, t)
      → Left target t
  unfolding finish mark_rebuilt target_unlock
  finish-Left target (some e, s) t h =
      absurd
        (let no : Outcome.failed e ≡ Outcome.rebuilt = ap (λ (o : Outcome E × Memory). o.0) h in cc)
  finish-Left target (none, s) t h = subst (Left target) (ap (λ (o : Outcome E × Memory). o.1) h) (
    rw (lookup-remove target target s.rebuilding, text_eq_refl) refl,
    lookup-insert target target after s.last_rebuild_at ∙ rw (text_eq_refl) refl,
  )

  rebuild_locked-Left :
      (target : Text) (wait : Option ℕ) (s t : Memory)
      → rebuild_locked cooldown rebuild before after target wait s ≡ (Outcome.rebuilt, t)
      → Left target t
  unfolding rebuild_locked
  rebuild_locked-Left target (some wait) s t h = absurd (
      let no : Outcome.deferred wait ≡ Outcome.rebuilt = ap (λ (o : Outcome E × Memory). o.0) h in
      cc)
  rebuild_locked-Left target none s t h = finish-Left target (rebuild target s) t h

  rebuild_from-Left :
      (target : Text) (deletion : Bool) (s t : Memory) (held : Option Memory)
      → rebuild_from cooldown rebuild before after target deletion s held ≡ (Outcome.rebuilt, t)
      → Left target t
  unfolding rebuild_from
  rebuild_from-Left target deletion s t none h = absurd (
      let no : Outcome.deferred (requeue_delay cooldown) ≡ Outcome.rebuilt =
        ap (λ (o : Outcome E × Memory). o.0) h in
      cc)
  rebuild_from-Left target deletion s t (some held) h =
      rebuild_locked-Left target
        (if deletion then none else rebuild_wait cooldown target before held) held t h

  -- A rebuild within the cooldown is put off.
  rebuild_from-deferred :
      (c : ℕ) (target : Text) (last : ℕ) (s : Memory)
      → cooldown ≡ ℤ.pos c
      → 0 < c
      → before < last + c
      → or_false (lookup target s.rebuilding) ≡ false
      → lookup target s.last_rebuild_at ≡ some last
      → (rebuild_target cooldown rebuild before after target false s).0
        ≡ Outcome.deferred (last + c - before)
  unfolding rebuild_target rebuild_from target_try_lock rebuild_locked rebuild_wait
      effective_rebuild_cooldown
  rebuild_from-deferred c target last s e p l free time =
      let some_cooldown : (c == 0) ≡ false = ground (arith, p) in
      let early : leb (last + c) before ≡ false = ground (arith, l) in
      rw e (rw (free, time, some_cooldown, early) (rw some_cooldown refl))

-- After a rebuild that succeeds, the target's next rebuild that is not for a deletion is put off
-- until the cooldown is over, by the time that is left; so it is when the rebuild has cleared the
-- target's state.
pub rebuild_target-Throttled {ℓ} :
    {E : Type ℓ} (c : ℕ) (rebuild again : Text → Memory → Option E × Memory)
    (before after now later : ℕ) (target : Text) (deletion : Bool) (s t : Memory)
    → 0 < c
    → now < after + c
    → rebuild_target (ℤ.pos c) rebuild before after target deletion s ≡ (Outcome.rebuilt, t)
    → (rebuild_target (ℤ.pos c) again now later target false t).0
      ≡ Outcome.deferred (after + c - now)
rebuild_target-Throttled c rebuild again before after now later target deletion s t p l h =
    let (free, time) =
      rebuild_from-Left (ℤ.pos c) rebuild before after target deletion s t
        (target_try_lock target s) (unfold rebuild_target in h) in
    rebuild_from-deferred (ℤ.pos c) again now later c target after t refl p l free time
