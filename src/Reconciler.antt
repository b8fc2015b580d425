-- ===== src/Reconciler.antt =====
-- The memory of the operator's controller of CustomHTTPRoutes: the cooldown and the lock of each
-- target and the hashes of the partitions, of internal/controller/customhttproute/controller.go and
-- sync.go. A time is a number of nanoseconds; a map that is nil is an empty one.
pub mod Maps
pub mod Flight
pub mod Cluster
pub mod Rebuild
pub mod Synced
pub mod Annotations
pub mod Cleanup
use customrouter.Base.{
  ℕ, ◌+◌, ◌-◌, ◌==◌, ltb, leb, if◌then◌else◌, Text, text_eq, Table, lookup, insert, select, any,
  not, ◌&&◌, ◌||◌, Bool, true, false, List, [], ◌∷◌, map, length, Option, none, some, is_some,
}
use customrouter.Base.Int.{ℤ, int_eq, int_lt}
use customrouter.ConfigMaps.{parse_partition_name}
use customrouter.ConfigMaps.Buckets.{fnv_write}

-- 2 * time.Second
abbrev pub default_rebuild_cooldown : ℤ
default_rebuild_cooldown = ℤ.pos 2000000000

pub record Memory : Type 0 where
  pub last_rebuild_at : Table ℕ
  pub rebuilding : Table Bool
  pub partition_hashes : Table ℕ

-- The `delete` of Go.
unfoldable pub remove {ℓ} : {V : Type ℓ} → Text → Table V → Table V
unfolding select
remove k m = select (λ e. not (text_eq e.0 k)) m

unfoldable pub effective_rebuild_cooldown : ℤ → ℤ
effective_rebuild_cooldown cooldown =
    if int_eq cooldown (ℤ.pos 0) then default_rebuild_cooldown else cooldown

-- What is left of a cooldown that is not over; `last + cooldown - now` is `cooldown - elapsed`.
abbrev pub remaining : ℕ → ℕ → Option ℕ → Option ℕ
remaining cooldown now none = none
remaining cooldown now (some last) =
    if leb (last + cooldown) now then none else some (last + cooldown - now)

abbrev pub wait_of : ℤ → ℕ → Option ℕ → Option ℕ
wait_of (ℤ.negsuc n) now last = none
wait_of (ℤ.pos cooldown) now last = if cooldown == 0 then none else remaining cooldown now last

-- `rebuildWait`, with `none` where the boolean is false.
unfoldable pub rebuild_wait : ℤ → Text → ℕ → Memory → Option ℕ
unfolding effective_rebuild_cooldown lookup
rebuild_wait cooldown target now s =
    wait_of (effective_rebuild_cooldown cooldown) now (lookup target s.last_rebuild_at)

unfoldable pub mark_rebuilt : Text → ℕ → Memory → Memory
unfolding insert
mark_rebuilt target time s = record s { last_rebuild_at = insert target time s.last_rebuild_at }

-- A key that is missing reads as false.
abbrev pub or_false : Option Bool → Bool
or_false none = false
or_false (some b) = b

-- `targetTryLock`, with `none` where it returns false.
unfoldable pub target_try_lock : Text → Memory → Option Memory
unfolding lookup insert
target_try_lock target s =
    if or_false (lookup target s.rebuilding)
    then none
    else some (record s { rebuilding = insert target true s.rebuilding })

unfoldable pub target_unlock : Text → Memory → Memory
unfolding remove
target_unlock target s = record s { rebuilding = remove target s.rebuilding }

abbrev pub delay_of : ℤ → ℕ
delay_of (ℤ.negsuc n) = 1000000000
delay_of (ℤ.pos d) = if d == 0 then 1000000000 else d

unfoldable pub requeue_delay : ℤ → ℕ
unfolding effective_rebuild_cooldown
requeue_delay cooldown = delay_of (effective_rebuild_cooldown cooldown)

-- Whether an entry of the hashes is a partition of the target.
abbrev pub is_owner : Text → Option (Text × ℕ) → Bool
is_owner target none = false
is_owner target (some (owner, index)) = text_eq owner target

unfoldable pub clear_target_state : Text → Memory → Memory
unfolding remove select parse_partition_name
clear_target_state target s = record s {
  last_rebuild_at = remove target s.last_rebuild_at;
  partition_hashes =
      select (λ (e : Text × ℕ). not (is_owner target (parse_partition_name e.0)))
        s.partition_hashes;
}

abbrev pub is_live : List Text → Option (Text × ℕ) → Bool
is_live live none = false
is_live live (some (owner, index)) = any (text_eq owner) live

-- The sweep of `gcStateOnce`, for the targets of the routes that were listed.
unfoldable pub gc_state_once : List Text → Memory → Memory
unfolding select any parse_partition_name
gc_state_once live s = record s {
  last_rebuild_at = select (λ (e : Text × ℕ). any (text_eq e.0) live) s.last_rebuild_at;
  partition_hashes =
      select (λ (e : Text × ℕ). is_live live (parse_partition_name e.0)) s.partition_hashes;
}

unfoldable pub fnv_hash : Text → ℕ
unfolding fnv_write
fnv_hash s = fnv_write s 2166136261

abbrev pub is_hash : ℕ → Option ℕ → Bool
is_hash hash none = false
is_hash hash (some cached) = cached == hash

unfoldable pub partition_hash_hit : Text → ℕ → Memory → Bool
unfolding lookup
partition_hash_hit name hash s = is_hash hash (lookup name s.partition_hashes)

unfoldable pub set_partition_hash : Text → ℕ → Memory → Memory
unfolding insert
set_partition_hash name hash s = record s { partition_hashes = insert name hash s.partition_hashes }

unfoldable pub clear_partition_hash : Text → Memory → Memory
unfolding remove
clear_partition_hash name s = record s { partition_hashes = remove name s.partition_hashes }

-- The result of a rebuild: an error, a time to wait before the next try, or done.
pub data Outcome {ℓ} (E : Type ℓ) : Type ℓ where
  failed : E → Outcome E
  deferred : ℕ → Outcome E
  rebuilt : Outcome E

-- `rebuildTarget`, with a rebuild that gives an error or none and the memory it leaves; `before`
-- and `after` are the times before and after the rebuild.
module _ {ℓ} {E : Type ℓ} (cooldown : ℤ) (rebuild : Text → Memory → Option E × Memory)
    (before after : ℕ) where
  unfoldable pub finish : Text → Option E × Memory → Outcome E × Memory
  unfolding mark_rebuilt target_unlock
  finish target (some e, s) = (Outcome.failed e, target_unlock target s)
  finish target (none, s) = (Outcome.rebuilt, target_unlock target (mark_rebuilt target after s))

  unfoldable pub rebuild_locked : Text → Option ℕ → Memory → Outcome E × Memory
  unfolding target_unlock finish
  rebuild_locked target (some wait) s = (Outcome.deferred wait, target_unlock target s)
  rebuild_locked target none s = finish target (rebuild target s)

  unfoldable pub rebuild_from : Text → Bool → Memory → Option Memory → Outcome E × Memory
  unfolding requeue_delay rebuild_locked rebuild_wait
  rebuild_from target deletion s none = (Outcome.deferred (requeue_delay cooldown), s)
  rebuild_from target deletion s (some held) =
      rebuild_locked target (if deletion then none else rebuild_wait cooldown target before held)
        held

  unfoldable pub rebuild_target : Text → Bool → Memory → Outcome E × Memory
  unfolding target_try_lock rebuild_from
  rebuild_target target deletion s = rebuild_from target deletion s (target_try_lock target s)
