-- ===== src/SteamSync/Locks.antt =====
-- The locks between the processes that share the volume: crates/steam-sync/src/cache.rs,
-- `try_acquire`, `release` and `acquire_lock`. A row is the holder and the second it was acquired.
pub mod Processes
pub mod Exclusion
pub mod Waiting
use magpie.Prelude.{
  ℕ, zero, suc, ◌+◌, ◌*◌, ◌/◌, Bool, true, false, Option, none, some, Text, ltb, if◌then◌else◌,
}
use magpie.Prelude.Dict.{Dict, get, insert, remove}

abbrev pub Locks : Type 0
Locks = Dict (Text × ℕ)

abbrev pub stale_lock_secs : ℕ
stale_lock_secs = 30 * 60

-- in milliseconds
abbrev pub lock_poll_interval : ℕ
lock_poll_interval = 500

unfoldable pub is_stale : ℕ → ℕ → Bool
is_stale now acquired_at = ltb (acquired_at + stale_lock_secs) now

-- The insert fails if the key is there; then a stale row is replaced, in one transaction.
unfoldable pub try_acquire : Text → Text → ℕ → Locks → Bool × Locks
unfolding is_stale
try_acquire key holder now locks = elim (get key locks) [
  | none ↦ (true, insert key (holder, now) locks)
  | some (h, acquired_at) ↦
      if is_stale now acquired_at
      then (true, insert key (holder, now) (remove key locks))
      else (false, locks)
]

-- By the key alone, whoever holds it.
unfoldable pub release : Text → Locks → Locks
release key locks = remove key locks

-- `acquire_lock` while no other process touches the table, at a time in milliseconds, with as many
-- attempts as the fuel says: when it got the lock, and the table then.
unfoldable pub acquire_lock : ℕ → Text → Text → ℕ → Locks → Option (ℕ × Locks)
unfolding try_acquire
acquire_lock zero key holder ms locks = none
acquire_lock (suc attempts) key holder ms locks =
    let (acquired, after) = try_acquire key holder (ms / 1000) locks in
    let later = acquire_lock attempts key holder (ms + lock_poll_interval) after in
    if acquired then some (ms, after) else later
