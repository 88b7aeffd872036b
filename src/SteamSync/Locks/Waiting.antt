-- ===== src/SteamSync/Locks/Waiting.antt =====
-- A lock whose holder is gone is had in the end: crates/steam-sync/src/cache.rs, `acquire_lock`.
use magpie.Prelude.{
  ℕ, zero, suc, ◌+◌, ◌*◌, ◌/◌, ◌≤◌, ◌≡◌, refl, true, false, some, Text, Bool-cases, inl, inr, arith,
  ◌∙◌, text_eq_self,
}
use magpie.Prelude.Dict.{get, insert, remove, get-insert}
use magpie.SteamSync.Locks.{
  Locks, stale_lock_secs, lock_poll_interval, is_stale, try_acquire, acquire_lock,
}

module _ (key holder : Text) where
  abbrev pub Acquires : ℕ → ℕ → ℕ → Locks → Type 0
  Acquires attempts ms deadline locks =
      (t : ℕ) × (after : Locks) × (acquire_lock attempts key holder ms locks ≡ some (t, after))
      × (t ≤ deadline)
      × (get key after ≡ some (holder, t / 1000))

  try_stale :
      (now acquired_at : ℕ) (old : Text) (locks : Locks)
      → get key locks ≡ some (old, acquired_at)
      → is_stale now acquired_at ≡ true
      → try_acquire key holder now locks ≡ (true, insert key (holder, now) (remove key locks))
  unfolding try_acquire
  try_stale now acquired_at old locks left stale = rw (left, stale, try_acquire) refl

  try_fresh :
      (now acquired_at : ℕ) (old : Text) (locks : Locks)
      → get key locks ≡ some (old, acquired_at)
      → is_stale now acquired_at ≡ false
      → try_acquire key holder now locks ≡ (false, locks)
  unfolding try_acquire
  try_fresh now acquired_at old locks left fresh = rw (left, fresh, try_acquire) refl

  acquire_now :
      (attempts ms : ℕ) (locks after : Locks)
      → try_acquire key holder (ms / 1000) locks ≡ (true, after)
      → acquire_lock (suc attempts) key holder ms locks ≡ some (ms, after)
  unfolding acquire_lock
  acquire_now attempts ms locks after got = rw (got, acquire_lock) refl

  acquire_later :
      (attempts ms : ℕ) (locks : Locks)
      → try_acquire key holder (ms / 1000) locks ≡ (false, locks)
      → acquire_lock (suc attempts) key holder ms locks
        ≡ acquire_lock attempts key holder (ms + lock_poll_interval) locks
  unfolding acquire_lock
  acquire_later attempts ms locks busy = rw (busy, acquire_lock) refl

  is_due :
      (ms acquired_at : ℕ)
      → (acquired_at + stale_lock_secs + 1) * 1000 ≤ ms
      → is_stale (ms / 1000) acquired_at ≡ true
  unfolding is_stale
  is_due ms acquired_at due = ground arith

  acquire_stale :
      (attempts ms acquired_at : ℕ) (old : Text) (locks : Locks) (deadline : ℕ)
      → get key locks ≡ some (old, acquired_at)
      → is_stale (ms / 1000) acquired_at ≡ true
      → ms ≤ deadline
      → Acquires (suc attempts) ms deadline locks
  acquire_stale attempts ms acquired_at old locks deadline left stale due = (
    ms,
    insert key (holder, ms / 1000) (remove key locks),
    acquire_now attempts ms locks _ (try_stale (ms / 1000) acquired_at old locks left stale),
    due,
    get-insert key key _ (remove key locks) ∙ rw (text_eq_self key) refl,
  )

  -- If the lock was left by another holder, and no other process is at it, `acquire_lock` returns
  -- with the lock held, within a poll of the second in which the row turns stale: as many attempts
  -- as there are polls till then, and one more, are enough.
  pub acquire_lock-Acquires :
      (locks : Locks) (old : Text) (acquired_at : ℕ) (ms n : ℕ)
      → get key locks ≡ some (old, acquired_at)
      → (acquired_at + stale_lock_secs + 1) * 1000 ≤ ms + n * lock_poll_interval
      → Acquires (suc n) ms (ms + n * lock_poll_interval) locks
  acquire_lock-Acquires locks old acquired_at ms zero left due =
      acquire_stale zero ms acquired_at old locks (ms + 0 * lock_poll_interval) left
        (is_due ms acquired_at (omega arith)) (omega arith)
  acquire_lock-Acquires locks old acquired_at ms (suc n) left due =
      elim (Bool-cases (is_stale (ms / 1000) acquired_at)) [
        | inl stale ↦
            acquire_stale (suc n) ms acquired_at old locks (ms + suc n * lock_poll_interval) left
              stale (omega arith)
        | inr fresh ↦
            let (t, after, got, in_time, held) =
              acquire_lock-Acquires locks old acquired_at (ms + lock_poll_interval) n left
                (omega arith) in
            let waited =
              acquire_later (suc n) ms locks
                (try_fresh (ms / 1000) acquired_at old locks left fresh) in
            (t, after, waited ∙ got, omega arith, held)
      ]
