-- ===== src/SteamSync/Locks/Processes.antt =====
-- The locks as several processes use them: crates/steam-sync/src/cache.rs, `LockGuard`.
use magpie.Prelude.{ℕ, ◌+◌, ◌≤◌, ◌≡◌, Bool, true, false, List, ◌∷◌, Text, All}
use magpie.SteamSync.Locks.{Locks, stale_lock_secs, try_acquire, release}

-- A `LockGuard` that some process has, or one that was dropped and whose release, a task of its own,
-- is yet to run; and the second in which it was got.
pub record Guard : Type 0 where
  pub key : Text
  pub holder : Text
  pub since : ℕ
  pub is_dropped : Bool

pub record World : Type 0 where
  pub locks : Locks
  pub now : ℕ
  pub guards : List Guard

-- One guard, and the others.
pub data Takes (g : Guard) : List Guard → List Guard → Type 0 where
  this_one : {guards : List Guard} → Takes g (g ∷ guards) guards
  another :
      {other : Guard} {guards rest : List Guard}
      → Takes g guards rest
      → Takes g (other ∷ guards) (other ∷ rest)

-- The processes take turns: time passes, but no guard is kept, and no release of a dropped one is
-- delayed, longer than a lock stays fresh; a process gets a lock; it drops a guard, which leaves the
-- row to the task that it spawns; such a task deletes the row of its key, whoever's it is by then; or
-- a guard is lost, by a crash or a drop outside a runtime, and its row stays.
pub data Step : World → World → Type 0 where
  tick :
      {w : World} (later : ℕ)
      → w.now ≤ later
      → All (λ g. later ≤ g.since + stale_lock_secs) w.guards
      → Step w (record w { now = later })
  acquire :
      {w : World} {after : Locks} (key holder : Text)
      → try_acquire key holder w.now w.locks ≡ (true, after)
      → Step w (record {
        locks = after;
        now = w.now;
        guards =
            record { key = key; holder = holder; since = w.now; is_dropped = false } ∷ w.guards;
      })
  drop_guard :
      {w : World} {g : Guard} {rest : List Guard}
      → Takes g w.guards rest
      → g.is_dropped ≡ false
      → Step w (record w { guards = record g { is_dropped = true } ∷ rest })
  run_release :
      {w : World} {g : Guard} {rest : List Guard}
      → Takes g w.guards rest
      → g.is_dropped ≡ true
      → Step w (record { locks = release g.key w.locks; now = w.now; guards = rest })
  lose_guard :
      {w : World} {g : Guard} {rest : List Guard}
      → Takes g w.guards rest
      → Step w (record w { guards = rest })

pub data Reaches (w : World) : World → Type 0 where
  here : Reaches w w
  next : {v u : World} → Reaches w v → Step v u → Reaches w u
