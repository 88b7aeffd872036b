-- ===== src/SteamSync/Locks/Exclusion.antt =====
-- One holder at a time: crates/steam-sync/src/cache.rs, the locks as several processes use them.
use magpie.Prelude.{
  ℕ, ◌+◌, ◌≤◌, ◌≡◌, refl, true, false, Option, some, List, [], ◌∷◌, Text, subst, Option-cases,
  Bool-cases, inl, inr, arith, ◌∙◌, text_eq, text_eq_self, text_eq_iff, All, ap, sym,
}
use magpie.Prelude.Dict.{get, insert, remove, get-insert, get-remove}
use magpie.SteamSync.Locks.Processes.{
  Guard, World, Takes, this_one, another, Step, tick, acquire, drop_guard, run_release, lose_guard,
  Reaches, here, next,
}
use magpie.SteamSync.Locks.{Locks, stale_lock_secs, is_stale, try_acquire, release}

-- No other guard has its key.
abbrev pub IsAlone : Text → List Guard → Type 0
IsAlone key [] = Unit
IsAlone key (g ∷ guards) = (text_eq g.key key ≡ false) × IsAlone key guards

-- Each lock has one guard at most.
abbrev pub IsExclusive : List Guard → Type 0
IsExclusive [] = Unit
IsExclusive (g ∷ guards) = IsAlone g.key guards × IsExclusive guards

-- A guard's row is there, and fresh.
abbrev pub IsHeld : Locks → ℕ → Guard → Type 0
IsHeld locks now g =
    (get g.key locks ≡ some (g.holder, g.since)) × (now ≤ g.since + stale_lock_secs)

abbrev pub Holding : World → Type 0
Holding w = IsExclusive w.guards × All (IsHeld w.locks w.now) w.guards

-- a key that can be acquired has no guard
free-IsAlone :
    (key : Text) (locks : Locks) (now : ℕ) (guards : List Guard)
    → ((h : Text) (a : ℕ) → get key locks ≡ some (h, a) → is_stale now a ≡ true)
    → All (IsHeld locks now) guards
    → IsAlone key guards
unfolding is_stale
free-IsAlone key locks now [] free held = tt
free-IsAlone key locks now (g ∷ guards) free ((row, fresh), held) = (
  elim (Bool-cases (text_eq g.key key)) [
    | inr differs ↦ differs
    | inl same ↦
        let is_key = (text_eq_iff g.key key).0 same in
        let stale = free g.holder g.since (ap (λ k. get k locks) (sym is_key) ∙ row) in
        absurd (ground arith)
  ],
  free-IsAlone key locks now guards free held,
)

-- what an acquired lock leaves of the others
All-IsHeld-acquired :
    (key : Text) (locks after : Locks) (now : ℕ) (guards : List Guard)
    → ((k : Text) → text_eq k key ≡ false → get k after ≡ get k locks)
    → IsAlone key guards
    → All (IsHeld locks now) guards
    → All (IsHeld after now) guards
All-IsHeld-acquired key locks after now [] keeps alone held = tt
All-IsHeld-acquired key locks after now (g ∷ guards) keeps (differs, alone) ((row, fresh), held) = (
  (keeps g.key differs ∙ row, fresh),
  All-IsHeld-acquired key locks after now guards keeps alone held,
)

text_eq_flip : (a b : Text) → text_eq a b ≡ false → text_eq b a ≡ false
text_eq_flip a b differs = ground (arith, text_eq_iff a b, text_eq_iff b a)

-- the row of a new guard, and what it leaves alone
get-acquired :
    (key : Text) (v : Text × ℕ) (locks : Locks) (k : Text)
    → (get key (insert key v locks) ≡ some v)
      × (text_eq k key ≡ false → get k (insert key v locks) ≡ get k locks)
      × (text_eq k key ≡ false → get k (insert key v (remove key locks)) ≡ get k locks)
get-acquired key v locks k = (
  get-insert key key v locks ∙ rw (text_eq_self key) refl,
  λ differs. get-insert key k v locks ∙ rw (text_eq_flip k key differs) refl,
  λ differs.
      get-insert key k v (remove key locks)
      ∙ (rw (text_eq_flip k key differs) refl
          ∙ (get-remove key k locks ∙ rw (text_eq_flip k key differs) refl)),
)

stale_again :
    (now a a' : ℕ) (h h' : Text)
    → is_stale now a ≡ true
    → ◌≡◌ {A = Option (Text × ℕ)} (some (h, a)) (some (h', a'))
    → is_stale now a' ≡ true
stale_again now a a' h h' stale same = cc

-- What `try_acquire` does when it gets the lock: it was free or stale, and only its row changes.
abbrev Acquired : Text → Text → ℕ → Locks → Locks → Type 0
Acquired key holder now locks after =
    ((h : Text) (a : ℕ) → get key locks ≡ some (h, a) → is_stale now a ≡ true)
    × (get key after ≡ some (holder, now))
    × ((k : Text) → text_eq k key ≡ false → get k after ≡ get k locks)

try_acquire-Acquired :
    (key holder : Text) (now : ℕ) (locks after : Locks)
    → try_acquire key holder now locks ≡ (true, after)
    → Acquired key holder now locks after
unfolding try_acquire
try_acquire-Acquired key holder now locks after got = elim (Option-cases (get key locks)) [
  | inl free ↦
      let computed : try_acquire key holder now locks ≡ (true, insert key (holder, now) locks) =
        rw (free, try_acquire) refl in
      let is_after : insert key (holder, now) locks ≡ after = ap (λ p. p.1) (sym computed ∙ got) in
      subst (Acquired key holder now locks) is_after (
        λ h a held. absurd (cc),
        (get-acquired key (holder, now) locks key).0,
        λ k differs. (get-acquired key (holder, now) locks k).1 differs,
      )
  | inr ((h, a), held) ↦ elim (Bool-cases (is_stale now a)) [
    | inl stale ↦
        let computed : try_acquire key holder now locks
            ≡ (true, insert key (holder, now) (remove key locks)) =
          rw (held, stale, try_acquire) refl in
        let is_after : insert key (holder, now) (remove key locks) ≡ after =
          ap (λ p. p.1) (sym computed ∙ got) in
        subst (Acquired key holder now locks) is_after (
          λ h' a' held'. stale_again now a a' h h' stale (sym held ∙ held'),
          (get-acquired key (holder, now) (remove key locks) key).0,
          λ k differs. (get-acquired key (holder, now) locks k).2 differs,
        )
    | inr fresh ↦
        let computed : try_acquire key holder now locks ≡ (false, locks) =
          rw (held, fresh, try_acquire) refl in
        let never : false ≡ true = ap (λ p. p.0) (sym computed ∙ got) in absurd (cc)
  ]
]

-- the guards that are left when one is taken
IsAlone-Takes :
    (key : Text) (g : Guard) (guards rest : List Guard)
    → Takes g guards rest
    → IsAlone key guards
    → (text_eq g.key key ≡ false) × IsAlone key rest
IsAlone-Takes key g _ _ this_one alone = alone
IsAlone-Takes key g _ _ (another {other} {guards} {rest} takes) (differs, alone) =
    let (apart, others) = IsAlone-Takes key g guards rest takes alone in (apart, (differs, others))

IsExclusive-Takes :
    (g : Guard) (guards rest : List Guard)
    → Takes g guards rest
    → IsExclusive guards
    → IsAlone g.key rest × IsExclusive rest
IsExclusive-Takes g _ _ this_one exclusive = exclusive
IsExclusive-Takes g _ _ (another {other} {guards} {rest} takes) (alone, exclusive) =
    let (apart, left) = IsAlone-Takes other.key g guards rest takes alone in
    let (alone_g, exclusive') = IsExclusive-Takes g guards rest takes exclusive in
    ((text_eq_flip g.key other.key apart, alone_g), (left, exclusive'))

All-Takes :
    (locks : Locks) (now : ℕ) (g : Guard) (guards rest : List Guard)
    → Takes g guards rest
    → All (IsHeld locks now) guards
    → IsHeld locks now g × All (IsHeld locks now) rest
All-Takes locks now g _ _ this_one held = held
All-Takes locks now g _ _ (another {other} {guards} {rest} takes) (its, held) =
    let (mine, others) = All-Takes locks now g guards rest takes held in (mine, (its, others))

-- what a release leaves of the others
All-IsHeld-removed :
    (key : Text) (locks : Locks) (now : ℕ) (guards : List Guard)
    → IsAlone key guards
    → All (IsHeld locks now) guards
    → All (IsHeld (remove key locks) now) guards
All-IsHeld-removed key locks now [] alone held = tt
All-IsHeld-removed key locks now (g ∷ guards) (differs, alone) ((row, fresh), held) =
    let stays = get-remove key g.key locks ∙ (rw (text_eq_flip g.key key differs) refl ∙ row) in
    ((stays, fresh), All-IsHeld-removed key locks now guards alone held)

fresh-later :
    (locks : Locks) (now later : ℕ) (guards : List Guard)
    → All (λ g. later ≤ g.since + stale_lock_secs) guards
    → All (IsHeld locks now) guards
    → All (IsHeld locks later) guards
fresh-later locks now later [] in_time held = tt
fresh-later locks now later (g ∷ guards) (early, in_time) ((row, fresh), held) =
    ((row, early), fresh-later locks now later guards in_time held)

Holding-step : {w u : World} → Holding w → Step w u → Holding u
unfolding release
Holding-step {w} (exclusive, held) (tick later after in_time) =
    (exclusive, fresh-later w.locks w.now later w.guards in_time held)
Holding-step {w} (exclusive, held) (acquire {after} key holder got) =
    let (free, row, keeps) = try_acquire-Acquired key holder w.now w.locks after got in
    let alone = free-IsAlone key w.locks w.now w.guards free held in
    (
      (alone, exclusive),
      ((row, omega arith), All-IsHeld-acquired key w.locks after w.now w.guards keeps alone held),
    )
Holding-step {w} (exclusive, held) (drop_guard {g} {rest} takes live) = (
  IsExclusive-Takes g w.guards rest takes exclusive,
  All-Takes w.locks w.now g w.guards rest takes held,
)
Holding-step {w} (exclusive, held) (run_release {g} {rest} takes dropped) =
    let (alone, left) = IsExclusive-Takes g w.guards rest takes exclusive in
    let (mine, others) = All-Takes w.locks w.now g w.guards rest takes held in
    (left, All-IsHeld-removed g.key w.locks w.now rest alone others)
Holding-step {w} (exclusive, held) (lose_guard {g} {rest} takes) = (
  (IsExclusive-Takes g w.guards rest takes exclusive).1,
  (All-Takes w.locks w.now g w.guards rest takes held).1,
)

-- As long as no process keeps a guard longer than a lock stays fresh, and the release that a dropped
-- guard leaves behind runs before that too, no lock ever has two guards, counting the dropped ones
-- that are yet to be released, and each of them has its row in the table: of every world that the
-- processes reach from one where that holds, such as the one without guards. Of a process that
-- outlives the half hour it says nothing.
pub Reaches-Holding : {w u : World} → Holding w → Reaches w u → Holding u
Reaches-Holding h here = h
Reaches-Holding h (next r s) = Holding-step (Reaches-Holding h r) s
