-- ===== src/SyncDaemon/Contents.antt =====
-- What a mod source's status says of its mods: services/sync-daemon/src/reconcile.rs, the status
-- that `apply` writes.
use mathlib.Core.List.Perm
use mathlib.Core.List.{Perm}
use magpie.Prelude.{
  ℕ, ◌+◌, ◌%◌, ◌^◌, ◌≤◌, ◌≡◌, refl, ◌∙◌, Option, none, some, List, [], ◌∷◌, Text, All, Bool-cases,
  Option-cases, inl, inr, leb, arith, ◌==◌, if◌then◌else◌,
}
use magpie.Crd.{synced, failed}
use magpie.SteamSync.Synced.{SyncedModRow, find_mod, sum}
use magpie.SyncDaemon.Calls.{ResolvedMod, ModSourceStatus}
use magpie.SyncDaemon.Service.{RegisterSourceOutcome, mod_ids_of}
use magpie.SyncDaemon.Reconcile.{sort_ids, insert_id, sizes_of, synced_status}

-- In ascending order.
abbrev pub IsAscending : List ℕ → Type 0
IsAscending [] = Unit
IsAscending (id ∷ ids) = All (λ i. id ≤ i) ids × IsAscending ids

-- The size of a mod: that of its first row, or nothing.
abbrev pub size_of : ℕ → List SyncedModRow → ℕ
size_of id [] = 0
size_of id (m ∷ rows) = let rest = size_of id rows in if m.mod_id == id then m.size_bytes else rest

abbrev pub total : List ℕ → List SyncedModRow → ℕ
total [] rows = 0
total (id ∷ ids) rows = size_of id rows + total ids rows

All-insert_id :
    (low id : ℕ) (ids : List ℕ)
    → low ≤ id
    → All (λ i. low ≤ i) ids
    → All (λ i. low ≤ i) (insert_id id ids)
unfolding insert_id
All-insert_id low id [] h all = (h, tt)
All-insert_id low id (i ∷ ids) h (below, all) = elim (Bool-cases (leb id i)) [
  | inl first ↦ rw (first, insert_id) (h, (below, all))
  | inr later ↦ rw (later, insert_id) (below, All-insert_id low id ids h all)
]

All-low :
    (low high : ℕ) (ids : List ℕ) → low ≤ high → All (λ i. high ≤ i) ids → All (λ i. low ≤ i) ids
All-low low high [] h all = tt
All-low low high (i ∷ ids) h (above, all) = (omega arith, All-low low high ids h all)

insert_id-IsAscending : (id : ℕ) (ids : List ℕ) → IsAscending ids → IsAscending (insert_id id ids)
unfolding insert_id
insert_id-IsAscending id [] up = (tt, tt)
insert_id-IsAscending id (i ∷ ids) (above, up) = elim (Bool-cases (leb id i)) [
  | inl first ↦
      let low : id ≤ i = ground arith in
      rw (first, insert_id) ((low, All-low id i ids low above), (above, up))
  | inr later ↦
      let low : i ≤ id = ground arith in
      rw (later, insert_id) (All-insert_id i id ids low above, insert_id-IsAscending id ids up)
]

sort_ids-IsAscending : (ids : List ℕ) → IsAscending (sort_ids ids)
unfolding sort_ids
sort_ids-IsAscending [] = tt
sort_ids-IsAscending (id ∷ ids) = insert_id-IsAscending id (sort_ids ids) (sort_ids-IsAscending ids)

insert_id-perm : (id : ℕ) (ids : List ℕ) → Perm (insert_id id ids) (id ∷ ids)
unfolding insert_id
insert_id-perm id [] = Perm.refl (id ∷ [])
insert_id-perm id (i ∷ ids) = elim (Bool-cases (leb id i)) [
  | inl first ↦ rw (first, insert_id) (Perm.refl (id ∷ i ∷ ids))
  | inr later ↦
      rw (later, insert_id) (Perm.trans (Perm.cons i (insert_id-perm id ids)) (Perm.swap id i ids))
]

sort_ids-perm : (ids : List ℕ) → Perm (sort_ids ids) ids
unfolding sort_ids
sort_ids-perm [] = Perm.refl []
sort_ids-perm (id ∷ ids) =
    Perm.trans (insert_id-perm id (sort_ids ids)) (Perm.cons id (sort_ids-perm ids))

size_of-find_mod :
    (id : ℕ) (rows : List SyncedModRow)
    → size_of id rows ≡ elim (find_mod id rows) [ none ↦ 0 | some m ↦ m.size_bytes ]
unfolding find_mod
size_of-find_mod id [] = refl
size_of-find_mod id (m ∷ rows) = elim (Bool-cases (m.mod_id == id)) [
  | inl same ↦ rw (same, find_mod) refl
  | inr differs ↦ rw (differs, find_mod) (size_of-find_mod id rows)
]

sum-sizes_of :
    (ids : List ℕ) (rows : List SyncedModRow) → sum (sizes_of ids rows) ≡ total ids rows % 2 ^ 64
unfolding sizes_of sum
sum-sizes_of [] rows = refl
sum-sizes_of (id ∷ ids) rows =
    let rest = sum-sizes_of ids rows in
    let size = size_of-find_mod id rows in
    elim (Option-cases (find_mod id rows)) [
      | inl absent ↦
          let nothing : size_of id rows ≡ 0 = size ∙ rw absent refl in
          rw (absent, sizes_of, nothing, rest) (omega arith)
      | inr (m, held) ↦
          let its : size_of id rows ≡ m.size_bytes = size ∙ rw held refl in
          rw (held, sizes_of, its, sum, rest) (omega arith)
    ]

-- The status of a source whose mods are these: their ids in order, and their sizes in all, in 64
-- bits.
abbrev pub IsContent : List ResolvedMod → List SyncedModRow → ModSourceStatus → Type 0
IsContent mods rows status =
    (status.phase ≡ synced)
    × IsAscending status.resolved_mod_ids
    × Perm status.resolved_mod_ids (mod_ids_of mods)
    × (status.size_bytes ≡ total status.resolved_mod_ids rows % 2 ^ 64)
    × (status.message ≡ [])

-- The status of a failure: an error, and no mods.
abbrev pub IsFailure : ModSourceStatus → Type 0
IsFailure status =
    (status.phase ≡ failed) × (status.resolved_mod_ids ≡ []) × (status.size_bytes ≡ 0)

pub synced_status-IsContent :
    (hint : Option Text) (outcome : RegisterSourceOutcome) (rows : List SyncedModRow)
    → IsContent outcome.mods rows (synced_status hint outcome rows)
unfolding synced_status
synced_status-IsContent hint outcome rows =
    let ids = mod_ids_of outcome.mods in
    (refl, sort_ids-IsAscending ids, sort_ids-perm ids, sum-sizes_of (sort_ids ids) rows, refl)
