-- ===== src/SteamSync/Tests.antt =====
-- Examples for crates/steam-sync: a few keys, rows and locks.
use magpie.Prelude.{
  ℕ, ◌+◌, ◌*◌, ◌≤◌, ◌≡◌, refl, ◌↔◌, Bool, true, false, Option, none, some, List, [], ◌∷◌, Text,
  codes, text_eq, arith, if◌then◌else◌, All,
}
use magpie.Prelude.Dict.{Dict, get}
use magpie.SteamSync.Keys
use magpie.SteamSync.Keys.{
  DepotKeys, hex_map, save_keys, load_keys, hex_to_bytes, load_keys-save_keys,
}
use magpie.SteamSync.Sources.{
  SourceMod, contains, mod_ids_for_source, set_source_mods, delete_source, desired_mod_ids,
}
use magpie.SteamSync.Sources.Wanted.{set_source_mods-wants, desired_mod_ids_iff, IsDistinct}
use magpie.SteamSync.Locks.{release, Locks, try_acquire}
use magpie.SteamSync.Locks.Waiting.{Acquires, acquire_lock-Acquires}
use magpie.SteamSync.Locks.Processes.{
  World, Step, acquire, drop_guard, run_release, this_one, here, next,
}
use magpie.SteamSync.Locks.Exclusion.{Holding, Reaches-Holding}

abbrev keys : DepotKeys
keys = (233781, 0 ∷ 171 ∷ 255 ∷ []) ∷ []

-- a codec that knows one map
abbrev json : Keys.Json
json = record { to_string = λ m. codes "{}"; from_str = λ s. some (hex_map keys) }

load_keys-save_keys_example : load_keys json (some (save_keys json keys)) ≡ keys
load_keys-save_keys_example =
    load_keys-save_keys json keys refl ((omega arith, (omega arith, (omega arith, tt))), tt)

hex_tests :
    (hex_to_bytes (codes "00abFF") ≡ some (0 ∷ 171 ∷ 255 ∷ [])) × (hex_to_bytes (codes "0") ≡ none)
unfolding hex_to_bytes codes Keys.hex_pair magpie.Prelude.hex_value
hex_tests = (refl, refl)

abbrev rows : List SourceMod
rows = (codes "a", 1) ∷ (codes "a", 2) ∷ (codes "b", 2) ∷ []

abbrev sources : Dict Text
sources = (codes "a", codes "[1,2]") ∷ (codes "b", codes "[2]") ∷ []

set_source_mods-wants_example :
    (contains 3 (mod_ids_for_source (codes "a") (set_source_mods (codes "a") (2 ∷ 3 ∷ []) rows)) ≡ (
      if text_eq (codes "a") (codes "a")
      then contains 3 (2 ∷ 3 ∷ [])
      else contains 3 (mod_ids_for_source (codes "a") rows)))
    × (contains 3 (mod_ids_for_source (codes "a") (delete_source (codes "a") (sources, rows)).1) ≡ (
        if text_eq (codes "a") (codes "a")
        then false
        else contains 3 (mod_ids_for_source (codes "a") rows)))
    × (get (codes "a") (delete_source (codes "a") (sources, rows)).0
        ≡ (if text_eq (codes "a") (codes "a") then none else get (codes "a") sources))
set_source_mods-wants_example =
    set_source_mods-wants (codes "a") (2 ∷ 3 ∷ []) sources rows (codes "a") 3

desired_mod_ids_iff_example :
    ((contains 2 (desired_mod_ids rows) ≡ true)
      ↔ ((s : Text) × (contains 2 (mod_ids_for_source s rows) ≡ true)))
    × IsDistinct (desired_mod_ids rows)
desired_mod_ids_iff_example = desired_mod_ids_iff rows 2

abbrev left : Locks
left = (codes "k", (codes "gone", 0)) ∷ []

acquire_lock-Acquires_example : Acquires (codes "k") (codes "me") 3603 0 (0 + 3602 * 500) left
unfolding get codes text_eq
acquire_lock-Acquires_example =
    acquire_lock-Acquires (codes "k") (codes "me") left (codes "gone") 0 0 3602 refl (omega arith)

abbrev empty : World
empty = record { locks = []; now = 5; guards = [] }

abbrev held : World
held = record {
  locks = (codes "k", (codes "p", 5)) ∷ [];
  now = 5;
  guards = record { key = codes "k"; holder = codes "p"; since = 5; is_dropped = false } ∷ [];
}

acquires : Step empty held
unfolding try_acquire get magpie.Prelude.Dict.insert
acquires = acquire (codes "k") (codes "p") refl

-- the guard is dropped, and its row waits for the release
abbrev let_go : World
let_go = record {
  locks = held.locks;
  now = 5;
  guards = record { key = codes "k"; holder = codes "p"; since = 5; is_dropped = true } ∷ [];
}

lets_go : Step held let_go
lets_go = drop_guard this_one refl

released : Step let_go (record { locks = release (codes "k") held.locks; now = 5; guards = [] })
released = run_release this_one refl

Reaches-Holding_example : Holding let_go
Reaches-Holding_example = Reaches-Holding {w = empty} (tt, tt) (next (next here acquires) lets_go)
