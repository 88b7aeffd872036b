-- ===== src/SteamSync/Synced.antt =====
-- What is synced: crates/steam-sync/src/cache.rs, the tables `synced` and `mod_titles`. An id, a
-- manifest and a size are stored by their 64 bits.
use magpie.Prelude.{
  ℕ, ◌+◌, ◌-◌, ◌%◌, ◌^◌, Bool, true, false, not, Option, none, some, List, [], ◌∷◌, ◌++◌, Text,
  codes, text_eq, split_once, decimal, parse_unsigned, strip_prefix, unwrap_or, is_empty, ◌==◌,
  if◌then◌else◌, keep, map,
}
use magpie.Prelude.Dict.{Dict, get, insert, remove}

pub record Item : Type 0 where
  pub manifest_id : ℕ
  pub size_bytes : ℕ

pub record SyncedModRow : Type 0 where
  pub mod_id : ℕ
  pub manifest_id : ℕ
  pub size_bytes : ℕ
  pub title : Text

abbrev pub workshop_consumer_app_id : Text
workshop_consumer_app_id = codes "107410"

-- The key of a directory: its depot, and its name if it has one that is UTF-8.
unfoldable pub sync_key : ℕ → Option Text → Text
sync_key depot_id file_name = decimal depot_id ++ b'/' ∷ unwrap_or file_name (codes "?")

unfoldable pub last_manifest_id : Text → Dict Item → Option ℕ
last_manifest_id key synced = elim (get key synced) [ none ↦ none | some i ↦ some i.manifest_id ]

abbrev is_this : ℕ → Option ℕ → Bool
is_this m none = false
is_this m (some n) = n == m

unfoldable pub is_synced : Text → ℕ → Bool → Dict Item → Bool
unfolding last_manifest_id
is_synced key manifest_id dir_exists synced =
    if not dir_exists then false else is_this manifest_id (last_manifest_id key synced)

unfoldable pub snapshot : Dict Item → List (Text × ℕ)
snapshot [] = []
snapshot ((key, i) ∷ synced) = (key, i.manifest_id) ∷ snapshot synced

unfoldable pub invalidate : Text → Dict Item → Dict Item
invalidate key synced = remove key synced

unfoldable pub mark_synced : Text → ℕ → ℕ → Dict Item → Dict Item
mark_synced key manifest_id size_bytes synced =
    insert key (record { manifest_id = manifest_id; size_bytes = size_bytes }) synced

-- An empty title is not recorded.
unfoldable pub record_mod_title : ℕ → Text → (ℕ → Option Text) → ℕ → Option Text
record_mod_title mod_id title titles id =
    if is_empty title then titles id else if id == mod_id then some title else titles id

-- The mod that a key of the Workshop's depot names.
unfoldable pub mod_of_key : Text → Option ℕ
mod_of_key key = elim (split_once b'/' key) [
  | none ↦ none
  | some (depot, leaf) ↦
      if not (text_eq depot workshop_consumer_app_id)
      then none
      else parse_unsigned (2 ^ 64 - 1) leaf
]

unfoldable pub list_synced_mods : (ℕ → Option Text) → Dict Item → List SyncedModRow
unfolding mod_of_key
list_synced_mods titles [] = []
list_synced_mods titles ((key, i) ∷ synced) =
    let rest = list_synced_mods titles synced in
    elim (mod_of_key key) [
      | none ↦ rest
      | some mod_id ↦
          record {
            mod_id = mod_id;
            manifest_id = i.manifest_id;
            size_bytes = i.size_bytes;
            title = unwrap_or (titles mod_id) [];
          }
          ∷ rest
    ]

unfoldable pub find_mod : ℕ → List SyncedModRow → Option SyncedModRow
find_mod mod_id [] = none
find_mod mod_id (m ∷ l) =
    let rest = find_mod mod_id l in if m.mod_id == mod_id then some m else rest

unfoldable pub get_synced_mod : ℕ → (ℕ → Option Text) → Dict Item → Option SyncedModRow
unfolding find_mod list_synced_mods
get_synced_mod mod_id titles synced = find_mod mod_id (list_synced_mods titles synced)

-- `sum` of u64s, as a release build wraps it
unfoldable pub sum : List ℕ → ℕ
sum [] = 0
sum (n ∷ l) = (n + sum l) % 2 ^ 64

abbrev size_of : SyncedModRow → ℕ
size_of m = m.size_bytes

unfoldable pub total_mods_size : (ℕ → Option Text) → Dict Item → ℕ
unfolding sum
total_mods_size titles synced = sum (map size_of (list_synced_mods titles synced))

abbrev is_game : Text × Item → Bool
is_game (key, i) = elim (strip_prefix (workshop_consumer_app_id ++ codes "/") key) [
  | none ↦ true
  | some rest ↦ false
]

unfoldable pub total_game_files_size : Dict Item → ℕ
unfolding sum
total_game_files_size synced = sum (map (λ (key, i). i.size_bytes) (keep is_game synced))
