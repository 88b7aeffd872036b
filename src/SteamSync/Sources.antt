-- ===== src/SteamSync/Sources.antt =====
-- Which mods each source wants: crates/steam-sync/src/cache.rs, the tables `sources` and
-- `source_mods`. A mod id is stored by its 64 bits.
pub mod Wanted
use magpie.Prelude.{
  ℕ, Bool, true, false, not, ◌&&◌, ◌||◌, Option, none, some, List, [], ◌∷◌, ◌++◌, Text, text_eq,
  ◌==◌, if◌then◌else◌, any, keep, unwrap_or,
}
use magpie.Prelude.Dict.{Dict, get, insert, remove}

-- A row of `source_mods`: its primary key is the pair.
abbrev pub SourceMod : Type 0
SourceMod = Text × ℕ

-- `serde_json`, of a list of ids
pub record Json : Type 0 where
  pub to_string : List ℕ → Text
  pub from_str : Text → Option (List ℕ)

-- `HashSet::contains`
abbrev pub contains : ℕ → List ℕ → Bool
contains id ids = any (λ i. i == id) ids

-- `collect::<HashSet<_>>()`, in some order
unfoldable pub distinct : List ℕ → List ℕ
distinct [] = []
distinct (id ∷ ids) = let rest = distinct ids in if contains id rest then rest else id ∷ rest

-- `difference`
unfoldable pub difference : List ℕ → List ℕ → List ℕ
difference [] others = []
difference (id ∷ ids) others =
    let rest = difference ids others in if contains id others then rest else id ∷ rest

unfoldable pub upsert_source : Json → Text → List ℕ → Dict Text → Dict Text
upsert_source json source_id candidate_ids sources =
    insert source_id (json.to_string candidate_ids) sources

unfoldable pub candidate_ids_for_source : Json → Text → Dict Text → Option (List ℕ)
candidate_ids_for_source json source_id sources = elim (get source_id sources) [
  | none ↦ none
  | some text ↦ some (unwrap_or (json.from_str text) [])
]

unfoldable pub all_source_candidates : Json → Dict Text → List (Text × List ℕ)
all_source_candidates json [] = []
all_source_candidates json ((source_id, text) ∷ sources) =
    (source_id, unwrap_or (json.from_str text) []) ∷ all_source_candidates json sources

unfoldable pub mod_ids_for_source : Text → List SourceMod → List ℕ
mod_ids_for_source source_id [] = []
mod_ids_for_source source_id ((s, id) ∷ rows) =
    let rest = mod_ids_for_source source_id rows in if text_eq s source_id then id ∷ rest else rest

unfoldable pub sources_for_mod : ℕ → List SourceMod → List Text
sources_for_mod mod_id [] = []
sources_for_mod mod_id ((s, id) ∷ rows) =
    let rest = sources_for_mod mod_id rows in if id == mod_id then s ∷ rest else rest

unfoldable pub all_mod_ids : List SourceMod → List ℕ
all_mod_ids [] = []
all_mod_ids ((s, id) ∷ rows) = id ∷ all_mod_ids rows

-- `SELECT DISTINCT mod_id FROM source_mods`
unfoldable pub desired_mod_ids : List SourceMod → List ℕ
unfolding distinct all_mod_ids
desired_mod_ids rows = distinct (all_mod_ids rows)

unfoldable pub insert_all : Text → List ℕ → List SourceMod → List SourceMod
insert_all source_id [] rows = rows
insert_all source_id (id ∷ ids) rows = insert_all source_id ids (rows ++ (source_id, id) ∷ [])

unfoldable pub delete_row : Text → ℕ → List SourceMod → List SourceMod
delete_row source_id mod_id [] = []
delete_row source_id mod_id ((s, id) ∷ rows) =
    let rest = delete_row source_id mod_id rows in
    if text_eq s source_id && id == mod_id then rest else (s, id) ∷ rest

unfoldable pub delete_each : Text → List ℕ → List SourceMod → List SourceMod
unfolding delete_row
delete_each source_id [] rows = rows
delete_each source_id (id ∷ ids) rows = delete_each source_id ids (delete_row source_id id rows)

-- `set_source_mods`, a transaction that succeeds: what is new is inserted, what is not wanted any
-- more is deleted, and the rest is left alone.
unfoldable pub set_source_mods : Text → List ℕ → List SourceMod → List SourceMod
unfolding mod_ids_for_source distinct difference insert_all delete_each
set_source_mods source_id mod_ids rows =
    let existing = distinct (mod_ids_for_source source_id rows) in
    let wanted = distinct mod_ids in
    delete_each source_id (difference existing wanted)
      (insert_all source_id (difference wanted existing) rows)

unfoldable pub delete_source_mods : Text → List SourceMod → List SourceMod
delete_source_mods source_id [] = []
delete_source_mods source_id ((s, id) ∷ rows) =
    let rest = delete_source_mods source_id rows in
    if text_eq s source_id then rest else (s, id) ∷ rest

-- Both tables, after a source is deleted.
unfoldable pub delete_source : Text → Dict Text × List SourceMod → Dict Text × List SourceMod
unfolding delete_source_mods
delete_source source_id (sources, rows) =
    (remove source_id sources, delete_source_mods source_id rows)
