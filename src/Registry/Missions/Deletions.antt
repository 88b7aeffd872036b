-- ===== src/Registry/Missions/Deletions.antt =====
-- What the deletion of a mission touches: services/registry/src/service/mission.rs and storage.rs.
use mathlib.Core.List.{Memᴰ}
use magpie.Prelude.{◌≡◌, refl, true, false, Option, some, List, [], ◌∷◌, Text}
use magpie.Prelude.Prog.{
  Result, ok, err, Event, Holds, at_ok, at_err, at_call, Logged, ◌>>=◌, IfOk, mapped, map_err,
}
use magpie.Gateway.Metadata.{internal}
use magpie.Registry.Calls.{Uuid, IoError, absent, failure, Call, Reply, remove_dir_all, delete_row}
use magpie.Registry.Missions.{mission_dir, deleted, delete_mission_file, delete_mission}
use magpie.Registry.Missions.Uploads.{parse_id-Holds}

-- The directory was removed, or was not there.
abbrev pub IsGone : Result IoError Unit → Type 0
IsGone (ok _) = Unit
IsGone (err (absent e)) = Unit
IsGone (err (failure e)) = ⊥

module _ (uuid_text : Uuid → Text) (root : Text) (parse_uuid : Text → Option Uuid) where
  abbrev pub OfDelete : Text → List (Event Reply) → Call → Type 0
  OfDelete text past (delete_row id) = parse_uuid text ≡ some id
  OfDelete text past (remove_dir_all dir) =
      (id : Uuid) × Logged (delete_row id) (ok true) past
      × (parse_uuid text ≡ some id)
      × (dir ≡ mission_dir uuid_text root id)
  OfDelete text past _ = ⊥

  abbrev pub IsDeleted : Text → List (Event Reply) → Type 0
  IsDeleted text past =
      (id : Uuid) × (parse_uuid text ≡ some id)
      × Logged (delete_row id) (ok true) past
      × ((removed : Result IoError Unit) × IsGone removed
          × Logged (remove_dir_all (mission_dir uuid_text root id)) removed past)

  removal-Holds :
      (text : Text) (id : Uuid)
      → parse_uuid text ≡ some id
      → (removed : Result IoError Unit)
      → Holds
          (OfDelete text)
          (λ past res. IfOk (λ _. IsDeleted text past) res)
          ((remove_dir_all (mission_dir uuid_text root id), removed)
            ∷ (delete_row id, ok true)
            ∷ [])
          (map_err internal (deleted removed))
  unfolding deleted map_err
  removal-Holds text id is_id (ok _) =
      at_ok (id, is_id, Memᴰ.tail (Memᴰ.head refl), (ok tt, tt, Memᴰ.head refl))
  removal-Holds text id is_id (err (absent e)) =
      at_ok (id, is_id, Memᴰ.tail (Memᴰ.head refl), (err (absent e), tt, Memᴰ.head refl))
  removal-Holds text id is_id (err (failure cause)) = at_err tt

  -- Whatever the file system and Postgres reply: a deletion removes the row of
  -- the mission that is asked for and its directory, and nothing else; the
  -- directory only after there was such a row; and it succeeds only if there
  -- was one, and the directory was removed or was not there.
  pub delete_mission-OfDelete :
      (text : Text)
      → Holds
          (OfDelete text)
          (λ past res. IfOk (λ _. IsDeleted text past) res)
          []
          (delete_mission uuid_text root parse_uuid text)
  unfolding delete_mission delete_mission_file ◌>>=◌ mapped map_err
  delete_mission-OfDelete text =
      parse_id-Holds uuid_text root parse_uuid text
        (λ id is_id. at_call {c = delete_row id} is_id (elim [
          | err e ↦ at_err tt
          | ok false ↦ at_err tt
          | ok true ↦
              at_call {c = remove_dir_all (mission_dir uuid_text root id)}
                (id, Memᴰ.head refl, is_id, refl) (removal-Holds text id is_id)
        ]))
        (λ e. tt)
