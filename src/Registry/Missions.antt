-- ===== src/Registry/Missions.antt =====
-- services/registry/src/service/mission.rs, with the missions of services/registry/src/storage.rs:
-- the library's reading and printing of UUIDs is a parameter.
pub mod Deletions
pub mod Metadata
pub mod Uploads
use magpie.Prelude.{
  ℕ, ◌+◌, ◌-◌, Bool, true, false, ◌||◌, Option, none, some, List, [], ◌∷◌, ◌++◌, Text, codes,
  length, is_empty, is_ascii_alphanumeric, ◌==◌, map, if◌then◌else◌, ◌^◌,
}
use magpie.Prelude.Int.{ℤ, pos, negsuc}
use magpie.Prelude.Dict.{Dict, extend}
use magpie.Prelude.Prog.{
  Result, ok, err, Prog, pure, fail, ◌>>=◌, ◌>>◌, lift, request, map_err, mapped,
}
use magpie.Gateway.Metadata.{ConnectError, invalid_argument, not_found, internal}
use magpie.Launcher.Missions.{join_path}
use magpie.Registry.Calls.{
  Uuid, Value, string, other, MissionRow, IoError, absent, failure, Call, Reply, Fallible, now_v7,
  remove_dir_all, create_dir_all, write, upsert_mission, update_metadata, select_mission,
  select_missions, delete_row,
}

pub record UploadMissionRequest : Type 0 where
  pub id : Option Text
  pub name : Text
  pub pbo_content : List ℕ
  pub metadata : List (Text × Text)

pub record MissionInfo : Type 0 where
  pub id : Text
  pub name : Text
  pub filesize : ℕ
  pub created_at_unix_ms : ℤ
  pub created_by : Text
  pub metadata : List (Text × Text)

-- `as u64`
unfoldable pub as_u64 : ℤ → ℕ
as_u64 (pos n) = n
as_u64 (negsuc n) = 2 ^ 64 - (n + 1)

abbrev shown_value : Value → Text
shown_value (string s) = s
shown_value (other json) = json

unfoldable pub metadata_map : Option (Dict Value) → Dict Text
metadata_map none = []
metadata_map (some entries) = map (λ (k, v). (k, shown_value v)) entries

abbrev with_key : List (Text × Text) → List (Text × Value)
with_key [] = []
with_key ((k, v) ∷ entries) =
    let rest = with_key entries in if is_empty k then rest else (k, string v) ∷ rest

unfoldable pub metadata_json : List (Text × Text) → Dict Value
metadata_json entries = extend [] (with_key entries)

unfoldable pub sanitize_char : ℕ → ℕ
sanitize_char c = if is_ascii_alphanumeric c || c == b'.' || c == b'_' || c == b'-' then c else b'_'

unfoldable pub sanitize_mission_name : Text → Text
unfolding sanitize_char
sanitize_mission_name name = map sanitize_char name

unfoldable pub missions_dir : Text → Text
missions_dir root = join_path root (codes "missions")

unfoldable pub authenticated : Option Text → Result ConnectError Text
authenticated none = err (internal (codes "missing authenticated identity"))
authenticated (some subject) = ok subject

abbrev ok_or : {A : Type 0} → ConnectError → Option A → Result ConnectError A
ok_or e none = err e
ok_or e (some a) = ok a

-- `anyhow!`'s error, shown_value with its causes
unfoldable pub deleted : Result IoError Unit → Fallible Text Unit
deleted (ok _) = pure tt
deleted (err (absent e)) = pure tt
deleted (err (failure e)) = fail (codes "failed to delete mission directory: " ++ e)

unfoldable pub parse_id : (Text → Option Uuid) → Text → Result ConnectError Uuid
parse_id parse_uuid id = ok_or (invalid_argument (codes "id is not a valid UUID")) (parse_uuid id)

unfoldable pub upload_id : (Text → Option Uuid) → Option Text → Fallible ConnectError Uuid
unfolding parse_id
upload_id parse_uuid none = request now_v7
upload_id parse_uuid (some existing) = lift (parse_id parse_uuid existing)

module _ (uuid_text : Uuid → Text) where
  unfoldable pub to_info : MissionRow → MissionInfo
  unfolding as_u64 metadata_map
  to_info row = record {
    id = uuid_text row.id;
    name = row.name;
    filesize = as_u64 row.filesize;
    created_at_unix_ms = row.created_at;
    created_by = row.created_by;
    metadata = metadata_map row.metadata;
  }

  -- behind the write of the file
  unfoldable pub store : Uuid → Text → UploadMissionRequest → Fallible ConnectError MissionInfo
  unfolding ◌>>=◌ to_info metadata_json
  store id subject r = do
    upserted ←
        request (upsert_mission id r.name (length r.pbo_content) subject (metadata_json r.metadata))
    lift (mapped (λ e. internal (codes "failed to persist mission: " ++ e)) upserted)
    found ← request (select_mission id)
    row ← lift (mapped internal found)
    mission ← lift (ok_or (internal (codes "mission vanished immediately after being written")) row)
    pure (to_info mission)

  module _ (root : Text) where
    unfoldable pub mission_dir : Uuid → Text
    unfolding missions_dir
    mission_dir id = join_path (missions_dir root) (uuid_text id)

    unfoldable pub delete_mission_file : Uuid → Fallible Text Unit
    unfolding ◌>>=◌ mission_dir
    delete_mission_file id = request (remove_dir_all (mission_dir id)) >>= deleted

    unfoldable pub write_mission : Uuid → Text → List ℕ → Fallible Text Text
    unfolding ◌>>=◌ delete_mission_file mission_dir sanitize_mission_name
    write_mission id name pbo_bytes =
        let path = join_path (mission_dir id) (sanitize_mission_name name) in
        do
          delete_mission_file id
          created ← request (create_dir_all (mission_dir id))
          lift (mapped (λ e. codes "failed to create mission directory: " ++ e) created)
          written ← request (write path pbo_bytes)
          lift (mapped (λ e. codes "failed to write mission file: " ++ e) written)
          pure path

    -- with the id
    unfoldable pub upload_as :
        Uuid → Text → UploadMissionRequest → Fallible ConnectError MissionInfo
    unfolding ◌>>=◌ write_mission store
    upload_as id subject r = do
      lift (if is_empty r.name then err (invalid_argument (codes "name is required")) else ok tt)
      map_err internal (write_mission id r.name r.pbo_content)
      store id subject r

    module _ (parse_uuid : Text → Option Uuid) where
      -- the request, with the subject that is authenticated
      unfoldable pub upload_mission :
          Option Text → UploadMissionRequest → Fallible ConnectError MissionInfo
      unfolding ◌>>=◌ authenticated upload_id upload_as
      upload_mission identity r = do
        subject ← lift (authenticated identity)
        id ← upload_id parse_uuid r.id
        upload_as id subject r

      unfoldable pub set_mission_metadata :
          Text → List (Text × Text) → Fallible ConnectError MissionInfo
      unfolding ◌>>=◌ parse_id to_info metadata_json
      set_mission_metadata text metadata = do
        id ← lift (parse_id parse_uuid text)
        replied ← request (update_metadata id (metadata_json metadata))
        updated ← lift (mapped (λ e. internal (codes "failed to update metadata: " ++ e)) replied)
        lift
            (if updated then ok tt else err (not_found (codes "no such mission: " ++ uuid_text id)))
        found ← request (select_mission id)
        row ← lift (mapped (λ e. internal (codes "failed to re-read mission: " ++ e)) found)
        mission ← lift (ok_or (not_found (codes "no such mission: " ++ uuid_text id)) row)
        pure (to_info mission)

      unfoldable pub get_mission : Text → Fallible ConnectError MissionInfo
      unfolding ◌>>=◌ parse_id to_info
      get_mission text = do
        id ← lift (parse_id parse_uuid text)
        found ← request (select_mission id)
        row ← lift (mapped internal found)
        mission ← lift (ok_or (not_found (codes "no such mission: " ++ text)) row)
        pure (to_info mission)

      unfoldable pub list_missions : Fallible ConnectError (List MissionInfo)
      unfolding ◌>>=◌ to_info
      list_missions = do
        found ← request select_missions
        rows ← lift (mapped internal found)
        pure (map to_info rows)

      unfoldable pub delete_mission : Text → Fallible ConnectError Unit
      unfolding ◌>>=◌ parse_id delete_mission_file
      delete_mission text = do
        id ← lift (parse_id parse_uuid text)
        replied ← request (delete_row id)
        is_deleted ← lift (mapped internal replied)
        lift (if is_deleted then ok tt else err (not_found (codes "no such mission: " ++ text)))
        map_err internal (delete_mission_file id)
