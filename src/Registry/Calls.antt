-- ===== src/Registry/Calls.antt =====
-- What services/registry asks of the file system and of Postgres for its missions; the rows are
-- those of crates/registry-db/src/lib.rs.
use magpie.Prelude.{ℕ, Bool, Option, List, Text}
use magpie.Prelude.Int.{ℤ}
use magpie.Prelude.Dict.{Dict}
use magpie.Prelude.Prog.{Result, Prog}

-- A UUID, as its number.
abbrev pub Uuid : Type 0
Uuid = ℕ

-- A value of the metadata: a string, or another one, as its JSON form.
pub data Value : Type 0 where
  string other : Text → Value

-- `metadata` is the object, if it is one; `created_at` in milliseconds.
pub record MissionRow : Type 0 where
  pub id : Uuid
  pub name : Text
  pub filesize : ℤ
  pub created_at : ℤ
  pub created_by : Text
  pub metadata : Option (Dict Value)

-- `io::Error`: of the kind `NotFound`, or another
pub data IoError : Type 0 where
  absent failure : Text → IoError

pub data Call : Type 0 where
  now_v7 : Call
  remove_dir_all create_dir_all : Text → Call
  write : Text → List ℕ → Call
  exists is_file is_dir : Text → Call
  -- opening an archive, and extracting it
  read_zip : List ℕ → Call
  extract_zip : List ℕ → Text → Call
  -- the names of the entries
  read_dir : Text → Call
  rename : Text → Text → Call
  remove_dir : Text → Call
  -- the id, the name, the size, who, and the metadata
  upsert_mission : Uuid → Text → ℕ → Text → Dict Value → Call
  update_metadata : Uuid → Dict Value → Call
  select_mission : Uuid → Call
  select_missions : Call
  delete_row : Uuid → Call

abbrev pub Reply : Call → Type 0
Reply now_v7 = Uuid
Reply (remove_dir_all dir) = Result IoError Unit
Reply (create_dir_all dir) = Result Text Unit
Reply (write path bytes) = Result Text Unit
Reply (exists path) = Bool
Reply (is_file path) = Bool
Reply (is_dir path) = Bool
Reply (read_zip bytes) = Result Text Unit
Reply (extract_zip bytes dest) = Result Text Unit
Reply (read_dir dir) = Result Text (List (Result Text Text))
Reply (rename from to) = Result Text Unit
Reply (remove_dir dir) = Result Text Unit
Reply (upsert_mission id name size subject metadata) = Result Text Unit
-- whether there was such a row
Reply (update_metadata id metadata) = Result Text Bool
Reply (select_mission id) = Result Text (Option MissionRow)
Reply select_missions = Result Text (List MissionRow)
Reply (delete_row id) = Result Text Bool

abbrev pub Fallible : Type 0 → Type 0 → Type 0
Fallible E A = Prog Reply E A
