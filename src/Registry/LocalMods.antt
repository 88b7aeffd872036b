-- ===== src/Registry/LocalMods.antt =====
-- Local mods on disk: services/registry/src/storage.rs, but for the size of one.
pub mod Extraction
use magpie.Prelude.{
  ℕ, Bool, true, false, ◌||◌, List, [], ◌∷◌, ◌++◌, Text, codes, text_eq, is_empty, any, ◌==◌,
  if◌then◌else◌,
}
use magpie.Prelude.Prog.{Result, ok, err, Prog, pure, fail, ◌>>=◌, ◌>>◌, lift, request, mapped}
use magpie.Launcher.Missions.{join_path}
use magpie.Registry.Calls.{
  IoError, absent, failure, Call, Reply, Fallible, remove_dir_all, create_dir_all, exists, is_file,
  is_dir, read_zip, extract_zip, read_dir, rename, remove_dir,
}

-- an error under its context
abbrev pub under : {A : Type 0} → Text → Result Text A → Fallible Text A
under context (ok a) = pure a
under context (err e) = fail (context ++ codes ": " ++ e)

abbrev pub io_text : Result IoError Unit → Result Text Unit
io_text (ok _) = ok tt
io_text (err (absent e)) = err e
io_text (err (failure e)) = err e

abbrev pub found : List (Result Text Text) → List Text
found [] = []
found (ok name ∷ entries) = name ∷ found entries
found (err e ∷ entries) = found entries

unfoldable pub local_mods_dir : Text → Text
local_mods_dir root = join_path root (codes "mods")

unfoldable pub is_invalid : Text → Bool
is_invalid s =
    is_empty s
    || any (λ c. c == b'/') s
    || any (λ c. c == b'\\') s
    || text_eq s (codes ".")
    || text_eq s (codes "..")

abbrev pub mod_cpp : Text → Text
mod_cpp dir = join_path dir (codes "mod.cpp")

unfoldable pub remove_existing : Text → Text → Fallible Text Unit
unfolding ◌>>=◌
remove_existing context dest = do
  is_there ← request (exists dest)
  if is_there
      then (request (remove_dir_all dest) >>= λ removed. under context (io_text removed))
      else pure tt

abbrev pub no_mod : Text
no_mod = codes "extracted archive has no mod.cpp at its root or in a single wrapping folder"

-- the only entry, if it is a folder with the mod
unfoldable pub wrapper : Text → List Text → Fallible Text Text
unfolding ◌>>=◌
wrapper dest (name ∷ []) = do
  is_folder ← request (is_dir (join_path dest name))
  has_mod ← if is_folder then request (is_file (mod_cpp (join_path dest name))) else pure false
  if has_mod then pure (join_path dest name) else fail no_mod
wrapper dest _ = fail no_mod

unfoldable pub unwrap : Text → Fallible Text Text
unfolding ◌>>=◌ wrapper
unwrap dest = do
  listed ← request (read_dir dest)
  entries ← under (codes "failed to list extracted mod directory") listed
  wrapper dest (found entries)

unfoldable pub mod_root : Text → Fallible Text Text
unfolding ◌>>=◌ unwrap
mod_root dest = do
  has_mod ← request (is_file (mod_cpp dest))
  if has_mod then pure dest else unwrap dest

-- the entries of the wrapper, moved up
unfoldable pub move_up : Text → Text → List (Result Text Text) → Fallible Text Unit
unfolding ◌>>=◌
move_up dest folder [] = pure tt
move_up dest folder (err e ∷ entries) = fail e
move_up dest folder (ok name ∷ entries) =
    let rest = move_up dest folder entries in
    request (rename (join_path folder name) (join_path dest name)) >>= λ moved. lift moved >> rest

unfoldable pub flatten : Text → Text → Fallible Text Unit
unfolding ◌>>=◌ move_up
flatten dest folder = do
  listed ← request (read_dir folder)
  entries ← lift listed
  move_up dest folder entries
  removed ← request (remove_dir folder)
  under (codes "failed to remove now-empty wrapper folder") removed

unfoldable pub extract : Text → List ℕ → Fallible Text Text
unfolding ◌>>=◌ remove_existing mod_root flatten
extract dest zip_bytes = do
  remove_existing (codes "failed to remove existing local mod directory before re-extracting") dest
  created ← request (create_dir_all dest)
  under (codes "failed to create local mod directory") created
  opened ← request (read_zip zip_bytes)
  under (codes "failed to read zip archive") opened
  extracted ← request (extract_zip zip_bytes dest)
  under (codes "failed to extract zip archive") extracted
  folder ← mod_root dest
  if text_eq folder dest then pure tt else flatten dest folder
  pure dest

-- `{s:?}` is a parameter
module _ (show_debug : Text → Text) where
  unfoldable pub validate_path_component : Text → Result Text Unit
  unfolding is_invalid
  validate_path_component s =
      if is_invalid s then err (codes "invalid identifier: " ++ show_debug s) else ok tt

  unfoldable pub extract_local_mod : Text → Text → List ℕ → Fallible Text Text
  unfolding ◌>>=◌ validate_path_component local_mods_dir extract
  extract_local_mod root unique_id zip_bytes = do
    lift (validate_path_component unique_id)
    extract (join_path (local_mods_dir root) unique_id) zip_bytes

  unfoldable pub delete_local_mod : Text → Text → Fallible Text Unit
  unfolding ◌>>=◌ validate_path_component local_mods_dir remove_existing
  delete_local_mod root unique_id = do
    lift (validate_path_component unique_id)
    remove_existing (codes "failed to delete local mod directory")
        (join_path (local_mods_dir root) unique_id)
