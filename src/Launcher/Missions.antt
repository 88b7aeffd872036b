-- ===== src/Launcher/Missions.antt =====
-- The missions of a server, brought into the game's directory: services/launcher/src/launch.rs,
-- `mirror_missions` and `copy_dir_all`. Each takes as fuel how deep a tree may be.
use magpie.Prelude.{ℕ, zero, suc, List, [], ◌∷◌, ◌++◌, Text, codes, text_eq, any, if◌then◌else◌}
use magpie.Prelude.Prog.{Result, ok, err, pure, fail, ◌>>=◌, ◌>>◌, lift, request, map_err}
use magpie.Launcher.Calls.{Entry, Fallible, is_dir, create_dir_all, read_dir, copy}

-- `Path::join`, of a name
unfoldable pub join_path : Text → Text → Text
join_path dir name = dir ++ b'/' ∷ name

unfoldable pub within : Text → Text → Text
within context e = context ++ codes ": " ++ e

-- a result with its context
unfoldable pub context : {A : Type 0} → Text → Result Text A → Fallible A
unfolding within
context message (ok a) = pure a
context message (err e) = fail (within message e)

-- the entries of a directory, given how a nested one is copied
unfoldable pub copy_entries :
    (Text → Text → Fallible Unit) → Text → Text → List (Result Text Entry) → Fallible Unit
unfolding ◌>>=◌ join_path
copy_entries nested src dst [] = pure tt
copy_entries nested src dst (err e ∷ entries) = fail e
copy_entries nested src dst (ok entry ∷ entries) =
    let rest = copy_entries nested src dst entries in
    if entry.is_dir
    then nested (join_path src entry.name) (join_path dst entry.name) >> rest
    else request (copy (join_path src entry.name) (join_path dst entry.name)) >>= λ reply.
        lift reply >> rest

unfoldable pub copy_dir_all : ℕ → Text → Text → Fallible Unit
unfolding ◌>>=◌ copy_entries
copy_dir_all zero src dst = fail (codes "too deep")
copy_dir_all (suc depth) src dst =
    let nested = copy_dir_all depth in
    request (create_dir_all dst) >>= λ created.
    lift created
    >> (request (read_dir src) >>= λ listed.
        lift listed >>= λ entries. copy_entries nested src dst entries)

-- `collect::<io::Result<Vec<_>>>()`, of the paths in a directory
unfoldable pub paths_in : Text → List (Result Text Entry) → Result Text (List (Text × Text))
paths_in dir [] = ok []
paths_in dir (err e ∷ entries) = err e
paths_in dir (ok entry ∷ entries) = elim (paths_in dir entries) [
  | err e ↦ err e
  | ok paths ↦ ok ((join_path dir entry.name, entry.name) ∷ paths)
]

-- The missions of an entry, each by its path and its name: what is in an id's directory, or the
-- entry itself.
unfoldable pub missions_of : Text → Entry → Fallible (List (Text × Text))
unfolding ◌>>=◌ context paths_in
missions_of src entry =
    let path = join_path src entry.name in
    if entry.is_dir
    then (do
      listed ← request (read_dir path)
      entries ← context (codes "failed to read " ++ path) listed
      lift (paths_in path entries))
    else pure ((path, entry.name) ∷ [])

unfoldable pub copy_file : Text → Text → Fallible Unit
unfolding ◌>>=◌
copy_file src dst = do reply ← request (copy src dst); lift reply

-- One mission, and the names that are taken behind it: the first of a name wins.
unfoldable pub mirror_mission : ℕ → Text → List Text → Text × Text → Fallible (List Text)
unfolding ◌>>=◌ map_err copy_file
mirror_mission depth dst seen (mission, name) =
    let target = join_path dst name in
    if any (λ n. text_eq n name) seen then pure seen else (do
      nested ← request (is_dir mission)
      map_err (within (codes "failed to copy " ++ mission ++ codes " to " ++ target))
          (if nested then copy_dir_all depth mission target else copy_file mission target)
      pure (name ∷ seen))

unfoldable pub mirror_each : ℕ → Text → List Text → List (Text × Text) → Fallible (List Text)
unfolding ◌>>=◌ mirror_mission
mirror_each depth dst seen [] = pure seen
mirror_each depth dst seen (mission ∷ missions) =
    mirror_mission depth dst seen mission >>= λ seen'. mirror_each depth dst seen' missions

unfoldable pub mirror_entries :
    ℕ → Text → Text → List Text → List (Result Text Entry) → Fallible Unit
unfolding ◌>>=◌ missions_of mirror_each
mirror_entries depth src dst seen [] = pure tt
mirror_entries depth src dst seen (err e ∷ entries) = fail e
mirror_entries depth src dst seen (ok entry ∷ entries) = missions_of src entry >>= λ missions.
    mirror_each depth dst seen missions >>= λ seen'. mirror_entries depth src dst seen' entries

unfoldable pub mirror_missions : ℕ → Text → Text → Fallible Unit
unfolding ◌>>=◌ context mirror_entries
mirror_missions depth src dst = do
  present ← request (is_dir src)
  if present
      then (do
        created ← request (create_dir_all dst)
        context (codes "failed to create " ++ dst) created
        listed ← request (read_dir src)
        entries ← context (codes "failed to read " ++ src) listed
        mirror_entries depth src dst [] entries)
      else pure tt
