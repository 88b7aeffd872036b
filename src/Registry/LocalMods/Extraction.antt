-- ===== src/Registry/LocalMods/Extraction.antt =====
-- What extracting a local mod touches: services/registry/src/storage.rs, `extract_local_mod`.
use mathlib.Core.List.{Memᴰ}
use magpie.Prelude.{
  ℕ, ◌≡◌, refl, Bool, true, false, List, [], ◌∷◌, Text, text_eq, text_eq_iff, Bool-cases, inl, inr,
  ◌⊎◌, arith, if◌then◌else◌,
}
use magpie.Prelude.Prog.{
  Result, ok, err, Event, Holds, at_ok, at_err, at_call, Holds-bind, Holds-mono, Holds-lift, Logged,
  ◌>>=◌, IfOk, pure, fail, request,
}
use magpie.Launcher.Missions.{join_path}
use magpie.Registry.Calls.{
  Call, Reply, Fallible, remove_dir_all, create_dir_all, exists, is_file, is_dir, read_zip,
  extract_zip, read_dir, rename, remove_dir,
}
use magpie.Registry.LocalMods.{
  under, io_text, no_mod, found, is_invalid, local_mods_dir, mod_cpp, remove_existing, wrapper,
  unwrap, mod_root, move_up, flatten, extract, validate_path_component, extract_local_mod,
}

join_path-differs : (dest name : Text) → text_eq (join_path dest name) dest ≡ false
unfolding join_path text_eq
join_path-differs [] name = refl
join_path-differs (c ∷ dest) name = ground (arith, join_path-differs dest name)

module _ (root unique_id : Text) (zip_bytes : List ℕ) where
  abbrev pub dest_of : Text
  dest_of = join_path (local_mods_dir root) unique_id

  -- The folder was found to be one, with a mod in it.
  abbrev pub Wraps : Text → List (Event Reply) → Type 0
  Wraps name past =
      Logged (is_dir (join_path dest_of name)) true past
      × Logged (is_file (mod_cpp (join_path dest_of name))) true past

  -- The id is one component of a path, and the mod's own directory is all that is changed; an entry
  -- is moved only out of the folder that wraps the mod, to where that folder is.
  abbrev pub OfExtract : List (Event Reply) → Call → Type 0
  OfExtract past (exists path) = is_invalid unique_id ≡ false
  OfExtract past (is_file path) = is_invalid unique_id ≡ false
  OfExtract past (is_dir path) = is_invalid unique_id ≡ false
  OfExtract past (read_dir path) = is_invalid unique_id ≡ false
  OfExtract past (read_zip bytes) = (is_invalid unique_id ≡ false) × (bytes ≡ zip_bytes)
  OfExtract past (remove_dir_all dir) = (is_invalid unique_id ≡ false) × (dir ≡ dest_of)
  OfExtract past (create_dir_all dir) = (is_invalid unique_id ≡ false) × (dir ≡ dest_of)
  OfExtract past (extract_zip bytes dir) =
      (is_invalid unique_id ≡ false) × (bytes ≡ zip_bytes) × (dir ≡ dest_of)
  OfExtract past (rename from to) =
      (is_invalid unique_id ≡ false)
      × ((folder : Text) × (name : Text) × Wraps folder past
          × (from ≡ join_path (join_path dest_of folder) name)
          × (to ≡ join_path dest_of name))
  OfExtract past (remove_dir dir) =
      (is_invalid unique_id ≡ false)
      × ((folder : Text) × Wraps folder past × (dir ≡ join_path dest_of folder))
  OfExtract past _ = ⊥

  -- The mod was there, or in a folder that is gone.
  abbrev pub IsExtracted : List (Event Reply) → Text → Type 0
  IsExtracted past path =
      (path ≡ dest_of)
      × (Logged (is_file (mod_cpp dest_of)) true past
          ⊎ ((folder : Text) × Wraps folder past
              × Logged (remove_dir (join_path dest_of folder)) (ok tt) past))

  abbrev IsRoot : List (Event Reply) → Text → Type 0
  IsRoot past path =
      ((path ≡ dest_of) × Logged (is_file (mod_cpp dest_of)) true past)
      ⊎ ((folder : Text) × Wraps folder past × (path ≡ join_path dest_of folder))

  abbrev Ends :
      {A : Type 0}
      → (List (Event Reply) → A → Type 0)
      → List (Event Reply)
      → Fallible Text A
      → Type 0
  Ends T = Holds OfExtract (λ past res. IfOk (T past) res)

  Wraps-cons :
      (folder : Text) (e : Event Reply) (past : List (Event Reply))
      → Wraps folder past
      → Wraps folder (e ∷ past)
  Wraps-cons folder e past (l, m) = (Memᴰ.tail l, Memᴰ.tail m)

  under-Holds :
      {A B : Type 0} {T : List (Event Reply) → B → Type 0} {h : List (Event Reply)}
      {f : A → Fallible Text B} (context : Text) (r : Result Text A)
      → ((a : A) → Ends T h (f a))
      → Ends T h (under context r >>= f)
  unfolding ◌>>=◌
  under-Holds context (ok a) next = next a
  under-Holds context (err e) next = at_err tt

  module _ (valid : is_invalid unique_id ≡ false) where
    has_mod-Holds :
        (h : List (Event Reply)) (name : Text) (has_mod : Bool)
        → Logged (is_dir (join_path dest_of name)) true h
        → Ends IsRoot
            ((is_file (mod_cpp (join_path dest_of name)), has_mod) ∷ h)
            (if has_mod then pure (join_path dest_of name) else fail no_mod)
    has_mod-Holds h name false is_folder = at_err tt
    has_mod-Holds h name true is_folder =
        at_ok (inr (name, (Memᴰ.tail is_folder, Memᴰ.head refl), refl))

    folder-Holds :
        (h : List (Event Reply)) (name : Text) (is_folder : Bool)
        → Ends IsRoot ((is_dir (join_path dest_of name), is_folder) ∷ h) (
            (if is_folder then request (is_file (mod_cpp (join_path dest_of name))) else pure false)
            >>= λ has_mod. if has_mod then pure (join_path dest_of name) else fail no_mod)
    unfolding ◌>>=◌
    folder-Holds h name false = at_err tt
    folder-Holds h name true =
        at_call {c = is_file (mod_cpp (join_path dest_of name))} valid
          (λ has_mod. has_mod-Holds _ name has_mod (Memᴰ.head refl))

    wrapper-Holds :
        (h : List (Event Reply)) (names : List Text) → Ends IsRoot h (wrapper dest_of names)
    unfolding wrapper ◌>>=◌
    wrapper-Holds h [] = at_err tt
    wrapper-Holds h (name ∷ []) =
        at_call {c = is_dir (join_path dest_of name)} valid (folder-Holds h name)
    wrapper-Holds h (name ∷ other ∷ names) = at_err tt

    mod_root-Holds : (h : List (Event Reply)) → Ends IsRoot h (mod_root dest_of)
    unfolding mod_root unwrap ◌>>=◌
    mod_root-Holds h = at_call {c = is_file (mod_cpp dest_of)} valid (elim [
      | true ↦ at_ok (inl (refl, Memᴰ.head refl))
      | false ↦
          at_call {c = read_dir dest_of} valid
            (λ listed. under-Holds _ listed (λ entries. wrapper-Holds _ (found entries)))
    ])

    move_up-Holds :
        (folder : Text) (entries : List (Result Text Text)) (h : List (Event Reply))
        → Wraps folder h
        → Ends (λ past _. Wraps folder past) h (move_up dest_of (join_path dest_of folder) entries)
    unfolding move_up ◌>>=◌
    move_up-Holds folder [] h wraps = at_ok wraps
    move_up-Holds folder (err e ∷ entries) h wraps = at_err tt
    move_up-Holds folder (ok name ∷ entries) h wraps =
        at_call {c = rename (join_path (join_path dest_of folder) name) (join_path dest_of name)}
          (valid, (folder, name, wraps, refl, refl))
          (λ moved.
            Holds-lift moved (λ _. move_up-Holds folder entries _ (Wraps-cons folder _ _ wraps))
              (λ e. tt))

    -- The folder is gone.
    abbrev IsUnwrapped : Text → List (Event Reply) → Type 0
    IsUnwrapped folder past =
        Wraps folder past × Logged (remove_dir (join_path dest_of folder)) (ok tt) past

    emptied-Holds :
        (h : List (Event Reply)) (folder : Text) (context : Text)
        → Wraps folder h
        → Ends
            (λ past _. IsUnwrapped folder past)
            h
            (request (remove_dir (join_path dest_of folder)) >>= λ removed. under context removed)
    unfolding ◌>>=◌
    emptied-Holds h folder context wraps =
        at_call {c = remove_dir (join_path dest_of folder)} (valid, (folder, wraps, refl))
          (elim [ ok _ ↦ at_ok (Wraps-cons folder _ _ wraps, Memᴰ.head refl) | err e ↦ at_err tt ])

    flatten-Holds :
        (h : List (Event Reply)) (folder : Text)
        → Wraps folder h
        → Ends IsExtracted h (flatten dest_of (join_path dest_of folder) >>= λ _. pure dest_of)
    unfolding flatten ◌>>=◌
    flatten-Holds h folder wraps = at_call {c = read_dir (join_path dest_of folder)} valid (elim [
      | err e ↦ at_err tt
      | ok entries ↦ Holds-bind (
          Holds-mono
            (λ past. elim [
              | ok _ ↦ λ (was, gone). at_ok (refl, inr (folder, was, gone))
              | err e ↦ λ _. tt
            ])
            (Holds-bind (
              Holds-mono
                (λ past. elim [
                  | ok _ ↦ λ still. emptied-Holds past folder _ still
                  | err e ↦ λ _. tt
                ])
                (move_up-Holds folder entries _ (Wraps-cons folder _ _ wraps)))))
    ])

    finish-Holds :
        (h : List (Event Reply)) (path : Text)
        → IsRoot h path
        → Ends IsExtracted h
            ((if text_eq path dest_of then pure tt else flatten dest_of path) >>= λ _. pure dest_of)
    unfolding ◌>>=◌
    finish-Holds h path (inl (is_dest, direct)) =
        rw (is_dest, (text_eq_iff dest_of dest_of).1 refl) (at_ok (refl, inl direct))
    finish-Holds h path (inr (folder, wraps, is_folder)) =
        rw (is_folder, join_path-differs dest_of folder) (flatten-Holds h folder wraps)

    removed-Holds :
        {B : Type 0} {T : List (Event Reply) → B → Type 0} {f : Fallible Text B} (context : Text)
        (h : List (Event Reply)) (is_there : Bool)
        → ((h : List (Event Reply)) → Ends T h f)
        → Ends T h (
            (if is_there
              then (request (remove_dir_all dest_of) >>= λ removed. under context (io_text removed))
              else pure tt)
            >>= λ _. f)
    unfolding ◌>>=◌
    removed-Holds context h false next = next h
    removed-Holds context h true next =
        at_call {c = remove_dir_all dest_of} (valid, refl)
          (λ removed. under-Holds context (io_text removed) (λ _. next _))

    extract-Holds : Ends IsExtracted [] (extract dest_of zip_bytes)
    unfolding extract remove_existing ◌>>=◌
    extract-Holds = at_call {c = exists dest_of} valid (λ is_there. removed-Holds _ _ is_there (λ h.
        at_call {c = create_dir_all dest_of} (valid, refl)
          (λ created. under-Holds _ created (λ _.
            at_call {c = read_zip zip_bytes} (valid, refl)
              (λ opened. under-Holds _ opened (λ _.
                at_call {c = extract_zip zip_bytes dest_of} (valid, refl, refl)
                  (λ extracted. under-Holds _ extracted (λ _. Holds-bind (
                    Holds-mono (λ past. elim [ ok path ↦ finish-Holds past path | err e ↦ λ _. tt ])
                      (mod_root-Holds _))))))))))

  -- Whatever the file system replies: a local mod whose id is not one plain
  -- component of a path is refused before anything is looked at; else nothing is
  -- changed but the mod's own directory, which gets the archive of the request;
  -- an entry is moved only out of a folder that was found to hold the mod, to
  -- where that folder is; and it succeeds only if mod.cpp was found in the
  -- directory, or in such a folder, which is then gone.
  pub extract_local_mod-OfExtract :
      (show_debug : Text → Text)
      → Ends IsExtracted [] (extract_local_mod show_debug root unique_id zip_bytes)
  unfolding extract_local_mod validate_path_component ◌>>=◌
  extract_local_mod-OfExtract show_debug = elim (Bool-cases (is_invalid unique_id)) [
    | inl invalid ↦ rw invalid (at_err tt)
    | inr valid ↦ rw valid (extract-Holds valid)
  ]
