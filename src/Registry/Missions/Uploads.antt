-- ===== src/Registry/Missions/Uploads.antt =====
-- What an upload of a mission touches: services/registry/src/service/mission.rs and storage.rs.
use mathlib.Core.List.{Memᴰ}
use magpie.Prelude.{
  ℕ, ◌≡◌, refl, Bool, true, Option, none, some, List, [], ◌∷◌, Text, text_eq, codes, subst, sym,
  length, is_empty, Bool-cases, inl, inr, ◌||◌, ◌==◌, ◌⊎◌, all, is_ascii_alphanumeric, arith,
}
use magpie.Prelude.Prog.{
  Result, ok, err, Event, Holds, at_ok, at_err, at_call, Holds-bind, Holds-lift, Holds-map_err,
  Holds-mono, Logged, ◌>>=◌, IfOk, lift, mapped,
}
use magpie.Gateway.Metadata.{ConnectError, internal}
use magpie.Launcher.Missions.{join_path}
use magpie.Registry.Calls.{
  Uuid, MissionRow, IoError, absent, failure, Call, Reply, Fallible, now_v7, remove_dir_all,
  create_dir_all, write, upsert_mission, select_mission,
}
use magpie.Registry.Missions.{
  UploadMissionRequest, MissionInfo, metadata_json, sanitize_char, sanitize_mission_name,
  mission_dir, deleted, delete_mission_file, write_mission, upload_id, upload_mission, to_info,
  parse_id, authenticated, store, upload_as,
}

-- A character that a leaf name may have: no separator of paths.
abbrev pub is_leaf_char : ℕ → Bool
is_leaf_char c = is_ascii_alphanumeric c || c == b'.' || c == b'_' || c == b'-'

-- `.` or `..`: no name of its own in a directory
abbrev pub is_dots : Text → Bool
is_dots name = text_eq name (codes ".") || text_eq name (codes "..")

-- A name has no dots but those that it had.
sanitize_char-dot : (c : ℕ) → (sanitize_char c == b'.') ≡ (c == b'.')
unfolding sanitize_char is_ascii_alphanumeric
sanitize_char-dot c = ground arith

is_dots-sanitize : (name : Text) → is_dots (sanitize_mission_name name) ≡ is_dots name
unfolding sanitize_mission_name text_eq codes
is_dots-sanitize [] = refl
is_dots-sanitize (c ∷ []) = ground (arith, sanitize_char-dot c)
is_dots-sanitize (c ∷ d ∷ []) = ground (arith, sanitize_char-dot c, sanitize_char-dot d)
is_dots-sanitize (c ∷ d ∷ e ∷ name) = ground (arith, sanitize_char-dot c, sanitize_char-dot d)

sanitize-is_leaf : (name : Text) → all is_leaf_char (sanitize_mission_name name) ≡ true
unfolding sanitize_mission_name sanitize_char is_ascii_alphanumeric
sanitize-is_leaf [] = refl
sanitize-is_leaf (c ∷ name) = elim (Bool-cases (is_leaf_char c)) [
  | inl leaf ↦ rw (leaf, sanitize-is_leaf name) (ground (arith, leaf))
  | inr other ↦ rw other (sanitize-is_leaf name)
]

Option-cases : {A : Type 0} (o : Option A) → ((a : A) × (o ≡ some a)) ⊎ (o ≡ none)
Option-cases none = inr refl
Option-cases (some a) = inl (a, refl)

module _ (uuid_text : Uuid → Text) (root : Text) (parse_uuid : Text → Option Uuid) where
  -- The request's id, or a fresh one.
  abbrev pub IsId : Option Text → Uuid → List (Event Reply) → Type 0
  IsId (some text) id past = parse_uuid text ≡ some id
  IsId none id past = Logged now_v7 id past

  -- The file was written: in the mission's directory, under a name without separators.
  abbrev pub IsWritten : UploadMissionRequest → Uuid → List (Event Reply) → Type 0
  IsWritten r id past =
      Logged
        (write (join_path (mission_dir uuid_text root id) (sanitize_mission_name r.name))
          r.pbo_content)
        (ok tt) past

  pub parse_id-Holds :
      {B : Type 0} {P : List (Event Reply) → Call → Type 0}
      {Q : List (Event Reply) → Result ConnectError B → Type 0} {h : List (Event Reply)}
      {f : Uuid → Fallible ConnectError B} (text : Text)
      → ((id : Uuid) → parse_uuid text ≡ some id → Holds P Q h (f id))
      → ((e : ConnectError) → Q h (err e))
      → Holds P Q h (lift (parse_id parse_uuid text) >>= f)
  unfolding parse_id ◌>>=◌
  parse_id-Holds text next stops = elim (Option-cases (parse_uuid text)) [
    | inl (id, is_id) ↦ rw is_id (next id is_id)
    | inr none_is ↦ rw none_is (at_err (stops _))
  ]

  module _ (subject : Text) (r : UploadMissionRequest) where
    abbrev pub OfUpload : List (Event Reply) → Call → Type 0
    OfUpload past now_v7 = Unit
    OfUpload past (remove_dir_all dir) =
        (id : Uuid) × IsId r.id id past × (dir ≡ mission_dir uuid_text root id)
    OfUpload past (create_dir_all dir) =
        (id : Uuid) × IsId r.id id past × (dir ≡ mission_dir uuid_text root id)
    OfUpload past (write path bytes) =
        (id : Uuid) × (leaf : Text) × IsId r.id id past
        × (path ≡ join_path (mission_dir uuid_text root id) leaf)
        × (all is_leaf_char leaf ≡ true)
        × (is_dots leaf ≡ is_dots r.name)
        × (bytes ≡ r.pbo_content)
    OfUpload past (upsert_mission id name size by metadata) =
        IsId r.id id past
        × IsWritten r id past
        × (name ≡ r.name)
        × (size ≡ length r.pbo_content)
        × (by ≡ subject)
        × (metadata ≡ metadata_json r.metadata)
    OfUpload past (select_mission id) = IsId r.id id past
    OfUpload past _ = ⊥

    -- It was stored, and the row is the response.
    abbrev pub IsUploaded : List (Event Reply) → MissionInfo → Type 0
    IsUploaded past info =
        (id : Uuid) × (row : MissionRow) × IsId r.id id past
        × IsWritten r id past
        × Logged
            (upsert_mission id r.name (length r.pbo_content) subject (metadata_json r.metadata))
            (ok tt) past
        × Logged (select_mission id) (ok (some row)) past
        × (info ≡ to_info uuid_text row)

    IsId-cons :
        (given : Option Text) (id : Uuid) (e : Event Reply) (past : List (Event Reply))
        → IsId given id past
        → IsId given id (e ∷ past)
    IsId-cons none id e past l = Memᴰ.tail l
    IsId-cons (some text) id e past h = h

    -- a removal goes on if it succeeds, or if there was nothing
    deleted-Holds :
        {B : Type 0} {Q : List (Event Reply) → Result Text B → Type 0} {h : List (Event Reply)}
        (f : Fallible Text B) (removed : Result IoError Unit)
        → Holds OfUpload Q h f
        → ((e : Text) → Q h (err e))
        → Holds OfUpload Q h (deleted removed >>= λ _. f)
    unfolding deleted ◌>>=◌
    deleted-Holds f (ok _) next stops = next
    deleted-Holds f (err (absent e)) next stops = next
    deleted-Holds f (err (failure e)) next stops = at_err (stops _)

    write_mission-Holds :
        (h : List (Event Reply)) (id : Uuid)
        → IsId r.id id h
        → Holds OfUpload
            (λ past res. IfOk (λ _. IsId r.id id past × IsWritten r id past) res)
            h
            (write_mission uuid_text root id r.name r.pbo_content)
    unfolding write_mission delete_mission_file ◌>>=◌ mapped
    write_mission-Holds h id is_id =
        let leaf = sanitize_mission_name r.name in
        at_call {c = remove_dir_all (mission_dir uuid_text root id)} (id, is_id, refl)
          (λ removed.
            deleted-Holds _ removed
              (at_call {c = create_dir_all (mission_dir uuid_text root id)}
                (id, IsId-cons r.id id _ _ is_id, refl)
                (λ created.
                  Holds-lift (mapped _ created)
                    (λ _.
                      at_call
                        {c = write (join_path (mission_dir uuid_text root id) leaf) r.pbo_content}
                        (
                          id,
                          leaf,
                          IsId-cons r.id id _ _ (IsId-cons r.id id _ _ is_id),
                          refl,
                          sanitize-is_leaf r.name,
                          is_dots-sanitize r.name,
                          refl,
                        )
                        (elim [
                          | ok _ ↦ at_ok (
                            IsId-cons r.id id _ _
                                (IsId-cons r.id id _ _ (IsId-cons r.id id _ _ is_id)),
                            Memᴰ.head refl,
                          )
                          | err e ↦ at_err tt
                        ]))
                    (λ e. tt)))
              (λ e. tt))

    -- behind the write
    store-Holds :
        (h : List (Event Reply)) (id : Uuid)
        → IsId r.id id h
        → IsWritten r id h
        → Holds OfUpload (λ past res. IfOk (IsUploaded past) res) h (store uuid_text id subject r)
    unfolding store ◌>>=◌ mapped
    store-Holds h id is_id written =
        at_call
          {c = upsert_mission id r.name (length r.pbo_content) subject (metadata_json r.metadata)}
          (is_id, written, refl, refl, refl, refl)
          (elim [
            | err e ↦ at_err tt
            | ok _ ↦ at_call {c = select_mission id} (IsId-cons r.id id _ _ is_id) (elim [
              | err e ↦ at_err tt
              | ok none ↦ at_err tt
              | ok (some row) ↦ at_ok (
                id,
                row,
                IsId-cons r.id id _ _ (IsId-cons r.id id _ _ is_id),
                Memᴰ.tail (Memᴰ.tail written),
                Memᴰ.tail (Memᴰ.head refl),
                Memᴰ.head refl,
                refl,
              )
            ])
          ])

    upload_as-Holds :
        (h : List (Event Reply)) (id : Uuid)
        → IsId r.id id h
        → Holds OfUpload
            (λ past res. IfOk (IsUploaded past) res)
            h
            (upload_as uuid_text root id subject r)
    unfolding upload_as ◌>>=◌ mapped
    upload_as-Holds h id is_id = elim (Bool-cases (is_empty r.name)) [
      | inl nameless ↦ rw nameless (at_err tt)
      | inr named ↦ rw named (
          Holds-bind (
            Holds-map_err internal (
              Holds-mono
                (λ past. elim [ ok _ ↦ λ (l, m). store-Holds past id l m | err e ↦ λ _. tt ])
                (write_mission-Holds h id is_id))))
    ]

    upload_id-Holds :
        (given : Option Text)
        → r.id ≡ given
        → Holds OfUpload
            (λ past res. IfOk (IsUploaded past) res)
            []
            (upload_id parse_uuid given >>= λ id. upload_as uuid_text root id subject r)
    unfolding upload_id parse_id ◌>>=◌
    upload_id-Holds none same = at_call {c = now_v7} tt (λ id.
        upload_as-Holds _ id
          (subst (λ g. IsId g id ((now_v7, id) ∷ [])) (sym same) (Memᴰ.head refl)))
    upload_id-Holds (some text) same =
        parse_id-Holds text
          (λ id is_id. upload_as-Holds [] id (subst (λ g. IsId g id []) (sym same) is_id)) (λ e. tt)

    -- Whatever the file system and Postgres reply: an upload removes and makes no
    -- directory but that of the mission whose id the request gives, or that was
    -- made for it; the file's path is that directory, a slash and a name without
    -- separators, which is `.` or `..` only if the request's name is; the file has
    -- the bytes of the request; a row is stored only after the file was written,
    -- with its size and the subject; and the response is that row, as it was read
    -- back.
    pub upload_mission-OfUpload :
        Holds OfUpload
          (λ past res. IfOk (IsUploaded past) res)
          []
          (upload_mission uuid_text root parse_uuid (some subject) r)
    unfolding upload_mission upload_id parse_id authenticated ◌>>=◌
    upload_mission-OfUpload = upload_id-Holds r.id refl
