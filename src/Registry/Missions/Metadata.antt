-- ===== src/Registry/Missions/Metadata.antt =====
-- What is stored of a mission's metadata, and read back: services/registry/src/service/mission.rs,
-- `metadata_json`, and crates/registry-db/src/lib.rs, `metadata_map`.
use magpie.Prelude.{
  ◌≡◌, refl, Option, none, some, List, [], ◌∷◌, Text, text_eq_iff, is_empty, arith, if◌then◌else◌,
}
use magpie.Prelude.Dict.{Dict, get, last_of, get-extend}
use magpie.Registry.Calls.{Value, string}
use magpie.Registry.Missions.{shown_value, with_key, metadata_map, metadata_json}

abbrev text_of : Option Value → Option Text
text_of none = none
text_of (some v) = some (shown_value v)

abbrev as_string : Option Text → Option Value
as_string none = none
as_string (some t) = some (string t)

get-metadata_map : (k : Text) (m : Dict Value) → get k (metadata_map (some m)) ≡ text_of (get k m)
unfolding metadata_map get
get-metadata_map k [] = refl
get-metadata_map k ((j, v) ∷ m) = ground (arith, get-metadata_map k m)

last_of-with_key :
    (k : Text) (entries : List (Text × Text))
    → last_of k (with_key entries) ≡ (if is_empty k then none else as_string (last_of k entries))
unfolding last_of
last_of-with_key k [] = ground arith
last_of-with_key k ((j, v) ∷ entries) = ground (arith, last_of-with_key k entries, text_eq_iff j k)

-- Of metadata that is stored and read back, a key has the last value that the
-- request gives it, and the empty key has none.
pub metadata_map-metadata_json :
    (entries : List (Text × Text)) (k : Text)
    → get k (metadata_map (some (metadata_json entries)))
      ≡ (if is_empty k then none else last_of k entries)
unfolding metadata_json get
metadata_map-metadata_json entries k =
    rw
      (
        get-metadata_map k (metadata_json entries),
        get-extend k [] (with_key entries),
        last_of-with_key k entries,
      )
      (ground arith)
