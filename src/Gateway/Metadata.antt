-- ===== src/Gateway/Metadata.antt =====
-- services/gateway/src/service.rs: operators' metadata, which is kept in annotations.
use magpie.Prelude.{
  ℕ, Bool, false, not, ◌||◌, Option, none, some, List, [], ◌∷◌, ◌++◌, map, Text, codes, all,
  is_empty, is_ascii_alphanumeric, strip_prefix, ◌==◌, if◌then◌else◌,
}
use magpie.Prelude.Dict.{Dict, insert, extend, contains_key}
use magpie.Prelude.Prog.{Result, ok, err}

-- `ConnectError`, by the code of the status
pub data ConnectError : Type 0 where
  invalid_argument not_found internal : Text → ConnectError

unfoldable pub metadata_prefix : Text
metadata_prefix = codes "metadata.magpie.skua.io/"

-- the annotations that are metadata, without the prefix
unfoldable pub metadata_entries : List (Text × Text) → List (Text × Text)
metadata_entries [] = []
metadata_entries ((k, v) ∷ m) =
    let rest = metadata_entries m in
    elim (strip_prefix metadata_prefix k) [ none ↦ rest | some key ↦ (key, v) ∷ rest ]

unfoldable pub metadata_from_annotations : Dict Text → Dict Text
unfolding metadata_entries
metadata_from_annotations annotations = extend [] (metadata_entries annotations)

unfoldable pub is_key_char : ℕ → Bool
is_key_char c = is_ascii_alphanumeric c || c == b'-' || c == b'_' || c == b'.'

-- `{key:?}` prints a text in Rust's literal syntax.
module _ (show_debug : Text → Text) where
  -- the loop of `metadata_to_annotations`
  unfoldable pub collect_annotations :
      List (Text × Text) → Dict Text → Result ConnectError (Dict Text)
  unfolding is_key_char
  collect_annotations [] out = ok out
  collect_annotations ((key, value) ∷ rest) out =
      let later = collect_annotations rest (insert (metadata_prefix ++ key) value out) in
      if is_empty key
      then err (invalid_argument (codes "metadata keys cannot be empty"))
      else if not (all is_key_char key)
      then err (
          invalid_argument (
            codes "invalid metadata key "
            ++ (show_debug key ++ codes ": only letters, digits, '-', '_' and '.' are allowed")))
      else later

  unfoldable pub metadata_to_annotations : List (Text × Text) → Result ConnectError (Dict Text)
  unfolding collect_annotations
  metadata_to_annotations entries = collect_annotations entries []

-- `starts_with(METADATA_PREFIX)`, of a key that is not wanted any more
abbrev pub is_stale : Dict Text → Text → Bool
is_stale wanted key = elim (strip_prefix metadata_prefix key) [
  | none ↦ false
  | some _ ↦ not (contains_key key wanted)
]

-- a `null` for each stale key
unfoldable pub nulls : Dict Text → List (Text × Text) → List (Text × Option Text)
nulls wanted [] = []
nulls wanted ((key, value) ∷ existing) =
    let rest = nulls wanted existing in if is_stale wanted key then (key, none) ∷ rest else rest

-- the `annotations` of the merge patch: `none` is JSON's `null`
unfoldable pub annotation_patch : Dict Text → Dict Text → Dict (Option Text)
unfolding nulls
annotation_patch existing wanted =
    extend (extend [] (nulls wanted existing)) (map (λ (key, value). (key, some value)) wanted)
