-- ===== src/Gateway/Replacing.antt =====
-- What an update of the metadata leaves in the annotations: services/gateway/src/service.rs.
use mathlib.Core.Option
use magpie.Prelude.{
  ◌≡◌, refl, ap, ◌∙◌, arith, inl, inr, Bool-cases, Option-cases, Option, none, some, List, [], ◌∷◌,
  ◌++◌, map, Text, strip_prefix, text_eq_iff, if◌then◌else◌,
}
use magpie.Prelude.Dict.{Dict, get, extend, contains_key, get-extend, last_of, last_of-IsUnique}
use magpie.Prelude.Sorted.{IsSorted, IsSorted-IsUnique}
use magpie.Prelude.Prog.{ok}
use magpie.Gateway.Metadata.{
  metadata_prefix, metadata_entries, metadata_from_annotations, metadata_to_annotations, is_stale,
  nulls, annotation_patch,
}
use magpie.Gateway.Entries.{
  first_some, strip_prefix_iff, get-metadata_entries, metadata_entries-IsUnique, collect-get,
}

-- what the JSON merge patch does with one key
abbrev pub merged_value : Option Text → Option (Option Text) → Option Text
merged_value old none = old
merged_value old (some new) = new

-- the null entries of the patch
last_of-nulls :
    (wanted : Dict Text) (existing : List (Text × Text)) (k : Text)
    → last_of k (nulls wanted existing)
      ≡ (if is_stale wanted k then Option.map (λ _. none) (get k existing) else none)
unfolding last_of nulls get
last_of-nulls wanted [] k = ground arith
last_of-nulls wanted ((j, v) ∷ existing) k =
    ground (arith, text_eq_iff j k, last_of-nulls wanted existing k)

-- the other entries
last_of-values :
    (wanted : List (Text × Text)) (k : Text)
    → last_of k (map (λ (key, value). (key, some value)) wanted)
      ≡ Option.map (λ v. some v) (last_of k wanted)
unfolding last_of
last_of-values [] k = refl
last_of-values ((j, v) ∷ wanted) k =
    rw (last_of-values wanted k) (elim (Option-cases (last_of k wanted)) [
      | inl e ↦ rw e (ground arith)
      | inr (w, e) ↦ rw e refl
    ])

first_some-id : {A : Type 0} (a b : Option A) → first_some a (first_some b none) ≡ first_some a b
first_some-id a (some x) = refl
first_some-id a none = refl

first_some_twice : {A : Type 0} (o : Option A) → first_some (first_some o none) none ≡ o
first_some_twice (some a) = refl
first_some_twice none = refl

-- one key of the patch
get-annotation_patch :
    (existing wanted : Dict Text) (k : Text)
    → IsSorted wanted
    → get k (annotation_patch existing wanted)
      ≡ first_some
          (Option.map (λ v. some v) (get k wanted))
          (if is_stale wanted k then Option.map (λ _. none) (get k existing) else none)
unfolding annotation_patch get
get-annotation_patch existing wanted k s =
    let values =
      last_of-values wanted k
      ∙ ap (λ o. Option.map (λ v. some v) o)
          (last_of-IsUnique k wanted (IsSorted-IsUnique wanted s)) in
    let nulled =
      get-extend k [] (nulls wanted existing)
      ∙ ap (λ o. first_some o none) (last_of-nulls wanted existing k) in
    get-extend k (extend [] (nulls wanted existing))
      (map (λ (key, value). (key, some value)) wanted)
    ∙ ap (λ o. first_some o (get k (extend [] (nulls wanted existing)))) values
    ∙ ap (λ o. first_some (Option.map (λ v. some v) (get k wanted)) o) nulled
    ∙ first_some-id (Option.map (λ v. some v) (get k wanted)) _

-- under a key of metadata the patch leaves what is wanted
merged_metadata :
    (existing wanted : Dict Text) (k : Text)
    → IsSorted wanted
    → merged_value
        (get (metadata_prefix ++ k) existing)
        (get (metadata_prefix ++ k) (annotation_patch existing wanted))
      ≡ get (metadata_prefix ++ k) wanted
unfolding contains_key
merged_metadata existing wanted k s =
    let key = metadata_prefix ++ k in
    let found = (strip_prefix_iff metadata_prefix key k).1 refl in
    rw (get-annotation_patch existing wanted key s, is_stale, found)
      (elim (Option-cases (get key wanted)) [
        | inr (v, e) ↦ rw (e, first_some) refl
        | inl absent ↦ elim (Option-cases (get key existing)) [
          | inl new ↦ rw (absent, contains_key, new) refl
          | inr (v, old) ↦ rw (absent, contains_key, old) refl
        ]
      ])

-- under any other key, what was there
merged_other :
    (show_debug : Text → Text) (existing wanted : Dict Text) (k : Text)
    → IsSorted wanted
    → get k wanted ≡ none
    → strip_prefix metadata_prefix k ≡ none
    → merged_value (get k existing) (get k (annotation_patch existing wanted)) ≡ get k existing
merged_other show_debug existing wanted k s absent foreign =
    rw (get-annotation_patch existing wanted k s, absent, first_some, is_stale, foreign) refl

-- Under a key that is new, the patch leaves what is wanted.
pub merged_new :
    (existing wanted : Dict Text) (k : Text)
    → IsSorted wanted
    → get k existing ≡ none
    → merged_value (get k existing) (get k (annotation_patch existing wanted)) ≡ get k wanted
merged_new existing wanted k s new =
    rw (get-annotation_patch existing wanted k s, new)
      (elim (Option-cases (get k wanted)) [
        | inr (v, e) ↦ rw (e, first_some) refl
        | inl absent ↦ elim (Bool-cases (is_stale wanted k)) [
          | inl stale ↦ rw (absent, first_some, stale) refl
          | inr kept ↦ rw (absent, first_some, kept) refl
        ]
      ])

-- What an update of the metadata to `entries`, if they are accepted, leaves: if the API server
-- merges the patch as JSON merge patches do, and the annotations come in the order of their keys,
-- the server's metadata is exactly the entries, the last value of a key standing, and no annotation
-- that is not metadata is changed.
pub metadata_replaced :
    (show_debug : Text → Text) (entries : List (Text × Text)) (existing wanted merged : Dict Text)
    → metadata_to_annotations show_debug entries ≡ ok wanted
    → IsSorted merged
    → ((k : Text)
        → get k merged ≡ merged_value (get k existing) (get k (annotation_patch existing wanted)))
    → ((k : Text) → get k (metadata_from_annotations merged) ≡ last_of k entries)
      × ((k : Text) → strip_prefix metadata_prefix k ≡ none → get k merged ≡ get k existing)
unfolding metadata_to_annotations metadata_from_annotations get
metadata_replaced show_debug entries existing wanted merged accepted sorted merges =
    let (wanted_sorted, values, others) = collect-get show_debug entries [] wanted tt accepted in
    (
      λ k.
          get-extend k [] (metadata_entries merged)
          ∙ ap (λ o. first_some o none)
              (last_of-IsUnique k (metadata_entries merged)
                  (metadata_entries-IsUnique merged (IsSorted-IsUnique merged sorted))
                ∙ get-metadata_entries k merged
                ∙ merges (metadata_prefix ++ k)
                ∙ merged_metadata existing wanted k wanted_sorted
                ∙ values k)
          ∙ first_some_twice (last_of k entries),
      λ k foreign.
          merges k
          ∙ merged_other show_debug existing wanted k wanted_sorted (others k foreign) foreign,
    )
