-- ===== src/Gateway/Entries.antt =====
-- The annotations that hold metadata, by key: services/gateway/src/service.rs,
-- `metadata_from_annotations` and `metadata_to_annotations`.
use magpie.Prelude.{
  ◌≡◌, ◌↔◌, refl, ap, subst, sym, ◌∙◌, arith, inl, inr, false, Option-cases, Option, none, some,
  List, [], ◌∷◌, ◌++◌, Text, strip_prefix, text_eq, text_eq_symm, if◌then◌else◌,
}
use magpie.Prelude.Dict.{Dict, get, insert, get-insert, last_of, IsUnique}
use magpie.Prelude.Sorted.{IsSorted, insert-IsSorted}
use magpie.Prelude.Prog.{ok}
use magpie.Gateway.Metadata.{metadata_prefix, metadata_entries, collect_annotations}

-- `strip_prefix` finds the prefix exactly where it stands.
pub strip_prefix_iff : (p s r : Text) → (strip_prefix p s ≡ some r) ↔ (s ≡ p ++ r)
unfolding strip_prefix
strip_prefix_iff [] s r = ground arith
strip_prefix_iff (x ∷ p) [] r = ground arith
strip_prefix_iff (x ∷ p) (y ∷ s) r = ground (arith, strip_prefix_iff p s r)

text_eq-prefix :
    (p j k : Text)
    → text_eq j (p ++ k) ≡ elim (strip_prefix p j) [ none ↦ false | some key ↦ text_eq key k ]
unfolding strip_prefix text_eq
text_eq-prefix [] j k = refl
text_eq-prefix (x ∷ p) [] k = refl
text_eq-prefix (x ∷ p) (y ∷ j) k = ground (arith, text_eq-prefix p j k)

-- The metadata under a key is the annotation under the prefixed key.
pub get-metadata_entries :
    (k : Text) (m : Dict Text) → get k (metadata_entries m) ≡ get (metadata_prefix ++ k) m
unfolding metadata_entries get
get-metadata_entries k [] = refl
get-metadata_entries k ((j, v) ∷ m) = elim (Option-cases (strip_prefix metadata_prefix j)) [
  | inl absent ↦
      rw (text_eq-prefix metadata_prefix j k, absent, metadata_entries) (get-metadata_entries k m)
  | inr (key, found) ↦
      rw
        (text_eq-prefix metadata_prefix j k, found, metadata_entries, get, get-metadata_entries k m)
        refl
]

pub metadata_entries-IsUnique : (m : Dict Text) → IsUnique m → IsUnique (metadata_entries m)
unfolding metadata_entries
metadata_entries-IsUnique [] u = tt
metadata_entries-IsUnique ((j, v) ∷ m) (fresh, u) =
    elim (Option-cases (strip_prefix metadata_prefix j)) [
      | inl absent ↦ rw (absent, metadata_entries) (metadata_entries-IsUnique m u)
      | inr (key, found) ↦
          rw (found, metadata_entries, IsUnique)
            (
              get-metadata_entries key m
                  ∙ subst (λ i. get i m ≡ none) ((strip_prefix_iff metadata_prefix j key).0 found)
                      fresh,
              metadata_entries-IsUnique m u,
            )
    ]

text_eq-both : (p j k : Text) → text_eq (p ++ j) (p ++ k) ≡ text_eq j k
unfolding text_eq
text_eq-both [] j k = refl
text_eq-both (x ∷ p) j k = ground (arith, text_eq-both p j k)

abbrev pub first_some : {A : Type 0} → Option A → Option A → Option A
first_some last o = elim last [ some a ↦ some a | none ↦ o ]

foreign-differs :
    (key k : Text)
    → strip_prefix metadata_prefix k ≡ none
    → text_eq (metadata_prefix ++ key) k ≡ false
foreign-differs key k foreign =
    text_eq_symm (metadata_prefix ++ key) k
    ∙ text_eq-prefix metadata_prefix k key
    ∙ ap (λ o. elim o [ none ↦ false | some j ↦ text_eq j key ]) foreign

-- one more entry in front
inserted-last :
    (k key value : Text) (last new old : Option Text)
    → new ≡ (if text_eq key k then some value else old)
    → first_some last new
      ≡ first_some (first_some last (if text_eq key k then some value else none)) old
inserted-last k key value (some v) new old e = refl
inserted-last k key value none new old e = ground arith

module _ (show_debug : Text → Text) where
  collect_later :
      (key value : Text) (entries : List (Text × Text)) (out wanted : Dict Text)
      → collect_annotations show_debug ((key, value) ∷ entries) out ≡ ok wanted
      → collect_annotations show_debug entries (insert (metadata_prefix ++ key) value out)
        ≡ ok wanted
  unfolding collect_annotations
  collect_later key value entries out wanted h = ground arith

  -- the loop's result: sorted, and by key the last value of the entries, or what was there
  pub collect-get :
      (entries : List (Text × Text)) (out wanted : Dict Text)
      → IsSorted out
      → collect_annotations show_debug entries out ≡ ok wanted
      → IsSorted wanted
        × ((k : Text)
            → get (metadata_prefix ++ k) wanted ≡ elim (last_of k entries) [
              | some v ↦ some v
              | none ↦ get (metadata_prefix ++ k) out
            ])
        × ((k : Text) → strip_prefix metadata_prefix k ≡ none → get k wanted ≡ get k out)
  unfolding collect_annotations last_of
  collect-get [] out wanted s h =
      let same : out ≡ wanted = cc in
      (
        subst IsSorted same s,
        λ k. ap (λ m. get (metadata_prefix ++ k) m) (sym same),
        λ k _. ap (λ m. get k m) (sym same),
      )
  collect-get ((key, value) ∷ entries) out wanted s h =
      let later = collect_later key value entries out wanted h in
      let next = insert (metadata_prefix ++ key) value out in
      let (sorted, values, others) =
        collect-get entries next wanted (insert-IsSorted _ value out s) later in
      (
        sorted,
        λ k.
            values k
            ∙ inserted-last k key value (last_of k entries) (get (metadata_prefix ++ k) next)
                (get (metadata_prefix ++ k) out)
                (get-insert (metadata_prefix ++ key) (metadata_prefix ++ k) value out
                  ∙ ap (λ b. if b then some value else get (metadata_prefix ++ k) out)
                      (text_eq-both metadata_prefix key k)),
        λ k foreign.
            others k foreign
            ∙ get-insert (metadata_prefix ++ key) k value out
            ∙ ap (λ b. if b then some value else get k out) (foreign-differs key k foreign),
      )
