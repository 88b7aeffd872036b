-- ===== src/SteamSync/Sources/Wanted.antt =====
-- Each source has the mods that it was last given: crates/steam-sync/src/cache.rs,
-- `set_source_mods` and `delete_source`.
use magpie.Prelude.{
  ℕ, ◌≡◌, refl, ◌∙◌, sym, none, Bool, true, false, not, ◌&&◌, ◌||◌, List, [], ◌∷◌, ◌++◌, Text,
  text_eq, text_eq_iff, text_eq_self, ◌==◌, if◌then◌else◌, arith, Bool-cases, inl, inr, ◌↔◌,
  or-cases, and-cases,
}
use magpie.SteamSync.Sources.{
  SourceMod, contains, distinct, difference, mod_ids_for_source, all_mod_ids, desired_mod_ids,
  insert_all, delete_row, delete_each, set_source_mods, delete_source_mods, delete_source,
}
use magpie.Prelude.Dict.{Dict, get, get-remove}

or_true : (b : Bool) → (b || true) ≡ true
or_true true = refl
or_true false = refl

-- The specification: a table is the relation that holds of a source and a mod.
unfoldable pub wants : List SourceMod → Text → ℕ → Bool
wants [] s id = false
wants ((r, i) ∷ rows) s id = text_eq r s && i == id || wants rows s id

contains-distinct : (id : ℕ) (ids : List ℕ) → contains id (distinct ids) ≡ contains id ids
unfolding distinct
contains-distinct id [] = refl
contains-distinct id (i ∷ ids) = ground (arith, contains-distinct id ids, contains-distinct i ids)

contains-difference :
    (id : ℕ) (ids others : List ℕ)
    → contains id (difference ids others) ≡ (contains id ids && not (contains id others))
unfolding difference
contains-difference id [] others = refl
contains-difference id (i ∷ ids) others = ground (arith, contains-difference id ids others)

contains-mod_ids :
    (s : Text) (id : ℕ) (rows : List SourceMod)
    → contains id (mod_ids_for_source s rows) ≡ wants rows s id
unfolding mod_ids_for_source wants
contains-mod_ids s id [] = refl
contains-mod_ids s id ((r, i) ∷ rows) = ground (arith, contains-mod_ids s id rows)

wants-append :
    (rows : List SourceMod) (r : Text) (i : ℕ) (s : Text) (id : ℕ)
    → wants (rows ++ (r, i) ∷ []) s id ≡ (wants rows s id || text_eq r s && i == id)
unfolding wants
wants-append [] r i s id = ground arith
wants-append ((q, j) ∷ rows) r i s id = ground (arith, wants-append rows r i s id)

wants-insert_all :
    (r : Text) (ids : List ℕ) (rows : List SourceMod) (s : Text) (id : ℕ)
    → wants (insert_all r ids rows) s id ≡ (wants rows s id || text_eq r s && contains id ids)
unfolding insert_all
wants-insert_all r [] rows s id = ground arith
wants-insert_all r (i ∷ ids) rows s id =
    ground (arith, wants-insert_all r ids (rows ++ (r, i) ∷ []) s id, wants-append rows r i s id)

wants-delete_row :
    (r : Text) (i : ℕ) (rows : List SourceMod) (s : Text) (id : ℕ)
    → wants (delete_row r i rows) s id ≡ (wants rows s id && not (text_eq r s && i == id))
unfolding delete_row wants
wants-delete_row r i [] s id = refl
wants-delete_row r i ((q, j) ∷ rows) s id =
    ground
      (arith, wants-delete_row r i rows s id, text_eq_iff q r, text_eq_iff q s, text_eq_iff r s)

wants-delete_each :
    (r : Text) (ids : List ℕ) (rows : List SourceMod) (s : Text) (id : ℕ)
    → wants (delete_each r ids rows) s id
      ≡ (wants rows s id && not (text_eq r s && contains id ids))
unfolding delete_each
wants-delete_each r [] rows s id = ground arith
wants-delete_each r (i ∷ ids) rows s id =
    ground
      (arith, wants-delete_each r ids (delete_row r i rows) s id, wants-delete_row r i rows s id)

wants-delete_source_mods :
    (r : Text) (rows : List SourceMod) (s : Text) (id : ℕ)
    → wants (delete_source_mods r rows) s id ≡ (wants rows s id && not (text_eq r s))
unfolding delete_source_mods wants
wants-delete_source_mods r [] s id = refl
wants-delete_source_mods r ((q, j) ∷ rows) s id =
    ground (
      arith,
      wants-delete_source_mods r rows s id,
      text_eq_iff q r,
      text_eq_iff q s,
      text_eq_iff r s,
    )

-- The table refines the relation: after `set_source_mods` the source wants exactly the mods given,
-- as `mod_ids_for_source` lists them, and every other source what it wanted before; after
-- `delete_source` the source wants nothing and has no row of its own, and every other source has
-- its row and wants what it wanted before.
pub set_source_mods-wants :
    (source_id : Text) (mod_ids : List ℕ) (sources : Dict Text) (rows : List SourceMod) (s : Text)
    (id : ℕ)
    → (contains id (mod_ids_for_source s (set_source_mods source_id mod_ids rows)) ≡ (
        if text_eq source_id s
        then contains id mod_ids
        else contains id (mod_ids_for_source s rows)))
      × (contains id (mod_ids_for_source s (delete_source source_id (sources, rows)).1)
          ≡ (if text_eq source_id s then false else contains id (mod_ids_for_source s rows)))
      × (get s (delete_source source_id (sources, rows)).0
          ≡ (if text_eq source_id s then none else get s sources))
unfolding set_source_mods delete_source
set_source_mods-wants source_id mod_ids sources rows s id =
    let existing = distinct (mod_ids_for_source source_id rows) in
    let wanted = distinct mod_ids in
    let more = difference wanted existing in
    let less = difference existing wanted in
    ground (
      arith,
      text_eq_iff source_id s,
      contains-distinct id mod_ids,
      contains-distinct id (mod_ids_for_source source_id rows),
      contains-difference id wanted existing,
      contains-difference id existing wanted,
      contains-mod_ids source_id id rows,
      contains-mod_ids s id rows,
      contains-mod_ids s id (delete_each source_id less (insert_all source_id more rows)),
      wants-delete_each source_id less (insert_all source_id more rows) s id,
      wants-insert_all source_id more rows s id,
      contains-mod_ids s id (delete_source_mods source_id rows),
      wants-delete_source_mods source_id rows s id,
      get-remove source_id s sources,
    )

contains-all_mod_ids :
    (id : ℕ) (rows : List SourceMod)
    → (contains id (all_mod_ids rows) ≡ true) ↔ ((s : Text) × (wants rows s id ≡ true))
unfolding all_mod_ids wants
contains-all_mod_ids id [] = (λ h. absurd (cc), λ (s, h). absurd (cc))
contains-all_mod_ids id ((r, i) ∷ rows) = (
  λ h. elim (or-cases (i == id) (contains id (all_mod_ids rows)) h) [
    | inl same ↦ (r, rw (text_eq_self r, same) refl)
    | inr later ↦ let (s, w) = (contains-all_mod_ids id rows).0 later in (s, rw w (or_true _))
  ],
  λ (s, h). elim (or-cases (text_eq r s && i == id) (wants rows s id) h) [
    | inl both ↦ rw ((and-cases (text_eq r s) (i == id) both).1) refl
    | inr later ↦ rw ((contains-all_mod_ids id rows).1 (s, later)) (or_true _)
  ],
)

-- Nothing twice.
abbrev pub IsDistinct : List ℕ → Type 0
IsDistinct [] = Unit
IsDistinct (id ∷ ids) = (contains id ids ≡ false) × IsDistinct ids

distinct-IsDistinct : (ids : List ℕ) → IsDistinct (distinct ids)
unfolding distinct
distinct-IsDistinct [] = tt
distinct-IsDistinct (id ∷ ids) =
    let rest = distinct-IsDistinct ids in
    elim (Bool-cases (contains id (distinct ids))) [
      | inl held ↦ rw held rest
      | inr fresh ↦ rw fresh (fresh, rest)
    ]

-- A mod is desired exactly if some source wants it, and is listed once.
pub desired_mod_ids_iff :
    (rows : List SourceMod) (id : ℕ)
    → ((contains id (desired_mod_ids rows) ≡ true)
        ↔ ((s : Text) × (contains id (mod_ids_for_source s rows) ≡ true)))
      × IsDistinct (desired_mod_ids rows)
unfolding desired_mod_ids
desired_mod_ids_iff rows id =
    let same = contains-distinct id (all_mod_ids rows) in
    let found = contains-all_mod_ids id rows in
    (
      (
        λ h. let (s, w) = found.0 (sym same ∙ h) in (s, contains-mod_ids s id rows ∙ w),
        λ (s, h). same ∙ found.1 (s, sym (contains-mod_ids s id rows) ∙ h),
      ),
      distinct-IsDistinct (all_mod_ids rows),
    )
