-- ===== src/Registry/PresetExport/Offered.antt =====
-- What a preset is offered by its sources: services/registry/src/service/preset_export.rs, the loop
-- of `plan`.
use magpie.Prelude.{
  ℕ, ◌≡◌, refl, ◌∙◌, Bool, true, false, not, ◌&&◌, ◌||◌, List, [], ◌∷◌, ◌++◌, Text, text_eq,
  text_eq_iff, any, arith, Bool-cases, inl, inr, subst,
}
use magpie.SteamSync.Sources.{contains}
use magpie.SteamSync.Sources.Wanted.{IsDistinct}
use magpie.Registry.PresetExport.{
  Found, is_missing, is_local, is_unresolved, is_resolved, fresh, plan_from,
}

-- The specification: what a source contributes.
abbrev pub mods_of : Found → List ℕ
mods_of (is_resolved mods) = mods
mods_of _ = []

contains-append : (id : ℕ) (a b : List ℕ) → contains id (a ++ b) ≡ (contains id a || contains id b)
contains-append id [] b = refl
contains-append id (m ∷ a) b = ground (arith, contains-append id a b)

contains-fresh :
    (id : ℕ) (seen mods : List ℕ)
    → contains id (fresh seen mods) ≡ (not (contains id seen) && contains id mods)
unfolding fresh
contains-fresh id seen [] = ground arith
contains-fresh id seen (m ∷ mods) = elim (Bool-cases (contains m seen)) [
  | inl known ↦ rw (known, fresh) (ground (arith, contains-fresh id seen mods))
  | inr new ↦ rw (new, fresh) (ground (arith, contains-fresh id (m ∷ seen) mods))
]

-- What the sources of a list contribute, but for those seen before.
abbrev pub offered : (Text → Found) → List Text → ℕ → List Text → Bool
offered find seen id requested =
    any (λ s. not (any (λ t. text_eq t s) seen) && contains id (mods_of (find s))) requested

-- a source that contributes nothing may be seen or not
offered-cons :
    (find : Text → Found) (seen : List Text) (id : ℕ) (s : Text) (requested : List Text)
    → contains id (mods_of (find s)) ≡ false
    → offered find (s ∷ seen) id requested ≡ offered find seen id requested
offered-cons find seen id s [] nothing = refl
offered-cons find seen id s (r ∷ requested) nothing =
    let rest = offered-cons find seen id s requested nothing in
    elim (Bool-cases (text_eq s r)) [
      | inr differs ↦ rw (differs, rest) refl
      | inl same ↦
          let is_r = (text_eq_iff s r).0 same in
          let nothing_r = subst (λ x. contains id (mods_of (find x)) ≡ false) is_r nothing in
          rw (nothing_r, rest) (ground arith)
    ]

module _ (find : Text → Found) (seen : List Text) (mods : List ℕ) (s : Text) (requested : List Text)
    (id : ℕ)
    (later : (m : List ℕ)
      → contains id (plan_from find (s ∷ seen) m requested).mod_ids
        ≡ (not (contains id m) && offered find (s ∷ seen) id requested)) where
  -- either the source has the mod, or the later ones are offered it as before
  offered-first :
      (contains id (mods_of (find s)) || offered find (s ∷ seen) id requested)
      ≡ (contains id (mods_of (find s)) || offered find seen id requested)
  offered-first = elim (Bool-cases (contains id (mods_of (find s)))) [
    | inl has ↦ rw has refl
    | inr nothing ↦ rw (nothing, offered-cons find seen id s requested nothing) refl
  ]

  first :
      {found : Found}
      → find s ≡ found
      → (contains id (mods_of found) || offered find (s ∷ seen) id requested)
        ≡ (contains id (mods_of found) || offered find seen id requested)
  first is_found =
      subst
        (λ f.
          (contains id (mods_of f) || offered find (s ∷ seen) id requested)
          ≡ (contains id (mods_of f) || offered find seen id requested))
        is_found offered-first

  plan_from-new :
      (found : Found)
      → find s ≡ found
      → any (λ t. text_eq t s) seen ≡ false
      → contains id (plan_from find seen mods (s ∷ requested)).mod_ids
        ≡ (not (contains id mods) && offered find seen id (s ∷ requested))
  unfolding plan_from
  plan_from-new (is_resolved theirs) is_found new =
      let added = fresh mods theirs in
      rw
        (
          new,
          is_found,
          plan_from,
          contains-append id added (plan_from find (s ∷ seen) (added ++ mods) requested).mod_ids,
          later (added ++ mods),
          contains-append id added mods,
          contains-fresh id mods theirs,
        )
        (ground (arith, first is_found))
  plan_from-new is_missing is_found new =
      rw (new, is_found, plan_from, later mods) (ground (arith, first is_found))
  plan_from-new is_local is_found new =
      rw (new, is_found, plan_from, later mods) (ground (arith, first is_found))
  plan_from-new is_unresolved is_found new =
      rw (new, is_found, plan_from, later mods) (ground (arith, first is_found))

pub plan_from-offered :
    (find : Text → Found) (seen : List Text) (mods : List ℕ) (requested : List Text) (id : ℕ)
    → contains id (plan_from find seen mods requested).mod_ids
      ≡ (not (contains id mods) && offered find seen id requested)
unfolding plan_from
plan_from-offered find seen mods [] id = ground arith
plan_from-offered find seen mods (s ∷ requested) id =
    elim (Bool-cases (any (λ t. text_eq t s) seen)) [
      | inl known ↦ rw (known, plan_from) (plan_from-offered find seen mods requested id)
      | inr new ↦
          plan_from-new find seen mods s requested id
            (λ m. plan_from-offered find (s ∷ seen) m requested id) (find s) refl new
    ]

fresh-IsDistinct : (seen mods : List ℕ) → IsDistinct (fresh seen mods)
unfolding fresh
fresh-IsDistinct seen [] = tt
fresh-IsDistinct seen (m ∷ mods) = elim (Bool-cases (contains m seen)) [
  | inl known ↦ rw (known, fresh) (fresh-IsDistinct seen mods)
  | inr new ↦
      let once = contains-fresh m (m ∷ seen) mods in
      rw (new, fresh) (ground (arith, once), fresh-IsDistinct (m ∷ seen) mods)
]

append-IsDistinct :
    (a b : List ℕ)
    → IsDistinct a
    → IsDistinct b
    → ((id : ℕ) → contains id a ≡ true → contains id b ≡ false)
    → IsDistinct (a ++ b)
append-IsDistinct [] b (_) b_once apart = b_once
append-IsDistinct (m ∷ a) b (m_once, a_once) b_once apart = (
  contains-append m a b ∙ rw (m_once, apart m (ground arith)) refl,
  append-IsDistinct a b a_once b_once (λ id is_in. apart id (ground (arith, is_in))),
)

module _ (find : Text → Found) (seen : List Text) (s : Text) (requested : List Text)
    (later : (m : List ℕ) → IsDistinct (plan_from find (s ∷ seen) m requested).mod_ids) where
  plan_from-new-IsDistinct :
      (found : Found)
      → find s ≡ found
      → any (λ t. text_eq t s) seen ≡ false
      → (mods : List ℕ) → IsDistinct (plan_from find seen mods (s ∷ requested)).mod_ids
  unfolding plan_from
  plan_from-new-IsDistinct is_missing is_found new mods = rw (new, is_found, plan_from) (later mods)
  plan_from-new-IsDistinct is_local is_found new mods = rw (new, is_found, plan_from) (later mods)
  plan_from-new-IsDistinct is_unresolved is_found new mods =
      rw (new, is_found, plan_from) (later mods)
  plan_from-new-IsDistinct (is_resolved theirs) is_found new mods =
      let added = fresh mods theirs in
      rw (new, is_found, plan_from)
        (append-IsDistinct added (plan_from find (s ∷ seen) (added ++ mods) requested).mod_ids
          (fresh-IsDistinct mods theirs) (later (added ++ mods))
          (λ id is_in.
            plan_from-offered find (s ∷ seen) (added ++ mods) requested id
            ∙ rw (contains-append id added mods, is_in) refl))

pub plan_from-IsDistinct :
    (find : Text → Found) (seen : List Text) (mods : List ℕ) (requested : List Text)
    → IsDistinct (plan_from find seen mods requested).mod_ids
unfolding plan_from
plan_from-IsDistinct find seen mods [] = tt
plan_from-IsDistinct find seen mods (s ∷ requested) =
    elim (Bool-cases (any (λ t. text_eq t s) seen)) [
      | inl known ↦ rw (known, plan_from) (plan_from-IsDistinct find seen mods requested)
      | inr new ↦
          plan_from-new-IsDistinct find seen s requested
            (λ m. plan_from-IsDistinct find (s ∷ seen) m requested) (find s) refl new mods
    ]
