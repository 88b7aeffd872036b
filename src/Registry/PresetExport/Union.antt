-- ===== src/Registry/PresetExport/Union.antt =====
-- The mods of a preset: services/registry/src/service/preset_export.rs, `plan`.
use magpie.Prelude.{
  ℕ, ◌≡◌, refl, ◌∙◌, Bool, true, false, List, [], ◌∷◌, Text, text_eq, text_eq_iff, any, arith,
  Bool-cases, inl, inr, subst, sym, none, some, Option, All, ◌↔◌, or-cases, ◌⊎◌,
}
use mathlib.Core.List.{Memᴰ}
use magpie.Crd.{ModSourceInput, local, steam_url, html_url, html_content}
use magpie.SyncDaemon.Calls.{ModSourceStatus}
use magpie.SteamSync.Sources.{contains}
use magpie.SteamSync.Sources.Wanted.{IsDistinct}
use magpie.SyncDaemon.Reconcile.{ModSource}
use magpie.Registry.PresetExport.{by_name, classify, by_input, ids_found, resolved_ids, plan}
use magpie.Registry.PresetExport.Offered.{mods_of, plan_from-offered, plan_from-IsDistinct}

-- The source of a name: the last one of a list that has it.
pub data IsNamed (name : Text) (source : ModSource) : List ModSource → Type 0 where
  last :
      {sources : List ModSource}
      → source.name ≡ name
      → All (λ other. text_eq other.name name ≡ false) sources
      → IsNamed name source (source ∷ sources)
  later :
      {other : ModSource} {sources : List ModSource}
      → IsNamed name source sources
      → IsNamed name source (other ∷ sources)

abbrev pub IsLocal : ModSourceInput → Type 0
IsLocal (local unique_id) = Unit
IsLocal _ = ⊥

-- A source that is no local one, and whose status has the mod.
abbrev pub HasMod : ℕ → ModSource → Type 0
HasMod id source =
    ¬ IsLocal source.source
    × ((status : ModSourceStatus) × (source.status ≡ some status)
        × (contains id status.resolved_mod_ids ≡ true))

-- what a name is looked up as
by_name-cases :
    (name : Text) (sources : List ModSource)
    → ((by_name name sources ≡ none) × All (λ other. text_eq other.name name ≡ false) sources)
      ⊎ ((source : ModSource) × (by_name name sources ≡ some source) × IsNamed name source sources)
unfolding by_name
by_name-cases name [] = inl (refl, tt)
by_name-cases name (s ∷ sources) = elim (by_name-cases name sources) [
  | inr (source, is, named) ↦ inr (source, rw (is, by_name) refl, later named)
  | inl (is, others) ↦ elim (Bool-cases (text_eq s.name name)) [
    | inl same ↦
        inr (s, rw (is, same, by_name) refl, last ((text_eq_iff s.name name).0 same) others)
    | inr differs ↦ inl (rw (is, differs, by_name) refl, (differs, others))
  ]
]

All-by_name :
    (name : Text) (sources : List ModSource)
    → All (λ other. text_eq other.name name ≡ false) sources
    → by_name name sources ≡ none
unfolding by_name
All-by_name name [] others = refl
All-by_name name (s ∷ sources) (differs, others) =
    rw (All-by_name name sources others, differs) refl

IsNamed-by_name :
    (name : Text) (source : ModSource) (sources : List ModSource)
    → IsNamed name source sources
    → by_name name sources ≡ some source
unfolding by_name
IsNamed-by_name name source _ (last {sources} same others) =
    rw (All-by_name name sources others, (text_eq_iff source.name name).1 same, by_name) refl
IsNamed-by_name name source _ (later {other} {sources} named) =
    rw (IsNamed-by_name name source sources named, by_name) refl

mods_of-ids_found : (ids : List ℕ) → mods_of (ids_found ids) ≡ ids
mods_of-ids_found [] = refl
mods_of-ids_found (id ∷ ids) = refl

resolved_iff :
    (id : ℕ) (s : ModSource) (o : Option ModSourceStatus)
    → s.status ≡ o
    → (contains id (elim o [ none ↦ [] | some status ↦ status.resolved_mod_ids ]) ≡ true) ↔ (
        (status : ModSourceStatus) × (s.status ≡ some status)
        × (contains id status.resolved_mod_ids ≡ true))
resolved_iff id s none same = (λ h. absurd (cc), λ (status, is, h). absurd (cc))
resolved_iff id s (some status) same = (λ h. (status, same, h), λ (status', is, h). cc)

found_iff :
    (id : ℕ) (s : ModSource)
    → (contains id (mods_of (ids_found (resolved_ids s))) ≡ true) ↔ (
        (status : ModSourceStatus) × (s.status ≡ some status)
        × (contains id status.resolved_mod_ids ≡ true))
found_iff id s = rw (mods_of-ids_found (resolved_ids s)) (resolved_iff id s s.status refl)

by_input_iff :
    (id : ℕ) (s : ModSource) (input : ModSourceInput)
    → (contains id (mods_of (by_input s input)) ≡ true) ↔ (
        ¬ IsLocal input
        × ((status : ModSourceStatus) × (s.status ≡ some status)
            × (contains id status.resolved_mod_ids ≡ true)))
by_input_iff id s (local unique_id) = (λ h. absurd (cc), λ (remote, h). absurd (remote tt))
by_input_iff id s (steam_url url) =
    (λ h. ((λ l. l), (found_iff id s).0 h), λ (remote, h). (found_iff id s).1 h)
by_input_iff id s (html_url url) =
    (λ h. ((λ l. l), (found_iff id s).0 h), λ (remote, h). (found_iff id s).1 h)
by_input_iff id s (html_content html) =
    (λ h. ((λ l. l), (found_iff id s).0 h), λ (remote, h). (found_iff id s).1 h)

-- what one requested name contributes
classify_iff :
    (id : ℕ) (name : Text) (sources : List ModSource)
    → (contains id (mods_of (classify (by_name name sources))) ≡ true)
      ↔ ((source : ModSource) × IsNamed name source sources × HasMod id source)
unfolding classify
classify_iff id name sources = (
  λ h. elim (by_name-cases name sources) [
    | inl (is, others) ↦
        (let never : false ≡ true = subst (λ o. contains id (mods_of (classify o)) ≡ true) is h in
          absurd (cc))
    | inr (source, is, named) ↦ (
      source,
      named,
      (by_input_iff id source source.source).0
          (subst (λ o. contains id (mods_of (classify o)) ≡ true) is h),
    )
  ],
  λ (source, named, has).
      rw (IsNamed-by_name name source sources named) ((by_input_iff id source source.source).1 has),
)

any_mem :
    (P : Text → Bool) (name : Text) (names : List Text)
    → Memᴰ name names
    → P name ≡ true
    → any P names ≡ true
any_mem P name [] m h = elim m [ ]
any_mem P name (n ∷ names) (Memᴰ.head same) h =
    let first : P n ≡ true = subst (λ x. P x ≡ true) same h in rw first refl
any_mem P name (n ∷ names) (Memᴰ.tail m) h = let rest = any_mem P name names m h in ground arith

any_iff :
    (P : Text → Bool) (names : List Text)
    → (any P names ≡ true) ↔ ((name : Text) × Memᴰ name names × (P name ≡ true))
any_iff P [] = (λ h. absurd (cc), λ (name, m, h). any_mem P name [] m h)
any_iff P (n ∷ names) = (
  λ h. elim (or-cases (P n) (any P names) h) [
    | inl first ↦ (n, Memᴰ.head refl, first)
    | inr rest ↦ let (name, m, holds) = (any_iff P names).0 rest in (name, Memᴰ.tail m, holds)
  ],
  λ (name, m, h). any_mem P name (n ∷ names) m h,
)

-- A mod is in a plan exactly if a requested name is that of a source (the last one
-- that has it) which is not local, and whose status has the mod among those
-- resolved; and no mod is in a plan twice.
pub plan_iff :
    (requested : List Text) (sources : List ModSource) (id : ℕ)
    → ((contains id (plan requested sources).mod_ids ≡ true) ↔ (
        (name : Text) × Memᴰ name requested
        × ((source : ModSource) × IsNamed name source sources × HasMod id source)))
      × IsDistinct (plan requested sources).mod_ids
unfolding plan
plan_iff requested sources id =
    let find = λ (s : Text). classify (by_name s sources) in
    let offered_by = plan_from-offered find [] [] requested id in
    let some_has = any_iff (λ s. contains id (mods_of (find s))) requested in
    (
      (
        λ h.
            let (name, m, has) = some_has.0 (sym offered_by ∙ h) in
            (name, m, (classify_iff id name sources).0 has),
        λ (name, m, has). offered_by ∙ some_has.1 (name, m, (classify_iff id name sources).1 has),
      ),
      plan_from-IsDistinct find [] [] requested,
    )
