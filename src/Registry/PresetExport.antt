-- ===== src/Registry/PresetExport.antt =====
-- services/registry/src/service/preset_export.rs: what a preset is made of.
mod Offered
pub mod Union
use magpie.Prelude.{
  ℕ, Bool, true, false, not, ◌&&◌, ◌||◌, Option, none, some, List, [], ◌∷◌, ◌++◌, Text, codes,
  text_eq, text_lt, trim, is_empty, any, ◌==◌, leb, ltb, if◌then◌else◌, decimal,
}
use magpie.Crd.{ModSourceInput, local}
use magpie.SteamSync.Sources.{contains}
use magpie.SyncDaemon.Reconcile.{ModSource}

pub record ExportPlan : Type 0 where
  pub mod_ids : List ℕ
  pub skipped_local : List Text
  pub missing : List Text
  pub unresolved : List Text

-- What a requested source turns out to be.
pub data Found : Type 0 where
  is_missing is_local is_unresolved : Found
  is_resolved : List ℕ → Found

-- `collect` into a map by name: the last of a name stands
unfoldable pub by_name : Text → List ModSource → Option ModSource
by_name name [] = none
by_name name (s ∷ sources) = elim (by_name name sources) [
  | some later ↦ some later
  | none ↦ if text_eq s.name name then some s else none
]

abbrev pub ids_found : List ℕ → Found
ids_found [] = is_unresolved
ids_found (id ∷ ids) = is_resolved (id ∷ ids)

abbrev pub resolved_ids : ModSource → List ℕ
resolved_ids s = elim s.status [ none ↦ [] | some status ↦ status.resolved_mod_ids ]

abbrev pub by_input : ModSource → ModSourceInput → Found
by_input s (local unique_id) = is_local
by_input s _ = ids_found (resolved_ids s)

unfoldable pub classify : Option ModSource → Found
classify none = is_missing
classify (some s) = by_input s s.source

-- `filter(|m| seen_mods.insert(*m))`
unfoldable pub fresh : List ℕ → List ℕ → List ℕ
fresh seen [] = []
fresh seen (m ∷ mods) = elim (contains m seen) [
  | true ↦ fresh seen mods
  | false ↦ m ∷ fresh (m ∷ seen) mods
]

-- the loop, with the sources and the mods seen before
unfoldable pub plan_from : (Text → Found) → List Text → List ℕ → List Text → ExportPlan
unfolding fresh
plan_from find seen_sources seen_mods [] = record {
  mod_ids = [];
  skipped_local = [];
  missing = [];
  unresolved = [];
}
plan_from find seen_sources seen_mods (id ∷ requested) =
    elim (any (λ s. text_eq s id) seen_sources) [
      | true ↦ plan_from find seen_sources seen_mods requested
      | false ↦ elim (find id) [
        | is_missing ↦
            let rest = plan_from find (id ∷ seen_sources) seen_mods requested in
            record rest { missing = id ∷ rest.missing }
        | is_local ↦
            let rest = plan_from find (id ∷ seen_sources) seen_mods requested in
            record rest { skipped_local = id ∷ rest.skipped_local }
        | is_unresolved ↦
            let rest = plan_from find (id ∷ seen_sources) seen_mods requested in
            record rest { unresolved = id ∷ rest.unresolved }
        | is_resolved mods ↦
            let new = fresh seen_mods mods in
            let rest = plan_from find (id ∷ seen_sources) (new ++ seen_mods) requested in
            record rest { mod_ids = new ++ rest.mod_ids }
      ]
    ]

unfoldable pub plan : List Text → List ModSource → ExportPlan
unfolding by_name classify plan_from
plan requested sources = plan_from (λ id. classify (by_name id sources)) [] [] requested

-- A title that can be shown.
unfoldable pub usable : Option Text → Option Text
usable none = none
usable (some t) = if is_empty (trim t) then none else some t

unfoldable pub titled : List ℕ → (ℕ → Option Text) → List (ℕ × Text)
unfolding usable
titled [] known = []
titled (id ∷ ids) known =
    (id, elim (usable (known id)) [ some t ↦ t | none ↦ codes "Workshop item " ++ decimal id ])
    ∷ titled ids known

unfoldable pub untitled : List ℕ → (ℕ → Option Text) → List ℕ
unfolding usable
untitled [] known = []
untitled (id ∷ ids) known =
    let rest = untitled ids known in elim (usable (known id)) [ some t ↦ rest | none ↦ id ∷ rest ]

-- The name, or a default.
unfoldable pub preset_name : Text → Text
preset_name requested = if is_empty (trim requested) then codes "magpie" else trim requested

-- The order of the Launcher: by the title in lower case, and then by the id.
module _ (to_lowercase : Text → Text) where
  unfoldable pub is_before : ℕ × Text → ℕ × Text → Bool
  is_before (a_id, a) (b_id, b) =
      text_lt (to_lowercase a) (to_lowercase b)
      || text_eq (to_lowercase a) (to_lowercase b) && leb a_id b_id

  unfoldable pub place_mod : ℕ × Text → List (ℕ × Text) → List (ℕ × Text)
  unfolding is_before
  place_mod m [] = m ∷ []
  place_mod m (n ∷ mods) =
      let rest = place_mod m mods in if is_before m n then m ∷ n ∷ mods else n ∷ rest

  unfoldable pub launcher_order : List (ℕ × Text) → List (ℕ × Text)
  unfolding place_mod
  launcher_order [] = []
  launcher_order (m ∷ mods) = place_mod m (launcher_order mods)
