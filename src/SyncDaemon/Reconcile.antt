-- ===== src/SyncDaemon/Reconcile.antt =====
-- services/sync-daemon/src/reconcile.rs: one pass over a mod source.
use magpie.Prelude.{
  ℕ, Bool, true, false, ◌&&◌, Option, none, some, List, [], ◌∷◌, ◌++◌, Text, codes, text_eq, leb,
  ◌==◌, if◌then◌else◌, unwrap_or,
}
use magpie.Prelude.Prog.{Result, ok, err, pure, fail, ◌>>=◌, ◌>>◌, lift, request, attempt}
use magpie.Crd.{
  ModSourceInput, steam_url, html_url, html_content, local, ModSourcePhase, pending, resolving,
  synced, failed,
}
use magpie.SteamSync.Synced.{SyncedModRow, find_mod, sum}
use magpie.Workshop.{extract_single_id, parse_preset_html}
use magpie.SyncDaemon.Calls.{
  ModSourceStatus, Fallible, list_synced_mods, delete_source, fetch_html, patch_status,
  spawn_sync_content,
}
use magpie.SyncDaemon.Service.{RegisterSourceOutcome, register_source, mod_ids_of}

pub record ModSource : Type 0 where
  pub name : Text
  pub source : ModSourceInput
  pub status : Option ModSourceStatus

pub data Action : Type 0 where
  await_change : Action
  -- after so many seconds
  requeue : ℕ → Action

abbrev pub fast_requeue : ℕ
fast_requeue = 5

abbrev is_synced : ModSourcePhase → Bool
is_synced synced = true
is_synced _ = false

abbrev pub same_phase : ModSourcePhase → ModSourcePhase → Bool
same_phase pending pending = true
same_phase resolving resolving = true
same_phase synced synced = true
same_phase failed failed = true
same_phase _ _ = false

unfoldable pub same_ids : List ℕ → List ℕ → Bool
same_ids [] [] = true
same_ids (i ∷ is) (j ∷ js) = i == j && same_ids is js
same_ids _ _ = false

-- `PartialEq`, derived
unfoldable pub status_eq : ModSourceStatus → ModSourceStatus → Bool
unfolding same_ids
status_eq a b =
    same_phase a.phase b.phase
    && (text_eq a.kind b.kind
        && (text_eq a.display_name b.display_name
            && (same_ids a.resolved_mod_ids b.resolved_mod_ids
                && (a.size_bytes == b.size_bytes && text_eq a.message b.message))))

unfoldable pub is_unchanged : Option ModSourceStatus → ModSourceStatus → Bool
is_unchanged none status = false
is_unchanged (some current) status = status_eq current status

-- `sort_unstable`, of numbers
unfoldable pub insert_id : ℕ → List ℕ → List ℕ
insert_id id [] = id ∷ []
insert_id id (i ∷ ids) = let rest = insert_id id ids in if leb id i then id ∷ i ∷ ids else i ∷ rest

unfoldable pub sort_ids : List ℕ → List ℕ
unfolding insert_id
sort_ids [] = []
sort_ids (id ∷ ids) = insert_id id (sort_ids ids)

unfoldable pub sizes_of : List ℕ → List SyncedModRow → List ℕ
sizes_of [] rows = []
sizes_of (id ∷ ids) rows =
    let rest = sizes_of ids rows in
    elim (find_mod id rows) [ none ↦ rest | some m ↦ m.size_bytes ∷ rest ]

unfoldable pub set_status : ModSource → ModSourceStatus → Fallible Unit
unfolding ◌>>=◌ is_unchanged
set_status obj status =
    if is_unchanged obj.status status
    then pure tt
    else request (patch_status obj.name status) >>= lift

abbrev is_collection : Option Bool → Bool
is_collection (some true) = true
is_collection _ = false

unfoldable pub kind_of : Option Text → Option Bool → Text
kind_of hint root_is_collection =
    unwrap_or hint (if is_collection root_is_collection then codes "collection" else codes "mod")

unfoldable pub synced_status :
    Option Text → RegisterSourceOutcome → List SyncedModRow → ModSourceStatus
unfolding kind_of sort_ids sizes_of
synced_status kind_hint outcome rows =
    let ids = sort_ids (mod_ids_of outcome.mods) in
    record {
      phase = synced;
      kind = kind_of kind_hint outcome.root_is_collection;
      display_name = outcome.root_title;
      resolved_mod_ids = ids;
      size_bytes = sum (sizes_of ids rows);
      message = [];
    }

unfoldable pub failed_status : Text → ModSourceStatus
failed_status e = record {
  phase = failed;
  kind = [];
  display_name = [];
  resolved_mod_ids = [];
  size_bytes = 0;
  message = e;
}

unfoldable pub was_already_synced : ModSource → Bool
was_already_synced obj = elim obj.status [ none ↦ false | some s ↦ is_synced s.phase ]

module _ (is_digit : ℕ → Bool) (is_transient : Text → Bool) (drift_requeue : ℕ) where
  -- `workshop_parse::extract_candidate_ids`: the id of the link itself, or those behind it
  unfoldable pub ids_behind : Text → Option ℕ → Fallible (List ℕ)
  unfolding ◌>>=◌
  ids_behind mod_source (some id) = pure (id ∷ [])
  ids_behind mod_source none = do
    reply ← request (fetch_html mod_source)
    html ← lift reply
    pure (parse_preset_html is_digit html)

  unfoldable pub extract_candidate_ids : Text → Fallible (List ℕ)
  unfolding ids_behind
  extract_candidate_ids mod_source = ids_behind mod_source (extract_single_id is_digit mod_source)

  unfoldable pub some_links : List ℕ → Result Text (List ℕ)
  some_links [] = err (codes "no filedetails links found in html_content")
  some_links (id ∷ ids) = ok (id ∷ ids)

  unfoldable pub one_link : Text → Option ℕ → Result Text (List ℕ)
  one_link url none = err (codes "not a recognizable Workshop filedetails URL: " ++ url)
  one_link url (some id) = ok (id ∷ [])

  -- The candidates of a source, and what kind it is sure to be.
  unfoldable pub candidates : ModSourceInput → Fallible (List ℕ × Option Text)
  unfolding ◌>>=◌ extract_candidate_ids some_links one_link
  candidates (steam_url url) = do
    ids ← lift (one_link url (extract_single_id is_digit url))
    pure (ids, none)
  candidates (html_url url) = do ids ← extract_candidate_ids url; pure (ids, some (codes "preset"))
  candidates (html_content html) = do
    ids ← lift (some_links (parse_preset_html is_digit html))
    pure (ids, some (codes "preset"))
  candidates (local unique_id) = fail (codes "unreachable")

  -- behind the registering
  unfoldable pub report :
      ModSource → Option Text → Result Text RegisterSourceOutcome → Fallible Action
  unfolding ◌>>=◌ set_status synced_status failed_status was_already_synced
  report obj kind_hint (ok outcome) = do
    rows ← request list_synced_mods
    set_status obj (synced_status kind_hint outcome rows)
    if was_already_synced obj then pure tt else request spawn_sync_content
    pure (requeue drift_requeue)
  report obj kind_hint (err e) = do set_status obj (failed_status e); pure (requeue fast_requeue)

  unfoldable pub resolve : ModSource → Fallible Action
  unfolding ◌>>=◌ candidates attempt report
  resolve obj = do
    found ← candidates obj.source
    result ← attempt (register_source is_transient (found.0) obj.name)
    report obj (found.1) result

  -- by the kind of source
  unfoldable pub apply_input : ModSource → ModSourceInput → Fallible Action
  unfolding resolve
  apply_input obj (local unique_id) = pure await_change
  apply_input obj _ = resolve obj

  unfoldable pub apply : ModSource → Fallible Action
  unfolding apply_input
  apply obj = apply_input obj obj.source

  unfoldable pub cleanup : ModSource → Fallible Action
  unfolding ◌>>=◌
  cleanup obj = elim obj.source [
    | local unique_id ↦ pure await_change
    | _ ↦ request (delete_source obj.name) >>= λ reply. lift reply >> pure await_change
  ]

  unfoldable pub error_policy : Text → Action
  error_policy e = requeue drift_requeue
