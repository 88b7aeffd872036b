-- ===== src/SyncDaemon/Calls.antt =====
-- What services/sync-daemon asks of Steam, of the cache of crates/steam-sync, and of Kubernetes.
use magpie.Prelude.{ℕ, Bool, Option, List, Text}
use magpie.Prelude.Prog.{Result, Prog}
use magpie.Crd.{ModSourcePhase}
use magpie.SteamSync.Synced.{SyncedModRow}

pub record ResolvedMod : Type 0 where
  pub mod_id : ℕ
  pub title : Text

-- `steam::ResolveOutcome`, its maps as functions
pub record ResolveOutcome : Type 0 where
  pub mods : List ResolvedMod
  pub unresolved : List ℕ
  pub candidate_titles : ℕ → Option Text
  pub candidate_is_collection : ℕ → Option Bool

pub record CollectionDetails : Type 0 where
  pub id : ℕ
  pub title : Text
  pub creator : ℕ
  pub children : List ℕ

-- a title, a description and a visibility
pub record Listing : Type 0 where
  pub title : Text
  pub description : Text
  pub visibility : ℕ

pub record ModSourceStatus : Type 0 where
  pub phase : ModSourcePhase
  pub kind : Text
  pub display_name : Text
  pub resolved_mod_ids : List ℕ
  pub size_bytes : ℕ
  pub message : Text

pub data Call : Type 0 where
  -- a connection of the pool, and the account that it is logged in as, if any
  acquire : Call
  mark_bad : Call
  resolve_source_ids : List ℕ → Call
  get_collection_details : ℕ → Call
  set_collection_children : ℕ → List ℕ → Call
  update_collection : ℕ → Listing → Call
  publish_collection : Listing → Call
  delete_collection : ℕ → Call
  upsert_source : Text → List ℕ → Call
  set_source_mods : Text → List ℕ → Call
  candidate_ids_for_source : Text → Call
  record_mod_title : ℕ → Text → Call
  list_synced_mods : Call
  delete_source : Text → Call
  -- the text behind a link, or in a file
  fetch_html : Text → Call
  patch_status : Text → ModSourceStatus → Call
  spawn_sync_content : Call

abbrev pub Reply : Call → Type 0
Reply acquire = Result Text (Option ℕ)
Reply mark_bad = Unit
Reply (resolve_source_ids ids) = Result Text ResolveOutcome
Reply (get_collection_details id) = Result Text CollectionDetails
Reply (set_collection_children id ids) = Result Text Unit
Reply (update_collection id listing) = Result Text Unit
Reply (publish_collection listing) = Result Text ℕ
Reply (delete_collection id) = Result Text Unit
Reply (upsert_source id ids) = Result Text Unit
Reply (set_source_mods id ids) = Result Text Unit
Reply (candidate_ids_for_source id) = Result Text (Option (List ℕ))
Reply (record_mod_title id title) = Unit
Reply list_synced_mods = List SyncedModRow
Reply (delete_source name) = Result Text Unit
Reply (fetch_html source) = Result Text Text
Reply (patch_status name status) = Result Text Unit
Reply spawn_sync_content = Unit

abbrev pub Fallible : Type 0 → Type 0
Fallible A = Prog Reply Text A
