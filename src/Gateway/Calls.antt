-- ===== src/Gateway/Calls.antt =====
-- What services/gateway/src/service.rs asks of the Kubernetes API and of sync-daemon.
use magpie.Prelude.{ℕ, Bool, Option, List, Text}
use magpie.Prelude.Dict.{Dict}
use magpie.Prelude.Prog.{Result, Prog}
use magpie.Crd.{ArmaServer, ArmaServerPhase, DesiredState, ModSource}
use magpie.Gateway.Metadata.{ConnectError}

-- A JSON merge patch of an ArmaServer: the members that it has.
pub record MergePatch : Type 0 where
  pub mod_source_ids : Option (List Text)
  pub desired_state : Option DesiredState
  pub annotations : Option (Dict (Option Text))

pub record Condition : Type 0 where
  pub condition_type : Text
  pub status : Text
  pub message : Option Text

-- The fields of a Pod that are read. `Status`' own fields are there even if there is no status:
-- the code takes the defaults then. The creation is in seconds, and a restart count is the
-- source's i32, of which only `max(0)` is used.
pub record Pod : Type 0 where
  pub name : Text
  pub created : Option ℕ
  pub phase : Option Text
  pub reason : Option Text
  pub conditions : List Condition
  pub restart_counts : List ℕ

pub data Call : Type 0 where
  get_server : Text → Call
  list_servers : Call
  apply_server : Text → ArmaServer → Call
  merge_server : Text → MergePatch → Call
  delete_server : Text → Call
  patch_phase : Text → ArmaServerPhase → Call
  get_mod_source : Text → Call
  refresh_source : Text → Call
  list_pods : Text → Call
  pod_logs : Text → ℕ → Bool → Call

-- An error keeps the text that `{e:#}` prints, which is all that is used of it.
abbrev pub Reply : Call → Type 0
Reply (get_server name) = Result Text ArmaServer
Reply list_servers = Result Text (List ArmaServer)
Reply (apply_server name obj) = Result Text ArmaServer
Reply (merge_server name patch) = Result Text ArmaServer
Reply (delete_server name) = Result Text (Unit {0})
Reply (patch_phase name phase) = Result Text ArmaServer
Reply (get_mod_source name) = Result Text ModSource
Reply (refresh_source source_id) = Result Text (Unit {0})
Reply (list_pods selector) = Result Text (List Pod)
Reply (pod_logs name tail previous) = Result Text Text

abbrev pub M : Type 0 → Type 0
M = Prog Reply ConnectError
