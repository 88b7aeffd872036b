-- ===== src/Controller/Calls.antt =====
-- What services/controller/src/reconcile.rs and arma_config.rs ask of the services around them:
-- the Kubernetes API, sync-daemon (crates/sync-client), Postgres and the file system. A reply
-- other than success keeps whether it is a 404, which is all that the code tells apart.
use magpie.Prelude.{ℕ, Bool, List, Text}
use magpie.Prelude.Prog.{Result, Prog}
use magpie.Crd.{ArmaServer, ArmaServerStatus, HeadlessClient, HeadlessClientStatus, ModSource}
use magpie.Controller.Deployment.{Deployment}

-- `kube::Error`: the API server's 404, or any other error with its text.
pub data KubeError : Type 0 where
  not_found other : Text → KubeError

-- the fields of sync-daemon's status that are read
pub record SyncStatus : Type 0 where
  pub syncing : Bool
  pub game_files_ready : Bool

pub data Call : Type 0 where
  -- sync-daemon
  sync_content : Call
  sync_status : Call
  get_source_mods : Text → Call
  -- the Kubernetes API
  patch_server_status : Text → ArmaServerStatus → Call
  get_server : Text → Call
  scale_deployment : Text → ℕ → Call
  delete_deployment : Text → Call
  apply_deployment : Text → Deployment → Call
  list_headless_clients : Call
  delete_headless_client : Text → Call
  apply_headless_client : Text → HeadlessClient → Call
  patch_hc_status : Text → HeadlessClientStatus → Call
  get_mod_source : Text → Call
  get_config_map : Text → Call
  get_secret : Text → Text → Call
  new_uuid : Call
  -- Postgres
  steam_ids_with_scope : Text → Call
  -- the file system
  create_dir_all : Text → Call
  write_file : Text → Text → Call

abbrev pub Reply : Call → Type 0
Reply sync_content = Result Text (Unit {0})
Reply sync_status = Result Text SyncStatus
Reply (get_source_mods source_id) = Result Text (List ℕ)
Reply (patch_server_status name status) = Result KubeError (Unit {0})
Reply (get_server name) = Result KubeError ArmaServer
Reply (scale_deployment name replicas) = Result KubeError (Unit {0})
Reply (delete_deployment name) = Result KubeError (Unit {0})
Reply (apply_deployment name deployment) = Result KubeError (Unit {0})
Reply list_headless_clients = Result KubeError (List HeadlessClient)
Reply (delete_headless_client name) = Result KubeError (Unit {0})
Reply (apply_headless_client name hc) = Result KubeError (Unit {0})
Reply (patch_hc_status name status) = Result KubeError (Unit {0})
Reply (get_mod_source name) = Result KubeError ModSource
Reply (get_config_map name) = Result KubeError (List (Text × Text))
Reply (get_secret namespace name) = Result KubeError (List (Text × List ℕ))
Reply new_uuid = Text
Reply (steam_ids_with_scope scope) = Result Text (List Text)
Reply (create_dir_all path) = Result Text (Unit {0})
Reply (write_file path content) = Result Text (Unit {0})

-- `anyhow::Result`: an error is the text that `{e:#}` prints.
abbrev pub M : Type 0 → Type 0
M = Prog Reply Text
