-- ===== src/Controller/Reconcile/Only.antt =====
-- What the steps of a reconcile pass call.
use magpie.Prelude.{List, [], ◌∷◌, Text}
use magpie.Prelude.Prog.{Result, ok, err}
use magpie.Prelude.Only.{Only, only_pure, only_fail, only_call, Only-bind, Only-lift, Only-if}
use magpie.Crd.{
  ArmaServer, ArmaServerStatus, ArmaServerPhase, HeadlessClient, ModSourceInput, local,
}
use magpie.Controller.Config.{Config}
use magpie.Controller.ArmaConfig.Write.{HeadlessClientLaunchConfig}
use magpie.Controller.Deployment.{Deployment}
use magpie.Controller.Calls.{
  Call, KubeError, not_found, other, get_source_mods, get_mod_source, new_uuid, apply_deployment,
  list_headless_clients, delete_headless_client, patch_server_status, scale_deployment,
  delete_deployment,
}
use magpie.Controller.HeadlessClients.Only.{ignore_404-Only, delete_all-Only}
use magpie.Controller.Reconcile.{
  set_status, remove_deployment, status_at, stop, or_gone, fetch_source, not_yet_synced_mod_source,
  source_paths, resolve_mod_paths, ensure_deployment, ensure_hc_deployment,
}

module _ {P : Call → Type 0} where
  pub set_status-Only :
      (name : Text) (status : ArmaServerStatus)
      → P (patch_server_status name status)
      → Only P (set_status name status)
  unfolding set_status
  set_status-Only name status p = only_call p λ r. Only-lift _

  pub remove_deployment-Only :
      (name : Text) → P (delete_deployment name) → Only P (remove_deployment name)
  unfolding remove_deployment
  remove_deployment-Only name p = only_call p ignore_404-Only

  pub stop-Only :
      (name : Text)
      → ((n : Text) → P (delete_headless_client n))
      → P list_headless_clients
      → P (scale_deployment name 0)
      → P (patch_server_status name (status_at ArmaServerPhase.stopped))
      → Only P (stop name)
  unfolding stop
  stop-Only name deletes lists scales sets = only_call scales λ r.
      Only-bind (ignore_404-Only r) λ _.
        Only-bind (delete_all-Only deletes name lists)
          λ _. Only-bind (set_status-Only name _ sets) λ _. only_pure

  pub or_gone-Only : {A : Type 0} (gone : Text) (r : Result KubeError A) → Only P (or_gone gone r)
  unfolding or_gone
  or_gone-Only gone (ok a) = only_pure
  or_gone-Only gone (err (not_found t)) = only_fail
  or_gone-Only gone (err (other t)) = only_fail

  module _ (reads : (id : Text) → P (get_mod_source id)) where
    fetch_source-Only : (id : Text) → Only P (fetch_source id)
    unfolding fetch_source
    fetch_source-Only id = only_call (reads id) λ r. or_gone-Only _ r

    pub not_yet_synced-Only : (ids : List Text) → Only P (not_yet_synced_mod_source ids)
    unfolding not_yet_synced_mod_source
    not_yet_synced-Only [] = only_pure
    not_yet_synced-Only (id ∷ ids) =
        Only-bind (fetch_source-Only id) λ source. Only-if _ (not_yet_synced-Only ids) only_pure

    module _ (cfg : Config) (mods : (id : Text) → P (get_source_mods id)) where
      source_paths-Only :
          (id : Text) (source : ModSourceInput) → Only P (source_paths cfg id source)
      unfolding source_paths
      source_paths-Only id (local unique_id) = only_pure
      source_paths-Only id _ = only_call (mods id) λ r. Only-bind (Only-lift r) λ _. only_pure

      pub resolve_mod_paths-Only : (ids : List Text) → Only P (resolve_mod_paths cfg ids)
      unfolding resolve_mod_paths
      resolve_mod_paths-Only [] = only_pure
      resolve_mod_paths-Only (id ∷ ids) = Only-bind (fetch_source-Only id) λ source.
          Only-bind (source_paths-Only id _)
            λ here. Only-bind (resolve_mod_paths-Only ids) λ later. only_pure

  pub ensure_deployment-Only :
      (cfg : Config) (obj : ArmaServer) (paths : List Text) (env : List (Text × Text))
      → P new_uuid
      → ((d : Deployment) → P (apply_deployment obj.name d))
      → Only P (ensure_deployment cfg obj paths env)
  unfolding ensure_deployment
  ensure_deployment-Only cfg obj paths env uuid applies =
      only_call uuid λ _. only_call (applies _) λ r. Only-lift _

  pub ensure_hc_deployment-Only :
      (cfg : Config) (obj : HeadlessClient) (server : ArmaServer) (paths : List Text)
      (launch_config : HeadlessClientLaunchConfig)
      → P new_uuid
      → ((d : Deployment) → P (apply_deployment obj.name d))
      → Only P (ensure_hc_deployment cfg obj server paths launch_config)
  unfolding ensure_hc_deployment
  ensure_hc_deployment-Only cfg obj server paths launch_config uuid applies =
      only_call uuid λ _. only_call (applies _) λ r. Only-lift _
