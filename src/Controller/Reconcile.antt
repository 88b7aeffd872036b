-- ===== src/Controller/Reconcile.antt =====
-- services/controller/src/reconcile.rs: one pass of the ArmaServer reconciler, and one of the
-- HeadlessClient reconciler.
pub mod Only
pub mod Waiting
pub mod Ownership
pub mod Transitions
pub mod Footprint
use magpie.Prelude.{
  ℕ, Bool, true, false, not, ◌||◌, Option, none, some, List, [], ◌∷◌, ◌++◌, map, Text, codes,
  decimal, unwrap_or, if◌then◌else◌,
}
use magpie.Prelude.Prog.{Result, ok, err, pure, fail, ◌>>=◌, ◌>>◌, request, lift, attempt}
use magpie.Crd.{
  ArmaServer, ArmaServerStatus, ArmaServerPhase, DesiredState, default_status, HeadlessClient,
  HeadlessClientStatus, HeadlessClientPhase, ModSource, ModSourceInput, ModSourcePhase, local,
}
use magpie.Controller.Config.{Config}
use magpie.Controller.Calls.{
  KubeError, M, not_found, other, SyncStatus, sync_content, sync_status, get_source_mods,
  patch_server_status, get_server, scale_deployment, delete_deployment, apply_deployment,
  patch_hc_status, get_mod_source, new_uuid,
}
use magpie.Controller.Pods.{server_deployment, hc_deployment}
use magpie.Controller.HeadlessClients.{
  ignore_404, ensure_headless_clients, delete_all_headless_clients,
}
use magpie.Controller.ArmaConfig.Values.{Platform}
use magpie.Controller.ArmaConfig.Resolve.{kube}
use magpie.Controller.ArmaConfig.Write.{
  HeadlessClientLaunchConfig, render_and_write, resolve_headless_client_config,
}

-- `kube::runtime::controller::Action`, in seconds
pub data Action : Type 0 where
  await_change : Action
  requeue : ℕ → Action

abbrev pub fast_requeue : Action
fast_requeue = requeue 5

abbrev pub slow_requeue : Action
slow_requeue = requeue 300

abbrev pub error_requeue : Action
error_requeue = requeue 10

-- `set_status` and `set_hc_status`
unfoldable pub set_status : Text → ArmaServerStatus → M (Unit {0})
unfolding ◌>>=◌
set_status name status = do reply ← request (patch_server_status name status); lift (kube reply)

unfoldable pub set_hc_status : Text → HeadlessClientStatus → M (Unit {0})
unfolding ◌>>=◌
set_hc_status name status = do reply ← request (patch_hc_status name status); lift (kube reply)

unfoldable pub scale_down : Text → M (Unit {0})
unfolding ◌>>=◌
scale_down name = do reply ← request (scale_deployment name 0); ignore_404 reply

-- `delete_deployment`, and `delete_hc_deployment`, which does the same
unfoldable pub remove_deployment : Text → M (Unit {0})
unfolding ◌>>=◌
remove_deployment name = do reply ← request (delete_deployment name); ignore_404 reply

-- `map_err` with an error of its own for a 404
pub or_gone : {A : Type 0} → Text → Result KubeError A → M A
or_gone gone (ok a) = pure a
or_gone gone (err (not_found text)) = fail gone
or_gone gone (err (other text)) = fail text

fetch_source : Text → M ModSource
unfolding ◌>>=◌ or_gone
fetch_source source_id = do
  reply ← request (get_mod_source source_id)
  or_gone (codes "mod source " ++ (source_id ++ codes " no longer exists")) reply

abbrev is_synced : ModSourcePhase → Bool
is_synced ModSourcePhase.synced = true
is_synced _ = false

unfoldable pub not_yet_synced_mod_source : List Text → M (Option Text)
unfolding ◌>>=◌ fetch_source
not_yet_synced_mod_source [] = pure none
not_yet_synced_mod_source (source_id ∷ rest) =
    let later = not_yet_synced_mod_source rest in
    do
      source ← fetch_source source_id
      if is_synced (unwrap_or source.phase ModSourcePhase.pending)
          then later
          else pure (some source_id)

-- the paths of one source
source_paths : Config → Text → ModSourceInput → M (List Text)
unfolding ◌>>=◌
source_paths cfg source_id (local unique_id) =
    pure ((cfg.local_content_root ++ (codes "/mods/" ++ unique_id)) ∷ [])
source_paths cfg source_id _ = do
  reply ← request (get_source_mods source_id)
  mod_ids ← lift reply
  pure (map (λ id. codes "workshop/" ++ decimal id) mod_ids)

-- the loop of `resolve_mod_paths`
unfoldable pub resolve_mod_paths : Config → List Text → M (List Text)
unfolding ◌>>=◌ fetch_source source_paths
resolve_mod_paths cfg [] = pure []
resolve_mod_paths cfg (source_id ∷ rest) = do
  source ← fetch_source source_id
  here ← source_paths cfg source_id source.source
  later ← resolve_mod_paths cfg rest
  pure (here ++ later)

unfoldable pub ensure_deployment :
    Config → ArmaServer → List Text → List (Text × Text) → M (Unit {0})
unfolding ◌>>=◌
ensure_deployment cfg obj mod_paths extra_env = do
  uuid ← request new_uuid
  reply ← request (apply_deployment obj.name (server_deployment cfg obj mod_paths extra_env uuid))
  lift (kube reply)

unfoldable pub ensure_hc_deployment :
    Config → HeadlessClient → ArmaServer → List Text → HeadlessClientLaunchConfig → M (Unit {0})
unfolding ◌>>=◌
ensure_hc_deployment cfg obj server mod_paths launch_config = do
  uuid ← request new_uuid
  reply ←
      request
        (apply_deployment obj.name (hc_deployment cfg obj server mod_paths launch_config uuid))
  lift (kube reply)

-- the status that the end of the `Pending` work gives
abbrev pub outcome_status : Result Text (Unit {0}) → ArmaServerStatus
outcome_status (ok _) = record { phase = ArmaServerPhase.running; message = [] }
outcome_status (err e) = record { phase = ArmaServerPhase.failed; message = e }

abbrev pub hc_outcome_status : Result Text (Unit {0}) → HeadlessClientStatus
hc_outcome_status (ok _) = record { phase = HeadlessClientPhase.running; message = [] }
hc_outcome_status (err e) = record { phase = HeadlessClientPhase.failed; message = e }

abbrev pub status_at : ArmaServerPhase → ArmaServerStatus
status_at phase = record default_status { phase = phase }

abbrev pub desired_running : ArmaServer → Bool
desired_running obj = elim obj.spec.desired_state [
  | DesiredState.running ↦ true
  | DesiredState.stopped ↦ false
]

abbrev pub phase_of : ArmaServer → ArmaServerPhase
phase_of obj = elim obj.status [ none ↦ ArmaServerPhase.stopped | some s ↦ s.phase ]

-- the arm of a server that runs and should not
unfoldable pub stop : Text → M Action
unfolding ◌>>=◌ scale_down set_status
stop name = do
  scale_down name
  delete_all_headless_clients name
  set_status name (status_at ArmaServerPhase.stopped)
  pure await_change

module _ (p : Platform) (cfg : Config) where
  unfoldable pub run_pending : ArmaServer → M (Unit {0})
  unfolding ◌>>=◌ resolve_mod_paths ensure_deployment
  run_pending obj = do
    mod_paths ← resolve_mod_paths cfg obj.spec.mod_source_ids
    extra_env ← render_and_write p cfg obj
    ensure_deployment cfg obj mod_paths extra_env
    ensure_headless_clients obj

  -- the `Pending` arm, once both gates are open
  unfoldable pub roll_out : ArmaServer → M Action
  unfolding ◌>>=◌ set_status
  roll_out obj = do
    result ← attempt (run_pending obj)
    set_status obj.name (outcome_status result)
    pure slow_requeue

  -- behind the second gate's reply
  gate_sources : ArmaServer → Result Text (Option Text) → M Action
  gate_sources obj (err e) = pure error_requeue
  gate_sources obj (ok (some source_id)) = pure fast_requeue
  gate_sources obj (ok none) = roll_out obj

  -- behind the first gate's reply
  gate_sync : ArmaServer → Result Text SyncStatus → M Action
  unfolding ◌>>=◌ gate_sources
  gate_sync obj (err e) = pure error_requeue
  gate_sync obj (ok status) =
      if status.syncing || not status.game_files_ready then pure fast_requeue else (do
        found ← attempt (not_yet_synced_mod_source obj.spec.mod_source_ids)
        gate_sources obj found)

  -- `match status.phase`, with whether the server should be running
  unfoldable pub apply_phase : ArmaServer → ArmaServerPhase → Bool → M Action
  unfolding ◌>>=◌ gate_sync set_status stop
  apply_phase obj ArmaServerPhase.stopped true = do
    request sync_content
    set_status obj.name (status_at ArmaServerPhase.pending)
    pure fast_requeue
  apply_phase obj ArmaServerPhase.stopped false = pure await_change
  apply_phase obj _ false = stop obj.name
  apply_phase obj ArmaServerPhase.pending true = do reply ← request sync_status; gate_sync obj reply
  apply_phase obj ArmaServerPhase.running true = pure slow_requeue
  apply_phase obj ArmaServerPhase.failed true = do
    set_status obj.name (status_at ArmaServerPhase.pending)
    pure fast_requeue

  unfoldable pub apply : ArmaServer → M Action
  unfolding apply_phase
  apply obj = apply_phase obj (phase_of obj) (desired_running obj)

  unfoldable pub cleanup : ArmaServer → M Action
  unfolding ◌>>=◌ remove_deployment
  cleanup obj = do
    remove_deployment obj.name
    delete_all_headless_clients obj.name
    pure await_change

  unfoldable pub hc_apply : HeadlessClient → M Action
  unfolding ◌>>=◌ or_gone resolve_mod_paths ensure_hc_deployment set_hc_status
  hc_apply obj = do
    found ← request (get_server obj.spec.server)
    server ←
        or_gone (codes "owning ArmaServer " ++ (obj.spec.server ++ codes " no longer exists")) found
    mod_paths ← resolve_mod_paths cfg server.spec.mod_source_ids
    launch_config ← resolve_headless_client_config p cfg server
    result ← attempt (ensure_hc_deployment cfg obj server mod_paths launch_config)
    set_hc_status obj.name (hc_outcome_status result)
    pure slow_requeue

  unfoldable pub hc_cleanup : HeadlessClient → M Action
  unfolding ◌>>=◌ remove_deployment
  hc_cleanup obj = do remove_deployment obj.name; pure await_change

  -- `finalizer` hands over one of two events.
  unfoldable pub reconcile : Bool → ArmaServer → M Action
  unfolding apply cleanup
  reconcile deleted obj = if deleted then cleanup obj else apply obj

  unfoldable pub reconcile_hc : Bool → HeadlessClient → M Action
  unfolding hc_apply hc_cleanup
  reconcile_hc deleted obj = if deleted then hc_cleanup obj else hc_apply obj

-- `error_policy` and `hc_error_policy`: when to look again.
abbrev pub error_policy : Result Text Action → Action
error_policy (ok action) = action
error_policy (err e) = error_requeue
