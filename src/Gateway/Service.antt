-- ===== src/Gateway/Service.antt =====
-- services/gateway/src/service.rs: the handlers of `ServerService`.
pub mod Handlers
pub mod Logs
pub mod Ports
pub mod Start
pub mod Newest
pub mod Only
pub mod Update
use magpie.Prelude.{
  ℕ, ◌+◌, ◌%◌, min, Bool, true, false, not, ◌||◌, Option, none, some, List, [], ◌∷◌, ◌++◌, map,
  Text, codes, text_eq, is_empty, decimal, unwrap_or, ltb, leb, if◌then◌else◌,
}
use magpie.Prelude.Dict.{Dict}
use magpie.Prelude.Prog.{Result, ok, err, pure, fail, ◌>>=◌, ◌>>◌, request, lift, attempt}
use magpie.Crd.{
  ArmaServer, ArmaServerPhase, ArmaServerStatus, ArmaServerSpec, ArmaServerMetrics, DesiredState,
  ModSource, ModSourceInput, default_status, local, port_ranges_overlap, u16_max,
}
use magpie.Gateway.Names.{validate_k8s_name}
use magpie.Gateway.Metadata.{
  ConnectError, invalid_argument, not_found, internal, metadata_from_annotations,
  metadata_to_annotations, annotation_patch,
}
use magpie.Gateway.Calls.{
  M, MergePatch, Pod, Condition, get_server, list_servers, apply_server, merge_server,
  delete_server, patch_phase, get_mod_source, refresh_source, list_pods, pod_logs,
}

-- `ServerInfo`, whose `id` is its `name` too
pub record ServerInfo : Type 0 where
  pub id : Text
  pub port : ℕ
  pub mod_source_ids : List Text
  pub phase : ArmaServerPhase
  pub message : Text
  pub desired_state : DesiredState
  pub metadata : Dict Text

unfoldable pub to_info : ArmaServer → ServerInfo
to_info obj =
    let status : ArmaServerStatus = unwrap_or obj.status default_status in
    record {
      id = obj.name;
      port = obj.spec.port;
      mod_source_ids = obj.spec.mod_source_ids;
      phase = status.phase;
      message = status.message;
      desired_state = obj.spec.desired_state;
      metadata = metadata_from_annotations obj.annotations;
    }

-- `map_err(|e| ConnectError::internal(format!("…: {e:#}")))?`
unfoldable pub or_internal : {A : Type 0} → Text → Result Text A → M A
or_internal context (ok a) = pure a
or_internal context (err e) = fail (internal (context ++ e))

-- `map_err(|_| ConnectError::not_found(…))?`
unfoldable pub or_not_found : {A : Type 0} → Text → Result Text A → M A
or_not_found text (ok a) = pure a
or_not_found text (err e) = fail (not_found text)

-- `api().get(id)` of a handler
unfoldable pub fetch_server : Text → M ArmaServer
unfolding ◌>>=◌ or_not_found
fetch_server id = do
  reply ← request (get_server id)
  or_not_found (codes "no such server: " ++ id) reply

abbrev pub is_running : DesiredState → Bool
is_running DesiredState.running = true
is_running DesiredState.stopped = false

-- whether a server is passed over by the check
unfoldable pub is_skipped : Option Text → ArmaServer → Bool
is_skipped exclude_name other =
    elim exclude_name [ none ↦ false | some name ↦ text_eq other.name name ]
    || not (is_running other.spec.desired_state)

-- `port.saturating_add(4)`
abbrev last_port : ℕ → Text
last_port port = decimal (min (port + 4) u16_max)

conflict : ℕ → ArmaServer → ConnectError
conflict port other = invalid_argument (
    codes "port "
    ++ (decimal port
        ++ (codes " (range "
            ++ (decimal port
                ++ (codes "-"
                    ++ (last_port port
                        ++ (codes ") conflicts with running/starting server '"
                            ++ (other.name
                                ++ (codes "' on port "
                                    ++ (decimal other.spec.port
                                        ++ (codes " (range "
                                            ++ (decimal other.spec.port
                                                ++ (codes "-"
                                                    ++ (last_port other.spec.port
                                                        ++ codes ")"))))))))))))))

-- the loop of `check_port_conflict`
unfoldable pub check_each : ℕ → Option Text → List ArmaServer → M (Unit {0})
unfolding conflict is_skipped
check_each port exclude_name [] = pure tt
check_each port exclude_name (other ∷ rest) =
    let later = check_each port exclude_name rest in
    if is_skipped exclude_name other
    then later
    else if port_ranges_overlap port other.spec.port
    then fail (conflict port other)
    else later

unfoldable pub check_port_conflict : ℕ → Option Text → M (Unit {0})
unfolding ◌>>=◌ check_each or_internal
check_port_conflict port exclude_name = do
  reply ← request list_servers
  others ← or_internal [] reply
  check_each port exclude_name others

-- a source that has Steam content
unfoldable pub refresh_input : Text → ModSourceInput → M (Unit {0})
unfolding ◌>>=◌ or_internal
refresh_input source_id (local unique_id) = pure tt
refresh_input source_id _ = do reply ← request (refresh_source source_id); or_internal [] reply

-- one source of `resync_and_repending`: one that cannot be read is passed over
unfoldable pub refresh_found : Text → Result Text ModSource → M (Unit {0})
unfolding refresh_input
refresh_found source_id (err e) = pure tt
refresh_found source_id (ok source) = refresh_input source_id source.source

unfoldable pub refresh_sources : List Text → M (Unit {0})
unfolding ◌>>=◌ refresh_found
refresh_sources [] = pure tt
refresh_sources (source_id ∷ rest) = do
  found ← request (get_mod_source source_id)
  refresh_found source_id found
  refresh_sources rest

unfoldable pub resync_and_repending : Text → M ArmaServer
unfolding ◌>>=◌ fetch_server refresh_sources or_internal
resync_and_repending id = do
  obj ← fetch_server id
  refresh_sources obj.spec.mod_source_ids
  reply ← request (patch_phase id ArmaServerPhase.pending)
  or_internal (codes "failed to reset status: ") reply
