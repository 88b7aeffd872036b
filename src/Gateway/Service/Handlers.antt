-- ===== src/Gateway/Service/Handlers.antt =====
-- services/gateway/src/service.rs: creating, reading, changing, starting and stopping a server.
use magpie.Prelude.{
  ℕ, ◌%◌, Bool, true, false, ◌||◌, Option, none, some, List, [], ◌∷◌, ◌++◌, map, Text, codes,
  is_empty, if◌then◌else◌,
}
use magpie.Prelude.Dict.{Dict}
use magpie.Prelude.Prog.{Result, ok, err, pure, fail, ◌>>=◌, ◌>>◌, request, lift}
use magpie.Crd.{ArmaServer, ArmaServerSpec, ArmaServerMetrics, DesiredState}
use magpie.Gateway.Names.{validate_k8s_name}
use magpie.Gateway.Metadata.{invalid_argument, metadata_to_annotations, annotation_patch}
use magpie.Gateway.Calls.{
  M, MergePatch, list_servers, apply_server, merge_server, delete_server, get_mod_source,
}
use magpie.Gateway.Service.{
  ServerInfo, to_info, or_internal, fetch_server, check_port_conflict, resync_and_repending,
}

pub record CreateServerRequest : Type 0 where
  pub name : Text
  pub port : ℕ
  pub mod_source_ids : List Text
  pub config_map : Option Text
  pub metrics_port : Option ℕ
  pub metrics_path : Option Text
  pub metadata : List (Text × Text)

-- the selections that are there
pub record UpdateServerRequest : Type 0 where
  pub id : Text
  pub mod_sources : Option (List Text)
  pub metadata : Option (List (Text × Text))

-- `as u16`
abbrev pub as_u16 : ℕ → ℕ
as_u16 n = n % 65536

abbrev metrics_of : CreateServerRequest → Option ArmaServerMetrics
metrics_of r = elim r.metrics_port [
  | none ↦ none
  | some port ↦ some (record { port = as_u16 port; path = r.metrics_path })
]

unfoldable pub new_spec : CreateServerRequest → ArmaServerSpec
new_spec r = record {
  mod_source_ids = r.mod_source_ids;
  port = as_u16 r.port;
  cdlc = [];
  profiling = false;
  desired_state = DesiredState.running;
  config_map = r.config_map;
  metrics = metrics_of r;
  headless_clients = 0;
}

abbrev pub new_server : CreateServerRequest → Dict Text → ArmaServer
new_server r annotations = record {
  name = r.name;
  annotations = annotations;
  spec = new_spec r;
  status = none;
}

abbrev pub empty_patch : MergePatch
empty_patch = record { mod_source_ids = none; desired_state = none; annotations = none }

-- every source of a selection exists
unfoldable pub check_sources : List Text → M (Unit {0})
unfolding ◌>>=◌
check_sources [] = pure tt
check_sources (id ∷ rest) =
    let later = check_sources rest in
    do
      found ← request (get_mod_source id)
      elim found [
        | ok source ↦ later
        | err e ↦ fail (invalid_argument (codes "no such mod source: " ++ id))
      ]

-- the `spec` member of an update's patch
unfoldable pub select_sources : Option (List Text) → M (Option (List Text))
unfolding ◌>>=◌ check_sources
select_sources none = pure none
select_sources (some ids) = do check_sources ids; pure (some ids)

unfoldable pub set_desired_state : Text → DesiredState → M ArmaServer
unfolding ◌>>=◌ or_internal
set_desired_state id state = do
  reply ← request (merge_server id (record empty_patch { desired_state = some state }))
  or_internal (codes "failed to set desired_state: ") reply

unfoldable pub get_server_info : Text → M ServerInfo
unfolding ◌>>=◌ fetch_server
get_server_info id = do obj ← fetch_server id; pure (to_info obj)

-- the handler `list_servers`
unfoldable pub list_infos : M (List ServerInfo)
unfolding ◌>>=◌ or_internal
list_infos = do
  reply ← request list_servers
  servers ← or_internal (codes "failed to list: ") reply
  pure (map to_info servers)

-- the handler `delete_server`
unfoldable pub remove_server : Text → M (Unit {0})
unfolding ◌>>=◌ or_internal
remove_server id = do
  reply ← request (delete_server id)
  or_internal (codes "failed to delete ArmaServer " ++ (id ++ codes ": ")) reply

unfoldable pub start_server : Text → M ServerInfo
unfolding ◌>>=◌ fetch_server check_port_conflict set_desired_state resync_and_repending
start_server id = do
  existing ← fetch_server id
  check_port_conflict existing.spec.port (some id)
  set_desired_state id DesiredState.running
  obj ← resync_and_repending id
  pure (to_info obj)

unfoldable pub stop_server : Text → M ServerInfo
unfolding ◌>>=◌ set_desired_state
stop_server id = do obj ← set_desired_state id DesiredState.stopped; pure (to_info obj)

module _ (show_debug : Text → Text) where
  -- `create_server` of a name that passed
  unfoldable pub create_named : CreateServerRequest → M ServerInfo
  unfolding ◌>>=◌ check_port_conflict or_internal
  create_named r = do
    check_port_conflict (as_u16 r.port) none
    annotations ← lift (metadata_to_annotations show_debug r.metadata)
    reply ← request (apply_server r.name (new_server r annotations))
    applied ← or_internal (codes "failed to apply ArmaServer " ++ (r.name ++ codes ": ")) reply
    pure (to_info applied)

  -- behind `validate_k8s_name`
  unfoldable pub named : CreateServerRequest → Result Text (Unit {0}) → M ServerInfo
  unfolding create_named
  named r (ok _) = create_named r
  named r (err reason) =
      fail
        (invalid_argument (codes "invalid name " ++ (show_debug r.name ++ (codes ": " ++ reason))))

  unfoldable pub create_server : CreateServerRequest → M ServerInfo
  unfolding named
  create_server r =
      if is_empty r.name
      then fail (invalid_argument (codes "name is required"))
      else named r (validate_k8s_name r.name)

  -- the `metadata` member of an update's patch
  unfoldable pub select_metadata :
      Text → Option (List (Text × Text)) → M (Option (Dict (Option Text)))
  unfolding ◌>>=◌ fetch_server
  select_metadata id none = pure none
  select_metadata id (some entries) = do
    wanted ← lift (metadata_to_annotations show_debug entries)
    existing ← fetch_server id
    pure (some (annotation_patch existing.annotations wanted))

  -- the patch of an update that selects something
  unfoldable pub patch_server : UpdateServerRequest → M (Unit {0})
  unfolding ◌>>=◌ select_sources select_metadata or_internal
  patch_server r = do
    ids ← select_sources r.mod_sources
    annotations ← select_metadata r.id r.metadata
    reply ←
        request (
          merge_server r.id
            (record empty_patch { mod_source_ids = ids; annotations = annotations }))
    or_internal (codes "failed to update " ++ (r.id ++ codes ": ")) reply
    pure tt

  abbrev pub selects : UpdateServerRequest → Bool
  selects r =
      elim r.mod_sources [ none ↦ false | some _ ↦ true ]
      || elim r.metadata [ none ↦ false | some _ ↦ true ]

  unfoldable pub update_server : UpdateServerRequest → M ServerInfo
  unfolding ◌>>=◌ patch_server resync_and_repending
  update_server r = do
    if selects r then patch_server r else pure tt
    obj ← resync_and_repending r.id
    pure (to_info obj)
