-- ===== src/Controller/Reconcile/Footprint.antt =====
-- What one pass of a reconciler may touch: services/controller/src/reconcile.rs and arma_config.rs.
use magpie.Prelude.{ℕ, ◌≡◌, ◌⊎◌, Text, codes, ◌++◌}
use magpie.Prelude.Only.{Only}
use magpie.Crd.{HeadlessClient}
use magpie.Controller.Config.{Config}
use magpie.Controller.Calls.{
  Call, get_source_mods, patch_server_status, get_server, scale_deployment, delete_deployment,
  apply_deployment, apply_headless_client, patch_hc_status, get_mod_source, get_config_map,
  get_secret, new_uuid, create_dir_all, write_file,
}
use magpie.Controller.ArmaConfig.Only.{config_dir}
use magpie.Controller.HeadlessClients.{hc_name, new_client}

-- The calls of a pass over the server `name`: writing calls are for its own objects and its own two
-- files, and Secrets are read in the one namespace that users' references may name. Which headless
-- clients may be deleted is the subject of Ownership.antt.
abbrev pub OfServer : Config → Text → Call → Type 0
OfServer cfg name (patch_server_status n status) = n ≡ name
OfServer cfg name (get_server n) = ⊥
OfServer cfg name (scale_deployment n replicas) = (n ≡ name) × (replicas ≡ 0)
OfServer cfg name (delete_deployment n) = n ≡ name
OfServer cfg name (apply_deployment n deployment) = n ≡ name
OfServer cfg name (apply_headless_client n hc) =
    (i : ℕ) × (n ≡ hc_name name i) × (hc ≡ new_client name i)
OfServer cfg name (patch_hc_status n status) = ⊥
OfServer cfg name (get_secret namespace n) = namespace ≡ cfg.user_secrets_namespace
OfServer cfg name (create_dir_all path) = path ≡ config_dir cfg name
OfServer cfg name (write_file path content) =
    (path ≡ config_dir cfg name ++ codes "/main.cfg")
    ⊎ (path ≡ config_dir cfg name ++ codes "/basic.cfg")
OfServer cfg name _ = Unit

-- The calls of a pass over the headless client `name`.
abbrev pub OfClient : Config → HeadlessClient → Call → Type 0
OfClient cfg hc (get_server n) = n ≡ hc.spec.server
OfClient cfg hc (delete_deployment n) = n ≡ hc.name
OfClient cfg hc (apply_deployment n deployment) = n ≡ hc.name
OfClient cfg hc (patch_hc_status n status) = n ≡ hc.name
OfClient cfg hc (get_secret namespace n) = namespace ≡ cfg.user_secrets_namespace
OfClient cfg hc (get_source_mods id) = Unit
OfClient cfg hc (get_mod_source id) = Unit
OfClient cfg hc (get_config_map n) = Unit
OfClient cfg hc new_uuid = Unit
OfClient cfg hc _ = ⊥
