-- ===== src/Controller/Config.antt =====
-- services/controller/src/config.rs: the fields that the reconciler reads.
use magpie.Prelude.{List, Text}

pub record Config : Type 0 where
  pub launcher_image : Text
  pub server_root_base : Text
  pub local_content_root : Text
  pub local_content_host_path : Text
  pub image_pull_secrets : List Text
  pub app_postgres_role : Text
  pub app_postgres_secret_name : Text
  pub app_postgres_database : Text
  pub app_postgres_host : Text
  pub app_postgres_port : Text
  pub arma_config_baseline : Text
  pub user_secrets_namespace : Text
  pub arma_ld_preload : Text
