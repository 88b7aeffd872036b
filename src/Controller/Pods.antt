-- ===== src/Controller/Pods.antt =====
-- services/controller/src/reconcile.rs: the Deployments that `ensure_deployment` and
-- `ensure_hc_deployment` build.
use magpie.Prelude.{
  ℕ, true, false, Option, none, some, List, [], ◌∷◌, ◌++◌, map, Text, codes, is_empty, decimal,
  decimal_int, join, if◌then◌else◌,
}
use magpie.Prelude.Dict.{Dict, extend}
use magpie.Crd.{ArmaServer, ArmaServerMetrics, HeadlessClient, path_or_default}
use magpie.Controller.Config.{Config}
use magpie.Controller.Deployment.{
  EnvVar, value, secret_key, VolumeMount, Volume, csi, host_path, Probe, Container, Deployment,
}
use magpie.Controller.ArmaConfig.Write.{HeadlessClientLaunchConfig}

abbrev pub claim_path : Text
claim_path = codes "/arma3/content"

abbrev plain : Text → Text → EnvVar
plain name v = record { name = name; value = value v }

-- an `if !v.is_empty() { env.push(…) }`
abbrev pub unless_empty : Text → Text → List EnvVar
unless_empty name v = if is_empty v then [] else plain name v ∷ []

-- `is_empty` of a list
abbrev secrets : List Text → Option (List Text)
secrets [] = none
secrets (s ∷ ss) = some (s ∷ ss)

-- the variables of a server before the operator's own
unfoldable pub fixed_env : Config → ArmaServer → List Text → List EnvVar
fixed_env cfg obj mod_paths =
    plain (codes "CLAIM_PATH") claim_path
    ∷ plain (codes "MODS") (join (codes ";") mod_paths)
    ∷ plain (codes "ARMA_CDLC") (join (codes ";") obj.spec.cdlc)
    ∷ plain (codes "PORT") (decimal obj.spec.port)
    ∷ plain (codes "DATABASE_HOST") cfg.app_postgres_host
    ∷ plain (codes "DATABASE_PORT") cfg.app_postgres_port
    ∷ plain (codes "DATABASE_USER") cfg.app_postgres_role
    ∷ plain (codes "DATABASE_NAME") cfg.app_postgres_database
    ∷ record {
      name = codes "DATABASE_PASSWORD";
      value = secret_key cfg.app_postgres_secret_name (codes "POSTGRES_PASSWORD");
    }
    ∷ unless_empty (codes "ARMA_LD_PRELOAD") cfg.arma_ld_preload

unfoldable pub server_env : Config → ArmaServer → List Text → List (Text × Text) → List EnvVar
unfolding fixed_env
server_env cfg obj mod_paths extra_env =
    fixed_env cfg obj mod_paths ++ map (λ (k, v). plain k v) extra_env

unfoldable pub server_labels : Text → Dict Text
server_labels name =
    extend [] ((codes "app", codes "arma-server") ∷ (codes "armaserver", name) ∷ [])

scrape_annotations : Option ArmaServerMetrics → List (Text × Text)
scrape_annotations none = []
scrape_annotations (some m) =
    (codes "prometheus.io/scrape", codes "true")
    ∷ (codes "prometheus.io/port", decimal m.port)
    ∷ (codes "prometheus.io/path", path_or_default m)
    ∷ []

abbrev pub generation_key : Text
generation_key = codes "magpie.skua.io/content-generation"

unfoldable pub server_annotations : ArmaServer → Text → Dict Text
unfolding scrape_annotations
server_annotations obj uuid =
    extend [] (scrape_annotations obj.spec.metrics ++ (generation_key, uuid) ∷ [])

abbrev probe : ℕ → ℕ → ℕ → Probe
probe initial period failures = record {
  command = codes "/launcher" ∷ codes "healthcheck" ∷ [];
  initial_delay_seconds = initial;
  period_seconds = period;
  timeout_seconds = 5;
  failure_threshold = failures;
}

abbrev content_mount : VolumeMount
content_mount = record {
  name = codes "content";
  mount_path = claim_path;
  sub_path = none;
  read_only = none;
}

abbrev server_root_mount : VolumeMount
server_root_mount = record {
  name = codes "server-root";
  mount_path = codes "/arma3/server";
  sub_path = none;
  read_only = none;
}

abbrev local_content_mount : Config → VolumeMount
local_content_mount cfg = record {
  name = codes "local-content";
  mount_path = cfg.local_content_root;
  sub_path = none;
  read_only = some true;
}

abbrev missions_mount : VolumeMount
missions_mount = record {
  name = codes "local-content";
  mount_path = codes "/arma3/server/mpmissions";
  sub_path = some (codes "missions");
  read_only = some true;
}

-- the three volumes of a Pod; the last is the directory of the server named
unfoldable pub pod_volumes : Config → Text → List Volume
pod_volumes cfg server =
    record { name = codes "content"; source = csi (codes "csi.magpie.skua.io") }
    ∷ record {
      name = codes "local-content";
      source = host_path cfg.local_content_host_path (codes "DirectoryOrCreate");
    }
    ∷ record {
      name = codes "server-root";
      source =
          host_path (cfg.server_root_base ++ (codes "/" ++ server)) (codes "DirectoryOrCreate");
    }
    ∷ []

unfoldable pub server_container : Config → List EnvVar → Container
server_container cfg env = record {
  name = codes "launcher";
  image = cfg.launcher_image;
  allow_privilege_escalation = false;
  capabilities_add = codes "SYS_NICE" ∷ [];
  capabilities_drop = codes "ALL" ∷ [];
  image_pull_policy = codes "IfNotPresent";
  env = env;
  volume_mounts = content_mount ∷ server_root_mount ∷ local_content_mount cfg ∷ missions_mount ∷ [];
  readiness_probe = some (probe 20 10 6);
  liveness_probe = some (probe 60 30 5);
}

unfoldable pub server_deployment :
    Config → ArmaServer → List Text → List (Text × Text) → Text → Deployment
unfolding server_env server_labels server_annotations server_container pod_volumes
server_deployment cfg obj mod_paths extra_env uuid = record {
  name = obj.name;
  labels = server_labels obj.name;
  owner = obj.name;
  replicas = 1;
  match_labels = server_labels obj.name;
  strategy = codes "Recreate";
  pod_labels = server_labels obj.name;
  pod_annotations = server_annotations obj uuid;
  pod = record {
    host_network = true;
    run_as_non_root = true;
    image_pull_secrets = secrets cfg.image_pull_secrets;
    containers = server_container cfg (server_env cfg obj mod_paths extra_env) ∷ [];
    volumes = pod_volumes cfg obj.name;
  };
}

-- A headless client: the same content, no probes, and its own profile.
unfoldable pub hc_env :
    Config → HeadlessClient → ArmaServer → List Text → HeadlessClientLaunchConfig → List EnvVar
hc_env cfg obj server mod_paths launch_config =
    (plain (codes "CLAIM_PATH") claim_path
      ∷ plain (codes "MODS") (join (codes ";") mod_paths)
      ∷ plain (codes "ARMA_CDLC") (join (codes ";") server.spec.cdlc)
      ∷ plain (codes "PORT") (decimal server.spec.port)
      ∷ plain (codes "ARMA_PROFILE") obj.name
      ∷ plain (codes "ARMA_CLIENT_CONNECT") (codes "127.0.0.1")
      ∷ plain (codes "ARMA_LIMITFPS") (decimal_int launch_config.limit_fps)
      ∷ [])
    ++ (unless_empty (codes "ARMA_LD_PRELOAD") cfg.arma_ld_preload
        ++ (unless_empty (codes "ARMA_PARAMS") launch_config.additional_params
            ++ unless_empty (codes "ARMA_SERVER_PASSWORD") launch_config.password))

unfoldable pub hc_labels : Text → Text → Dict Text
hc_labels server name = extend [] (
    (codes "app", codes "arma-headless-client")
    ∷ (codes "armaserver", server)
    ∷ (codes "headlessclient", name)
    ∷ [])

unfoldable pub hc_container : Config → List EnvVar → Container
hc_container cfg env = record {
  name = codes "launcher";
  image = cfg.launcher_image;
  allow_privilege_escalation = false;
  capabilities_add = codes "SYS_NICE" ∷ [];
  capabilities_drop = codes "ALL" ∷ [];
  image_pull_policy = codes "IfNotPresent";
  env = env;
  volume_mounts = content_mount ∷ server_root_mount ∷ local_content_mount cfg ∷ [];
  readiness_probe = none;
  liveness_probe = none;
}

unfoldable pub hc_deployment :
    Config
    → HeadlessClient
    → ArmaServer
    → List Text
    → HeadlessClientLaunchConfig
    → Text
    → Deployment
unfolding hc_env hc_labels hc_container pod_volumes
hc_deployment cfg obj server mod_paths launch_config uuid = record {
  name = obj.name;
  labels = hc_labels server.name obj.name;
  owner = obj.name;
  replicas = 1;
  match_labels = hc_labels server.name obj.name;
  strategy = codes "Recreate";
  pod_labels = hc_labels server.name obj.name;
  pod_annotations = extend [] ((generation_key, uuid) ∷ []);
  pod = record {
    host_network = true;
    run_as_non_root = true;
    image_pull_secrets = secrets cfg.image_pull_secrets;
    containers = hc_container cfg (hc_env cfg obj server mod_paths launch_config) ∷ [];
    volumes = pod_volumes cfg server.name;
  };
}
