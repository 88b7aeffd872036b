-- ===== src/Controller/Tests.antt =====
-- Examples for services/controller: a server that is `Pending`, with one mod source and two headless
-- clients.
use magpie.Prelude.{List, ◌≡◌, refl, true, false, none, some, [], ◌∷◌, ◌++◌, Text, codes}
use magpie.Prelude.Prog.{Holds}
use magpie.Prelude.Only.{Only}
use magpie.Crd.{ArmaServer, ArmaServerPhase, DesiredState, HeadlessClient}
use magpie.Controller.Config.{Config}
use magpie.Controller.ArmaConfig.Values.{Platform}
use magpie.Controller.ArmaConfig.Render.{quoted, string_array}
use magpie.Controller.ArmaConfig.Quoting.{
  read_string, read_array, read_string-quoted, read_array-string_array,
}
use magpie.Prelude.Prog.{IfOk}
use magpie.Prelude.Dict.{last_of}
use magpie.Controller.Deployment.{value}
use magpie.Controller.Pods.{fixed_env, server_env}
use magpie.Controller.Environment.{effective, effective-server_env}
use magpie.Controller.ArmaConfig.Resolve.{fetch_and_merge}
use magpie.Controller.ArmaConfig.Merging.{IsMerged, fetch_and_merge-IsMerged}
use magpie.Controller.Reconcile.{apply, reconcile}
use magpie.Controller.Reconcile.Waiting.{Gated, apply-Gated}
use magpie.Controller.Reconcile.Transitions.{Legal, apply-Legal}
use magpie.Controller.Reconcile.Ownership.{IsUnwanted, reconcile-Owned}
use magpie.Controller.HeadlessClients.Ownership.{Owned}

-- a platform that has no case tables, and whose floats are texts
abbrev platform : Platform
platform = record {
  to_uppercase = λ c. c ∷ [];
  utf8_error = λ bytes. codes "invalid utf-8";
  Float = Text;
  parse_f64 = λ s. some s;
  show_f64 = λ s. s;
}

abbrev config : Config
config = record {
  launcher_image = codes "launcher:1";
  server_root_base = codes "/srv/arma";
  local_content_root = codes "/local";
  local_content_host_path = codes "/mnt/local";
  image_pull_secrets = [];
  app_postgres_role = codes "magpie";
  app_postgres_secret_name = codes "pg";
  app_postgres_database = codes "magpie";
  app_postgres_host = codes "db";
  app_postgres_port = codes "5432";
  arma_config_baseline = codes "arma-baseline";
  user_secrets_namespace = codes "user-secrets";
  arma_ld_preload = [];
}

abbrev ops : ArmaServer
ops = record {
  name = codes "ops";
  annotations = [];
  spec = record {
    mod_source_ids = codes "base" ∷ [];
    port = 2302;
    cdlc = [];
    profiling = false;
    desired_state = DesiredState.running;
    config_map = some (codes "ops-config");
    metrics = none;
    headless_clients = 2;
  };
  status = some (record { phase = ArmaServerPhase.pending; message = [] });
}

abbrev client : HeadlessClient
client = record { name = codes "ops-hc-0"; spec = record { server = codes "ops"; index = 0 } }

apply-Gated_example : Holds (Gated ops) (λ h r. Unit {0}) [] (apply platform config ops)
apply-Gated_example = apply-Gated platform config ops

apply-Legal_example :
    Holds
      (Legal (codes "ops") ArmaServerPhase.pending true)
      (λ h r. Unit {0})
      []
      (apply platform config ops)
apply-Legal_example = apply-Legal platform config ops

reconcile-Owned_example :
    Holds
      (Owned (codes "ops") (IsUnwanted ops false))
      (λ h r. Unit {0})
      []
      (reconcile platform config false ops)
reconcile-Owned_example = reconcile-Owned platform config ops false

-- a text with a quote in it, and a semicolon behind it
read_string-quoted_example :
    read_string (quoted (codes "say \"hi\"") ++ codes ";") ≡ some (codes "say \"hi\"", codes ";")
unfolding codes
read_string-quoted_example = read_string-quoted (codes "say \"hi\"") (codes ";") refl

read_array-string_array_example :
    read_array (string_array (codes "a,b" ∷ codes "c}" ∷ []) ++ codes ";")
    ≡ some (codes "a,b" ∷ codes "c}" ∷ [], codes ";")
read_array-string_array_example =
    read_array-string_array (codes "a,b" ∷ codes "c}" ∷ []) (codes ";")

fetch_and_merge-IsMerged_example :
    Holds
      (λ past c. Unit {0})
      (λ h r. IfOk (IsMerged (codes "arma-baseline") (some (codes "ops-config")) h) r)
      []
      (fetch_and_merge (codes "arma-baseline") (some (codes "ops-config")))
fetch_and_merge-IsMerged_example =
    fetch_and_merge-IsMerged (codes "arma-baseline") (some (codes "ops-config"))

-- a configuration that points the mods elsewhere
abbrev mods : List (Text × Text)
mods = (codes "MODS", codes "workshop/1") ∷ []

effective-server_env_example :
    effective (codes "MODS") (server_env config ops [] mods) ≡ elim (last_of (codes "MODS") mods) [
      | some v ↦ some (value v)
      | none ↦ effective (codes "MODS") (fixed_env config ops [])
    ]
effective-server_env_example = effective-server_env config ops [] mods (codes "MODS")
