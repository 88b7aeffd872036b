-- ===== src/Controller/Deployment.antt =====
-- The Deployment objects that services/controller/src/reconcile.rs applies: of the Kubernetes
-- types, the fields that it sets.
use magpie.Prelude.{ℕ, Bool, Option, List, Text}
use magpie.Prelude.Dict.{Dict}

-- `value`, or a `value_from` that names a Secret and a key in it
pub data EnvValue : Type 0 where
  value : Text → EnvValue
  secret_key : Text → Text → EnvValue

pub record EnvVar : Type 0 where
  pub name : Text
  pub value : EnvValue

pub record VolumeMount : Type 0 where
  pub name : Text
  pub mount_path : Text
  pub sub_path : Option Text
  pub read_only : Option Bool

-- `csi` names the driver; `host_path` the path and its type.
pub data VolumeSource : Type 0 where
  csi : Text → VolumeSource
  host_path : Text → Text → VolumeSource

pub record Volume : Type 0 where
  pub name : Text
  pub source : VolumeSource

pub record Probe : Type 0 where
  pub command : List Text
  pub initial_delay_seconds : ℕ
  pub period_seconds : ℕ
  pub timeout_seconds : ℕ
  pub failure_threshold : ℕ

pub record Container : Type 0 where
  pub name : Text
  pub image : Text
  pub allow_privilege_escalation : Bool
  pub capabilities_add : List Text
  pub capabilities_drop : List Text
  pub image_pull_policy : Text
  pub env : List EnvVar
  pub volume_mounts : List VolumeMount
  pub readiness_probe : Option Probe
  pub liveness_probe : Option Probe

pub record PodSpec : Type 0 where
  pub host_network : Bool
  pub run_as_non_root : Bool
  pub image_pull_secrets : Option (List Text)
  pub containers : List Container
  pub volumes : List Volume

-- `owner` is the name of the object whose controller reference it carries.
pub record Deployment : Type 0 where
  pub name : Text
  pub labels : Dict Text
  pub owner : Text
  pub replicas : ℕ
  pub match_labels : Dict Text
  pub strategy : Text
  pub pod_labels : Dict Text
  pub pod_annotations : Dict Text
  pub pod : PodSpec
