-- ===== src/Crd.antt =====
-- crates/crd/src/lib.rs: the custom resources that the services share. Of an object's metadata the
-- name and the annotations are kept, which is all that the services read. A `u16` or `u32` is a
-- number; `port_range` saturates as the source does.
pub mod Ports
mod Tests
use magpie.Prelude.{ℕ, ◌+◌, min, Bool, ◌&&◌, Option, none, some, List, Text, codes, leb, unwrap_or}
use magpie.Prelude.Dict.{Dict}

pub data DesiredState : Type 0 where
  running stopped : DesiredState

pub record ArmaServerMetrics : Type 0 where
  pub port : ℕ
  pub path : Option Text

unfoldable pub path_or_default : ArmaServerMetrics → Text
path_or_default m = unwrap_or m.path (codes "/metrics")

pub record ArmaServerSpec : Type 0 where
  pub mod_source_ids : List Text
  pub port : ℕ
  pub cdlc : List Text
  pub profiling : Bool
  pub desired_state : DesiredState
  pub config_map : Option Text
  pub metrics : Option ArmaServerMetrics
  pub headless_clients : ℕ

-- the largest u16
abbrev pub u16_max : ℕ
u16_max = 65535

-- both ends of the inclusive range
unfoldable pub port_range : ℕ → ℕ × ℕ
port_range port = (port, min (port + 4) u16_max)

unfoldable pub port_ranges_overlap : ℕ → ℕ → Bool
unfolding port_range
port_ranges_overlap a b =
    let (a_lo, a_hi) = port_range a in
    let (b_lo, b_hi) = port_range b in leb a_lo b_hi && leb b_lo a_hi

pub data ArmaServerPhase : Type 0 where
  stopped pending running failed : ArmaServerPhase

pub record ArmaServerStatus : Type 0 where
  pub phase : ArmaServerPhase
  pub message : Text

-- `ArmaServerStatus::default()`
abbrev pub default_status : ArmaServerStatus
default_status = record { phase = ArmaServerPhase.stopped; message = List.[] }

pub record ArmaServer : Type 0 where
  pub name : Text
  pub annotations : Dict Text
  pub spec : ArmaServerSpec
  pub status : Option ArmaServerStatus

pub record HeadlessClientSpec : Type 0 where
  pub server : Text
  pub index : ℕ

pub data HeadlessClientPhase : Type 0 where
  pending running failed : HeadlessClientPhase

pub record HeadlessClientStatus : Type 0 where
  pub phase : HeadlessClientPhase
  pub message : Text

pub record HeadlessClient : Type 0 where
  pub name : Text
  pub spec : HeadlessClientSpec

pub data ModSourceInput : Type 0 where
  steam_url html_url html_content : Text → ModSourceInput
  local : Text → ModSourceInput

pub data ModSourcePhase : Type 0 where
  pending resolving synced failed : ModSourcePhase

-- The phase is the only field of `ModSourceStatus` that the modelled services read.
pub record ModSource : Type 0 where
  pub name : Text
  pub source : ModSourceInput
  pub phase : Option ModSourcePhase
