-- ===== src/Launcher/Starting.antt =====
-- What the launcher does before, at and after the start of the game:
-- services/launcher/src/launch.rs, `run`.
use mathlib.Core.List.{Memᴰ}
use magpie.Prelude.{ℕ, zero, suc, ◌+◌, ◌%◌, ◌^◌, ◌≡◌, true, Option, none, List, ◌∷◌, Text, ◌⊎◌}
use magpie.Prelude.Prog.{Result, ok, err, Event, Logged}
use magpie.Prelude.Only.{Only}
use magpie.Launcher.Calls.{
  Call, Reply, ExitStatus, Signal, bind, is_dir, create_dir_all, read_dir, copy, spawn, install,
  select, kill, wait, set_current_dir, exited, received,
}
use magpie.Launcher.Config.{Config}
use magpie.Launcher.Ports.{port_range_size}
use magpie.Launcher.Launch.{port_of, arguments, server_root}
use magpie.Launcher.Launch

-- the calls that look at and copy missions
abbrev IsMirror : Call → Type 0
IsMirror (is_dir path) = Unit
IsMirror (create_dir_all path) = Unit
IsMirror (read_dir path) = Unit
IsMirror (copy src dst) = Unit
IsMirror _ = ⊥

module _ (var : Text → Option Text) (cfg : Config) (mods : List Text) where
  -- So many ports were found free, from an offset on.
  abbrev pub AreFree : ℕ → ℕ → List (Event Reply) → Type 0
  AreFree zero offset past = Unit
  AreFree (suc left) offset past =
      Logged (bind ((port_of var cfg + offset) % 2 ^ 16)) true past × AreFree left (suc offset) past

  -- The calls of a start: only a server copies missions and probes ports; the game is started with
  -- its arguments, and a server's only once its ports were found free; and a signal is passed on
  -- only if it came.
  abbrev pub OfStart : List (Event Reply) → Call → Type 0
  OfStart past (spawn program args env) =
      (program ≡ cfg.arma_binary)
      × (args ≡ arguments var cfg mods)
      × (cfg.client_connect ≡ none → AreFree port_range_size 0 past)
  OfStart past (kill signal) = Logged select (received signal) past
  OfStart past (set_current_dir path) = path ≡ cfg.claim_path
  OfStart past (install kind) = Unit
  OfStart past select = Unit
  OfStart past wait = Unit
  OfStart past _ = cfg.client_connect ≡ none

  -- A start succeeds only if the process did.
  abbrev pub Ended : List (Event Reply) → Result Text Unit → Type 0
  Ended past (ok u) =
      (status : ExitStatus) × (status.success ≡ true)
      × (Logged select (exited (ok status)) past ⊎ Logged wait (ok status) past)
  Ended past (err e) = Unit

  module _ (is_server : cfg.client_connect ≡ none) where
    AreFree-cons :
        (left offset : ℕ) (e : Event Reply) (past : List (Event Reply))
        → AreFree left offset past
        → AreFree left offset (e ∷ past)
    AreFree-cons zero offset e past free = tt
    AreFree-cons (suc left) offset e past (one, free) =
        (Memᴰ.tail one, AreFree-cons left (suc offset) e past free)
