-- ===== src/Launcher/Tests.antt =====
-- Examples for services/launcher: a server in an environment of two variables.
use magpie.Prelude.{
  ℕ, ◌+◌, refl, false, Option, none, some, [], ◌∷◌, Text, codes, text_eq, arith, if◌then◌else◌,
}
use magpie.Prelude.Prog.{ok, err, run}
use magpie.Launcher.Calls.{
  Call, Reply, exited, set_current_dir, bind, now, sleep, is_dir, create_dir_all, read_dir, copy,
  spawn, install, select, kill, wait,
}
use magpie.Launcher.Config.{Config}
use magpie.Launcher.Ports.{port_wait_timeout, wait_for_ports_free}
use magpie.Launcher.Ports.Rounds.{HasClock, Waited, wait_for_ports_free-Waited}
use magpie.Launcher.Launch

abbrev var : Text → Option Text
var key = if text_eq key (codes "PORT") then some (codes "2402") else none

abbrev cfg : Config
cfg = record {
  claim_path = codes "/arma3/claim";
  mods = codes "workshop/1" ∷ [];
  arma_binary = codes "./arma3server_x64";
  arma_cdlc = [];
  client_connect = none;
  client_password = none;
  ld_preload = none;
}

-- a system on which no port is ever free; its state is the time
abbrev busy : (c : Call) → ℕ → Reply c × ℕ
busy (set_current_dir path) t = (ok tt, t)
busy (bind port) t = (false, t)
busy now t = (t, t)
busy (sleep ms) t = (tt, t + ms)
busy (is_dir path) t = (false, t)
busy (create_dir_all path) t = (ok tt, t)
busy (read_dir path) t = (ok [], t)
busy (copy src dst) t = (ok tt, t)
busy (spawn program args env) t = (ok tt, t)
busy (install kind) t = (ok tt, t)
busy select t = (exited (err []), t)
busy (kill signal) t = (tt, t)
busy wait t = (err [], t)

clock : HasClock busy (λ t. t)
clock = record {
  says = λ t. refl;
  at_now = λ t. omega arith;
  at_bind = λ port t. omega arith;
  at_sleep = λ ms t. omega arith;
}

wait_for_ports_free-Waited_example :
    Waited busy (λ t. t) clock 2302 (7 + port_wait_timeout) (run busy (wait_for_ports_free 2302) 7)
wait_for_ports_free-Waited_example = wait_for_ports_free-Waited busy (λ t. t) clock 2302 7
