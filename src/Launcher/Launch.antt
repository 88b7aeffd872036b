-- ===== src/Launcher/Launch.antt =====
-- The start of the game: services/launcher/src/launch.rs, `run`.
use magpie.Prelude.{
  ℕ, ◌-◌, ◌^◌, Option, none, some, List, [], ◌∷◌, ◌++◌, Text, codes, is_empty, not, keep, map,
  split, is_whitespace, join, decimal, parse_unsigned, unwrap_or, if◌then◌else◌,
}
use magpie.Prelude.Prog.{pure, fail, ◌>>=◌, ◌>>◌, request}
use magpie.Launcher.Calls.{
  Fallible, Signal, sigterm, sigint, ExitStatus, Event, exited, received, set_current_dir, spawn,
  install, select, kill, wait,
}
use magpie.Launcher.Config.{Config}
use magpie.Launcher.Missions.{join_path, context, mirror_missions}
use magpie.Launcher.Ports.{wait_for_ports_free}

abbrev pub server_root : Text
server_root = codes "/arma3/server"

unfoldable pub split_whitespace : Text → List Text
split_whitespace s = keep (λ w. not (is_empty w)) (split is_whitespace s)

abbrev parsed_port : Option Text → Option ℕ
parsed_port none = none
parsed_port (some p) = parse_unsigned (2 ^ 16 - 1) p

unfoldable pub signal_name : Signal → Text
signal_name sigterm = codes "SIGTERM"
signal_name sigint = codes "SIGINT"

-- a flag for an optional value
abbrev when_set : Option Text → (Text → List Text) → List Text
when_set none f = []
when_set (some v) f = f v

abbrev when_any : List Text → List Text
when_any [] = []
when_any (m ∷ mods) = (codes "-mod=" ++ join (codes ";") (m ∷ mods)) ∷ []

unfoldable pub child_env : Option Text → List (Text × Text)
child_env none = []
child_env (some ld_preload) =
    (codes "LD_PRELOAD", ld_preload)
    ∷ (codes "MIMALLOC_ALLOW_LARGE_OS_PAGES", codes "1")
    ∷ (codes "MIMALLOC_PURGE_DELAY", codes "60000")
    ∷ []

unfoldable pub check_status : ExitStatus → Fallible Unit
check_status status =
    if status.success
    then pure tt
    else fail (codes "arma3server exited with status " ++ status.code)

-- The process ends by itself, or a signal is passed on and it is waited for.
unfoldable pub end_of : Event → Fallible ExitStatus
unfolding ◌>>=◌ context
end_of (exited status) = context (codes "failed to wait for arma3server") status
end_of (received signal) = do
  request (kill signal)
  status ← request wait
  context (codes "failed to wait for arma3server after " ++ signal_name signal) status

module _ (var : Text → Option Text) (cfg : Config) where
  -- `PORT`, and `ARMA_PROFILE`
  unfoldable pub port_of : ℕ
  port_of = unwrap_or (parsed_port (var (codes "PORT"))) 2302

  unfoldable pub profile : Text
  profile = unwrap_or (var (codes "ARMA_PROFILE")) (codes "main")

  unfoldable pub common_args : List Text → List Text
  unfolding split_whitespace
  common_args mods =
      (codes "-limitFPS=" ++ unwrap_or (var (codes "ARMA_LIMITFPS")) (codes "300"))
        ∷ codes "-world=empty"
        ∷ when_set (var (codes "ARMA_PARAMS")) split_whitespace
      ++ when_any mods
      ++ map (λ cdlc. codes "-mod=" ++ cdlc) cfg.arma_cdlc

  unfoldable pub role_args : Option Text → List Text
  unfolding port_of profile
  role_args (some connect) =
      codes "-client"
        ∷ (codes "-connect=" ++ connect)
        ∷ (codes "-port=" ++ decimal port_of)
        ∷ when_set cfg.client_password (λ password. (codes "-password=" ++ password) ∷ [])
      ++ (codes "-name=" ++ profile)
        ∷ (codes "-profiles=" ++ server_root ++ codes "/configs/profiles")
        ∷ []
  role_args none =
      (codes "-config=" ++ server_root ++ codes "/configs/main.cfg")
      ∷ (codes "-port=" ++ decimal port_of)
      ∷ (codes "-name=" ++ profile)
      ∷ (codes "-profiles=" ++ server_root ++ codes "/configs/profiles")
      ∷ (codes "-cfg=" ++ server_root ++ codes "/configs/basic.cfg")
      ∷ (codes "-keysFolder=" ++ server_root ++ codes "/keys")
      ∷ []

  unfoldable pub arguments : List Text → List Text
  unfolding common_args role_args
  arguments mods = common_args mods ++ role_args cfg.client_connect

  -- what only a server does: its missions, and the wait for its ports
  unfoldable pub prepare : ℕ → Option Text → Fallible Unit
  unfolding ◌>>=◌ port_of mirror_missions wait_for_ports_free
  prepare depth (some connect) = pure tt
  prepare depth none = do
    mirror_missions depth (join_path server_root (codes "mpmissions"))
        (join_path cfg.claim_path (codes "mpmissions"))
    wait_for_ports_free port_of

  unfoldable pub run : ℕ → List Text → Fallible Unit
  unfolding ◌>>=◌ context prepare end_of check_status arguments child_env
  run depth mods = do
    changed ← request (set_current_dir cfg.claim_path)
    context (codes "failed to chdir into " ++ cfg.claim_path) changed
    prepare depth cfg.client_connect
    spawned ← request (spawn cfg.arma_binary (arguments mods) (child_env cfg.ld_preload))
    context (codes "failed to spawn arma3server") spawned
    terminate ← request (install sigterm)
    context (codes "failed to install SIGTERM handler") terminate
    interrupt ← request (install sigint)
    context (codes "failed to install SIGINT handler") interrupt
    event ← request select
    status ← end_of event
    check_status status
