-- ===== src/Controller/ArmaConfig/Write.antt =====
-- The two resolved configurations, and what a reconcile pass does with them.
use magpie.Prelude.{
  Bool, true, false, Option, some, List, [], ◌∷◌, ◌++◌, map, Text, codes, is_empty, decimal_int,
  unwrap_or, ltb, if◌then◌else◌,
}
use magpie.Prelude.Int.{ℤ, pos}
use magpie.Prelude.Dict.{Dict, get}
use magpie.Prelude.Prog.{pure, ◌>>=◌, ◌>>◌, request, lift}
use magpie.Crd.{ArmaServer}
use magpie.Controller.Config.{Config}
use magpie.Controller.Calls.{M, steam_ids_with_scope, create_dir_all, write_file}
use magpie.Controller.ArmaConfig.Values.{
  Platform, parse_bool, parse_num, parse_float, parse_list, parse_pairs,
}
use magpie.Controller.ArmaConfig.Render.{
  ResolvedMainConfig, ResolvedBasicConfig, render_main_cfg, render_basic_cfg,
}
use magpie.Controller.ArmaConfig.Resolve.{
  with_context, fetch_and_merge, resolve_secret_ref, subst_in, extract_env_vars,
  resolve_launch_params,
}

-- `m.get(key).map(String::as_str).unwrap_or("")`
abbrev text_at : Dict Text → Text → Text
text_at m key = unwrap_or (get key m) []

abbrev flag : Dict Text → Text → Bool → Bool
flag m key default = unwrap_or (parse_bool m key) default

-- `.or(…)`
abbrev or_some : {A : Type 0} → Option A → A → Option A
or_some o a = some (unwrap_or o a)

abbrev default_kick_timeout : List (ℤ × ℤ)
default_kick_timeout = (pos 0, pos 1) ∷ (pos 1, pos 1) ∷ (pos 2, pos 1) ∷ (pos 3, pos 1) ∷ []

pub record HeadlessClientLaunchConfig : Type 0 where
  pub password : Text
  pub limit_fps : ℤ
  pub additional_params : Text

-- ARMA_LIMITFPS always, ARMA_PARAMS if there are any
unfoldable pub launch_env : Dict Text → List (Text × Text)
launch_env m =
    let (limit_fps, additional_params) = resolve_launch_params m in
    (codes "ARMA_LIMITFPS", decimal_int limit_fps)
    ∷ (if is_empty additional_params then [] else (codes "ARMA_PARAMS", additional_params) ∷ [])

module _ (p : Platform) where
  unfoldable pub resolve_main_config :
      Text → Dict Text → Text → List Text → List Text → Bool → M ResolvedMainConfig
  unfolding ◌>>=◌
  resolve_main_config namespace m server_name admins filepatch headless_clients = do
    let subst = subst_in p m server_name
    password_admin ← resolve_secret_ref p namespace (subst (text_at m (codes "password_admin")))
    password ← resolve_secret_ref p namespace (subst (text_at m (codes "password")))
    server_command_password ←
        resolve_secret_ref p namespace (subst (text_at m (codes "server_command_password")))
    pure (record {
      hostname =
          subst
            (unwrap_or (get (codes "hostname") m) (codes "{{prefix}}{{server_name}}{{suffix}}"));
      max_players = unwrap_or (parse_num m (codes "max_players")) (pos 64);
      force_difficulty = flag m (codes "force_difficulty") false;
      forced_difficulty = unwrap_or (get (codes "forced_difficulty") m) (codes "veteran");
      missions_whitelist = parse_list m (codes "missions_whitelist");
      persist_without_players = flag m (codes "persist_without_players") false;
      use_battleye = flag m (codes "use_battleEye") false;
      verify_signatures = flag m (codes "verify_signatures") true;
      skip_lobby = flag m (codes "skip_lobby") false;
      allow_zeus_composition_scripts = flag m (codes "allow_zeus_composition_scripts") true;
      allow_custom_glasses = flag m (codes "allow_custom_glasses") false;
      max_ping = or_some (parse_num m (codes "max_ping")) (pos 300);
      max_packet_loss = parse_num m (codes "max_packet_loss");
      max_desync = parse_num m (codes "max_desync");
      password_admin = password_admin;
      password = password;
      server_command_password = server_command_password;
      motd = map subst (parse_list m (codes "motd"));
      motd_interval = parse_num m (codes "motd_interval");
      other_properties = text_at m (codes "other_properties");
      admins = admins;
      file_patching_exceptions = filepatch;
      kick_timeout = unwrap_or (parse_pairs m (codes "kick_timeout")) default_kick_timeout;
      allowed_file_patching = unwrap_or (parse_num m (codes "allowed_file_patching")) (pos 1);
      disable_von = flag m (codes "disable_von") true;
      headless_clients = headless_clients;
    })

  unfoldable pub resolve_basic_config : Dict Text → ResolvedBasicConfig p
  resolve_basic_config m = record {
    max_msg_send = parse_num m (codes "max_msg_send");
    max_size_guaranteed = parse_num m (codes "max_size_guaranteed");
    max_size_nonguaranteed = parse_num m (codes "max_size_nonguaranteed");
    min_bandwidth = get (codes "min_bandwidth") m;
    max_bandwidth = get (codes "max_bandwidth") m;
    min_error_to_send = parse_float p m (codes "min_error_to_send");
    min_error_to_send_near = parse_float p m (codes "min_error_to_send_near");
    other_properties = text_at m (codes "basic_other_properties");
  }

  unfoldable pub resolve_headless_client_config : Config → ArmaServer → M HeadlessClientLaunchConfig
  unfolding ◌>>=◌
  resolve_headless_client_config cfg obj = do
    merged ← fetch_and_merge cfg.arma_config_baseline obj.spec.config_map
    password ←
        resolve_secret_ref p cfg.user_secrets_namespace
          (subst_in p merged obj.name (text_at merged (codes "password")))
    let (limit_fps, additional_params) = resolve_launch_params merged
    pure (record {
      password = password;
      limit_fps = limit_fps;
      additional_params = additional_params;
    })

  unfoldable pub render_and_write : Config → ArmaServer → M (List (Text × Text))
  unfolding ◌>>=◌
  render_and_write cfg obj = do
    merged ← fetch_and_merge cfg.arma_config_baseline obj.spec.config_map
    admins ← request (steam_ids_with_scope (codes "arma:admin"))
    admins ← lift admins
    filepatch ← request (steam_ids_with_scope (codes "arma:filepatch"))
    filepatch ← lift filepatch
    main ←
        resolve_main_config cfg.user_secrets_namespace merged obj.name admins filepatch
          (ltb 0 obj.spec.headless_clients)
    operator_env ← extract_env_vars p cfg.user_secrets_namespace merged obj.name
    let dir = cfg.server_root_base ++ (codes "/" ++ (obj.name ++ codes "/configs"))
    made ← request (create_dir_all dir)
    with_context (codes "failed to create " ++ dir) made
    written ← request (write_file (dir ++ codes "/main.cfg") (render_main_cfg main))
    lift written
    written ←
        request (
          write_file (dir ++ codes "/basic.cfg") (render_basic_cfg p (resolve_basic_config merged)))
    lift written
    pure (launch_env merged ++ operator_env)
