-- ===== src/Controller/ArmaConfig/Render.antt =====
-- The two files as text.
use magpie.Prelude.{
  Bool, Option, none, some, List, [], ◌∷◌, ◌++◌, map, Text, codes, replace, join, decimal_int,
  is_empty, if◌then◌else◌,
}
use magpie.Prelude.Int.{ℤ}
use magpie.Controller.ArmaConfig.Values.{Platform}

pub record ResolvedMainConfig : Type 0 where
  pub hostname : Text
  pub max_players : ℤ
  pub force_difficulty : Bool
  pub forced_difficulty : Text
  pub missions_whitelist : List Text
  pub persist_without_players : Bool
  pub use_battleye : Bool
  pub verify_signatures : Bool
  pub skip_lobby : Bool
  pub allow_zeus_composition_scripts : Bool
  pub allow_custom_glasses : Bool
  pub max_ping : Option ℤ
  pub max_packet_loss : Option ℤ
  pub max_desync : Option ℤ
  pub password_admin : Text
  pub password : Text
  pub server_command_password : Text
  pub motd : List Text
  pub motd_interval : Option ℤ
  pub other_properties : Text
  pub admins : List Text
  pub file_patching_exceptions : List Text
  pub kick_timeout : List (ℤ × ℤ)
  pub allowed_file_patching : ℤ
  pub disable_von : Bool
  pub headless_clients : Bool

pub record ResolvedBasicConfig (p : Platform) : Type 0 where
  pub max_msg_send : Option ℤ
  pub max_size_guaranteed : Option ℤ
  pub max_size_nonguaranteed : Option ℤ
  pub min_bandwidth : Option Text
  pub max_bandwidth : Option Text
  pub min_error_to_send : Option p.Float
  pub min_error_to_send_near : Option p.Float
  pub other_properties : Text

-- A quote is doubled.
unfoldable pub escape : Text → Text
escape s = replace (b'"' ∷ []) (b'"' ∷ b'"' ∷ []) s

unfoldable pub bool_num : Bool → Text
bool_num b = if b then codes "1" else codes "0"

-- `"…"`
unfoldable pub quoted : Text → Text
quoted s = b'"' ∷ (escape s ++ b'"' ∷ [])

unfoldable pub string_array : List Text → Text
string_array [] = codes "{}"
string_array (s ∷ ss) = b'{' ∷ (join (codes ",") (map quoted (s ∷ ss)) ++ b'}' ∷ [])

pair_entry : ℤ × ℤ → Text
pair_entry (level, seconds) =
    codes "{ " ++ (decimal_int level ++ (codes ", " ++ (decimal_int seconds ++ codes " }")))

unfoldable pub pair_array : List (ℤ × ℤ) → Text
unfolding pair_entry
pair_array [] = codes "{}"
pair_array (e ∷ es) = b'{' ∷ (join (codes ",") (map pair_entry (e ∷ es)) ++ b'}' ∷ [])

-- `key = value;` with the line's end
line : Text → Text → Text
line key value = key ++ (codes " = " ++ (value ++ codes ";\n"))

-- a line that is there only for `Some`
optional : {A : Type 0} → Text → (A → Text) → Option A → Text
unfolding line
optional key print none = []
optional key print (some v) = line key (print v)

-- a blank line, the text, and a line end, if there is any text
verbatim : Text → Text
verbatim s = if is_empty s then [] else codes "\n" ++ (s ++ codes "\n")

two_if : Bool → Text
two_if b = if b then codes "2" else codes "0"

show_bool : Bool → Text
show_bool b = if b then codes "true" else codes "false"

unfoldable pub render_main_cfg : ResolvedMainConfig → Text
unfolding bool_num line optional verbatim two_if show_bool quoted
render_main_cfg cfg =
    codes "steamProtocolMaxDataSize = 8192;\n\n"
    ++ (line (codes "hostname") (quoted cfg.hostname)
        ++ (codes "\n"
            ++ (line (codes "maxPlayers") (decimal_int cfg.max_players)
                ++ (codes "\n"
                    ++ (line (codes "admins[]") (string_array cfg.admins)
                        ++ (line (codes "filePatchingExceptions[]")
                              (string_array cfg.file_patching_exceptions)
                            ++ (codes "\n"
                                ++ ((if cfg.force_difficulty
                                      then line (codes "forcedDifficulty")
                                          (quoted cfg.forced_difficulty)
                                      else [])
                                    ++ (line (codes "missionWhitelist[]")
                                          (string_array cfg.missions_whitelist)
                                        ++ (line (codes "persistent")
                                              (bool_num cfg.persist_without_players)
                                            ++ (line (codes "BattlEye") (bool_num cfg.use_battleye)
                                                ++ (line (codes "verifySignatures")
                                                      (two_if cfg.verify_signatures)
                                                    ++ (line (codes "skipLobby")
                                                          (bool_num cfg.skip_lobby)
                                                        ++ (line (codes "allowedFilePatching")
                                                            (decimal_int cfg.allowed_file_patching)
                                                            ++ (line (codes "disableVON")
                                                            (bool_num cfg.disable_von)
                                                            ++ (line (codes "kickTimeout[]")
                                                            (pair_array cfg.kick_timeout)
                                                            ++ (line
                                                            (codes "zeusCompositionScriptLevel")
                                                            (two_if
                                                            cfg.allow_zeus_composition_scripts)
                                                            ++ (line (codes "allowProfileGlasses")
                                                            (show_bool cfg.allow_custom_glasses)
                                                            ++ (optional (codes "MaxPing")
                                                            decimal_int cfg.max_ping
                                                            ++ (optional (codes "maxPacketLoss")
                                                            decimal_int cfg.max_packet_loss
                                                            ++ (optional (codes "maxDesync")
                                                            decimal_int cfg.max_desync
                                                            ++ (line (codes "passwordAdmin")
                                                            (quoted cfg.password_admin)
                                                            ++ (line (codes "password")
                                                            (quoted cfg.password)
                                                            ++ (line (codes "serverCommandPassword")
                                                            (quoted cfg.server_command_password)
                                                            ++ (line (codes "motd[]")
                                                            (string_array cfg.motd)
                                                            ++ (optional (codes "motdInterval")
                                                            decimal_int cfg.motd_interval
                                                            ++ ((if cfg.headless_clients
                                                            then codes
                                                            "headlessClients[] = {\"127.0.0.1\"};\nlocalClient[] = {\"127.0.0.1\"};\n"
                                                            else [])
                                                            ++ verbatim
                                                            cfg.other_properties)))))))))))))))))))))))))))

unfoldable pub render_basic_cfg : (p : Platform) → ResolvedBasicConfig p → Text
unfolding optional verbatim quoted
render_basic_cfg p cfg =
    optional (codes "MaxMsgSend") decimal_int cfg.max_msg_send
    ++ (optional (codes "MaxSizeGuaranteed") decimal_int cfg.max_size_guaranteed
        ++ (optional (codes "MaxSizeNonguaranteed") decimal_int cfg.max_size_nonguaranteed
            ++ (optional (codes "MinBandwidth") quoted cfg.min_bandwidth
                ++ (optional (codes "MaxBandwidth") quoted cfg.max_bandwidth
                    ++ (optional (codes "MinErrorToSend") p.show_f64 cfg.min_error_to_send
                        ++ (optional (codes "MinErrorToSendNear") p.show_f64
                              cfg.min_error_to_send_near
                            ++ verbatim cfg.other_properties))))))
