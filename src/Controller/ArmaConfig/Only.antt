-- ===== src/Controller/ArmaConfig/Only.antt =====
-- What rendering a configuration calls.
use magpie.Prelude.{codes, ◌++◌, ℕ, Option, none, some, List, [], ◌∷◌, Text, Bool}
use magpie.Prelude.Dict.{Dict}
use magpie.Prelude.Prog.{Result, ok, err}
use magpie.Prelude.Only.{Only, only_pure, only_fail, only_call, Only-bind, Only-lift}
use magpie.Crd.{ArmaServer}
use magpie.Controller.Config.{Config}
use magpie.Controller.Calls.{
  Call, get_config_map, get_secret, steam_ids_with_scope, create_dir_all, write_file,
}
use magpie.Controller.ArmaConfig.Values.{Platform}
use magpie.Controller.ArmaConfig.Resolve.{
  with_context, option_context, override, fetch_and_merge, secret_ref, decoded, read_key,
  look_up_secret, by_ref, resolve_secret_ref, env_var, env_vars, extract_env_vars,
}
use magpie.Controller.ArmaConfig.Write.{
  resolve_main_config, resolve_headless_client_config, render_and_write,
}

-- What a pass may read while it resolves a configuration: ConfigMaps, and Secrets of one namespace.
pub record Reads (P : Call → Type 0) (namespace : Text) : Type 0 where
  pub config_map : (name : Text) → P (get_config_map name)
  pub secret : (name : Text) → P (get_secret namespace name)

-- What rendering asks for besides: the grants, and the two files of one directory.
pub record Writes (P : Call → Type 0) (dir : Text) : Type 0 where
  pub scopes : (scope : Text) → P (steam_ids_with_scope scope)
  pub directory : P (create_dir_all dir)
  pub main : (content : Text) → P (write_file (dir ++ codes "/main.cfg") content)
  pub basic : (content : Text) → P (write_file (dir ++ codes "/basic.cfg") content)

-- the directory of a server's configuration
abbrev pub config_dir : Config → Text → Text
config_dir cfg name = cfg.server_root_base ++ (codes "/" ++ (name ++ codes "/configs"))

module _ {P : Call → Type 0} where
  with_context-Only :
      {A : Type 0} (context : Text) (r : Result Text A) → Only P (with_context context r)
  unfolding with_context
  with_context-Only context (ok a) = only_pure
  with_context-Only context (err e) = only_fail

  option_context-Only :
      {A : Type 0} (context : Text) (o : Option A) → Only P (option_context context o)
  unfolding option_context
  option_context-Only context none = only_fail
  option_context-Only context (some a) = only_pure

module _ {P : Call → Type 0} {namespace : Text} (reads : Reads P namespace) where
  override-Only : (name : Option Text) (merged : Dict Text) → Only P (override name merged)
  unfolding override
  override-Only none merged = only_pure
  override-Only (some name) merged =
      only_call (reads.config_map name) λ r. Only-bind (with_context-Only _ _) (λ _. only_pure)

  fetch_and_merge-Only :
      (baseline : Text) (name : Option Text) → Only P (fetch_and_merge baseline name)
  unfolding fetch_and_merge
  fetch_and_merge-Only baseline name =
      only_call (reads.config_map baseline)
        λ r. Only-bind (with_context-Only _ _) (λ _. override-Only name _)

  module _ (p : Platform) where
    decoded-Only : (bytes : List ℕ) (o : Option Text) → Only P (decoded p bytes o)
    unfolding decoded
    decoded-Only bytes none = only_fail
    decoded-Only bytes (some s) = only_pure

    read_key-Only : (name key : Text) → Only P (read_key p namespace name key)
    unfolding read_key
    read_key-Only name key = only_call (reads.secret name) λ r.
        Only-bind (with_context-Only _ _)
          λ entries. Only-bind (option_context-Only _ _) λ bytes. decoded-Only bytes _

    look_up_secret-Only : (inner : Text) → Only P (look_up_secret p namespace inner)
    unfolding look_up_secret
    look_up_secret-Only inner = Only-bind (option_context-Only _ _) λ at. read_key-Only at.0 at.1

    by_ref-Only : (value : Text) (o : Option Text) → Only P (by_ref p namespace value o)
    by_ref-Only value none = unfold by_ref in only_pure
    by_ref-Only value (some inner) = unfold by_ref in look_up_secret-Only inner

    resolve_secret_ref-Only : (value : Text) → Only P (resolve_secret_ref p namespace value)
    unfolding resolve_secret_ref
    resolve_secret_ref-Only value = by_ref-Only value (secret_ref value)

    env_var-Only :
        (m : Dict Text) (server raw : Text) (o : Option Text)
        → Only P (env_var p namespace m server raw o)
    unfolding env_var
    env_var-Only m server raw none = only_pure
    env_var-Only m server raw (some name) =
        Only-bind (resolve_secret_ref-Only _) λ resolved. only_pure

    env_vars-Only :
        (m : Dict Text) (server : Text) (l : List (Text × Text))
        → Only P (env_vars p namespace m server l)
    unfolding env_vars
    env_vars-Only m server [] = only_pure
    env_vars-Only m server ((key, raw) ∷ l) =
        Only-bind (env_var-Only m server raw _)
          λ here. Only-bind (env_vars-Only m server l) λ later. only_pure

    extract_env_vars-Only :
        (m : Dict Text) (server : Text) → Only P (extract_env_vars p namespace m server)
    unfolding extract_env_vars
    extract_env_vars-Only m server = env_vars-Only m server m

    resolve_main_config-Only :
        (m : Dict Text) (server : Text) (admins filepatch : List Text) (hcs : Bool)
        → Only P (resolve_main_config p namespace m server admins filepatch hcs)
    unfolding resolve_main_config
    resolve_main_config-Only m server admins filepatch hcs =
        Only-bind (resolve_secret_ref-Only _) λ _.
          Only-bind (resolve_secret_ref-Only _)
            λ _. Only-bind (resolve_secret_ref-Only _) λ _. only_pure

module _ {P : Call → Type 0} (p : Platform) (cfg : Config)
    (reads : Reads P cfg.user_secrets_namespace) where
  pub resolve_headless_client_config-Only :
      (obj : ArmaServer) → Only P (resolve_headless_client_config p cfg obj)
  unfolding resolve_headless_client_config
  resolve_headless_client_config-Only obj =
      Only-bind (fetch_and_merge-Only reads _ _)
        λ merged. Only-bind (resolve_secret_ref-Only reads p _) λ password. only_pure

  pub render_and_write-Only :
      (obj : ArmaServer) → Writes P (config_dir cfg obj.name) → Only P (render_and_write p cfg obj)
  unfolding render_and_write
  render_and_write-Only obj writes = Only-bind (fetch_and_merge-Only reads _ _) λ merged.
      only_call (writes.scopes _) λ r. Only-bind (Only-lift r) λ admins.
        only_call (writes.scopes _) λ r'. Only-bind (Only-lift r') λ filepatch.
          Only-bind (resolve_main_config-Only reads p merged _ admins filepatch _) λ main.
            Only-bind (extract_env_vars-Only reads p merged _) λ env.
              only_call writes.directory λ made. Only-bind (with_context-Only _ made) λ _.
                only_call (writes.main _) λ written. Only-bind (Only-lift written) λ _.
                  only_call (writes.basic _)
                    λ written'. Only-bind (Only-lift written') λ _. only_pure
