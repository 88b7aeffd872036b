-- ===== src/Controller/ArmaConfig/Resolve.antt =====
-- Fetching, resolving and writing a server's configuration.
use magpie.Prelude.{
  ℕ, Option, none, some, List, [], ◌∷◌, ◌++◌, Text, codes, strip_prefix, strip_suffix, split_once,
  from_utf8, unwrap_or,
}
use magpie.Prelude.Int.{ℤ, pos}
use magpie.Prelude.Dict.{Dict, get, extend}
use magpie.Prelude.Prog.{Result, ok, err, pure, fail, ◌>>=◌, request}
use magpie.Controller.Calls.{M, KubeError, not_found, other, get_config_map, get_secret}
use magpie.Controller.ArmaConfig.Values.{Platform, parse_num, substitute_simple}

abbrev pub kube_text : KubeError → Text
kube_text (not_found text) = text
kube_text (other text) = text

-- `with_context(…)?`: the context stands before the cause.
unfoldable pub with_context : {A : Type 0} → Text → Result Text A → M A
with_context context (ok a) = pure a
with_context context (err cause) = fail (context ++ (codes ": " ++ cause))

-- `?` on a `kube::Error`
abbrev pub kube : {A : Type 0} → Result KubeError A → Result Text A
kube (ok a) = ok a
kube (err e) = err (kube_text e)

unfoldable pub option_context : {A : Type 0} → Text → Option A → M A
option_context context none = fail context
option_context context (some a) = pure a

unfoldable pub override : Option Text → Dict Text → M (Dict Text)
unfolding ◌>>=◌
override none merged = pure merged
override (some name) merged = do
  over ← request (get_config_map name)
  over ← with_context (codes "failed to fetch per-server ConfigMap " ++ name) (kube over)
  pure (extend merged over)

unfoldable pub fetch_and_merge : Text → Option Text → M (Dict Text)
unfolding ◌>>=◌ override
fetch_and_merge baseline_name override_name = do
  base ← request (get_config_map baseline_name)
  base ← with_context (codes "failed to fetch baseline ConfigMap " ++ baseline_name) (kube base)
  override override_name (extend [] base)

-- the inside of `{{secret:…}}`
abbrev pub secret_ref : Text → Option Text
secret_ref value = elim (strip_prefix (codes "{{secret:") value) [
  | none ↦ none
  | some s ↦ strip_suffix (codes "}}") s
]

unfoldable pub resolve_launch_params : Dict Text → ℤ × Text
resolve_launch_params m = (
  unwrap_or (parse_num m (codes "limit_fps")) (pos 300),
  unwrap_or (get (codes "additional_params") m) [],
)

module _ (p : Platform) where
  -- `String::from_utf8(…)?`
  unfoldable pub decoded : List ℕ → Option Text → M Text
  decoded bytes none = fail (p.utf8_error bytes)
  decoded bytes (some s) = pure s

  unfoldable pub read_key : Text → Text → Text → M Text
  unfolding ◌>>=◌ decoded
  read_key namespace name key = do
    secret ← request (get_secret namespace name)
    entries ←
        with_context
          (codes "failed to fetch Secret " ++ (name ++ codes " for {{secret:...}} reference"))
          (kube secret)
    bytes ←
        option_context (codes "Secret " ++ (name ++ (codes " has no key " ++ key)))
          (get key (extend [] entries))
    decoded bytes (from_utf8 bytes)

  -- of a `{{secret:<inner>}}`
  unfoldable pub look_up_secret : Text → Text → M Text
  unfolding ◌>>=◌ read_key
  look_up_secret namespace inner = do
    at ←
        option_context
          (codes "malformed {{secret:...}} reference: {{secret:" ++ (inner ++ codes "}}"))
          (split_once b'/' inner)
    read_key namespace at.0 at.1

  -- a value that is no reference passes through
  unfoldable pub by_ref : Text → Text → Option Text → M Text
  unfolding look_up_secret
  by_ref namespace value none = pure value
  by_ref namespace value (some inner) = look_up_secret namespace inner

  unfoldable pub resolve_secret_ref : Text → Text → M Text
  unfolding by_ref
  resolve_secret_ref namespace value = by_ref namespace value (secret_ref value)

  -- `merged.get("prefix")` and `merged.get("suffix")`, with their defaults
  abbrev pub prefix_of : Dict Text → Text
  prefix_of m = unwrap_or (get (codes "prefix") m) []

  abbrev pub suffix_of : Dict Text → Text
  suffix_of m = unwrap_or (get (codes "suffix") m) (codes " | Powered by MAGPIE")

  abbrev pub subst_in : Dict Text → Text → Text → Text
  subst_in m server_name value = substitute_simple p value server_name (prefix_of m) (suffix_of m)

  -- one entry of `extract_env_vars`, by what its key names
  unfoldable pub env_var : Text → Dict Text → Text → Text → Option Text → M (List (Text × Text))
  unfolding ◌>>=◌ resolve_secret_ref
  env_var namespace m server_name raw none = pure []
  env_var namespace m server_name raw (some env_name) = do
    resolved ← resolve_secret_ref namespace (subst_in m server_name raw)
    pure ((env_name, resolved) ∷ [])

  -- the loop over the map, in the order of its keys
  unfoldable pub env_vars : Text → Dict Text → Text → List (Text × Text) → M (List (Text × Text))
  unfolding ◌>>=◌ env_var
  env_vars namespace m server_name [] = pure []
  env_vars namespace m server_name ((key, raw) ∷ rest) = do
    here ← env_var namespace m server_name raw (strip_prefix (codes "env.") key)
    later ← env_vars namespace m server_name rest
    pure (here ++ later)

  unfoldable pub extract_env_vars : Text → Dict Text → Text → M (List (Text × Text))
  unfolding env_vars
  extract_env_vars namespace m server_name = env_vars namespace m server_name m
