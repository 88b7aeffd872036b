-- ===== src/Launcher/Config.antt =====
-- services/launcher/src/config.rs: the environment of the launcher.
use magpie.Prelude.{
  Bool, not, Option, none, some, List, [], ◌++◌, Text, codes, is_empty, trim, split, ◌==◌, keep,
  map, unwrap_or, if◌then◌else◌,
}
use magpie.Prelude.Prog.{Result, ok, err}

pub record Config : Type 0 where
  pub claim_path : Text
  pub mods : List Text
  pub arma_binary : Text
  pub arma_cdlc : List Text
  pub client_connect : Option Text
  pub client_password : Option Text
  pub ld_preload : Option Text

unfoldable pub filled : Option Text → Option Text
filled none = none
filled (some s) = if is_empty s then none else some s

abbrev is_filled : Text → Bool
is_filled s = not (is_empty s)

-- the parts between semicolons that are not empty
unfoldable pub parts : (Text → Text) → Option Text → List Text
parts clean value = keep is_filled (map clean (split (λ c. c == b';') (unwrap_or value [])))

-- The environment, and `str::to_lowercase`.
module _ (var : Text → Option Text) (to_lowercase : Text → Text) where
  unfoldable pub require_env : Text → Result Text Text
  require_env key = elim (var key) [
    | none ↦ err (codes "missing required env var " ++ key)
    | some v ↦ ok v
  ]

  unfoldable pub from_claim : Result Text Text → Result Text Config
  unfolding parts filled
  from_claim (err e) = err e
  from_claim (ok claim_path) = ok (record {
    claim_path = claim_path;
    mods = parts trim (var (codes "MODS"));
    arma_binary = unwrap_or (var (codes "ARMA_BINARY")) (codes "./arma3server_x64");
    arma_cdlc = parts (λ s. to_lowercase (trim s)) (var (codes "ARMA_CDLC"));
    client_connect = filled (var (codes "ARMA_CLIENT_CONNECT"));
    client_password = filled (var (codes "ARMA_SERVER_PASSWORD"));
    ld_preload = filled (var (codes "ARMA_LD_PRELOAD"));
  })

  unfoldable pub from_env : Result Text Config
  unfolding require_env from_claim
  from_env = from_claim (require_env (codes "CLAIM_PATH"))
