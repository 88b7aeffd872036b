-- ===== src/Identity/Tests.antt =====
-- Examples for services/identity: a world of one exchange code and one refresh token.
use magpie.Prelude.{
  ℕ, ◌≤◌, ◌≡◌, refl, ◌∙◌, sym, ap, Bool, true, false, ◌&&◌, Option, none, some, List, [], ◌∷◌, Text,
  codes, text_eq, text_eq_iff, and-cases, Bool-cases, inl, inr,
}
use magpie.Prelude.Dict.{Dict, get, remove, insert}
use magpie.Prelude.Prog.{Result, ok, err, Holds, IfOk}
use magpie.Identity.Calls.{
  Call, Reply, Platform, StateClaims, ExchangeEntry, TokenPair, Uuid, now, random,
  check_authentication, exchange_code, get_userinfo, link_account_to_user, find_linked_account,
  create_user_and_link, linked_accounts_for_user, insert_refresh_token, valid_refresh_token_user,
  revoke_refresh_token, keep_code, take_code,
}
use magpie.Identity.Tokens.{RefreshToken, inserted, valid_user, revoke, hash_token}
use magpie.Identity.Handlers.{callback}
use magpie.Identity.Flow
use magpie.Identity.Flow.{state_audience, check_optional}
use magpie.Identity.Login.{OfLogin, Answered}
use magpie.Identity.Callback.{callback-OfLogin}
use magpie.Identity.Redirects.{IsAccepted, issue-IsAccepted}
use magpie.Identity.Once.{given, serve_all}
use magpie.Identity.Exchange.{Answers, KeepsCodes, exchanged, given_once}
use magpie.Identity.Rotation.{KeepsTokens, IsInserted, refreshing, refreshed_once}

abbrev steam : Text
steam = codes "steam"

-- Signs nothing but a plain login by Steam; the token is the time at which it expires.
abbrev signing : Option Uuid → Option Text → Bool → ℕ → Result Text Text
signing none none true exp = ok (exp ∷ [])
signing _ _ _ _ = err (codes "not signed")

abbrev plain : Text → Text → Bool
plain aud provider = text_eq aud state_audience && text_eq provider steam

abbrev decoding : Text → Option StateClaims
decoding (exp ∷ []) = some (record {
  aud = state_audience;
  exp = exp;
  provider = steam;
  link_user_id = none;
  redirect_uri = none;
})
decoding _ = none

abbrev lib : Platform
lib = record {
  sign_state = λ c. signing c.link_user_id c.redirect_uri (plain c.aud c.provider) c.exp;
  sign_access = λ c. ok (codes "access");
  has_key = true;
  decode_state = λ aud t token. decoding token;
  decode_access = λ issuer audience t token. none;
  parse_url = λ uri. none;
  uuid_text = λ id. id ∷ [];
  parse_uuid = λ s. none;
  sha256 = λ s. s;
  urlencode = λ s. s;
  authorize_url = λ url scopes state. url;
  query_url = λ url pairs. url;
}

decodes :
    (claims : StateClaims) (token : Text) (t : ℕ)
    → lib.sign_state claims ≡ ok token
    → t ≤ claims.exp
    → lib.decode_state claims.aud t token ≡ some claims
decodes claims token t signed lasts =
    by_link claims.link_user_id claims.redirect_uri claims.aud claims.provider claims.exp signed
  where
    by_link :
        (link : Option Uuid) (redirect : Option Text) (aud provider : Text) (exp : ℕ)
        → signing link redirect (plain aud provider) exp ≡ ok token
        → decoding token
          ≡ some (record {
            aud = aud;
            exp = exp;
            provider = provider;
            link_user_id = link;
            redirect_uri = redirect;
          })
    by_link (some user) redirect aud provider exp signed = absurd (cc)
    by_link none (some uri) aud provider exp signed = absurd (cc)
    by_link none none aud provider exp signed = elim (Bool-cases (plain aud provider)) [
      | inl both ↦
          let (for_state, by_steam) = and-cases _ _ both in
          let is_aud = (text_eq_iff aud state_audience).0 for_state in
          let is_steam = (text_eq_iff provider steam).0 by_steam in
          let made = ap (λ b. signing none none b exp) (sym both) ∙ signed in
          let is_token : exp ∷ [] ≡ token = cc in rw (is_aud, is_steam, ← is_token) refl
      | inr other ↦
          let refused = ap (λ b. signing none none b exp) (sym other) ∙ signed in absurd (cc)
    ]

-- The state of the service's surroundings.
record World : Type 0 where
  kept_codes : Dict ExchangeEntry
  rows : List RefreshToken
  clock : ℕ

-- the table behind an insert
abbrev after_insert : Option (List RefreshToken) → World → Result Text Unit × World
after_insert none w = (err (codes "duplicate key"), w)
after_insert (some rows) w = (ok tt, record w { rows = rows })

abbrev serve : (c : Call) → World → Reply c × World
serve now w = (w.clock, w)
serve (random n) w = (w.clock ∷ n ∷ [], w)
serve (check_authentication params) w = (ok (codes "is_valid:true"), w)
serve (exchange_code kind code) w = (err [], w)
serve (get_userinfo url token agent) w = (err [], w)
serve (link_account_to_user provider account user name) w = (ok tt, w)
serve (find_linked_account provider account) w = (ok none, w)
serve (create_user_and_link provider account name) w = (ok 1, w)
serve (linked_accounts_for_user user) w = (ok [], w)
serve (insert_refresh_token hash user expires) w =
    after_insert (inserted hash user expires w.rows) w
serve (valid_refresh_token_user hash) w = (ok (valid_user w.clock hash w.rows), w)
serve (revoke_refresh_token hash) w = (ok tt, record w { rows = revoke hash w.rows })
serve (keep_code code entry) w = (tt, record w { kept_codes = insert code entry w.kept_codes })
serve (take_code code) w =
    (get code w.kept_codes, record w { kept_codes = remove code w.kept_codes })

keeps_codes : KeepsCodes serve (λ w. w.kept_codes)
keeps_codes = record { taken = λ code w. refl; removed = λ code w. refl; kept = λ w. refl }

inserts :
    (hash : Text) (user : Uuid) (expires : ℕ) (w : World) (o : Option (List RefreshToken))
    → inserted hash user expires w.rows ≡ o
    → IsInserted (after_insert o w).0 hash user expires w.rows (after_insert o w).1.rows
inserts hash user expires w none is = refl
inserts hash user expires w (some rows) is = is

keeps_tokens : KeepsTokens serve (λ w. w.rows)
keeps_tokens = record {
  looked_up = λ hash w user found. (w.clock, cc);
  at_look = λ hash w. refl;
  at_revoke = λ hash w. refl;
  at_insert = λ hash user expires w. inserts hash user expires w _ refl;
  at_now = λ w. refl;
  at_random = λ n w. refl;
}

abbrev pair : TokenPair
pair = record { access_token = codes "a"; refresh_token = codes "r"; expires_in = 3600 }

abbrev world : World
world = record {
  kept_codes = (codes "c", record { tokens = pair; expires_at = 20 }) ∷ [];
  rows =
      record {
        token_hash = hash_token lib (codes "r");
        user_id = 1;
        expires_at = 20;
        is_revoked = false;
      }
      ∷ [];
  clock = 10;
}

abbrev twice : Text → List Text
twice s = s ∷ codes "x" ∷ s ∷ []

given_once_example :
    Answers serve
      (λ w. w.kept_codes)
      keeps_codes
      (some (record { tokens = pair; expires_at = 20 }))
      10
      (exchanged serve (codes "c") world).0
    × (given (codes "c") (serve_all (exchanged serve) (twice (codes "c")) world) ≤ 1)
unfolding get codes text_eq
given_once_example =
    given_once serve (λ w. w.kept_codes) keeps_codes (codes "c") (twice (codes "c")) world

refreshed_once_example :
    given (codes "r") (
      serve_all
        (refreshing serve (λ w. w.rows) keeps_tokens lib (codes "i") (codes "a"))
        (twice (codes "r"))
        world)
    ≤ 1
refreshed_once_example =
    refreshed_once serve (λ w. w.rows) keeps_tokens lib (codes "i") (codes "a") (codes "r")
      (twice (codes "r")) world

abbrev query : Dict Text
query =
    (codes "state", 20 ∷ [])
    ∷ (codes "openid.claimed_id", codes "https://steamcommunity.com/openid/id/7")
    ∷ []

callback-OfLogin_example :
    Holds
      (OfLogin lib steam query)
      (Answered lib steam query)
      []
      (callback lib (codes "i") (codes "a") [] steam query)
callback-OfLogin_example = callback-OfLogin lib steam query (codes "i") (codes "a") []

issue-IsAccepted_example :
    Holds
      (λ past c. Unit {0})
      (λ past result. IfOk (IsAccepted lib refl decodes steam none none [] past) result)
      []
      (Flow.issue lib steam none none [])
issue-IsAccepted_example = issue-IsAccepted lib refl decodes steam none none []
