-- ===== src/Identity/Login.antt =====
-- What stands behind a login of services/identity/src/handlers.rs, `callback`.
use mathlib.Core.List.{Memᴰ}
use magpie.Prelude.{ℕ, ◌≡◌, true, none, some, List, ◌∷◌, Text, codes, text_eq}
use magpie.Prelude.Dict.{Dict, get}
use magpie.Prelude.Prog.{Result, ok, err, Event, Logged}
use magpie.Identity.Calls.{
  ProviderKind, StateClaims, Platform, Uuid, Reply, Call, now, exchange_code, link_account_to_user,
  find_linked_account, create_user_and_link, insert_refresh_token, check_authentication,
  get_userinfo, keep_code, Value, ExchangeEntry,
}
use magpie.Identity.Providers.{parse, identity_of, userinfo_url, is_github, openid_params, steam_id}
use magpie.Identity.Flow
use magpie.Identity.Handlers.{Response, tokens, redirect, code_url}

module _ (lib : Platform) (provider : Text) (query : Dict Text) where
  -- The state that came back was signed for this provider, and had not expired.
  pub record IsState (past : List (Event Reply)) (claims : StateClaims) : Type 0 where
    pub token : Text
    pub time : ℕ
    pub carried : get (codes "state") query ≡ some token
    pub asked : Logged now time past
    pub verified : Flow.verify lib time token provider ≡ ok claims

  -- The provider says that the caller holds this account, and has this name.
  pub data IsProven (past : List (Event Reply)) : Text → Text → Type 0 where
    by_steam :
        (id body : Text)
        → text_eq provider (codes "steam") ≡ true
        → Logged (check_authentication (openid_params query)) (ok body) past
        → steam_id body query ≡ ok id
        → IsProven past id id
    by_oauth :
        (kind : ProviderKind) (code token : Text) (body : Text → Value) (account name : Text)
        → parse provider ≡ some kind
        → get (codes "code") query ≡ some code
        → Logged (exchange_code kind code) (ok token) past
        → Logged (get_userinfo (userinfo_url kind) token (is_github kind)) (ok body) past
        → identity_of kind body ≡ ok (account, name)
        → IsProven past account name

  -- Whose account that is: the user who asked to link it, or the one it is linked to, or a new one.
  pub data IsOwner (past : List (Event Reply)) (claims : StateClaims) (account name : Text)
      : Uuid → Type 0 where
    linked :
        (user : Uuid)
        → claims.link_user_id ≡ some user
        → Logged (link_account_to_user provider account user name) (ok tt) past
        → IsOwner past claims account name user
    found :
        (user : Uuid)
        → claims.link_user_id ≡ none
        → Logged (find_linked_account provider account) (ok (some user)) past
        → IsOwner past claims account name user
    created :
        (user : Uuid)
        → claims.link_user_id ≡ none
        → Logged (find_linked_account provider account) (ok none) past
        → Logged (create_user_and_link provider account name) (ok user) past
        → IsOwner past claims account name user

  pub record IsLogin (past : List (Event Reply)) (claims : StateClaims) (user : Uuid) : Type 0 where
    pub account : Text
    pub name : Text
    pub state : IsState past claims
    pub proven : IsProven past account name
    pub owned : IsOwner past claims account name user

  pub IsState-cons :
      (e : Event Reply) {past : List (Event Reply)} {claims : StateClaims}
      → IsState past claims
      → IsState (e ∷ past) claims
  IsState-cons e s = record {
    token = s.token;
    time = s.time;
    carried = s.carried;
    asked = Memᴰ.tail s.asked;
    verified = s.verified;
  }

  pub IsProven-cons :
      (e : Event Reply) {past : List (Event Reply)} {account name : Text}
      → IsProven past account name
      → IsProven (e ∷ past) account name
  IsProven-cons e (by_steam id body p l q) = by_steam id body p (Memᴰ.tail l) q
  IsProven-cons e (by_oauth kind code token body account name p c l l' q) =
      by_oauth kind code token body account name p c (Memᴰ.tail l) (Memᴰ.tail l') q

  pub IsOwner-cons :
      (e : Event Reply) {past : List (Event Reply)} {claims : StateClaims} {account name : Text}
      {user : Uuid}
      → IsOwner past claims account name user
      → IsOwner (e ∷ past) claims account name user
  IsOwner-cons e (linked user c l) = linked user c (Memᴰ.tail l)
  IsOwner-cons e (found user c l) = found user c (Memᴰ.tail l)
  IsOwner-cons e (created user c l l') = created user c (Memᴰ.tail l) (Memᴰ.tail l')

  pub IsLogin-cons :
      (e : Event Reply) {past : List (Event Reply)} {claims : StateClaims} {user : Uuid}
      → IsLogin past claims user
      → IsLogin (e ∷ past) claims user
  IsLogin-cons e i = record {
    account = i.account;
    name = i.name;
    state = IsState-cons e i.state;
    proven = IsProven-cons e i.proven;
    owned = IsOwner-cons e i.owned;
  }

  -- The calls of a login: nobody gets a refresh token but the one who logs in, and an account is
  -- linked or created only once the provider vouched for it.
  abbrev pub OfLogin : List (Event Reply) → Call → Type 0
  OfLogin past (insert_refresh_token hash user expires) =
      (claims : StateClaims) × IsLogin past claims user
  OfLogin past (link_account_to_user p account user name) =
      (claims : StateClaims) × (p ≡ provider)
      × (claims.link_user_id ≡ some user)
      × IsState past claims
      × IsProven past account name
  OfLogin past (create_user_and_link p account name) =
      (claims : StateClaims) × (p ≡ provider)
      × (claims.link_user_id ≡ none)
      × IsState past claims
      × IsProven past account name
  OfLogin past _ = Unit

  -- Tokens leave in a response only if the state names no redirect; and a redirect is the state's
  -- own, with a code that is kept for the tokens.
  abbrev pub Answered : List (Event Reply) → Result Response Response → Type 0
  Answered past (ok (tokens pair)) =
      (claims : StateClaims) × IsState past claims × (claims.redirect_uri ≡ none)
  Answered past (ok (redirect url)) =
      (claims : StateClaims) × (base code : Text) × (entry : ExchangeEntry) × IsState past claims
      × (claims.redirect_uri ≡ some base)
      × (url ≡ code_url lib base code)
      × Logged (keep_code code entry) tt past
  Answered past (err (tokens pair)) = ⊥
  Answered past (err (redirect url)) = ⊥
  Answered past _ = Unit
