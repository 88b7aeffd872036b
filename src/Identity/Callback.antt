-- ===== src/Identity/Callback.antt =====
-- Whom services/identity/src/handlers.rs, `callback`, logs in.
use mathlib.Core.List.{Memᴰ}
use magpie.Prelude.{
  ℕ, ◌+◌, ◌*◌, ◌≡◌, refl, true, Option, none, some, List, [], ◌∷◌, Text, codes, text_eq, inl, inr,
  Bool-cases, Option-cases,
}
use magpie.Prelude.Dict.{Dict, get}
use magpie.Prelude.Prog.{
  Prog, Result, ok, err, Event, Holds, at_ok, at_err, at_call, Holds-bind, Holds-mono, Logged,
  Result-cases, ◌>>=◌, mapped, map_err,
}
use magpie.Identity.Calls.{
  ProviderKind, StateClaims, Platform, Uuid, Reply, now, random, exchange_code,
  link_account_to_user, find_linked_account, create_user_and_link, insert_refresh_token, TokenPair,
}
use magpie.Identity.Providers.{parse, identity_of, fetch_identity, verify_steam, steam_id}
use magpie.Identity.Flow
use magpie.Identity.Tokens.{
  refresh_token_ttl_days, issue_pair, issue_refresh, hash_token, access_claims,
}
use magpie.Identity.Handlers.{
  status, names, subject, url, Response, tokens, redirect, callback, complete, authenticate,
  resolve_user, found_user, respond, provider_of, or_return, or_status, failed, is_configured,
}
use magpie.Identity.Login.{
  IsState, IsProven, by_steam, by_oauth, IsOwner, linked, found, created, IsLogin, IsState-cons,
  IsProven-cons, IsLogin-cons, OfLogin, Answered,
}

-- An end that is `T`, or an early return of a status.
abbrev OnOk :
    {A : Type 0}
    → (List (Event Reply) → A → Type 0)
    → List (Event Reply)
    → Result Response A
    → Type 0
OnOk T past (ok a) = T past a
OnOk T past (err (status code e)) = Unit
OnOk T past (err _) = ⊥

module _ (lib : Platform) (provider : Text) (query : Dict Text) where
  then-Holds :
      {A : Type 0} {T : List (Event Reply) → A → Type 0} {f : A → Prog Reply Response Response}
      {m : Prog Reply Response A} {past : List (Event Reply)}
      → Holds (OfLogin lib provider query) (OnOk T) past m
      → ((h : List (Event Reply)) (a : A)
          → T h a
          → Holds (OfLogin lib provider query) (Answered lib provider query) h (f a))
      → Holds (OfLogin lib provider query) (Answered lib provider query) past (m >>= f)
  then-Holds m next = Holds-bind (
      Holds-mono
        (λ h. elim [
          | ok a ↦ λ t. next h a t
          | err (status code e) ↦ λ _. tt
          | err (names l) ↦ λ t. absurd t
          | err (subject u l) ↦ λ t. absurd t
          | err (url u) ↦ λ t. absurd t
          | err (tokens p) ↦ λ t. absurd t
          | err (redirect u) ↦ λ t. absurd t
        ])
        m)

  abbrev Authenticated : StateClaims → List (Event Reply) → Text × Text → Type 0
  Authenticated claims past who =
      IsState lib provider query past claims × IsProven lib provider query past (who.0) (who.1)

  steam-Holds :
      (claims : StateClaims) (past : List (Event Reply))
      → text_eq provider (codes "steam") ≡ true
      → IsState lib provider query past claims
      → Holds
          (OfLogin lib provider query)
          (OnOk (Authenticated claims))
          past
          (map_err (failed 400) (verify_steam query) >>= λ id. Prog.pure (id, id))
  unfolding verify_steam ◌>>=◌ failed mapped map_err
  steam-Holds claims past is_steam state = at_call tt (elim [
    | err e ↦ at_err tt
    | ok body ↦ elim (Result-cases (steam_id body query)) [
      | inl (id, named) ↦ rw named (
          at_ok (
            IsState-cons lib provider query _ state,
            by_steam id body is_steam (Memᴰ.head refl) named,
          ))
      | inr (e, named) ↦ rw named (at_err tt)
    ]
  ])

  identity-Holds :
      (claims : StateClaims) (past : List (Event Reply)) (kind : ProviderKind) (code token : Text)
      → parse provider ≡ some kind
      → get (codes "code") query ≡ some code
      → Logged (exchange_code kind code) (ok token) past
      → IsState lib provider query past claims
      → Holds
          (OfLogin lib provider query)
          (OnOk (Authenticated claims))
          past
          (map_err (failed 502) (fetch_identity kind token))
  unfolding fetch_identity ◌>>=◌ failed mapped map_err
  identity-Holds claims past kind code token parsed carried exchanged state = at_call tt (elim [
    | err e ↦ at_err tt
    | ok body ↦ elim (Result-cases (identity_of kind body)) [
      | inl (who, named) ↦ rw named (
          at_ok (
            IsState-cons lib provider query _ state,
            by_oauth kind code token body (who.0) (who.1) parsed carried (Memᴰ.tail exchanged)
                (Memᴰ.head refl) named,
          ))
      | inr (e, named) ↦ rw named (at_err tt)
    ]
  ])

  module _ (oauth_providers : List ProviderKind) where
    provider_of-Holds :
        {A : Type 0} (f : ProviderKind → Prog Reply Response A) (past : List (Event Reply))
        (Q : List (Event Reply) → Result Response A → Type 0)
        → ((code : ℕ) (e : Text) → Q past (err (Response.status code e)))
        → ((kind : ProviderKind)
            → parse provider ≡ some kind
            → Holds (OfLogin lib provider query) Q past (f kind))
        → Holds (OfLogin lib provider query) Q past (provider_of oauth_providers provider >>= f)
    unfolding provider_of or_return ◌>>=◌
    provider_of-Holds f past Q stops next = elim (Option-cases (parse provider)) [
      | inl unknown ↦ rw unknown (at_err (stops _ _))
      | inr (kind, parsed) ↦ rw parsed (elim (Bool-cases (is_configured oauth_providers kind)) [
        | inl set ↦ rw set (next kind parsed)
        | inr unset ↦ rw unset (at_err (stops _ _))
      ])
    ]

    authenticate-Holds :
        (claims : StateClaims) (past : List (Event Reply))
        → IsState lib provider query past claims
        → Holds
            (OfLogin lib provider query)
            (OnOk (Authenticated claims))
            past
            (authenticate oauth_providers provider query)
    unfolding authenticate or_return or_status ◌>>=◌
    authenticate-Holds claims past state = elim (Bool-cases (text_eq provider (codes "steam"))) [
      | inl is_steam ↦ rw is_steam (steam-Holds claims past is_steam state)
      | inr other ↦ rw other (
          provider_of-Holds _ past (OnOk (Authenticated claims)) (λ _ _. tt)
            λ kind parsed. elim (Option-cases (get (codes "code") query)) [
              | inl missing ↦ rw missing (at_err tt)
              | inr (code, carried) ↦ rw carried (
                  at_call {c = exchange_code kind code} tt (elim [
                    | err e ↦ at_err tt
                    | ok token ↦
                        identity-Holds claims _ kind code token parsed carried (Memᴰ.head refl)
                          (IsState-cons lib provider query _ state)
                  ]))
            ])
    ]

  module _ (claims : StateClaims) (account name : Text) where
    login :
        {past : List (Event Reply)} {user : Uuid} (e : Event Reply)
        → IsState lib provider query past claims
        → IsProven lib provider query past account name
        → IsOwner lib provider query (e ∷ past) claims account name user
        → IsLogin lib provider query (e ∷ past) claims user
    login e state proven owned = record {
      account = account;
      name = name;
      state = IsState-cons lib provider query e state;
      proven = IsProven-cons lib provider query e proven;
      owned = owned;
    }

    found_user-Holds :
        (past : List (Event Reply)) (found_one : Option Uuid)
        → claims.link_user_id ≡ none
        → IsState lib provider query past claims
        → IsProven lib provider query past account name
        → Logged (find_linked_account provider account) (ok found_one) past
        → Holds
            (OfLogin lib provider query)
            (OnOk (λ h. IsLogin lib provider query h claims))
            past
            (found_user provider account name found_one)
    unfolding found_user or_status ◌>>=◌
    found_user-Holds past (some user) unlinked state proven seen = at_ok (record {
      account = account;
      name = name;
      state = state;
      proven = proven;
      owned = found user unlinked seen;
    })
    found_user-Holds past none unlinked state proven seen =
        at_call {c = create_user_and_link provider account name} {k = λ reply. or_status reply 500}
          (claims, refl, unlinked, state, proven)
          (elim [
            | err e ↦ at_err tt
            | ok user ↦
                at_ok
                  (login _ state proven (created user unlinked (Memᴰ.tail seen) (Memᴰ.head refl)))
          ])

    resolve_user-Holds :
        (past : List (Event Reply)) (link : Option Uuid)
        → claims.link_user_id ≡ link
        → IsState lib provider query past claims
        → IsProven lib provider query past account name
        → Holds
            (OfLogin lib provider query)
            (OnOk (λ h. IsLogin lib provider query h claims))
            past
            (resolve_user provider link account name)
    unfolding resolve_user or_status ◌>>=◌
    resolve_user-Holds past (some user) link state proven =
        at_call {c = link_account_to_user provider account user name}
          {k = λ reply. or_status reply 500 >>= λ _. Prog.pure user}
          (claims, refl, link, state, proven)
          (elim [
            | err e ↦ at_err tt
            | ok _ ↦ at_ok (login _ state proven (linked user link (Memᴰ.head refl)))
          ])
    resolve_user-Holds past none link state proven =
        at_call {c = find_linked_account provider account}
          {k = λ reply. or_status reply 500 >>= found_user provider account name} tt
          (elim [
            | err e ↦ at_err tt
            | ok one ↦
                found_user-Holds _ one link (IsState-cons lib provider query _ state)
                  (IsProven-cons lib provider query _ proven) (Memᴰ.head refl)
          ])

  respond-Holds :
      (claims : StateClaims) (past : List (Event Reply)) (to : Option Text) (pair : TokenPair)
      → claims.redirect_uri ≡ to
      → IsState lib provider query past claims
      → Holds (OfLogin lib provider query) (Answered lib provider query) past (respond lib to pair)
  unfolding respond ◌>>=◌
  respond-Holds claims past none pair is_to state = at_ok (claims, state, is_to)
  respond-Holds claims past (some base) pair is_to state = at_call {c = random 24} tt λ code.
      at_call {c = now} tt λ t. at_call tt λ _. at_ok (
        claims,
        base,
        code,
        _,
        IsState-cons lib provider query _
            (IsState-cons lib provider query _ (IsState-cons lib provider query _ state)),
        is_to,
        refl,
        Memᴰ.head refl,
      )

  module _ (issuer audience : Text) where
    issue_pair-Holds :
        (claims : StateClaims) (user : Uuid) (past : List (Event Reply))
        → IsLogin lib provider query past claims user
        → Holds
            (OfLogin lib provider query)
            (OnOk λ h _. IsState lib provider query h claims)
            past
            (map_err (failed 500) (issue_pair lib issuer audience user))
    unfolding issue_pair issue_refresh ◌>>=◌ map_err failed
    issue_pair-Holds claims user past i = at_call {c = now} tt λ t.
        elim (Result-cases (lib.sign_access (access_claims lib issuer audience user t))) [
          | inl (token, signed) ↦ rw signed (
              at_call {c = random 32} tt λ raw.
                at_call
                  {c = insert_refresh_token (hash_token lib raw) user
                    (t + refresh_token_ttl_days * 86400)}
                  (claims, IsLogin-cons lib provider query _ (IsLogin-cons lib provider query _ i))
                  (elim [
                    | err e ↦ at_err tt
                    | ok _ ↦ at_ok (
                        IsState-cons lib provider query _ (
                          IsState-cons lib provider query _
                            (IsState-cons lib provider query _ i.state)))
                  ]))
          | inr (e, unsigned) ↦ rw unsigned (at_err tt)
        ]

    module _ (oauth_providers : List ProviderKind) where
      complete-Holds :
          (claims : StateClaims) (past : List (Event Reply))
          → IsState lib provider query past claims
          → Holds
              (OfLogin lib provider query)
              (Answered lib provider query)
              past
              (complete lib issuer audience oauth_providers provider query claims)
      unfolding complete
      complete-Holds claims past state =
          then-Holds (authenticate-Holds oauth_providers claims past state) λ h who (state, proven).
            then-Holds (resolve_user-Holds claims (who.0) (who.1) h _ refl state proven) λ h user i.
              then-Holds (issue_pair-Holds claims user h i)
                λ h pair state. respond-Holds claims h claims.redirect_uri pair refl state

      -- Whatever Postgres and the providers reply, a refresh token is issued for no user but the one
      -- that the login proves: the state that came back is genuine, of this provider and not
      -- expired, the provider vouches for the account, and the user is the one who asked to link it,
      -- or the one it is linked to, or a new one. Accounts are linked and users created on the same
      -- terms. Tokens are in the response only if the state names no redirect; a redirect goes to
      -- the state's own URI, with a code that was kept.
      pub callback-OfLogin :
          Holds
            (OfLogin lib provider query)
            (Answered lib provider query)
            []
            (callback lib issuer audience oauth_providers provider query)
      unfolding callback or_return or_status ◌>>=◌
      callback-OfLogin = elim (Option-cases (get (codes "state") query)) [
        | inl missing ↦ rw missing (at_err tt)
        | inr (token, carried) ↦ rw carried (
            at_call {c = now} tt λ t. elim (Result-cases (Flow.verify lib t token provider)) [
              | inl (claims, verified) ↦ rw verified (
                  complete-Holds claims _ (record {
                    token = token;
                    time = t;
                    carried = carried;
                    asked = Memᴰ.head refl;
                    verified = verified;
                  }))
              | inr (e, refused) ↦ rw refused (at_err tt)
            ])
      ]
