-- ===== src/Identity/Redirects.antt =====
-- The state of a login and where it may redirect: services/identity/src/state.rs, `issue`, then
-- `verify`.
use mathlib.Core.List.{Memᴰ}
use magpie.Prelude.{
  ℕ, ◌+◌, ◌≤◌, ◌≡◌, refl, true, false, Option, some, List, [], Text, codes, text_eq, text_eq_self,
  inl, inr,
}
use magpie.Prelude.Prog.{
  ok, err, Event, Holds, at_ok, at_err, at_call, IfOk, Logged, Result-cases, ◌>>=◌,
}
use magpie.Identity.Calls.{StateClaims, Platform, Uuid, Reply, now}
use magpie.Identity.Flow
use magpie.Identity.Flow.{state_audience, state_ttl_secs, check_redirect_uri, check_optional}

module _ (lib : Platform) (has_key : lib.has_key ≡ true)
    (decodes : (claims : StateClaims) (token : Text) (t : ℕ)
      → lib.sign_state claims ≡ ok token
      → t ≤ claims.exp
      → lib.decode_state claims.aud t token ≡ some claims)
    (provider : Text) (link : Option Uuid) (redirect : Option Text)
    (allowed_origins : List Text) where
  abbrev pub claims_at : ℕ → StateClaims
  claims_at t = record {
    aud = state_audience;
    exp = t + state_ttl_secs;
    provider = provider;
    link_user_id = link;
    redirect_uri = redirect;
  }

  -- What an issued state says: its redirect passes the check, it is accepted for its own provider
  -- while it lasts, with what went into it, and for no other.
  abbrev pub IsAccepted : List (Event Reply) → Text → Type 0
  IsAccepted past token =
      (t : ℕ) × Logged now t past
      × (check_optional lib redirect allowed_origins ≡ ok tt)
      × ((later : ℕ)
          → later ≤ t + state_ttl_secs
          → (Flow.verify lib later token provider ≡ ok (claims_at t))
            × ((other : Text)
                → text_eq provider other ≡ false
                → Flow.verify lib later token other ≡ err (codes "state provider mismatch")))

  verify-signed :
      (t later : ℕ) (token : Text)
      → lib.sign_state (claims_at t) ≡ ok token
      → later ≤ t + state_ttl_secs
      → (Flow.verify lib later token provider ≡ ok (claims_at t))
        × ((other : Text)
            → text_eq provider other ≡ false
            → Flow.verify lib later token other ≡ err (codes "state provider mismatch"))
  unfolding Flow.verify
  verify-signed t later token signed lasts =
      let found = decodes (claims_at t) token later signed lasts in
      (
        rw (has_key, found, text_eq_self provider, Flow.verify) refl,
        λ other differs. rw (has_key, found, differs, Flow.verify) refl,
      )

  -- If tokens decode as what was signed until they expire, a state that `issue` returns has a
  -- redirect that passes the check, if it has one, and for its ten minutes `verify` gives back the
  -- claims for the same provider, and refuses every other provider.
  pub issue-IsAccepted :
      Holds
        (λ past c. Unit {0})
        (λ past result. IfOk (IsAccepted past) result)
        []
        (Flow.issue lib provider link redirect allowed_origins)
  unfolding Flow.issue ◌>>=◌
  issue-IsAccepted = elim (Result-cases (check_optional lib redirect allowed_origins)) [
    | inr (e, unsafe) ↦ rw unsafe (at_err tt)
    | inl (u, safe) ↦ rw safe (
        at_call {c = now} tt λ t. elim (Result-cases (lib.sign_state (claims_at t))) [
          | inr (e, unsigned) ↦ rw unsigned (at_err tt)
          | inl (token, signed) ↦ rw signed (
              at_ok
                (t, Memᴰ.head refl, safe, λ later lasts. verify-signed t later token signed lasts))
        ])
  ]
