-- ===== src/Identity/Rotation.antt =====
-- A refresh token is good for one refresh: services/identity/src/tokens.rs, `refresh`, over the
-- table of crates/registry-db/src/lib.rs.
use magpie.Prelude.{
  ℕ, ◌≤◌, ◌≡◌, refl, true, false, ◌||◌, not, Option, none, some, List, [], ◌∷◌, Text, text_eq, Bool,
  inl, inr, arith, ap, ◌∙◌, any, all, text_eq_iff, sym, subst,
}
use magpie.Prelude.Prog.{pure, request, lift, Result, ok, err, run, ◌>>=◌, map_err, Result-cases}
use magpie.Prelude.Only.{Only, only_pure, only_call, Only-bind, Only-lift, Only-map_err, run-Only}
use magpie.Identity.Calls.{
  Fallible, TokenPair, Platform, Uuid, Reply, Call, now, random, insert_refresh_token,
  valid_refresh_token_user, revoke_refresh_token,
}
use magpie.Identity.Tokens.{
  RefreshToken, hash_token, inserted, valid_user, revoke, issue_pair, issue_refresh, refresh_pair,
  owner_of,
}
use magpie.Identity.Handlers.{Response, tokens, refresh, refreshed}
use magpie.Identity.Once.{gives, given, serve_all, given_at_most_once}

abbrev pub revoked_rows : Result Text Unit → Text → List RefreshToken → List RefreshToken
revoked_rows (ok u) hash rows = revoke hash rows
revoked_rows (err e) hash rows = rows

abbrev pub IsInserted :
    Result Text Unit → Text → Uuid → ℕ → List RefreshToken → List RefreshToken → Type 0
IsInserted (ok u) hash user expires rows after = inserted hash user expires rows ≡ some after
IsInserted (err e) hash user expires rows after = after ≡ rows

-- A handler under which the tokens are a table: a statement either fails and leaves it alone, or
-- does what it says, at some time.
pub record KeepsTokens {W : Type 0} (handler : (c : Call) → W → Reply c × W)
    (rows : W → List RefreshToken) : Type 0 where
  pub looked_up :
      (hash : Text) (w : W) (user : Option Uuid)
      → (handler (valid_refresh_token_user hash) w).0 ≡ ok user
      → (t : ℕ) × (user ≡ valid_user t hash (rows w))
  pub at_look : (hash : Text) (w : W) → rows (handler (valid_refresh_token_user hash) w).1 ≡ rows w
  pub at_revoke :
      (hash : Text) (w : W)
      → rows (handler (revoke_refresh_token hash) w).1
        ≡ revoked_rows (handler (revoke_refresh_token hash) w).0 hash (rows w)
  pub at_insert :
      (hash : Text) (user : Uuid) (expires : ℕ) (w : W)
      → IsInserted
          (handler (insert_refresh_token hash user expires) w).0
          hash
          user
          expires
          (rows w)
          (rows (handler (insert_refresh_token hash user expires) w).1)
  pub at_now : (w : W) → rows (handler now w).1 ≡ rows w
  pub at_random : (n : ℕ) (w : W) → rows (handler (random n) w).1 ≡ rows w

abbrev has : Text → List RefreshToken → Bool
has hash rows = any (λ row. text_eq row.token_hash hash) rows

abbrev all_revoked : Text → List RefreshToken → Bool
all_revoked hash rows = all (λ row. not (text_eq row.token_hash hash) || row.is_revoked) rows

-- A hash is spent once a row has it and every such row is revoked.
abbrev pub IsSpent : Text → List RefreshToken → Type 0
IsSpent hash rows = (has hash rows ≡ true) × (all_revoked hash rows ≡ true)

valid_user_spent :
    (t : ℕ) (hash : Text) (rows : List RefreshToken)
    → all_revoked hash rows ≡ true
    → valid_user t hash rows ≡ none
unfolding valid_user
valid_user_spent t hash [] spent = refl
valid_user_spent t hash (row ∷ rows) spent = ground (arith, valid_user_spent t hash rows)

valid_user-has :
    (t : ℕ) (hash : Text) (rows : List RefreshToken) (user : Uuid)
    → some user ≡ valid_user t hash rows
    → has hash rows ≡ true
unfolding valid_user
valid_user-has t hash [] user found = ground arith
valid_user-has t hash (row ∷ rows) user found = ground (arith, valid_user-has t hash rows user)

has-revoke :
    (hash other : Text) (rows : List RefreshToken) → has hash (revoke other rows) ≡ has hash rows
unfolding revoke
has-revoke hash other [] = refl
has-revoke hash other (row ∷ rows) = ground (arith, has-revoke hash other rows)

all_revoked-revoke :
    (hash : Text) (rows : List RefreshToken) → all_revoked hash (revoke hash rows) ≡ true
unfolding revoke
all_revoked-revoke hash [] = refl
all_revoked-revoke hash (row ∷ rows) = ground (arith, all_revoked-revoke hash rows)

all_revoked-stays :
    (hash other : Text) (rows : List RefreshToken)
    → all_revoked hash rows ≡ true
    → all_revoked hash (revoke other rows) ≡ true
unfolding revoke
all_revoked-stays hash other [] h = refl
all_revoked-stays hash other (row ∷ rows) h = ground (arith, all_revoked-stays hash other rows)

IsSpent-inserted :
    (hash other : Text) (user : Uuid) (expires : ℕ) (rows after : List RefreshToken)
    → inserted other user expires rows ≡ some after
    → IsSpent hash rows
    → IsSpent hash after
unfolding inserted
IsSpent-inserted hash other user expires rows after done (held, spent) =
    ground (arith, text_eq_iff other hash, done)

-- the calls of a refresh
abbrev IsTokenCall : Call → Type 0
IsTokenCall now = Unit
IsTokenCall (random n) = Unit
IsTokenCall (insert_refresh_token hash user expires) = Unit
IsTokenCall (valid_refresh_token_user hash) = Unit
IsTokenCall (revoke_refresh_token hash) = Unit
IsTokenCall _ = ⊥

issue_pair-Only :
    (lib : Platform) (issuer audience : Text) (user : Uuid)
    → Only IsTokenCall (issue_pair lib issuer audience user)
unfolding issue_pair issue_refresh ◌>>=◌
issue_pair-Only lib issuer audience user = only_call tt λ t.
    Only-bind (Only-lift _)
      λ token. only_call tt λ raw. only_call tt λ reply. Only-bind (Only-lift _) λ u. only_pure

refresh-Only :
    (lib : Platform) (issuer audience token : Text)
    → Only IsTokenCall (refresh lib issuer audience token)
unfolding refresh refresh_pair ◌>>=◌
refresh-Only lib issuer audience token =
    Only-bind
      (Only-map_err _ (
        only_call tt λ found. Only-bind (Only-lift found) λ owner.
          Only-bind (Only-lift (owner_of owner)) λ user.
            only_call tt λ revoked.
              Only-bind (Only-lift revoked) λ u. issue_pair-Only lib issuer audience user))
      λ pair. only_pure

module _ {W : Type 0} (handler : (c : Call) → W → Reply c × W) (rows : W → List RefreshToken)
    (keeps : KeepsTokens handler rows) where
  open keeps use {looked_up, at_look, at_revoke, at_insert, at_now, at_random}

  IsSpent-revoked :
      (hash other : Text) (reply : Result Text Unit) (before : List RefreshToken)
      → IsSpent hash before
      → IsSpent hash (revoked_rows reply other before)
  IsSpent-revoked hash other (ok u) before (held, spent) =
      (has-revoke hash other before ∙ held, all_revoked-stays hash other before spent)
  IsSpent-revoked hash other (err e) before spent = spent

  IsSpent-insert :
      (hash other : Text) (user : Uuid) (expires : ℕ) (reply : Result Text Unit)
      (before after : List RefreshToken)
      → IsInserted reply other user expires before after
      → IsSpent hash before
      → IsSpent hash after
  IsSpent-insert hash other user expires (ok u) before after done spent =
      IsSpent-inserted hash other user expires before after done spent
  IsSpent-insert hash other user expires (err e) before after same spent =
      subst (IsSpent hash) (sym same) spent

  IsSpent-keeps :
      (hash : Text) (c : Call) (w : W)
      → IsTokenCall c
      → IsSpent hash (rows w)
      → IsSpent hash (rows (handler c w).1)
  IsSpent-keeps hash now w p spent = subst (IsSpent hash) (sym (at_now w)) spent
  IsSpent-keeps hash (random n) w p spent = subst (IsSpent hash) (sym (at_random n w)) spent
  IsSpent-keeps hash (insert_refresh_token h user expires) w p spent =
      IsSpent-insert hash h user expires _ _ _ (at_insert h user expires w) spent
  IsSpent-keeps hash (valid_refresh_token_user h) w p spent =
      subst (IsSpent hash) (sym (at_look h w)) spent
  IsSpent-keeps hash (revoke_refresh_token h) w p spent =
      subst (IsSpent hash) (sym (at_revoke h w)) (IsSpent-revoked hash h _ _ spent)
  IsSpent-keeps hash _ w p spent = absurd p

  module _ (lib : Platform) (issuer audience : Text) where
    abbrev pub refreshing : Text → W → Result Response Response × W
    refreshing token w = run {E = Response} handler (refresh lib issuer audience token) w

    gives_spent :
        (token : Text) (w : W)
        → IsSpent (hash_token lib token) (rows w)
        → gives (refreshing token w).0 ≡ false
    unfolding refresh refresh_pair run ◌>>=◌ map_err gives owner_of
    gives_spent token w (held, spent) =
        elim (Result-cases (handler (valid_refresh_token_user (hash_token lib token)) w).0) [
          | inr (e, failed) ↦ rw (failed, refresh, refresh_pair, run) refl
          | inl (user, found) ↦
              let (t, is_user) = looked_up (hash_token lib token) w user found in
              let nobody = is_user ∙ valid_user_spent t (hash_token lib token) (rows w) spent in
              rw (found, nobody, refresh, refresh_pair, owner_of, run) refl
        ]

    -- the end of a refresh
    abbrev finished : Fallible TokenPair → W → Result Response Response × W
    finished m w =
        run {E = Response} handler (map_err (λ e. refreshed) m >>= λ pair. pure (tokens pair)) w

    spends_revoked :
        (hash : Text) (user : Uuid) (reply : Result Text Unit) (w : W)
        → ((u : Unit {0}) → reply ≡ ok u → IsSpent hash (rows w))
        → (let r = finished (lift reply >>= λ u. issue_pair lib issuer audience user) w in
            gives r.0 ≡ true → IsSpent hash (rows r.1))
    unfolding run ◌>>=◌ map_err gives
    spends_revoked hash user (err e) w spent gave = absurd (cc)
    spends_revoked hash user (ok u) w spent gave =
        run-Only handler (λ w. IsSpent hash (rows w)) (IsSpent-keeps hash)
          (Only-bind (Only-map_err _ (issue_pair-Only lib issuer audience user)) λ pair. only_pure)
          w (spent u refl)

    spends_found :
        (hash : Text) (reply : Result Text (Option Uuid)) (w : W)
        → ((user : Uuid) → reply ≡ ok (some user) → has hash (rows w) ≡ true)
        → (let r =
              finished
                (lift reply >>= λ owner. lift (owner_of owner) >>= λ user.
                  request (revoke_refresh_token hash) >>= λ revoked.
                  lift revoked >>= λ u. issue_pair lib issuer audience user)
                w in
            gives r.0 ≡ true → IsSpent hash (rows r.1))
    unfolding run ◌>>=◌ map_err gives owner_of
    spends_found hash (err e) w held gave = absurd (cc)
    spends_found hash (ok none) w held gave = absurd (cc)
    spends_found hash (ok (some user)) w held gave =
        spends_revoked hash user _ _
          (λ u done.
            subst (IsSpent hash)
              (sym (at_revoke hash w ∙ ap (λ r. revoked_rows r hash (rows w)) done))
              (has-revoke hash hash (rows w) ∙ held user refl, all_revoked-revoke hash (rows w)))
          gave

    spends :
        (token : Text) (w : W)
        → gives (refreshing token w).0 ≡ true
        → IsSpent (hash_token lib token) (rows (refreshing token w).1)
    unfolding refresh refresh_pair run ◌>>=◌ map_err
    spends token w = spends_found (hash_token lib token) _ _ λ user found.
        let (t, is_user) = looked_up (hash_token lib token) w (some user) found in
        rw (at_look (hash_token lib token) w)
          (valid_user-has t (hash_token lib token) (rows w) user is_user)

    -- If the refresh tokens are a table, then of the refreshes with one token, served one after
    -- another with any others between them, at most one is given tokens.
    pub refreshed_once :
        (token : Text) (requests : List Text) (w : W)
        → given token (serve_all refreshing requests w) ≤ 1
    refreshed_once =
        given_at_most_once refreshing (λ token w. IsSpent (hash_token lib token) (rows w))
          (λ token other w spent.
            run-Only handler (λ w. IsSpent (hash_token lib token) (rows w))
              (IsSpent-keeps (hash_token lib token)) (refresh-Only lib issuer audience other) w
              spent)
          gives_spent spends
