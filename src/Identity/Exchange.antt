-- ===== src/Identity/Exchange.antt =====
-- A code is good for one exchange: services/identity/src/handlers.rs, `exchange`.
use magpie.Prelude.{
  ℕ, ◌≤◌, ◌≡◌, refl, false, Option, none, some, List, Text, text_eq, text_eq_self, Bool-cases, inl,
  inr, if◌then◌else◌, ap, ◌∙◌, subst, sym, ◌<◌, arith, true, leb,
}
use magpie.Prelude.Dict.{Dict, get, remove, get-remove}
use magpie.Prelude.Prog.{Result, ok, run, ◌>>=◌}
use magpie.Identity.Calls.{Reply, Call, now, take_code, ExchangeEntry}
use magpie.Identity.Once.{gives, given, serve_all, given_at_most_once}
use magpie.Identity.Handlers.{Response, tokens, status, no_code, redeemed, redeem, exchange}

-- A handler under which the codes are a map: taking one removes it, and the clock leaves it alone.
pub record KeepsCodes {W : Type 0} (handler : (c : Call) → W → Reply c × W)
    (codes : W → Dict ExchangeEntry) : Type 0 where
  pub taken : (code : Text) (w : W) → (handler (take_code code) w).0 ≡ get code (codes w)
  pub removed : (code : Text) (w : W) → codes (handler (take_code code) w).1 ≡ remove code (codes w)
  pub kept : (w : W) → codes (handler now w).1 ≡ codes w

-- No tokens: the status is 401.
abbrev pub IsRefusal : Result Response Response → Type 0
IsRefusal r = (message : Text) × (r ≡ ok (status 401 message))

module _ {W : Type 0} (handler : (c : Call) → W → Reply c × W) where
  abbrev pub exchanged : Text → W → Result Response Response × W
  exchanged code w = run {E = Response} handler (exchange code) w

  module _ (codes : W → Dict ExchangeEntry) (keeps : KeepsCodes handler codes) where
    open keeps use {taken, removed, kept}

    codes-redeem :
        (o : Option ExchangeEntry) (w : W)
        → codes (run {E = Response} handler (redeem o) w).1 ≡ codes w
    unfolding redeem run ◌>>=◌
    codes-redeem none w = refl
    codes-redeem (some e) w = kept w

    -- what stays of the codes
    get-exchanged :
        (code other : Text) (w : W)
        → get other (codes (exchanged code w).1)
          ≡ (if text_eq code other then none else get other (codes w))
    unfolding exchange run ◌>>=◌
    get-exchanged code other w =
        ap (get other) (codes-redeem _ _ ∙ removed code w) ∙ get-remove code other (codes w)

    get_missing :
        (code c : Text) (w : W)
        → get code (codes w) ≡ none
        → get code (codes (exchanged c w).1) ≡ none
    get_missing code c w missing = get-exchanged c code w ∙ elim (Bool-cases (text_eq c code)) [
      | inl same ↦ rw same refl
      | inr differs ↦ rw (differs, missing) refl
    ]

    gives_missing :
        (code : Text) (w : W) → get code (codes w) ≡ none → gives (exchanged code w).0 ≡ false
    unfolding exchange run ◌>>=◌ redeem gives no_code
    gives_missing code w missing = rw (taken code w, missing, redeem, run) refl

    abbrev answer : Option ExchangeEntry → ℕ → Response
    answer none t = no_code
    answer (some e) t = redeemed e t

    -- What an exchange answers, by the code's entry and the time: the tokens till the entry expires.
    abbrev pub Answers : Option ExchangeEntry → ℕ → Result Response Response → Type 0
    Answers none t r = IsRefusal r
    Answers (some e) t r =
        (t ≤ e.expires_at → r ≡ ok (tokens e.tokens)) × (e.expires_at < t → IsRefusal r)

    answer-Answers : (o : Option ExchangeEntry) (t : ℕ) → Answers o t (ok (answer o t))
    unfolding redeemed no_code
    answer-Answers none t = (_, refl)
    answer-Answers (some e) t = (
      λ fresh. let is : leb t e.expires_at ≡ true = ground arith in rw is refl,
      λ over. let is : leb t e.expires_at ≡ false = ground arith in rw is (_, refl),
    )

    answered :
        (o : Option ExchangeEntry) (w : W)
        → (run {E = Response} handler (redeem o) w).0 ≡ ok (answer o (handler now w).0)
    unfolding redeem run ◌>>=◌
    answered none w = refl
    answered (some e) w = refl

    -- If the codes are a map, an exchange answers with the tokens that the code was kept for if it
    -- is there and has not expired, and with a refusal otherwise; and of any number of
    -- exchanges, one after another, at most one of a code is given tokens.
    pub given_once :
        (code : Text) (requests : List Text) (w : W)
        → Answers
            (get code (codes w))
            (handler now (handler (take_code code) w).1).0
            (exchanged code w).0
          × (given code (serve_all exchanged requests w) ≤ 1)
    unfolding exchange run ◌>>=◌
    given_once code requests w = (
      let t = (handler now (handler (take_code code) w).1).0 in
          let answers = answered _ _ ∙ ap (λ o. ok (answer o t)) (taken code w) in
          subst (Answers (get code (codes w)) t) (sym answers)
            (answer-Answers (get code (codes w)) t),
      given_at_most_once exchanged (λ code w. get code (codes w) ≡ none) get_missing gives_missing
          (λ code w _. get-exchanged code code w ∙ rw (text_eq_self code) refl) code requests w,
    )
