-- ===== src/Identity/Once.antt =====
-- Requests that present a secret, served one after another.
use magpie.Prelude.{
  ℕ, suc, ◌≤◌, ◌≡◌, Bool, true, false, ◌&&◌, List, [], ◌∷◌, Text, text_eq, text_eq_iff, Bool-cases,
  and-cases, inl, inr, arith, if◌then◌else◌, subst, sym, refl,
}
use magpie.Prelude.Prog.{Result, ok}
use magpie.Identity.Handlers.{Response, tokens}

-- Does a response hand out tokens?
unfoldable pub gives : Result Response Response → Bool
gives (ok (tokens pair)) = true
gives _ = false

-- How often tokens were given for a secret.
unfoldable pub given : Text → List (Text × Result Response Response) → ℕ
given secret [] = 0
given secret ((s, r) ∷ l) =
    let later = given secret l in if text_eq s secret && gives r then suc later else later

module _ {W : Type 0} (serve : Text → W → Result Response Response × W) where
  unfoldable pub serve_all : List Text → W → List (Text × Result Response Response)
  serve_all [] w = []
  serve_all (s ∷ requests) w = (s, (serve s w).0) ∷ serve_all requests (serve s w).1

  -- A secret that is spent stays so, whatever is served, and is given nothing; and giving tokens
  -- for it spends it.
  module _ (Spent : Text → W → Type 0)
      (stays : (secret s : Text) (w : W) → Spent secret w → Spent secret (serve s w).1)
      (refuses : (secret : Text) (w : W) → Spent secret w → gives (serve secret w).0 ≡ false)
      (spends : (secret : Text) (w : W)
        → gives (serve secret w).0 ≡ true
        → Spent secret (serve secret w).1) where
    pub given_spent :
        (secret : Text) (requests : List Text) (w : W)
        → Spent secret w
        → given secret (serve_all requests w) ≡ 0
    unfolding serve_all given
    given_spent secret [] w spent = refl
    given_spent secret (s ∷ requests) w spent =
        let rest = given_spent secret requests (serve s w).1 (stays secret s w spent) in
        elim (Bool-cases (text_eq s secret)) [
          | inl same ↦
              let is_secret = (text_eq_iff s secret).0 same in
              let refused = refuses s w (subst (λ x. Spent x w) (sym is_secret) spent) in
              rw (same, refused) rest
          | inr differs ↦ rw differs rest
        ]

    pub given_at_most_once :
        (secret : Text) (requests : List Text) (w : W) → given secret (serve_all requests w) ≤ 1
    unfolding serve_all given
    given_at_most_once secret [] w = omega arith
    given_at_most_once secret (s ∷ requests) w =
        elim (Bool-cases (text_eq s secret && gives (serve s w).0)) [
          | inl both ↦
              let (same, gave) = and-cases (text_eq s secret) (gives (serve s w).0) both in
              let is_secret = (text_eq_iff s secret).0 same in
              let rest =
                given_spent secret requests (serve s w).1
                  (subst (λ x. Spent x (serve s w).1) is_secret (spends s w gave)) in
              rw (same, gave, rest) (omega arith)
          | inr not_both ↦
              let rest = given_at_most_once secret requests (serve s w).1 in rw not_both rest
        ]
