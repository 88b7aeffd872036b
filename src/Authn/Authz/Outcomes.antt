-- ===== src/Authn/Authz/Outcomes.antt =====
-- What the middleware records of a request: crates/authn/src/authz.rs.
use magpie.Prelude.{
  ℕ, ◌≡◌, refl, Option, List, [], ◌∷◌, Text, codes, decimal, inl, inr, Bool-cases, Option-cases,
  if◌then◌else◌,
}
use magpie.Prelude.Prog.{Result, ok, err, Event, Holds, at_ok, at_call, Result-cases}
use magpie.Authn.Authz.{
  AuthIdentity, has_scope, Request, Response, is_success, Call, Reply, bearer, admit, authorize,
  require_auth,
}

-- The recorded outcomes, each with its path, the latest first.
abbrev pub outcomes : List (Event Reply) → List (Text × Text)
outcomes [] = []
outcomes ((Call.record_outcome path status, _) ∷ past) = (path, status) ∷ outcomes past
outcomes ((_, _) ∷ past) = outcomes past

-- How often the in-flight counter of a path went up, and down.
abbrev pub entered : List (Event Reply) → List Text
entered [] = []
entered ((Call.enter_flight path, _) ∷ past) = path ∷ entered past
entered ((_, _) ∷ past) = entered past

abbrev pub left : List (Event Reply) → List Text
left [] = []
left ((Call.leave_flight path, _) ∷ past) = path ∷ left past
left ((_, _) ∷ past) = left past

-- The class of a response: of one that the handler gave, whether it succeeded; of a refusal, its
-- status.
abbrev pub class_of : List Text → ℕ → Text
class_of [] status = decimal status
class_of (_ ∷ _) status = if is_success status then codes "2xx" else codes "5xx"

abbrev pub Recorded : Text → List (Event Reply) → Result ⊥ Response → Type 0
Recorded path past (ok response) =
    (outcomes past ≡ (path, class_of (entered past) response.status) ∷ [])
    × (left past ≡ entered past)
Recorded path past (err e) = ⊥

abbrev Whatever : List (Event Reply) → Call → Type 0
Whatever past c = Unit

module _ (r : Request) where
  admit-Recorded :
      (required : Text) (identity : AuthIdentity) (past : List (Event Reply))
      → outcomes past ≡ []
      → entered past ≡ []
      → left past ≡ []
      → Holds Whatever (Recorded r.path) past (admit r required identity)
  unfolding codes decimal admit
  admit-Recorded required identity past none_recorded none_in none_out =
      elim (Bool-cases (has_scope identity required)) [
        | inl held ↦
            rw (held, admit)
              (at_call tt λ _. at_call tt λ response.
                at_call tt
                  λ _. at_call tt λ _. at_ok (rw (none_recorded, none_in, none_out) (refl, refl)))
        | inr lacking ↦
            rw (lacking, admit)
              (at_call tt λ _. at_ok (rw (none_recorded, none_in, none_out) (refl, refl)))
      ]

  authorize-Recorded :
      (required subject : Text) → Holds Whatever (Recorded r.path) [] (authorize r required subject)
  unfolding authorize codes decimal
  authorize-Recorded required subject = at_call tt (elim [
    | err e ↦ at_call tt λ _. at_ok (refl, refl)
    | ok scopes ↦
        admit-Recorded required (record { subject = subject; scopes = scopes }) _ refl refl refl
  ])

  -- Every request, refused or not, has exactly one outcome recorded, under its own path: the status
  -- of the refusal, or "2xx" or "5xx" for what the handler responded; and every increment of the
  -- in-flight counter has its decrement.
  pub require_auth-Recorded :
      (required_scope : Text → Option Text) (verify : Text → Result Text Text)
      → Holds Whatever (Recorded r.path) [] (require_auth required_scope verify r)
  unfolding codes decimal require_auth
  require_auth-Recorded required_scope verify = elim (Option-cases (required_scope r.path)) [
    | inl unknown ↦ rw (unknown, require_auth) (at_call tt λ _. at_ok (refl, refl))
    | inr (required, listed) ↦ elim (Option-cases (bearer r)) [
      | inl missing ↦ rw (listed, missing, require_auth) (at_call tt λ _. at_ok (refl, refl))
      | inr (token, carried) ↦ elim (Result-cases (verify token)) [
        | inl (subject, genuine) ↦
            rw (listed, carried, genuine, require_auth) (authorize-Recorded required subject)
        | inr (msg, forged) ↦
            rw (listed, carried, forged, require_auth) (at_call tt λ _. at_ok (refl, refl))
      ]
    ]
  ]
