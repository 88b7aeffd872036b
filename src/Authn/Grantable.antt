-- ===== src/Authn/Grantable.antt =====
-- The list of scopes that a UI can grant against the tables by which the services enforce them.
use magpie.Prelude.{
  ◌≡◌, ◌↔◌, refl, Bool, true, ◌||◌, List, [], ◌∷◌, Text, codes, text_eq, text_eq_iff, any, all,
  or-cases, inl, inr, arith,
}
use magpie.Authn.Authz.{known_scopes}
use magpie.Gateway
use magpie.Registry

-- `s` is among the scopes.
pub holds : List Text → Text → Bool
holds scopes s = any (λ t. text_eq t s) scopes

-- The scopes of a table of procedures.
abbrev scopes_of : List (Text × Text) → List Text
scopes_of [] = []
scopes_of ((path, scope) ∷ m) = scope ∷ scopes_of m

-- Some RPC of gateway or registry requires `s`, or controller reads it from the grants.
abbrev pub is_enforced : Text → Bool
is_enforced s =
    holds (scopes_of Gateway.Access.procedures) s
    || holds (scopes_of Registry.Access.procedures) s
    || holds (codes "arma:admin" ∷ codes "arma:filepatch" ∷ []) s

-- What holds of every listed text holds of each text that is among them.
all-holds :
    (p : Text → Bool) (scopes : List Text) (s : Text)
    → all p scopes ≡ true
    → holds scopes s ≡ true
    → p s ≡ true
unfolding holds
all-holds p [] s h k = cc
all-holds p (t ∷ scopes) s h k = ground (arith, text_eq_iff t s, all-holds p scopes s)

known-enforced : all is_enforced known_scopes ≡ true
unfolding codes text_eq holds
known-enforced = refl

abbrev is_known : Text → Bool
is_known = holds known_scopes

enforced-known :
    (all is_known (scopes_of Gateway.Access.procedures) ≡ true)
    × (all is_known (scopes_of Registry.Access.procedures) ≡ true)
    × (all is_known (codes "arma:admin" ∷ codes "arma:filepatch" ∷ []) ≡ true)
unfolding codes text_eq holds
enforced-known = (refl, refl, refl)

is_enforced-known : (s : Text) → is_enforced s ≡ true → holds known_scopes s ≡ true
is_enforced-known s h =
    elim (or-cases _ (holds (codes "arma:admin" ∷ codes "arma:filepatch" ∷ []) s) h) [
      | inl h' ↦ elim (or-cases _ (holds (scopes_of Registry.Access.procedures) s) h') [
        | inl g ↦ all-holds is_known (scopes_of Gateway.Access.procedures) s enforced-known.0 g
        | inr g ↦ all-holds is_known (scopes_of Registry.Access.procedures) s enforced-known.1 g
      ]
      | inr g ↦
          all-holds is_known (codes "arma:admin" ∷ codes "arma:filepatch" ∷ []) s enforced-known.2 g
    ]

-- The scopes that a UI offers are exactly those that gateway or registry require for some RPC, with
-- the two that controller reads from the grants: none is missing, and none is idle.
pub known_scopes_iff : (s : Text) → (holds known_scopes s ≡ true) ↔ (is_enforced s ≡ true)
known_scopes_iff s =
    (λ h. all-holds is_enforced known_scopes s known-enforced h, is_enforced-known s)
