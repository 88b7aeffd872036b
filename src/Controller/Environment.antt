-- ===== src/Controller/Environment.antt =====
-- Which value a variable of the server's container has: services/controller/src/reconcile.rs,
-- `ensure_deployment`. Of two entries of one name the later one counts.
use mathlib.Core.Option
use magpie.Prelude.{
  ◌≡◌, refl, ap, ◌∙◌, Bool, true, false, Option, none, some, List, [], ◌∷◌, ◌++◌, map, Text,
  text_eq, if◌then◌else◌,
}
use magpie.Prelude.Dict.{last_of}
use magpie.Crd.{ArmaServer}
use magpie.Controller.Config.{Config}
use magpie.Controller.Deployment.{EnvVar, EnvValue, value}
use magpie.Controller.Pods.{fixed_env, server_env}

abbrev first_some : {A : Type 0} → Option A → Option A → Option A
first_some o p = elim o [ some a ↦ some a | none ↦ p ]

-- the last value of a name
abbrev pub effective : Text → List EnvVar → Option EnvValue
effective name [] = none
effective name (e ∷ env) =
    first_some (effective name env) (if text_eq e.name name then some e.value else none)

first_some-none : {A : Type 0} (o : Option A) → o ≡ first_some o none
first_some-none (some a) = refl
first_some-none none = refl

first_some_assoc :
    {A : Type 0} (a b c : Option A) → first_some (first_some a b) c ≡ first_some a (first_some b c)
first_some_assoc (some a) b c = refl
first_some_assoc none b c = refl

map-first_some :
    (o : Option Text) (b : Bool) (v : Text)
    → first_some (Option.map (λ w. value w) o) (if b then some (value v) else none)
      ≡ Option.map (λ w. value w) (first_some o (if b then some v else none))
map-first_some (some w) b v = refl
map-first_some none true v = refl
map-first_some none false v = refl

of_map :
    (o : Option Text) (other : Option EnvValue)
    → first_some (Option.map (λ w. value w) o) other
      ≡ elim o [ some v ↦ some (value v) | none ↦ other ]
of_map (some w) other = refl
of_map none other = refl

effective-append :
    (name : Text) (xs ys : List EnvVar)
    → effective name (xs ++ ys) ≡ first_some (effective name ys) (effective name xs)
effective-append name [] ys = first_some-none (effective name ys)
effective-append name (x ∷ xs) ys =
    rw (effective-append name xs ys) (first_some_assoc (effective name ys) (effective name xs) _)

effective-plain :
    (name : Text) (env : List (Text × Text))
    → effective name (map (λ (k, v). record { name = k; value = value v }) env)
      ≡ Option.map (λ v. value v) (last_of name env)
unfolding last_of
effective-plain name [] = refl
effective-plain name ((k, v) ∷ env) =
    rw (effective-plain name env) (map-first_some (last_of name env) (text_eq k name) v)

-- A variable of the container has the last value that the configuration gives it, whatever the
-- controller sets for the same name, and the controller's own value if the configuration gives
-- none.
pub effective-server_env :
    (cfg : Config) (obj : ArmaServer) (mod_paths : List Text) (extra_env : List (Text × Text))
    (name : Text)
    → effective name (server_env cfg obj mod_paths extra_env) ≡ elim (last_of name extra_env) [
      | some v ↦ some (value v)
      | none ↦ effective name (fixed_env cfg obj mod_paths)
    ]
unfolding server_env
effective-server_env cfg obj mod_paths extra_env name =
    effective-append name (fixed_env cfg obj mod_paths) _
    ∙ ap (λ o. first_some o (effective name (fixed_env cfg obj mod_paths)))
        (effective-plain name extra_env)
    ∙ of_map (last_of name extra_env) _
