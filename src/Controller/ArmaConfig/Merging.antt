-- ===== src/Controller/ArmaConfig/Merging.antt =====
-- Whose value wins: services/controller/src/arma_config.rs, `fetch_and_merge`.
use magpie.Prelude.{◌≡◌, refl, ◌∙◌, ap, Option, none, some, List, [], ◌∷◌, Text}
use magpie.Prelude.Dict.{Dict, get, extend, last_of, get-extend}
use magpie.Prelude.Prog.{
  ◌>>=◌, IfOk, Result, ok, err, pure, Event, Holds, at_ok, at_err, at_call, Logged,
}
use mathlib.Core.List.{Memᴰ}
use magpie.Controller.Calls.{Call, Reply, KubeError, get_config_map}
use magpie.Controller.ArmaConfig.Resolve.{kube, with_context, override, fetch_and_merge}

-- The entries of a ConfigMap that was read; none, if none is named.
abbrev pub IsRead : Option Text → List (Event Reply) → List (Text × Text) → Type 0
IsRead none past entries = entries ≡ []
IsRead (some name) past entries = Logged (get_config_map name) (ok entries) past

-- The value of each key: of the server's own ConfigMap, or else of the baseline.
abbrev pub IsMerged : Text → Option Text → List (Event Reply) → Dict Text → Type 0
IsMerged baseline name past merged =
    (base : List (Text × Text)) × (over : List (Text × Text)) × Logged (get_config_map baseline)
      (ok base) past
    × IsRead name past over
    × ((k : Text)
        → get k merged ≡ elim (last_of k over) [ some v ↦ some v | none ↦ last_of k base ])

abbrev Free : List (Event Reply) → Call → Type 0
Free past c = Unit

get-base : (k : Text) (base : List (Text × Text)) → get k (extend [] base) ≡ last_of k base
unfolding get
get-base k base = get-extend k [] base ∙ identity (last_of k base)
  where
    identity : (o : Option Text) → elim o [ some v ↦ some v | none ↦ none ] ≡ o
    identity none = refl
    identity (some v) = refl

-- behind the reading of the server's own ConfigMap
over-IsMerged :
    (baseline name context : Text) (base : List (Text × Text)) (past : List (Event Reply))
    (reply : Result KubeError (List (Text × Text)))
    → Logged (get_config_map baseline) (ok base) past
    → Holds Free
        (λ h r. IfOk (IsMerged baseline (some name) h) r)
        ((get_config_map name, reply) ∷ past)
        (with_context context (kube reply) >>= λ over. pure (extend (extend [] base) over))
unfolding with_context ◌>>=◌
over-IsMerged baseline name context base past (err e) seen = at_err tt
over-IsMerged baseline name context base past (ok over) seen = at_ok (
  base,
  over,
  Memᴰ.tail seen,
  Memᴰ.head refl,
  λ k.
      get-extend k (extend [] base) over
      ∙ ap (λ o. elim (last_of k over) [ some v ↦ some v | none ↦ o ]) (get-base k base),
)

override-IsMerged :
    (baseline : Text) (name : Option Text) (base : List (Text × Text)) (past : List (Event Reply))
    → Logged (get_config_map baseline) (ok base) past
    → Holds Free (λ h r. IfOk (IsMerged baseline name h) r) past (override name (extend [] base))
unfolding override ◌>>=◌ last_of
override-IsMerged baseline none base past seen = at_ok (base, [], seen, refl, λ k. get-base k base)
override-IsMerged baseline (some name) base past seen =
    at_call tt λ reply. over-IsMerged baseline name _ base past reply seen

-- behind the reading of the baseline
base-IsMerged :
    (baseline context : Text) (name : Option Text) (reply : Result KubeError (List (Text × Text)))
    → Holds Free
        (λ h r. IfOk (IsMerged baseline name h) r)
        ((get_config_map baseline, reply) ∷ [])
        (with_context context (kube reply) >>= λ base. override name (extend [] base))
unfolding with_context ◌>>=◌
base-IsMerged baseline context name (err e) = at_err tt
base-IsMerged baseline context name (ok base) =
    override-IsMerged baseline name base _ (Memᴰ.head refl)

-- A merged configuration gives each key the value that the server's own ConfigMap has for it, and
-- otherwise the baseline's, whatever entries both have.
pub fetch_and_merge-IsMerged :
    (baseline : Text) (name : Option Text)
    → Holds Free (λ h r. IfOk (IsMerged baseline name h) r) [] (fetch_and_merge baseline name)
unfolding fetch_and_merge ◌>>=◌
fetch_and_merge-IsMerged baseline name = at_call tt λ reply. base-IsMerged baseline _ name reply
