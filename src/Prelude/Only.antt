-- ===== src/Prelude/Only.antt =====
-- Rules for what a program calls, whatever the replies.
use mathlib.Core.Bool.{Bool, true, false}
use mathlib.Core.List.{List, ◌∷◌}
use magpie.Prelude.Tests.{if◌then◌else◌}
use magpie.Prelude.Prog.{
  Result, ok, err, Prog, pure, fail, call, ◌>>=◌, lift, attempt, map_err, run, Event, Holds, at_ok,
  at_err, at_call,
}

-- Every call that is made satisfies `P`.
pub data Only {C : Type 0} {R : C → Type 0} {E A : Type 0} (P : C → Type 0)
    : Prog R E A → Type 0 where
  only_pure : {a : A} → Only P (pure a)
  only_fail : {e : E} → Only P (fail e)
  only_call : {c : C} {k : R c → Prog R E A} → P c → ((r : R c) → Only P (k r)) → Only P (call c k)

module _ {C : Type 0} {R : C → Type 0} {E : Type 0} {P : C → Type 0} where
  pub Only-bind :
      {A B : Type 0} {m : Prog R E A} {f : A → Prog R E B}
      → Only P m
      → ((a : A) → Only P (f a))
      → Only P (m >>= f)
  unfolding ◌>>=◌
  Only-bind only_pure g = g _
  Only-bind only_fail g = only_fail
  Only-bind (only_call p h) g = only_call p (λ r. Only-bind (h r) g)

  pub Only-lift : {A : Type 0} (r : Result E A) → Only {R = R} P (lift r)
  Only-lift (ok a) = only_pure
  Only-lift (err e) = only_fail

  pub Only-attempt : {F A : Type 0} {m : Prog R E A} → Only P m → Only P (attempt {F = F} m)
  unfolding attempt
  Only-attempt only_pure = only_pure
  Only-attempt only_fail = only_pure
  Only-attempt {F} (only_call p h) = only_call p (λ r. Only-attempt {F = F} (h r))

  pub Only-map_err : {F A : Type 0} (g : E → F) {m : Prog R E A} → Only P m → Only P (map_err g m)
  unfolding map_err
  Only-map_err g only_pure = only_pure
  Only-map_err g only_fail = only_fail
  Only-map_err g (only_call p h) = only_call p (λ r. Only-map_err g (h r))

  pub Only-if :
      {A : Type 0} (b : Bool) {m n : Prog R E A} → Only P m → Only P n → Only P (if b then m else n)
  Only-if true hm hn = hm
  Only-if false hm hn = hn

  -- With what holds of the calls alone, whatever came before.
  pub Only-Holds :
      {A : Type 0} {Q : List (Event R) → C → Type 0}
      → ((past : List (Event R)) (c : C) → P c → Q past c)
      → {m : Prog R E A} → Only P m
      → {past : List (Event R)} → Holds Q (λ h r. Unit {0}) past m
  Only-Holds weaken only_pure = at_ok tt
  Only-Holds weaken only_fail = at_err tt
  Only-Holds weaken (only_call p h) = at_call (weaken _ _ p) (λ r. Only-Holds weaken (h r))

module _ {C : Type 0} {R : C → Type 0} {E : Type 0} {P : C → Type 0}
    {Q : List (Event R) → C → Type 0}
    (weaken : (past : List (Event R)) (c : C) → P c → Q past c) where
  -- What every further event keeps still holds at the end.
  pub Only-keeps :
      {A : Type 0} (I : List (Event R) → Type 0)
      → ((e : Event R) (past : List (Event R)) → I past → I (e ∷ past))
      → {m : Prog R E A} → Only P m
      → {past : List (Event R)} → I past
      → Holds Q (λ h r. I h) past m
  Only-keeps I keeps only_pure i = at_ok i
  Only-keeps I keeps only_fail i = at_err i
  Only-keeps I keeps (only_call {c} p h) i =
      at_call (weaken _ _ p) (λ r. Only-keeps I keeps (h r) (keeps (c, r) _ i))

  -- A first part that is known by its calls alone.
  pub Only-then :
      {A B : Type 0} {S : List (Event R) → Result E B → Type 0} {m : Prog R E A}
      {f : A → Prog R E B}
      → Only P m
      → ((h : List (Event R)) (a : A) → Holds Q S h (f a))
      → ((h : List (Event R)) (e : E) → S h (err e))
      → {past : List (Event R)} → Holds Q S past (m >>= f)
  unfolding ◌>>=◌
  Only-then only_pure next stops = next _ _
  Only-then only_fail next stops = at_err (stops _ _)
  Only-then (only_call p h) next stops = at_call (weaken _ _ p) (λ r. Only-then (h r) next stops)

-- What every allowed call keeps of the services' state, a run keeps.
pub run-Only :
    {C : Type 0} {R : C → Type 0} {E A W : Type 0} {P : C → Type 0}
    (handler : (c : C) → W → R c × W) (I : W → Type 0)
    → ((c : C) (w : W) → P c → I w → I (handler c w).1)
    → {m : Prog R E A} → Only P m
    → (w : W) → I w
    → I (run handler m w).1
unfolding run
run-Only handler I keeps only_pure w i = i
run-Only handler I keeps only_fail w i = i
run-Only handler I keeps (only_call {c} p h) w i =
    run-Only handler I keeps (h (handler c w).0) (handler c w).1 (keeps c w p i)

-- Once something that later calls keep allows every call, any program may follow.
module _ {C : Type 0} {R : C → Type 0} {E : Type 0} (P : List (Event R) → C → Type 0)
    (I : List (Event R) → Type 0)
    (keeps : (e : Event R) (past : List (Event R)) → I past → I (e ∷ past))
    (allows : (past : List (Event R)) (c : C) → I past → P past c) where
  pub Holds-open :
      {A : Type 0} (m : Prog R E A) (past : List (Event R)) → I past → Holds P (λ h r. I h) past m
  Holds-open (pure a) past i = at_ok i
  Holds-open (fail e) past i = at_err i
  Holds-open (call c k) past i =
      at_call (allows past c i) (λ r. Holds-open (k r) _ (keeps (c, r) past i))

pub ruleset only_rules =
    (only_pure, only_fail, only_call, Only-bind, Only-lift, Only-attempt, Only-if)
