-- ===== src/Prelude/Prog.antt =====
-- Code that calls the services around it (the Kubernetes API, sync-daemon, Postgres, the file
-- system): a tree that names each call and says, for every reply, what comes next. Nothing is
-- assumed of the services; what they do enters as the replies, or as the handler of a run.
use mathlib.Core.Path.{◌≡◌, refl}
use mathlib.Core.Logic.{◌⊎◌, inl, inr}
use mathlib.Core.List.{List, ◌∷◌, Memᴰ}

-- `Result<A, E>`
pub data Result (E A : Type 0) : Type 0 where
  ok : A → Result E A
  err : E → Result E A

-- A program that returns an `A`, ends early with an `E` (the `?` operator), or makes a call.
pub data Prog {C : Type 0} (R : C → Type 0) (E A : Type 0) : Type 0 where
  pure : A → Prog R E A
  fail : E → Prog R E A
  call : (c : C) → (R c → Prog R E A) → Prog R E A

module _ {C : Type 0} {R : C → Type 0} {E : Type 0} where
  infixl 10 ◌>>=◌ ◌>>◌
  unfoldable pub ◌>>=◌ : {A B : Type 0} → Prog R E A → (A → Prog R E B) → Prog R E B
  pure a >>= f = f a
  fail e >>= f = fail e
  call c k >>= f = call c (λ r. k r >>= f)

  abbrev pub ◌>>◌ : {A B : Type 0} → Prog R E A → Prog R E B → Prog R E B
  m >> n = m >>= λ _. n

  -- one call, its reply taken as it is
  abbrev pub request : (c : C) → Prog R E (R c)
  request c = call c pure

  -- `?` on a `Result` that is at hand
  abbrev pub lift : {A : Type 0} → Result E A → Prog R E A
  lift (ok a) = pure a
  lift (err e) = fail e

module _ {C : Type 0} {R : C → Type 0} {E F : Type 0} where
  -- `match f().await { Ok(a) => …, Err(e) => … }`: the result as a value
  unfoldable pub attempt : {A : Type 0} → Prog R E A → Prog R F (Result E A)
  attempt (pure a) = pure (ok a)
  attempt (fail e) = pure (err e)
  attempt (call c k) = call c (λ r. attempt (k r))

  -- `map_err`, then `?`
  unfoldable pub map_err : {A : Type 0} → (E → F) → Prog R E A → Prog R F A
  map_err g (pure a) = pure a
  map_err g (fail e) = fail (g e)
  map_err g (call c k) = call c (λ r. map_err g (k r))

-- A result whose error is mapped.
unfoldable pub mapped : {E F A : Type 0} → (E → F) → Result E A → Result F A
mapped g (ok a) = ok a
mapped g (err e) = err (g e)

-- A call and the reply that it got.
abbrev pub Event : {C : Type 0} → (C → Type 0) → Type 0
Event {C} R = (c : C) × R c

-- Whatever the replies: every call satisfies `P`, given what was called and replied before it (the
-- latest first), and `Q` holds of all that and of the result at the end.
pub data Holds {C : Type 0} {R : C → Type 0} {E A : Type 0} (P : List (Event R) → C → Type 0)
    (Q : List (Event R) → Result E A → Type 0) : List (Event R) → Prog R E A → Type 0 where
  at_ok : {past : List (Event R)} {a : A} → Q past (ok a) → Holds P Q past (pure a)
  at_err : {past : List (Event R)} {e : E} → Q past (err e) → Holds P Q past (fail e)
  at_call :
      {past : List (Event R)} {c : C} {k : R c → Prog R E A}
      → P past c
      → ((r : R c) → Holds P Q ((c, r) ∷ past) (k r))
      → Holds P Q past (call c k)

-- What `m >>= f` needs of the end of `m`.
abbrev pub After :
    {C : Type 0} {R : C → Type 0} {E A B : Type 0} (P : List (Event R) → C → Type 0)
    (Q : List (Event R) → Result E B → Type 0) (f : A → Prog R E B)
    → List (Event R)
    → Result E A
    → Type 0
After P Q f past (ok a) = Holds P Q past (f a)
After P Q f past (err e) = Q past (err e)

module _ {C : Type 0} {R : C → Type 0} {E : Type 0} {P : List (Event R) → C → Type 0} where
  pub Holds-bind :
      {A B : Type 0} {Q : List (Event R) → Result E B → Type 0} {f : A → Prog R E B}
      {past : List (Event R)} {m : Prog R E A}
      → Holds P (After P Q f) past m
      → Holds P Q past (m >>= f)
  unfolding ◌>>=◌
  Holds-bind (at_ok h) = h
  Holds-bind (at_err h) = at_err h
  Holds-bind (at_call p h) = at_call p (λ r. Holds-bind (h r))

  -- `?` on a result that is at hand.
  pub Holds-lift :
      {A B : Type 0} {Q : List (Event R) → Result E B → Type 0} {f : A → Prog R E B}
      {past : List (Event R)} (r : Result E A)
      → ((a : A) → Holds P Q past (f a))
      → ((e : E) → Q past (err e))
      → Holds P Q past (lift r >>= f)
  unfolding ◌>>=◌
  Holds-lift (ok a) next stops = next a
  Holds-lift (err e) next stops = at_err (stops e)

  -- A weaker end.
  pub Holds-mono :
      {A : Type 0} {Q Q' : List (Event R) → Result E A → Type 0}
      (weaken : (h : List (Event R)) (r : Result E A) → Q h r → Q' h r) {past : List (Event R)}
      {m : Prog R E A}
      → Holds P Q past m
      → Holds P Q' past m
  Holds-mono weaken (at_ok h) = at_ok (weaken _ _ h)
  Holds-mono weaken (at_err h) = at_err (weaken _ _ h)
  Holds-mono weaken (at_call p h) = at_call p (λ r. Holds-mono weaken (h r))

  pub Holds-attempt :
      {F A : Type 0} {Q : List (Event R) → Result F (Result E A) → Type 0} {past : List (Event R)}
      {m : Prog R E A}
      → Holds P (λ h r. Q h (ok r)) past m
      → Holds P Q past (attempt m)
  unfolding attempt
  Holds-attempt (at_ok h) = at_ok h
  Holds-attempt (at_err h) = at_ok h
  Holds-attempt {F} {A} {Q} (at_call p h) =
      at_call p (λ r. Holds-attempt {F = F} {A = A} {Q = Q} (h r))

  pub Holds-map_err :
      {F A : Type 0} {Q : List (Event R) → Result F A → Type 0} (g : E → F) {past : List (Event R)}
      {m : Prog R E A}
      → Holds P (λ h r. Q h (mapped g r)) past m
      → Holds P Q past (map_err g m)
  unfolding map_err mapped
  Holds-map_err g (at_ok h) = at_ok h
  Holds-map_err g (at_err h) = at_err h
  Holds-map_err {F} {A} {Q} g (at_call p h) =
      at_call p (λ r. Holds-map_err {F = F} {A = A} {Q = Q} g (h r))

module _ {C : Type 0} {R : C → Type 0} {E W : Type 0} (handler : (c : C) → W → R c × W) where
  -- A run against a handler: the services' answers, as a function of their state.
  unfoldable pub run : {A : Type 0} → Prog R E A → W → Result E A × W
  run (pure a) w = (ok a, w)
  run (fail e) w = (err e, w)
  run (call c k) w = let (r, w') = handler c w in run (k r) w'

  -- How a run goes on behind `m`.
  abbrev pub run_on : {A B : Type 0} → (A → Prog R E B) → Result E A → W → Result E B × W
  run_on f (ok a) w = run (f a) w
  run_on f (err e) w = (err e, w)

  -- A run of `m >>= f` is a run of `m`, then one of `f`.
  pub run-bind :
      {A B : Type 0} (m : Prog R E A) (f : A → Prog R E B) (w : W)
      → run (m >>= f) w ≡ run_on f (run m w).0 (run m w).1
  unfolding run ◌>>=◌
  run-bind (pure a) f w = refl
  run-bind (fail e) f w = refl
  run-bind (call c k) f w = let (r, w') = handler c w in run-bind (k r) f w'

-- The call was made before, and had this reply.
abbrev pub Logged : {C : Type 0} {R : C → Type 0} (c : C) → R c → List (Event R) → Type 0
Logged {C} {R} c r past = Memᴰ {A = Event R} (c, r) past

pub Result-cases :
    {E A : Type 0} (r : Result E A) → ((a : A) × (r ≡ ok a)) ⊎ ((e : E) × (r ≡ err e))
Result-cases (ok a) = inl (a, refl)
Result-cases (err e) = inr (e, refl)

-- What holds if the end is `Ok`.
abbrev pub IfOk : {E A : Type 0} → (A → Type 0) → Result E A → Type 0
IfOk T (ok a) = T a
IfOk T (err e) = Unit
