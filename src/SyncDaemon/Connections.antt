-- ===== src/SyncDaemon/Connections.antt =====
-- What holds of a body holds of it on a connection: services/sync-daemon/src/service.rs,
-- `with_conn`.
use mathlib.Core.List.{Memᴰ}
use magpie.Prelude.{ℕ, refl, Bool, Option, List, Text, Bool-cases, inl, inr}
use magpie.Prelude.Prog.{
  Result, ok, err, Event, Holds, at_ok, at_err, at_call, Holds-bind, Holds-mono, Holds-attempt,
  Logged, ◌>>=◌, lift,
}
use magpie.SyncDaemon.Calls.{Call, Reply, Fallible, acquire, mark_bad}
use magpie.SyncDaemon.Service.{note_failure, with_conn}

module _ (is_transient : Text → Bool) (P : List (Event Reply) → Call → Type 0)
    (may_acquire : (h : List (Event Reply)) → P h acquire)
    (may_mark : (h : List (Event Reply)) → P h mark_bad) {A : Type 0}
    (Q : List (Event Reply) → Result Text A → Type 0)
    (stops : (h : List (Event Reply)) (e : Text) → Q h (err e)) where
  noted-Holds :
      (h : List (Event Reply)) (r : Result Text A)
      → Q h r
      → Holds P Q h (note_failure is_transient r >>= λ _. lift r)
  unfolding note_failure ◌>>=◌
  noted-Holds h (ok a) q = at_ok q
  noted-Holds h (err e) q = elim (Bool-cases (is_transient e)) [
    | inl transient ↦ rw transient (at_call {c = mark_bad} (may_mark h) λ _. at_err (stops _ e))
    | inr lasting ↦ rw lasting (at_err (stops _ e))
  ]

  pub with_conn-Holds :
      (f : Option ℕ → Fallible A)
      → ((h : List (Event Reply)) (conn : Option ℕ)
          → Logged acquire (ok conn) h
          → Holds P Q h (f conn))
      → {past : List (Event Reply)} → Holds P Q past (with_conn is_transient f)
  unfolding with_conn ◌>>=◌
  with_conn-Holds f inner {past} = at_call {c = acquire} (may_acquire past) (elim [
    | err e ↦ at_err (stops _ e)
    | ok conn ↦
        Holds-bind {f = λ r. note_failure is_transient r >>= λ _. lift r}
          (Holds-attempt (Holds-mono (λ h r q. noted-Holds h r q) (inner _ conn (Memᴰ.head refl))))
  ])
