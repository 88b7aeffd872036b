-- ===== src/Controller/Reconcile/Transitions.antt =====
-- The state machine of a server's phase: services/controller/src/reconcile.rs.
use mathlib.Core.List.{Memᴰ}
use magpie.Prelude.{
  ◌⊎◌, inl, inr, ◌≡◌, refl, Bool, true, false, Bool-cases, not, ◌||◌, Option, none, some, List, [],
  ◌∷◌, Text,
}
use magpie.Prelude.Prog.{
  ◌>>=◌, IfOk, Result, ok, err, pure, Event, Holds, at_ok, at_err, at_call, Holds-bind, Holds-mono,
  Holds-attempt, Logged,
}
use magpie.Prelude.Only.{
  only_pure, Only-bind, Only-lift, Only-attempt, Only-Holds, Only-then, Only-keeps,
}
use magpie.Crd.{ArmaServer, ArmaServerStatus, ArmaServerPhase}
use magpie.Controller.Config.{Config}
use magpie.Controller.Deployment.{Deployment}
use magpie.Controller.Calls.{
  Call, Reply, KubeError, not_found, other, SyncStatus, apply_deployment, scale_deployment,
}
use magpie.Controller.ArmaConfig.Values.{Platform}
use magpie.Controller.ArmaConfig.Only.{render_and_write-Only}
use magpie.Controller.HeadlessClients.{ignore_404, delete_all_headless_clients}
use magpie.Controller.HeadlessClients.Only.{delete_all-Only, ensure-Only}
use magpie.Controller.Reconcile.Only.{not_yet_synced-Only, resolve_mod_paths-Only}
use magpie.Controller.Reconcile.{
  Action, await_change, status_at, scale_down, stop, ensure_deployment, run_pending, roll_out,
  gate_sources, gate_sync, set_status, apply_phase, apply, phase_of, desired_running,
}

-- The server's Deployment was asked for no replicas, and there is none that kept them: the scale
-- was accepted or the Deployment was not there.
abbrev pub IsScaledDown : Text → List (Event Reply) → Type 0
IsScaledDown name past =
    Logged (scale_deployment name 0) (ok tt) past
    ⊎ ((text : Text) × Logged (scale_deployment name 0) (err (not_found text)) past)

-- The server's Deployment was applied.
abbrev pub IsApplied : Text → List (Event Reply) → Type 0
IsApplied name past =
    (deployment : Deployment) × Logged (apply_deployment name deployment) (ok tt) past

IsScaledDown-cons :
    {name : Text} (e : Event Reply) (past : List (Event Reply))
    → IsScaledDown name past
    → IsScaledDown name (e ∷ past)
IsScaledDown-cons e past (inl seen) = inl (Memᴰ.tail seen)
IsScaledDown-cons e past (inr (text, seen)) = inr (text, Memᴰ.tail seen)

-- The status that a pass may write, by the phase that it found and whether the server should run.
pub data Step (name : Text) (past : List (Event Reply))
    : ArmaServerPhase → Bool → ArmaServerStatus → Type 0 where
  start : Step name past ArmaServerPhase.stopped true (status_at ArmaServerPhase.pending)
  retry : Step name past ArmaServerPhase.failed true (status_at ArmaServerPhase.pending)
  settle :
      IsApplied name past
      → Step name past ArmaServerPhase.pending true
          (record { phase = ArmaServerPhase.running; message = [] })
  give_up :
      (reason : Text)
      → Step name past ArmaServerPhase.pending true
          (record { phase = ArmaServerPhase.failed; message = reason })
  halt_pending :
      IsScaledDown name past
      → Step name past ArmaServerPhase.pending false (status_at ArmaServerPhase.stopped)
  halt_running :
      IsScaledDown name past
      → Step name past ArmaServerPhase.running false (status_at ArmaServerPhase.stopped)
  halt_failed :
      IsScaledDown name past
      → Step name past ArmaServerPhase.failed false (status_at ArmaServerPhase.stopped)

abbrev pub Legal : Text → ArmaServerPhase → Bool → List (Event Reply) → Call → Type 0
Legal name phase wanted past (Call.patch_server_status n status) =
    (n ≡ name) × Step name past phase wanted status
Legal name phase wanted past _ = Unit

-- the calls that write no status
abbrev IsSilent : Call → Type 0
IsSilent (Call.patch_server_status n status) = ⊥
IsSilent _ = Unit

module _ (name : Text) (phase : ArmaServerPhase) (wanted : Bool) where
  IsSilent-Legal :
      (past : List (Event Reply)) (c : Call) → IsSilent c → Legal name phase wanted past c
  IsSilent-Legal past (Call.patch_server_status n status) q = absurd q
  IsSilent-Legal past _ q = tt

  -- writing one status, at the end of a pass
  set_status-Legal :
      (status : ArmaServerStatus) (past : List (Event Reply)) (action : Action)
      → Step name past phase wanted status
      → Holds
          (Legal name phase wanted)
          (λ h r. Unit {0})
          past
          (set_status name status >>= λ _. pure action)
  unfolding set_status ◌>>=◌
  set_status-Legal status past action step =
      at_call (refl, step) λ r. Only-Holds IsSilent-Legal (Only-bind (Only-lift _) λ _. only_pure)

module _ (p : Platform) (cfg : Config) (obj : ArmaServer) where
  -- a rollout that succeeds has applied the Deployment
  run_pending-Legal :
      (past : List (Event Reply))
      → Holds
          (Legal obj.name ArmaServerPhase.pending true)
          (λ h r. IfOk (λ _. IsApplied obj.name h) r)
          past
          (run_pending p cfg obj)
  unfolding run_pending ensure_deployment ◌>>=◌
  run_pending-Legal past =
      Only-then (IsSilent-Legal _ _ _)
        (resolve_mod_paths-Only (λ _. tt) cfg (λ _. tt) obj.spec.mod_source_ids)
        (λ h paths.
          Only-then (IsSilent-Legal _ _ _)
            (render_and_write-Only p cfg (record { config_map = λ _. tt; secret = λ _. tt }) obj
              (record { scopes = λ _. tt; directory = tt; main = λ _. tt; basic = λ _. tt }))
            (λ h' env. at_call tt λ uuid. at_call tt (elim [
              | ok done ↦
                  Holds-mono (λ h. elim [ ok _ ↦ λ a. a | err _ ↦ λ _. tt ])
                    (Only-keeps (IsSilent-Legal _ _ _) (IsApplied obj.name)
                      (λ e past (d, seen). (d, Memᴰ.tail seen))
                      (ensure-Only (λ _. tt) obj tt (λ _. tt)) (_, Memᴰ.head refl))
              | err e ↦ at_err tt
            ]))
            (λ _ _. tt))
        (λ _ _. tt)

  roll_out-Legal :
      (past : List (Event Reply))
      → Holds
          (Legal obj.name ArmaServerPhase.pending true)
          (λ h r. Unit {0})
          past
          (roll_out p cfg obj)
  unfolding roll_out
  roll_out-Legal past = Holds-bind (
      Holds-attempt (
        Holds-mono
          (λ h. elim [
            | ok done ↦ λ applied. set_status-Legal _ _ _ _ h _ (settle applied)
            | err e ↦ λ _. set_status-Legal _ _ _ _ h _ (give_up e)
          ])
          (run_pending-Legal past)))

  gate_sources-Legal :
      (past : List (Event Reply)) (r : Result Text (Option Text))
      → Holds
          (Legal obj.name ArmaServerPhase.pending true)
          (λ h r. Unit {0})
          past
          (gate_sources p cfg obj r)
  unfolding gate_sources
  gate_sources-Legal past (err e) = at_ok tt
  gate_sources-Legal past (ok (some id)) = at_ok tt
  gate_sources-Legal past (ok none) = roll_out-Legal past

  gate_sync-Legal :
      (past : List (Event Reply)) (r : Result Text SyncStatus)
      → Holds
          (Legal obj.name ArmaServerPhase.pending true)
          (λ h r. Unit {0})
          past
          (gate_sync p cfg obj r)
  unfolding gate_sync
  gate_sync-Legal past (err e) = at_ok tt
  gate_sync-Legal past (ok s) = elim (Bool-cases (s.syncing || not s.game_files_ready)) [
    | inl busy ↦ rw busy (at_ok tt)
    | inr idle ↦ rw idle (
        Only-then (IsSilent-Legal _ _ _)
          (Only-attempt (not_yet_synced-Only (λ _. tt) obj.spec.mod_source_ids)) gate_sources-Legal
          (λ _ _. tt))
  ]

module _ (name : Text) (phase : ArmaServerPhase)
    (halt : (past : List (Event Reply))
      → IsScaledDown name past
      → Step name past phase false (status_at ArmaServerPhase.stopped)) where
  -- what comes behind the scale
  stop_rest-Legal :
      (past : List (Event Reply))
      → IsScaledDown name past
      → Holds
          (Legal name phase false)
          (λ h r. Unit {0})
          past
          (delete_all_headless_clients name >>= λ _.
            set_status name (status_at ArmaServerPhase.stopped) >>= λ _. pure await_change)
  stop_rest-Legal past scaled = Holds-bind (
      Holds-mono
        (λ h. elim [
          | ok _ ↦ λ i. set_status-Legal name phase false _ h _ (halt h i)
          | err _ ↦ λ _. tt
        ])
        (Only-keeps (IsSilent-Legal name phase false) (IsScaledDown name) IsScaledDown-cons
          (delete_all-Only (λ _. tt) name tt) scaled))

  scaled-Legal :
      (reply : Result KubeError (Unit {0}))
      → Holds
          (Legal name phase false)
          (λ h r. Unit {0})
          ((scale_deployment name 0, reply) ∷ [])
          (ignore_404 reply >>= λ _. delete_all_headless_clients name >>= λ _.
            set_status name (status_at ArmaServerPhase.stopped) >>= λ _. pure await_change)
  unfolding ◌>>=◌
  scaled-Legal (ok _) = stop_rest-Legal _ (inl (Memᴰ.head refl))
  scaled-Legal (err (not_found text)) = stop_rest-Legal _ (inr (text, Memᴰ.head refl))
  scaled-Legal (err (other text)) = at_err tt

  stop-Legal : Holds (Legal name phase false) (λ h r. Unit {0}) [] (stop name)
  unfolding stop ◌>>=◌ scale_down
  stop-Legal = at_call tt scaled-Legal

module _ (p : Platform) (cfg : Config) (obj : ArmaServer) where
  apply_phase-Legal :
      (phase : ArmaServerPhase) (wanted : Bool)
      → Holds
          (Legal obj.name phase wanted)
          (λ h r. Unit {0})
          []
          (apply_phase p cfg obj phase wanted)
  unfolding apply_phase
  apply_phase-Legal ArmaServerPhase.stopped true =
      at_call tt λ _. set_status-Legal _ _ _ _ _ _ start
  apply_phase-Legal ArmaServerPhase.stopped false = at_ok tt
  apply_phase-Legal ArmaServerPhase.pending true = at_call tt λ r. gate_sync-Legal p cfg obj _ r
  apply_phase-Legal ArmaServerPhase.running true = at_ok tt
  apply_phase-Legal ArmaServerPhase.failed true = set_status-Legal _ _ _ _ _ _ retry
  apply_phase-Legal ArmaServerPhase.pending false = stop-Legal _ _ (λ _ i. halt_pending i)
  apply_phase-Legal ArmaServerPhase.running false = stop-Legal _ _ (λ _ i. halt_running i)
  apply_phase-Legal ArmaServerPhase.failed false = stop-Legal _ _ (λ _ i. halt_failed i)

  -- Whatever the services reply, each status that a pass writes is the server's own and a step of
  -- the phase machine from the phase that the pass found: `Stopped` to `Pending`, or `Failed` to
  -- `Pending`, when it should run; `Pending` to `Running` with no message only after its
  -- Deployment was applied, or to `Failed` with a message; and to `Stopped` only when it should not
  -- run, was not stopped, and its Deployment was scaled to none or is gone.
  pub apply-Legal :
      Holds
        (Legal obj.name (phase_of obj) (desired_running obj))
        (λ h r. Unit {0})
        []
        (apply p cfg obj)
  unfolding apply
  apply-Legal = apply_phase-Legal (phase_of obj) (desired_running obj)
