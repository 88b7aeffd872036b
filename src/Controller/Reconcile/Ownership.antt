-- ===== src/Controller/Reconcile/Ownership.antt =====
-- Which headless clients a whole pass may delete: services/controller/src/reconcile.rs.
use magpie.Prelude.{
  ◌≤◌, ◌≡◌, refl, inl, inr, Bool, true, false, Bool-cases, not, ◌||◌, Option, none, some, List, [],
  Text,
}
use magpie.Prelude.Prog.{
  Result, ok, err, Event, Holds, at_ok, at_call, Holds-bind, Holds-mono, Holds-attempt,
}
use magpie.Prelude.Only.{only_pure, only_call, Only-bind, Only-attempt, Only-Holds, Only-then}
use magpie.Crd.{ArmaServer, ArmaServerPhase, HeadlessClient}
use magpie.Controller.Config.{Config}
use magpie.Controller.Calls.{Reply, SyncStatus}
use magpie.Controller.ArmaConfig.Values.{Platform}
use magpie.Controller.ArmaConfig.Only.{render_and_write-Only}
use magpie.Controller.HeadlessClients.Only.{ignore_404-Only}
use magpie.Controller.HeadlessClients.Ownership.{
  Owned, DeletesNone-Owned, delete_all-Owned, ensure-Owned,
}
use magpie.Controller.Reconcile.Only.{
  set_status-Only, remove_deployment-Only, not_yet_synced-Only, resolve_mod_paths-Only,
  ensure_deployment-Only,
}
use magpie.Controller.Reconcile.{
  scale_down, stop, run_pending, roll_out, gate_sources, gate_sync, apply_phase, apply, cleanup,
  reconcile, desired_running,
}

-- A client that a server may do without: any, unless it exists and should run; then those from
-- the wanted number on.
abbrev pub IsUnwanted : ArmaServer → Bool → HeadlessClient → Type 0
IsUnwanted obj deleted hc =
    deleted ≡ false → desired_running obj ≡ true → obj.spec.headless_clients ≤ hc.spec.index

module _ (p : Platform) (cfg : Config) (obj : ArmaServer) (Chosen : HeadlessClient → Type 0)
    (excess : (hc : HeadlessClient) → obj.spec.headless_clients ≤ hc.spec.index → Chosen hc) where
  run_pending-Owned :
      (past : List (Event Reply))
      → Holds (Owned obj.name Chosen) (λ h r. Unit {0}) past (run_pending p cfg obj)
  unfolding run_pending
  run_pending-Owned past =
      let quiet = DeletesNone-Owned obj.name Chosen in
      Only-then quiet (resolve_mod_paths-Only (λ _. tt) cfg (λ _. tt) obj.spec.mod_source_ids)
        (λ h paths.
          Only-then quiet
            (render_and_write-Only p cfg (record { config_map = λ _. tt; secret = λ _. tt }) obj
              (record { scopes = λ _. tt; directory = tt; main = λ _. tt; basic = λ _. tt }))
            (λ h' env.
              Only-then quiet (ensure_deployment-Only cfg obj paths env tt (λ _. tt))
                (λ h'' _. ensure-Owned obj Chosen excess h'') (λ _ _. tt))
            (λ _ _. tt))
        (λ _ _. tt)

  gate_sources-Owned :
      (past : List (Event Reply)) (r : Result Text (Option Text))
      → Holds (Owned obj.name Chosen) (λ h r. Unit {0}) past (gate_sources p cfg obj r)
  unfolding gate_sources roll_out
  gate_sources-Owned past (err e) = at_ok tt
  gate_sources-Owned past (ok (some id)) = at_ok tt
  gate_sources-Owned past (ok none) = Holds-bind (
      Holds-attempt (
        Holds-mono
          (λ h r _.
            Only-Holds (DeletesNone-Owned obj.name Chosen)
              (Only-bind (set_status-Only _ _ tt) λ _. only_pure))
          (run_pending-Owned past)))

  gate_sync-Owned :
      (past : List (Event Reply)) (r : Result Text SyncStatus)
      → Holds (Owned obj.name Chosen) (λ h r. Unit {0}) past (gate_sync p cfg obj r)
  unfolding gate_sync
  gate_sync-Owned past (err e) = at_ok tt
  gate_sync-Owned past (ok s) = elim (Bool-cases (s.syncing || not s.game_files_ready)) [
    | inl busy ↦ rw busy (at_ok tt)
    | inr idle ↦ rw idle (
        Only-then (DeletesNone-Owned obj.name Chosen)
          (Only-attempt (not_yet_synced-Only (λ _. tt) obj.spec.mod_source_ids)) gate_sources-Owned
          (λ _ _. tt))
  ]

module _ (name : Text) (Chosen : HeadlessClient → Type 0)
    (every : (hc : HeadlessClient) → Chosen hc) where
  stop-Owned : Holds (Owned name Chosen) (λ h r. Unit {0}) [] (stop name)
  unfolding stop scale_down
  stop-Owned =
      let quiet = DeletesNone-Owned name Chosen in
      Only-then quiet (only_call tt ignore_404-Only)
        (λ h _. Holds-bind (
          Holds-mono
            (λ h'. elim [
              | ok _ ↦ λ _. Only-Holds quiet (Only-bind (set_status-Only _ _ tt) λ _. only_pure)
              | err e ↦ λ _. tt
            ])
            (delete_all-Owned name Chosen every h)))
        (λ _ _. tt)

module _ (p : Platform) (cfg : Config) (obj : ArmaServer) where
  cleanup-Owned :
      Holds (Owned obj.name (IsUnwanted obj true)) (λ h r. Unit {0}) [] (cleanup p cfg obj)
  unfolding cleanup
  cleanup-Owned =
      Only-then (DeletesNone-Owned obj.name _) (remove_deployment-Only _ tt)
        (λ h _. Holds-bind (
          Holds-mono (λ h'. elim [ ok _ ↦ λ _. at_ok tt | err e ↦ λ _. tt ])
            (delete_all-Owned obj.name (IsUnwanted obj true) (λ hc e. cc) h)))
        (λ _ _. tt)

  apply_phase-Owned :
      (phase : ArmaServerPhase) (wanted : Bool)
      → desired_running obj ≡ wanted
      → Holds
          (Owned obj.name (IsUnwanted obj false))
          (λ h r. Unit {0})
          []
          (apply_phase p cfg obj phase wanted)
  unfolding apply_phase
  apply_phase-Owned ArmaServerPhase.stopped true w =
      Only-Holds (DeletesNone-Owned obj.name _)
        (only_call tt λ _. Only-bind (set_status-Only _ _ tt) λ _. only_pure)
  apply_phase-Owned ArmaServerPhase.stopped false w = at_ok tt
  apply_phase-Owned ArmaServerPhase.pending true w =
      at_call tt λ r. gate_sync-Owned p cfg obj _ (λ hc above _ _. above) _ r
  apply_phase-Owned ArmaServerPhase.running true w = at_ok tt
  apply_phase-Owned ArmaServerPhase.failed true w =
      Only-Holds (DeletesNone-Owned obj.name _) (Only-bind (set_status-Only _ _ tt) λ _. only_pure)
  apply_phase-Owned _ false w = stop-Owned obj.name _ (λ hc _ w'. cc)

  -- Whatever the services reply, a pass over a server, or the cleanup of a deleted one, deletes a
  -- headless client only if the API server listed it in this pass as one of this server; and while
  -- the server exists and should run, only if its index is at or above the number wanted.
  pub reconcile-Owned :
      (deleted : Bool)
      → Holds
          (Owned obj.name (IsUnwanted obj deleted))
          (λ h r. Unit {0})
          []
          (reconcile p cfg deleted obj)
  unfolding reconcile apply
  reconcile-Owned true = cleanup-Owned
  reconcile-Owned false = apply_phase-Owned _ _ refl
