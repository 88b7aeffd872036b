-- ===== src/Controller/Reconcile/Waiting.antt =====
-- What a pass waits for before it creates a Pod: services/controller/src/reconcile.rs, `apply`.
use mathlib.Core.List.{Memᴰ}
use magpie.Prelude.{
  ◌≡◌, refl, Bool, true, false, not, ◌||◌, Option, none, some, List, [], ◌∷◌, Text, All, unwrap_or,
  Bool-cases, inl, inr, arith, if◌then◌else◌,
}
use magpie.Prelude.Prog.{
  IfOk, Result, ok, err, pure, Event, Holds, at_ok, at_err, at_call, After, Holds-bind, Holds-mono,
  Holds-attempt, Logged,
}
use magpie.Prelude.Only.{only_pure, only_call, Only-bind, Only-Holds, Holds-open}
use magpie.Crd.{ArmaServer, ArmaServerPhase, ModSource, ModSourcePhase}
use magpie.Controller.Config.{Config}
use magpie.Controller.Calls.{
  Call, Reply, KubeError, not_found, other, SyncStatus, sync_status, get_mod_source,
}
use magpie.Controller.ArmaConfig.Values.{Platform}
use magpie.Controller.Reconcile.Only.{set_status-Only, stop-Only}
use magpie.Controller.Reconcile.{
  is_synced, or_gone, not_yet_synced_mod_source, roll_out, gate_sources, gate_sync, apply_phase,
  apply, phase_of, desired_running,
}

-- sync-daemon said that nothing is in flight and that the base game is complete.
abbrev pub IsQuiescent : List (Event Reply) → Type 0
IsQuiescent past =
    (s : SyncStatus) × Logged sync_status (ok s) past
    × (s.syncing ≡ false)
    × (s.game_files_ready ≡ true)

-- The mod source was read, and was in the phase `Synced`.
abbrev pub IsSeenSynced : List (Event Reply) → Text → Type 0
IsSeenSynced past source_id =
    (source : ModSource) × Logged (get_mod_source source_id) (ok source) past
    × (source.phase ≡ some ModSourcePhase.synced)

module _ (obj : ArmaServer) where
  -- What a rollout waits for.
  pub record IsOpen (past : List (Event Reply)) : Type 0 where
    pub wanted : desired_running obj ≡ true
    pub pending : phase_of obj ≡ ArmaServerPhase.pending
    pub quiescent : IsQuiescent past
    pub synced : All (IsSeenSynced past) obj.spec.mod_source_ids

  -- A Deployment or a headless client is created only behind the gates.
  abbrev pub Gated : List (Event Reply) → Call → Type 0
  Gated past (Call.apply_deployment name deployment) = IsOpen past
  Gated past (Call.apply_headless_client name hc) = IsOpen past
  Gated past _ = Unit

-- What was seen stays seen.
IsQuiescent-cons :
    (e : Event Reply) (past : List (Event Reply)) → IsQuiescent past → IsQuiescent (e ∷ past)
IsQuiescent-cons e past (s, seen, idle, ready) = (s, Memᴰ.tail seen, idle, ready)

All-IsSeenSynced-cons :
    (e : Event Reply) (past : List (Event Reply)) (ids : List Text)
    → All (IsSeenSynced past) ids
    → All (IsSeenSynced (e ∷ past)) ids
All-IsSeenSynced-cons e past [] h = tt
All-IsSeenSynced-cons e past (id ∷ ids) ((source, seen, phase), h) =
    ((source, Memᴰ.tail seen, phase), All-IsSeenSynced-cons e past ids h)

is_synced-eq :
    (o : Option ModSourcePhase)
    → is_synced (unwrap_or o ModSourcePhase.pending) ≡ true
    → o ≡ some ModSourcePhase.synced
is_synced-eq o h = ground arith

module _ (obj : ArmaServer) where
  IsOpen-cons :
      (e : Event Reply) (past : List (Event Reply)) → IsOpen obj past → IsOpen obj (e ∷ past)
  IsOpen-cons e past o = record {
    wanted = o.wanted;
    pending = o.pending;
    quiescent = IsQuiescent-cons e past o.quiescent;
    synced = All-IsSeenSynced-cons e past obj.spec.mod_source_ids o.synced;
  }

  -- behind the gates every call is allowed
  IsOpen-Gated : (past : List (Event Reply)) (c : Call) → IsOpen obj past → Gated obj past c
  IsOpen-Gated past (Call.apply_deployment name deployment) o = o
  IsOpen-Gated past (Call.apply_headless_client name hc) o = o
  IsOpen-Gated past _ o = tt

module _ (Kept : List (Event Reply) → Type 0) (id : Text) where
  keeps_both :
      ((e : Event Reply) (past : List (Event Reply)) → Kept past → Kept (e ∷ past))
      → (e : Event Reply) (past : List (Event Reply)) → Kept past × IsSeenSynced past id
      → Kept (e ∷ past) × IsSeenSynced (e ∷ past) id
  keeps_both keeps e past (k, (source, seen, phase)) =
      (keeps e past k, (source, Memᴰ.tail seen, phase))

  regroup :
      (ids : List Text) (h : List (Event Reply)) (r : Result Text (Option Text))
      → IfOk (λ found. found ≡ none → (Kept h × IsSeenSynced h id) × All (IsSeenSynced h) ids) r
      → IfOk (λ found. found ≡ none → Kept h × All (IsSeenSynced h) (id ∷ ids)) r
  regroup ids h (err e) q = tt
  regroup ids h (ok found) q = λ e. ((q e).0.0, ((q e).0.1, (q e).1))

module _ (p : Platform) (cfg : Config) (obj : ArmaServer) where
  -- reading one source, under what later calls keep
  or_gone-Holds :
      (Kept : List (Event Reply) → Type 0) (id gone : Text) (reply : Result KubeError ModSource)
      (past : List (Event Reply))
      → Kept ((get_mod_source id, reply) ∷ past)
      → Holds
          (Gated obj)
          (λ h r. IfOk (λ source. Kept h × Logged (get_mod_source id) (ok source) h) r)
          ((get_mod_source id, reply) ∷ past)
          (or_gone gone reply)
  unfolding or_gone
  or_gone-Holds Kept id gone (ok source) past k = at_ok (k, Memᴰ.head refl)
  or_gone-Holds Kept id gone (err (not_found t)) past k = at_err tt
  or_gone-Holds Kept id gone (err (other t)) past k = at_err tt

  -- no source to wait for: each of them was seen synced
  abbrev AllSeen :
      (Kept : List (Event Reply) → Type 0)
      → List Text
      → List (Event Reply)
      → Result Text (Option Text)
      → Type 0
  AllSeen Kept ids h r = IfOk (λ found. found ≡ none → Kept h × All (IsSeenSynced h) ids) r

  After-source :
      (Kept : List (Event Reply) → Type 0) (id : Text) (ids : List Text)
      → ((past : List (Event Reply))
          → Kept past × IsSeenSynced past id
          → Holds
              (Gated obj)
              (AllSeen (λ h. Kept h × IsSeenSynced h id) ids)
              past
              (not_yet_synced_mod_source ids))
      → (h : List (Event Reply)) (r : Result Text ModSource)
      → IfOk (λ source. Kept h × Logged (get_mod_source id) (ok source) h) r
      → After
          (Gated obj)
          (AllSeen Kept (id ∷ ids))
          (λ source.
            if is_synced (unwrap_or source.phase ModSourcePhase.pending)
            then not_yet_synced_mod_source ids
            else pure (some id))
          h
          r
  After-source Kept id ids tail h (err e) q = tt
  After-source Kept id ids tail h (ok source) (k, seen) =
      elim (Bool-cases (is_synced (unwrap_or source.phase ModSourcePhase.pending))) [
        | inl synced ↦ rw synced (
            Holds-mono (regroup Kept id ids)
              (tail h (k, (source, seen, is_synced-eq source.phase synced))))
        | inr waiting ↦ rw waiting (at_ok (λ e. cc))
      ]

  -- the gate's loop
  sources-Holds :
      (Kept : List (Event Reply) → Type 0)
      → ((e : Event Reply) (past : List (Event Reply)) → Kept past → Kept (e ∷ past))
      → (ids : List Text) (past : List (Event Reply)) → Kept past
      → Holds (Gated obj) (AllSeen Kept ids) past (not_yet_synced_mod_source ids)
  unfolding not_yet_synced_mod_source
  sources-Holds Kept keeps [] past k = at_ok (λ _. (k, tt))
  sources-Holds Kept keeps (id ∷ ids) past k = at_call tt λ reply. Holds-bind (
      Holds-mono
        (After-source Kept id ids
          (sources-Holds (λ h. Kept h × IsSeenSynced h id) (keeps_both Kept id keeps) ids))
        (or_gone-Holds Kept id _ reply past (keeps _ past k)))

  -- behind the second gate
  after_sources :
      desired_running obj ≡ true
      → phase_of obj ≡ ArmaServerPhase.pending
      → (h : List (Event Reply)) (r : Result Text (Option Text))
      → AllSeen IsQuiescent obj.spec.mod_source_ids h r
      → Holds (Gated obj) (λ h r. Unit {0}) h (gate_sources p cfg obj r)
  unfolding gate_sources
  after_sources wanted pending h (err e) q = at_ok tt
  after_sources wanted pending h (ok (some id)) q = at_ok tt
  after_sources wanted pending h (ok none) q =
      Holds-mono (λ _ _ _. tt)
        (Holds-open (Gated obj) (IsOpen obj) (IsOpen-cons obj) (IsOpen-Gated obj)
          (roll_out p cfg obj) h
          (record {
            wanted = wanted;
            pending = pending;
            quiescent = (q refl).0;
            synced = (q refl).1;
          }))

  gate_sync-Holds :
      (reply : Result Text SyncStatus)
      → desired_running obj ≡ true
      → phase_of obj ≡ ArmaServerPhase.pending
      → Holds (Gated obj) (λ h r. Unit {0}) ((sync_status, reply) ∷ []) (gate_sync p cfg obj reply)
  unfolding gate_sync
  gate_sync-Holds (err e) wanted pending = at_ok tt
  gate_sync-Holds (ok s) wanted pending = elim (Bool-cases (s.syncing || not s.game_files_ready)) [
    | inl busy ↦ rw busy (at_ok tt)
    | inr idle ↦ rw idle (
        Holds-bind (
          Holds-attempt (
            Holds-mono (after_sources wanted pending) (
              sources-Holds IsQuiescent IsQuiescent-cons obj.spec.mod_source_ids _
                (s, Memᴰ.head refl, ground arith, ground arith)))))
  ]

-- the calls that create nothing
abbrev IsQuiet : Call → Type 0
IsQuiet (Call.apply_deployment name deployment) = ⊥
IsQuiet (Call.apply_headless_client name hc) = ⊥
IsQuiet _ = Unit

module _ (p : Platform) (cfg : Config) (obj : ArmaServer) where
  IsQuiet-Gated : (past : List (Event Reply)) (c : Call) → IsQuiet c → Gated obj past c
  IsQuiet-Gated past (Call.apply_deployment name deployment) q = absurd q
  IsQuiet-Gated past (Call.apply_headless_client name hc) q = absurd q
  IsQuiet-Gated past _ q = tt

  apply_phase-Holds :
      (phase : ArmaServerPhase) (wanted : Bool)
      → phase_of obj ≡ phase
      → desired_running obj ≡ wanted
      → Holds (Gated obj) (λ h r. Unit {0}) [] (apply_phase p cfg obj phase wanted)
  unfolding apply_phase
  apply_phase-Holds ArmaServerPhase.stopped true e w =
      Only-Holds (IsQuiet-Gated)
        (only_call tt λ _. Only-bind (set_status-Only _ _ tt) λ _. only_pure)
  apply_phase-Holds ArmaServerPhase.stopped false e w = at_ok tt
  apply_phase-Holds ArmaServerPhase.pending true e w =
      at_call tt λ reply. gate_sync-Holds p cfg obj reply w e
  apply_phase-Holds ArmaServerPhase.running true e w = at_ok tt
  apply_phase-Holds ArmaServerPhase.failed true e w =
      Only-Holds IsQuiet-Gated (Only-bind (set_status-Only _ _ tt) λ _. only_pure)
  apply_phase-Holds _ false e w = Only-Holds IsQuiet-Gated (stop-Only _ (λ _. tt) tt tt tt)

  -- Whatever the services reply, one pass over a server creates or replaces a Deployment or a
  -- headless client only if the server should be running and is `Pending`, sync-daemon has said
  -- in this pass that nothing is in flight and the base game is complete, and each of the
  -- server's mod sources was read in this pass and found `Synced`.
  pub apply-Gated : Holds (Gated obj) (λ h r. Unit {0}) [] (apply p cfg obj)
  unfolding apply
  apply-Gated = apply_phase-Holds (phase_of obj) (desired_running obj) refl refl
