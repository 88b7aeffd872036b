-- ===== src/Gateway/Service/Start.antt =====
-- The ports of a server that is started: services/gateway/src/service.rs, `start_server`.
use mathlib.Core.List.{Memᴰ}
use magpie.Prelude.{◌≡◌, refl, some, List, [], ◌∷◌, ◌++◌, codes, Text}
use magpie.Prelude.Prog.{
  ◌>>=◌, Result, ok, err, pure, Event, Holds, at_ok, at_err, at_call, Holds-bind, Holds-mono,
  Logged,
}
use magpie.Prelude.Only.{only_call, Only-keeps, Only-Holds}
use magpie.Crd.{ArmaServer, ArmaServerPhase, DesiredState}
use magpie.Gateway.Calls.{Call, Reply, MergePatch, get_server}
use magpie.Gateway.Service.{
  to_info, check_port_conflict, or_internal, or_not_found, fetch_server, resync_and_repending,
}
use magpie.Gateway.Service.Handlers.{empty_patch, set_desired_state, start_server}
use magpie.Gateway.Service.Ports.{IsFree, check_port_conflict-IsFree}
use magpie.Gateway.Service.Only.{or_internal-Only, or_not_found-Only, refresh_sources-Only}

module _ (id : Text) where
  -- The patch that starts a server.
  abbrev pub start_patch : MergePatch
  start_patch = record empty_patch { desired_state = some DesiredState.running }

  -- The calls of a start: it patches the server only if the servers were listed and the ports of
  -- the server, as it was read, are clear of every other one.
  abbrev pub OfStart : List (Event Reply) → Call → Type 0
  OfStart past (Call.merge_server name patch) =
      (name ≡ id)
      × (patch ≡ start_patch)
      × ((existing : ArmaServer) × Logged (get_server id) (ok existing) past
          × IsFree existing.spec.port (some id) past)
  OfStart past (Call.patch_phase name phase) =
      (name ≡ id)
      × (phase ≡ ArmaServerPhase.pending)
      × ((patched : ArmaServer) × Logged (Call.merge_server id start_patch) (ok patched) past)
  OfStart past (Call.apply_server name obj) = ⊥
  OfStart past (Call.delete_server name) = ⊥
  OfStart past _ = Unit

  abbrev IsStarted : List (Event Reply) → Type 0
  IsStarted past =
      (patched : ArmaServer) × Logged (Call.merge_server id start_patch) (ok patched) past

  -- the calls that change no server
  abbrev IsQuiet : Call → Type 0
  IsQuiet (Call.merge_server name patch) = ⊥
  IsQuiet (Call.patch_phase name phase) = ⊥
  IsQuiet (Call.apply_server name obj) = ⊥
  IsQuiet (Call.delete_server name) = ⊥
  IsQuiet _ = Unit

  IsQuiet-OfStart : (past : List (Event Reply)) (c : Call) → IsQuiet c → OfStart past c
  IsQuiet-OfStart past (Call.merge_server name patch) q = absurd q
  IsQuiet-OfStart past (Call.patch_phase name phase) q = absurd q
  IsQuiet-OfStart past (Call.apply_server name obj) q = absurd q
  IsQuiet-OfStart past (Call.delete_server name) q = absurd q
  IsQuiet-OfStart past _ q = tt

  IsStarted-cons :
      (e : Event Reply) (past : List (Event Reply)) → IsStarted past → IsStarted (e ∷ past)
  IsStarted-cons e past (patched, seen) = (patched, Memᴰ.tail seen)

  resync-Holds :
      (past : List (Event Reply))
      → IsStarted past
      → Holds OfStart (λ h r. Unit {0}) past (resync_and_repending id)
  unfolding resync_and_repending fetch_server
  resync-Holds past i = Holds-bind (
      Holds-mono
        (λ h. elim [
          | ok obj ↦ λ i. Holds-bind (
              Holds-mono
                (λ h'. elim [
                  | ok _ ↦ λ i.
                      at_call {c = Call.patch_phase id ArmaServerPhase.pending} (refl, refl, i)
                        λ reply. Only-Holds IsQuiet-OfStart (or_internal-Only _ reply)
                  | err e ↦ λ _. tt
                ])
                (Only-keeps IsQuiet-OfStart IsStarted IsStarted-cons
                  (refresh_sources-Only (λ _. tt) (λ _. tt) obj.spec.mod_source_ids) i))
          | err e ↦ λ _. tt
        ])
        (Only-keeps IsQuiet-OfStart IsStarted IsStarted-cons
          (only_call tt λ reply. or_not_found-Only _ reply) i))

  -- behind the patch
  patched-Holds :
      (reply : Result Text ArmaServer) (past : List (Event Reply))
      → Holds OfStart
          (λ h r. Unit {0})
          ((Call.merge_server id start_patch, reply) ∷ past)
          (or_internal (codes "failed to set desired_state: ") reply >>= λ _.
            resync_and_repending id >>= λ obj. pure (to_info obj))
  unfolding or_internal ◌>>=◌
  patched-Holds (err e) past = at_err tt
  patched-Holds (ok patched) past = Holds-bind (
      Holds-mono (λ h. elim [ ok obj ↦ λ _. at_ok tt | err e ↦ λ _. tt ])
        (resync-Holds _ (patched, Memᴰ.head refl)))

  -- behind the server's own reading
  found-Holds :
      (reply : Result Text ArmaServer)
      → Holds OfStart
          (λ h r. Unit {0})
          ((get_server id, reply) ∷ [])
          (or_not_found (codes "no such server: " ++ id) reply >>= λ existing.
            check_port_conflict existing.spec.port (some id) >>= λ _.
            set_desired_state id DesiredState.running >>= λ _.
            resync_and_repending id >>= λ obj. pure (to_info obj))
  unfolding or_not_found ◌>>=◌ set_desired_state
  found-Holds (err e) = at_err tt
  found-Holds (ok existing) = Holds-bind (
      Holds-mono
        (λ h. elim [
          | ok _ ↦ λ (free, (reply, seen)).
              at_call {c = Call.merge_server id start_patch}
                (refl, refl, (existing, rw seen (Memᴰ.tail (Memᴰ.head refl)), free))
                (λ reply'. patched-Holds reply' h)
          | err e ↦ λ _. tt
        ])
        (check_port_conflict-IsFree existing.spec.port (some id) OfStart _ tt))

  -- Whatever the services reply, `start_server` asks for nothing but that its server should run,
  -- and sets no phase but `Pending`, and that only after it was patched; and it patches only if
  -- the server was read, the servers were listed, and no other running one has a port in common
  -- with it.
  pub start_server-OfStart : Holds OfStart (λ h r. Unit {0}) [] (start_server id)
  unfolding start_server fetch_server
  start_server-OfStart = at_call tt found-Holds
