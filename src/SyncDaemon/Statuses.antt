-- ===== src/SyncDaemon/Statuses.antt =====
-- What a pass over a mod source writes: services/sync-daemon/src/reconcile.rs, `apply`.
use mathlib.Core.List.{Memᴰ}
use magpie.Prelude.{
  ℕ, ◌≡◌, refl, Bool, false, Option, none, some, List, [], ◌∷◌, Text, Bool-cases, inl, inr, ◌⊎◌,
  if◌then◌else◌,
}
use magpie.Prelude.Prog.{
  Result, ok, err, Event, Holds, at_ok, at_err, at_call, Holds-bind, Holds-mono, Holds-attempt,
  Logged, ◌>>=◌, IfOk, pure, request,
}
use magpie.Prelude.Only.{
  Only, only_pure, only_fail, only_call, Only-bind, Only-lift, Only-keeps, Only-then,
}
use magpie.Crd.{ModSourceInput, steam_url, html_url, html_content, local}
use magpie.SteamSync.Synced.{SyncedModRow}
use magpie.SyncDaemon.Calls.{
  Call, Reply, ResolvedMod, ModSourceStatus, Fallible, acquire, mark_bad, resolve_source_ids,
  upsert_source, set_source_mods, record_mod_title, list_synced_mods, fetch_html, patch_status,
  spawn_sync_content,
}
use magpie.SyncDaemon.Service.{
  RegisterSourceOutcome, register_source, record_titles, root_of, mod_ids_of, resolve_candidates,
}
use magpie.SyncDaemon.Contents.{IsContent, IsFailure, synced_status-IsContent}
use magpie.SyncDaemon.Connections.{with_conn-Holds}
use magpie.SyncDaemon.Reconcile.{
  ModSource, is_unchanged, synced_status, failed_status, set_status, was_already_synced, candidates,
  ids_behind, extract_candidate_ids, apply_input, report, resolve, apply,
}

module _ (obj : ModSource) where
  -- The mods of the source were replaced in this pass.
  abbrev pub IsRegistered : List ResolvedMod → List (Event Reply) → Type 0
  IsRegistered mods past = Logged (set_source_mods obj.name (mod_ids_of mods)) (ok tt) past

  -- What a status says: the mods that were registered, with their sizes as the cache listed them in
  -- this pass, or an error.
  abbrev pub IsReport : List (Event Reply) → ModSourceStatus → Type 0
  IsReport past status =
      ((mods : List ResolvedMod) × (rows : List SyncedModRow) × IsRegistered mods past
        × Logged list_synced_mods rows past
        × IsContent mods rows status)
      ⊎ IsFailure status

  -- The calls of a pass.
  abbrev pub OfPass : List (Event Reply) → Call → Type 0
  OfPass past (patch_status name status) =
      (name ≡ obj.name) × (is_unchanged obj.status status ≡ false) × IsReport past status
  OfPass past spawn_sync_content =
      (was_already_synced obj ≡ false) × ((mods : List ResolvedMod) × IsRegistered mods past)
  OfPass past (upsert_source name ids) = name ≡ obj.name
  OfPass past (set_source_mods name ids) = name ≡ obj.name
  OfPass past acquire = Unit
  OfPass past mark_bad = Unit
  OfPass past (resolve_source_ids ids) = Unit
  OfPass past (record_mod_title id title) = Unit
  OfPass past list_synced_mods = Unit
  OfPass past (fetch_html source) = Unit
  OfPass past _ = ⊥

  -- the calls that change nothing that matters
  abbrev IsQuiet : Call → Type 0
  IsQuiet (record_mod_title id title) = Unit
  IsQuiet (fetch_html source) = Unit
  IsQuiet _ = ⊥

  IsQuiet-OfPass : (past : List (Event Reply)) (c : Call) → IsQuiet c → OfPass past c
  IsQuiet-OfPass past (record_mod_title id title) q = tt
  IsQuiet-OfPass past (fetch_html source) q = tt
  IsQuiet-OfPass past _ q = absurd q

  record_titles-Only : (mods : List ResolvedMod) → Only IsQuiet (record_titles mods)
  unfolding record_titles ◌>>=◌
  record_titles-Only [] = only_pure
  record_titles-Only (m ∷ mods) = only_call tt λ _. record_titles-Only mods

  root_of-mods :
      (ids : List ℕ) (outcome : magpie.SyncDaemon.Calls.ResolveOutcome)
      → (root_of ids outcome).mods ≡ outcome.mods
  unfolding root_of
  root_of-mods [] outcome = refl
  root_of-mods (i ∷ []) outcome = refl
  root_of-mods (i ∷ j ∷ is) outcome = refl

  module _ (is_transient : Text → Bool) where
    resolving-Holds :
        (ids : List ℕ) (past : List (Event Reply))
        → Holds OfPass (λ h r. IfOk (λ _. Unit {0}) r) past (resolve_candidates is_transient ids)
    unfolding resolve_candidates ◌>>=◌
    resolving-Holds ids past =
        at_call {c = resolve_source_ids ids} tt (elim [ ok a ↦ at_ok tt | err e ↦ at_err tt ])

    register_source-Holds :
        (ids : List ℕ) (past : List (Event Reply))
        → Holds OfPass
            (λ h r. IfOk (λ outcome. IsRegistered outcome.mods h) r)
            past
            (register_source is_transient ids obj.name)
    unfolding register_source resolve_candidates ◌>>=◌
    register_source-Holds ids past = Holds-bind (
        Holds-mono
          (λ h. elim [
            | err e ↦ λ _. tt
            | ok outcome ↦ λ _. at_call {c = upsert_source obj.name ids} refl (elim [
              | err e ↦ at_err tt
              | ok u ↦ at_call {c = set_source_mods obj.name (mod_ids_of outcome.mods)} refl (elim [
                | err e ↦ at_err tt
                | ok v ↦ Holds-bind (
                    Holds-mono
                      (λ h. elim [
                        | err e ↦ λ _. tt
                        | ok w ↦ λ seen. at_ok (rw (root_of-mods ids outcome) seen)
                      ])
                      (Only-keeps IsQuiet-OfPass (IsRegistered outcome.mods)
                        (λ e h seen. Memᴰ.tail seen) (record_titles-Only outcome.mods)
                        (Memᴰ.head refl)))
              ])
            ])
          ])
          (with_conn-Holds is_transient OfPass (λ h. tt) (λ h. tt) (λ h r. IfOk (λ _. Unit {0}) r)
            (λ h e. tt) (λ conn. resolve_candidates is_transient ids)
            (λ h conn _. resolving-Holds ids h)))

  -- A pass leaves nothing to say of its end.
  abbrev Anything : {A : Type 0} → List (Event Reply) → Result Text A → Type 0
  Anything h r = Unit

  set_status-Holds :
      {A : Type 0} (status : ModSourceStatus) (past : List (Event Reply)) (next : Fallible A)
      (I : List (Event Reply) → Type 0)
      → ((e : Event Reply) (h : List (Event Reply)) → I h → I (e ∷ h))
      → I past
      → IsReport past status
      → ((h : List (Event Reply)) → I h → Holds OfPass Anything h next)
      → Holds OfPass Anything past (set_status obj status >>= λ _. next)
  unfolding set_status ◌>>=◌
  set_status-Holds status past next I keeps i report rest =
      elim (Bool-cases (is_unchanged obj.status status)) [
        | inl same ↦ rw same (rest past i)
        | inr differs ↦ rw differs (
            at_call {c = patch_status obj.name status} (refl, differs, report)
              (elim [ err e ↦ at_err tt | ok u ↦ rest _ (keeps _ _ i) ]))
      ]

  module _ (is_digit : ℕ → Bool) (is_transient : Text → Bool) (drift_requeue : ℕ) where
    -- behind the status
    spawn-Holds :
        {A : Type 0} (next : Fallible A) (mods : List ResolvedMod) (h : List (Event Reply))
        → IsRegistered mods h
        → ((h : List (Event Reply)) → Holds OfPass Anything h next)
        → Holds OfPass Anything h
            ((if was_already_synced obj then pure tt else request spawn_sync_content) >>= λ _. next)
    unfolding ◌>>=◌
    spawn-Holds next mods h seen rest = elim (Bool-cases (was_already_synced obj)) [
      | inl already ↦ rw already (rest h)
      | inr first ↦ rw first (at_call {c = spawn_sync_content} (first, (mods, seen)) λ _. rest _)
    ]

    report-Holds :
        (hint : Option Text) (result : Result Text RegisterSourceOutcome) (h : List (Event Reply))
        → IfOk (λ outcome. IsRegistered outcome.mods h) result
        → Holds OfPass Anything h (report is_digit is_transient drift_requeue obj hint result)
    unfolding report failed_status ◌>>=◌
    report-Holds hint (err e) h seen =
        set_status-Holds (failed_status e) h _ (λ h. Unit {0}) (λ _ _ _. tt) tt
          (inr (refl, refl, refl)) λ h _. at_ok tt
    report-Holds hint (ok outcome) h seen = at_call {c = list_synced_mods} tt λ rows.
        set_status-Holds (synced_status hint outcome rows) _ _ (IsRegistered outcome.mods)
          (λ e h l. Memᴰ.tail l) (Memᴰ.tail seen)
          (inl (
            outcome.mods,
            rows,
            Memᴰ.tail seen,
            Memᴰ.head refl,
            synced_status-IsContent hint outcome rows,
          ))
          λ h seen'. spawn-Holds _ outcome.mods h seen' λ h. at_ok tt

    ids_behind-Only :
        (url : Text) (found : Option ℕ)
        → Only IsQuiet (ids_behind is_digit is_transient drift_requeue url found)
    unfolding ids_behind ◌>>=◌
    ids_behind-Only url (some id) = only_pure
    ids_behind-Only url none = only_call tt λ reply. Only-bind (Only-lift reply) λ html. only_pure

    candidates-Only :
        (source : ModSourceInput)
        → Only IsQuiet (candidates is_digit is_transient drift_requeue source)
    unfolding candidates extract_candidate_ids
    candidates-Only (steam_url url) = Only-bind (Only-lift _) λ ids. only_pure
    candidates-Only (html_url url) = Only-bind (ids_behind-Only url _) λ ids. only_pure
    candidates-Only (html_content html) = Only-bind (Only-lift _) λ ids. only_pure
    candidates-Only (local unique_id) = only_fail

    resolve-OfPass : Holds OfPass Anything [] (resolve is_digit is_transient drift_requeue obj)
    unfolding resolve
    resolve-OfPass =
        Only-then IsQuiet-OfPass (candidates-Only obj.source)
          (λ h found. Holds-bind (
            Holds-attempt (
              Holds-mono
                (λ h. elim [
                  | ok outcome ↦ λ seen. report-Holds (found.1) (ok outcome) h seen
                  | err e ↦ λ _. report-Holds (found.1) (err e) h tt
                ])
                (register_source-Holds is_transient (found.0) h))))
          λ h e. tt

    apply_input-OfPass :
        (source : ModSourceInput)
        → Holds OfPass Anything [] (apply_input is_digit is_transient drift_requeue obj source)
    unfolding apply_input
    apply_input-OfPass (local unique_id) = at_ok tt
    apply_input-OfPass (steam_url url) = resolve-OfPass
    apply_input-OfPass (html_url url) = resolve-OfPass
    apply_input-OfPass (html_content html) = resolve-OfPass

    -- Whatever Steam, the cache and the API server reply, a pass over a mod source writes no status
    -- but its own object's, and none that equals the one that is there; a status is that of the
    -- mods that were stored for the source in this pass, their ids in ascending order, with the sum of
    -- the sizes that the cache listed in this pass (in 64 bits), or it is a failure; a sync of content is started only for a source that was not synced before, and only
    -- once its mods are stored; and no other source's rows are touched, nor any collection.
    pub apply-OfPass : Holds OfPass Anything [] (apply is_digit is_transient drift_requeue obj)
    unfolding apply
    apply-OfPass = apply_input-OfPass obj.source
