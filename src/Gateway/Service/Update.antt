-- ===== src/Gateway/Service/Update.antt =====
-- What an update may write: services/gateway/src/service.rs, `update_server`.
use mathlib.Core.List.{Memᴰ}
use magpie.Prelude.{
  ◌≡◌, refl, Bool, true, false, Option, none, some, List, [], ◌∷◌, ◌++◌, Text, All, codes,
  if◌then◌else◌,
}
use magpie.Prelude.Prog.{
  ◌>>=◌, request, IfOk, ok, err, pure, Event, Holds, at_ok, at_err, at_call, Holds-bind, Holds-mono,
  Logged,
}
use magpie.Prelude.Only.{Only, only_pure, only_call, Only-bind, Only-lift, Only-keeps, Only-Holds}
use magpie.Crd.{ArmaServerPhase, ModSource}
use magpie.Gateway.Metadata.{metadata_to_annotations}
use magpie.Gateway.Calls.{Call, Reply, get_mod_source}
use magpie.Gateway.Service.{or_internal, fetch_server, to_info, resync_and_repending}
use magpie.Gateway.Service.Only.{or_internal-Only, or_not_found-Only, resync-Only}
use magpie.Gateway.Service.Handlers.{
  empty_patch, UpdateServerRequest, check_sources, select_sources, select_metadata, patch_server,
  update_server, selects,
}

-- The mod source was read in this call.
abbrev pub IsThere : List (Event Reply) → Text → Type 0
IsThere past id = (source : ModSource) × Logged (get_mod_source id) (ok source) past

-- the sources of a selection, if there is one
abbrev pub AllThere : Option (List Text) → List (Event Reply) → Type 0
AllThere none past = Unit
AllThere (some ids) past = All (IsThere past) ids

-- The calls of an update.
abbrev pub OfUpdate : UpdateServerRequest → List (Event Reply) → Call → Type 0
OfUpdate r past (Call.merge_server name patch) =
    (name ≡ r.id)
    × (patch.mod_source_ids ≡ r.mod_sources)
    × (patch.desired_state ≡ none)
    × AllThere r.mod_sources past
OfUpdate r past (Call.patch_phase name phase) = (name ≡ r.id) × (phase ≡ ArmaServerPhase.pending)
OfUpdate r past (Call.apply_server name obj) = ⊥
OfUpdate r past (Call.delete_server name) = ⊥
OfUpdate r past _ = Unit

abbrev IsQuiet : UpdateServerRequest → Call → Type 0
IsQuiet r (Call.merge_server name patch) = ⊥
IsQuiet r (Call.patch_phase name phase) = (name ≡ r.id) × (phase ≡ ArmaServerPhase.pending)
IsQuiet r (Call.apply_server name obj) = ⊥
IsQuiet r (Call.delete_server name) = ⊥
IsQuiet r _ = Unit

All-IsThere-cons :
    (e : Event Reply) (past : List (Event Reply)) (ids : List Text)
    → All (IsThere past) ids
    → All (IsThere (e ∷ past)) ids
All-IsThere-cons e past [] a = tt
All-IsThere-cons e past (id ∷ ids) ((source, seen), a) =
    ((source, Memᴰ.tail seen), All-IsThere-cons e past ids a)

AllThere-cons :
    (o : Option (List Text)) (e : Event Reply) (past : List (Event Reply))
    → AllThere o past
    → AllThere o (e ∷ past)
AllThere-cons none e past a = tt
AllThere-cons (some ids) e past a = All-IsThere-cons e past ids a

module _ (r : UpdateServerRequest) where
  IsQuiet-OfUpdate : (past : List (Event Reply)) (c : Call) → IsQuiet r c → OfUpdate r past c
  IsQuiet-OfUpdate past (Call.merge_server name patch) q = absurd q
  IsQuiet-OfUpdate past (Call.patch_phase name phase) q = q
  IsQuiet-OfUpdate past (Call.apply_server name obj) q = absurd q
  IsQuiet-OfUpdate past (Call.delete_server name) q = absurd q
  IsQuiet-OfUpdate past _ q = tt

  -- the loop ends well only if every source is there
  check_sources-IsThere :
      (Kept : List (Event Reply) → Type 0)
      → ((e : Event Reply) (past : List (Event Reply)) → Kept past → Kept (e ∷ past))
      → (ids : List Text) (past : List (Event Reply)) → Kept past
      → Holds
          (OfUpdate r)
          (λ h res. IfOk (λ _. Kept h × All (IsThere h) ids) res)
          past
          (check_sources ids)
  unfolding check_sources ◌>>=◌
  check_sources-IsThere Kept keeps [] past k = at_ok (k, tt)
  check_sources-IsThere Kept keeps (id ∷ ids) past k = at_call tt (elim [
    | err e ↦ at_err tt
    | ok source ↦
        Holds-mono (λ h. elim [ ok _ ↦ λ ((k', there), a). (k', (there, a)) | err e ↦ λ _. tt ])
          (check_sources-IsThere (λ h. Kept h × IsThere h id)
            (λ e past (k', (source', seen)). (keeps e past k', (source', Memᴰ.tail seen))) ids _
            (keeps _ past k, (source, Memᴰ.head refl)))
  ])

  select_sources-AllThere :
      (o : Option (List Text))
      → Holds
          (OfUpdate r)
          (λ h res. IfOk (λ ids. (ids ≡ o) × AllThere o h) res)
          []
          (select_sources o)
  unfolding select_sources
  select_sources-AllThere none = at_ok (refl, tt)
  select_sources-AllThere (some ids) = Holds-bind (
      Holds-mono (λ h. elim [ ok _ ↦ λ (_, a). at_ok (refl, a) | err e ↦ λ _. tt ])
        (check_sources-IsThere (λ _. Unit {0}) (λ _ _ _. tt) ids [] tt))

module _ (show_debug : Text → Text) (r : UpdateServerRequest) where
  select_metadata-Only :
      (o : Option (List (Text × Text))) → Only (IsQuiet r) (select_metadata show_debug r.id o)
  unfolding select_metadata fetch_server
  select_metadata-Only none = only_pure
  select_metadata-Only (some entries) =
      Only-bind (Only-lift (metadata_to_annotations show_debug entries))
        λ wanted. Only-bind (only_call tt λ reply. or_not_found-Only _ reply) λ existing. only_pure

  -- the patch, once the sources were found
  patch-Holds :
      (ids : Option (List Text)) (past : List (Event Reply))
      → ids ≡ r.mod_sources
      → AllThere r.mod_sources past
      → Holds
          (OfUpdate r)
          (λ h res. Unit {0})
          past
          (select_metadata show_debug r.id r.metadata >>= λ annotations.
            request (
              Call.merge_server r.id
                (record empty_patch { mod_source_ids = ids; annotations = annotations }))
            >>= λ reply.
                or_internal (codes "failed to update " ++ (r.id ++ codes ": ")) reply >>= λ _.
                pure tt)
  unfolding ◌>>=◌
  patch-Holds ids past same there = Holds-bind (
      Holds-mono
        (λ h. elim [
          | ok annotations ↦ λ there'.
              at_call
                {c = Call.merge_server r.id
                  (record empty_patch { mod_source_ids = ids; annotations = annotations })}
                (refl, same, refl, there')
                (λ reply.
                  Only-Holds (IsQuiet-OfUpdate r)
                    (Only-bind (or_internal-Only _ reply) λ _. only_pure))
          | err e ↦ λ _. tt
        ])
        (Only-keeps (IsQuiet-OfUpdate r) (AllThere r.mod_sources) (AllThere-cons r.mod_sources)
          (select_metadata-Only r.metadata) there))

  patch_server-Holds : Holds (OfUpdate r) (λ h res. Unit {0}) [] (patch_server show_debug r)
  unfolding patch_server
  patch_server-Holds = Holds-bind (
      Holds-mono
        (λ h. elim [ ok ids ↦ λ (same, there). patch-Holds ids h same there | err e ↦ λ _. tt ])
        (select_sources-AllThere r r.mod_sources))

  chosen-Holds :
      (b : Bool)
      → Holds (OfUpdate r) (λ h res. Unit {0}) [] (if b then patch_server show_debug r else pure tt)
  chosen-Holds true = patch_server-Holds
  chosen-Holds false = at_ok tt

  -- Whatever the services reply, `update_server` creates, stops, starts and deletes nothing: it
  -- patches its own server only, with the mod sources that were selected, and only after each of
  -- them was read in this call; and the one phase that it sets is its own server's, to `Pending`.
  pub update_server-OfUpdate :
      Holds (OfUpdate r) (λ h res. Unit {0}) [] (update_server show_debug r)
  unfolding update_server
  update_server-OfUpdate =
      Holds-bind {f = λ _. resync_and_repending r.id >>= λ obj. pure (to_info obj)} (
        Holds-mono
          (λ h. elim [
            | ok _ ↦ λ _.
                Only-Holds (IsQuiet-OfUpdate r) (
                  Only-bind (resync-Only (λ _. tt) (λ _. tt) r.id tt (refl, refl)) λ obj. only_pure)
            | err e ↦ λ _. tt
          ])
          (chosen-Holds (selects show_debug r)))
