-- ===== src/Gateway/Service/Only.antt =====
-- What the helpers of the handlers call.
use magpie.Prelude.{List, [], ◌∷◌, Text}
use magpie.Prelude.Prog.{Result, ok, err}
use magpie.Prelude.Only.{Only, only_pure, only_fail, only_call, Only-bind}
use magpie.Crd.{ArmaServerPhase, ModSource, ModSourceInput, local}
use magpie.Gateway.Calls.{Call, get_server, get_mod_source, refresh_source, patch_phase}
use magpie.Gateway.Service.{
  or_internal, or_not_found, fetch_server, refresh_input, refresh_found, refresh_sources,
  resync_and_repending,
}

module _ {P : Call → Type 0} where
  pub or_internal-Only :
      {A : Type 0} (context : Text) (reply : Result Text A) → Only P (or_internal context reply)
  unfolding or_internal
  or_internal-Only context (ok a) = only_pure
  or_internal-Only context (err e) = only_fail

  pub or_not_found-Only :
      {A : Type 0} (context : Text) (reply : Result Text A) → Only P (or_not_found context reply)
  unfolding or_not_found
  or_not_found-Only context (ok a) = only_pure
  or_not_found-Only context (err e) = only_fail

  module _ (reads : (id : Text) → P (get_mod_source id))
      (refreshes : (id : Text) → P (refresh_source id)) where
    refresh_input-Only :
        (source_id : Text) (input : ModSourceInput) → Only P (refresh_input source_id input)
    unfolding refresh_input
    refresh_input-Only source_id (local unique_id) = only_pure
    refresh_input-Only source_id _ =
        only_call (refreshes source_id) λ reply. or_internal-Only [] reply

    refresh_found-Only :
        (source_id : Text) (found : Result Text ModSource) → Only P (refresh_found source_id found)
    unfolding refresh_found
    refresh_found-Only source_id (err e) = only_pure
    refresh_found-Only source_id (ok source) = refresh_input-Only _ _

    pub refresh_sources-Only : (ids : List Text) → Only P (refresh_sources ids)
    unfolding refresh_sources
    refresh_sources-Only [] = only_pure
    refresh_sources-Only (source_id ∷ ids) =
        only_call (reads source_id)
          λ found. Only-bind (refresh_found-Only source_id found) λ _. refresh_sources-Only ids

    pub resync-Only :
        (id : Text)
        → P (get_server id)
        → P (patch_phase id ArmaServerPhase.pending)
        → Only P (resync_and_repending id)
    unfolding resync_and_repending fetch_server
    resync-Only id gets patches =
        Only-bind (only_call gets λ reply. or_not_found-Only _ reply) λ obj.
          Only-bind (refresh_sources-Only obj.spec.mod_source_ids)
            λ _. only_call patches λ reply. or_internal-Only _ reply
