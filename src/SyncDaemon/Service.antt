-- ===== src/SyncDaemon/Service.antt =====
-- services/sync-daemon/src/service.rs: sources are registered, collections published and deleted.
-- Which errors are transient, and how a text is shown for debugging, are parameters.
use magpie.Prelude.{
  ℕ, Bool, true, false, Option, none, some, List, [], ◌∷◌, ◌++◌, Text, codes, decimal, length,
  unwrap_or, ◌==◌, if◌then◌else◌, map,
}
use magpie.Prelude.Prog.{Result, ok, err, pure, fail, ◌>>=◌, ◌>>◌, lift, request, attempt}
use magpie.SyncDaemon.Calls.{
  ResolvedMod, ResolveOutcome, CollectionDetails, Listing, Fallible, acquire, mark_bad,
  resolve_source_ids, get_collection_details, set_collection_children, update_collection,
  publish_collection, delete_collection, upsert_source, set_source_mods, candidate_ids_for_source,
  record_mod_title,
}

pub record RegisterSourceOutcome : Type 0 where
  pub mods : List ResolvedMod
  pub root_title : Text
  pub root_is_collection : Option Bool

pub record PublishOutcome : Type 0 where
  pub collection_id : ℕ
  pub created : Bool
  pub mods : List ResolvedMod
  pub unresolved : List ℕ

pub record CollectionView : Type 0 where
  pub details : CollectionDetails
  pub owned : Bool
  pub resolved : ResolveOutcome

unfoldable pub mod_ids_of : List ResolvedMod → List ℕ
mod_ids_of mods = map (λ m. m.mod_id) mods

unfoldable pub record_titles : List ResolvedMod → Fallible Unit
unfolding ◌>>=◌
record_titles [] = pure tt
record_titles (m ∷ mods) = request (record_mod_title m.mod_id m.title) >> record_titles mods

-- what is said of the root, which is there only if one candidate is
unfoldable pub root_of : List ℕ → ResolveOutcome → RegisterSourceOutcome
root_of (single ∷ []) outcome = record {
  mods = outcome.mods;
  root_title = unwrap_or (outcome.candidate_titles single) [];
  root_is_collection = outcome.candidate_is_collection single;
}
root_of _ outcome = record { mods = outcome.mods; root_title = []; root_is_collection = none }

unfoldable pub account_steam_id : Option ℕ → Result Text ℕ
account_steam_id (some steam_id) = ok steam_id
account_steam_id none = err (
    codes "this needs an authenticated Steam session, but the connection is anonymous -- "
    ++ codes
        "re-run the Steam login (magpiectl admin refresh-steam-auth, or Cluster in the web UI)")

module _ (is_transient : Text → Bool) where
  -- a failure that is transient marks the connection
  unfoldable pub note_failure : {A : Type 0} → Result Text A → Fallible Unit
  note_failure (ok a) = pure tt
  note_failure (err e) = if is_transient e then request mark_bad else pure tt

  unfoldable pub with_conn : {A : Type 0} → (Option ℕ → Fallible A) → Fallible A
  unfolding ◌>>=◌ attempt note_failure
  with_conn f = do
    acquired ← request acquire
    conn ← lift acquired
    result ← attempt (f conn)
    note_failure result
    lift result

  unfoldable pub with_account : {A : Type 0} → (ℕ → Fallible A) → Fallible A
  unfolding ◌>>=◌ with_conn account_steam_id
  with_account f = with_conn (λ conn. lift (account_steam_id conn) >>= f)

  unfoldable pub resolve_candidates : List ℕ → Fallible ResolveOutcome
  unfolding ◌>>=◌
  resolve_candidates candidate_ids = request (resolve_source_ids candidate_ids) >>= lift

  unfoldable pub register_source : List ℕ → Text → Fallible RegisterSourceOutcome
  unfolding ◌>>=◌ with_conn resolve_candidates mod_ids_of record_titles root_of
  register_source candidate_ids source_id = do
    outcome ← with_conn (λ conn. resolve_candidates candidate_ids)
    upserted ← request (upsert_source source_id candidate_ids)
    lift upserted
    replaced ← request (set_source_mods source_id (mod_ids_of outcome.mods))
    lift replaced
    record_titles outcome.mods
    pure (root_of candidate_ids outcome)

  unfoldable pub known_candidates : Text → Option (List ℕ) → Result Text (List ℕ)
  known_candidates source_id none = err (codes "unknown source: " ++ source_id)
  known_candidates source_id (some ids) = ok ids

  unfoldable pub refresh_source : Text → Fallible RegisterSourceOutcome
  unfolding ◌>>=◌ register_source known_candidates
  refresh_source source_id = do
    found ← request (candidate_ids_for_source source_id)
    ids ← lift found
    candidate_ids ← lift (known_candidates source_id ids)
    register_source candidate_ids source_id

  unfoldable pub resolve_items : List ℕ → Fallible ResolveOutcome
  unfolding with_conn resolve_candidates
  resolve_items candidate_ids = with_conn (λ conn. resolve_candidates candidate_ids)

  unfoldable pub get_collection : ℕ → Fallible CollectionView
  unfolding ◌>>=◌ with_account resolve_candidates
  get_collection collection_id = with_account (λ steam_id. do
    found ← request (get_collection_details collection_id)
    details ← lift found
    resolved ← resolve_candidates details.children
    pure (record { details = details; owned = details.creator == steam_id; resolved = resolved }))

  module _ (show_debug : Text → Text) where
    unfoldable pub ensure_owned : CollectionDetails → ℕ → Result Text Unit
    ensure_owned details steam_id =
        if details.creator == steam_id
        then ok tt
        else err (
            codes "collection "
            ++ decimal details.id
            ++ codes " ("
            ++ show_debug details.title
            ++ codes ") was published by another Steam account, not the cluster's -- "
            ++ codes "it can be copied into a new collection, but not changed")

    -- behind the check of the owner
    unfoldable pub refill : ℕ → Listing → List ℕ → Fallible (ℕ × Bool)
    unfolding ◌>>=◌
    refill id listing mod_ids = do
      filled ← request (set_collection_children id mod_ids)
      lift filled
      updated ← request (update_collection id listing)
      lift updated
      pure (id, false)

    unfoldable pub replace_collection : ℕ → ℕ → Listing → List ℕ → Fallible (ℕ × Bool)
    unfolding ◌>>=◌ ensure_owned refill
    replace_collection steam_id id listing mod_ids = do
      found ← request (get_collection_details id)
      details ← lift found
      lift (ensure_owned details steam_id)
      refill id listing mod_ids

    -- behind the filling of a new collection
    unfoldable pub keep_or_delete : ℕ → Result Text Unit → Fallible (ℕ × Bool)
    unfolding ◌>>=◌
    keep_or_delete id (ok u) = pure (id, true)
    keep_or_delete id (err e) = request (delete_collection id) >>= λ deleted. fail e

    unfoldable pub create_collection : Listing → List ℕ → Fallible (ℕ × Bool)
    unfolding ◌>>=◌ keep_or_delete
    create_collection listing mod_ids = do
      published ← request (publish_collection listing)
      id ← lift published
      filled ← request (set_collection_children id mod_ids)
      keep_or_delete id filled

    unfoldable pub place : ℕ → Option ℕ → Listing → List ℕ → Fallible (ℕ × Bool)
    unfolding replace_collection create_collection
    place steam_id none listing mod_ids = create_collection listing mod_ids
    place steam_id (some id) listing mod_ids = replace_collection steam_id id listing mod_ids

    unfoldable pub any_resolved : List ℕ → List ℕ → Result Text (List ℕ)
    any_resolved candidate_ids [] = err (
        codes "none of the "
        ++ decimal (length candidate_ids)
        ++ codes " requested ids resolved to a mod -- nothing to put in a collection")
    any_resolved candidate_ids (id ∷ ids) = ok (id ∷ ids)

    unfoldable pub publish : Option ℕ → Listing → List ℕ → Fallible PublishOutcome
    unfolding ◌>>=◌ with_account resolve_candidates mod_ids_of any_resolved place
    publish existing listing candidate_ids = with_account (λ steam_id. do
      resolved ← resolve_candidates candidate_ids
      mod_ids ← lift (any_resolved candidate_ids (mod_ids_of resolved.mods))
      placed ← place steam_id existing listing mod_ids
      pure (record {
        collection_id = placed.0;
        created = placed.1;
        mods = resolved.mods;
        unresolved = resolved.unresolved;
      }))

    unfoldable pub delete_owned : ℕ → Fallible Unit
    unfolding ◌>>=◌ with_account ensure_owned
    delete_owned collection_id = with_account (λ steam_id. do
      found ← request (get_collection_details collection_id)
      details ← lift found
      lift (ensure_owned details steam_id)
      deleted ← request (delete_collection collection_id)
      lift deleted)
