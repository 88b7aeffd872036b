-- ===== src/SyncDaemon/Ownership.antt =====
-- Which collections are changed: services/sync-daemon/src/service.rs, `publish_collection_impl` and
-- `delete_collection_impl`.
use mathlib.Core.List.{Memᴰ}
use magpie.Prelude.{
  ℕ, ◌≡◌, refl, subst, Bool, true, false, Option, none, some, List, [], ◌∷◌, Text, Bool-cases, inl,
  inr, ◌⊎◌, ◌≢◌, ◌==◌,
}
use magpie.Prelude.Prog.{
  Result, ok, err, Event, Holds, at_ok, at_err, at_call, Holds-bind, Holds-mono, Logged, ◌>>=◌,
  IfOk, lift, Result-cases, request,
}
use magpie.SyncDaemon.Calls.{
  Call, Reply, CollectionDetails, Listing, Fallible, acquire, mark_bad, resolve_source_ids,
  get_collection_details, set_collection_children, update_collection, publish_collection,
  delete_collection,
}
use magpie.SyncDaemon.Connections.{with_conn-Holds}
use magpie.SyncDaemon.Service.{
  refill, PublishOutcome, with_account, account_steam_id, ensure_owned, replace_collection,
  create_collection, keep_or_delete, any_resolved, place, publish, delete_owned, resolve_candidates,
  mod_ids_of,
}

-- The account that the connection is logged in as published the collection, as Steam said in this
-- call.
abbrev pub IsOwned : ℕ → List (Event Reply) → Type 0
IsOwned id past =
    (steam_id : ℕ) × (details : CollectionDetails) × Logged acquire (ok (some steam_id)) past
    × Logged (get_collection_details id) (ok details) past
    × ((details.creator == steam_id) ≡ true)

-- It is owned, or was published in this call.
abbrev pub IsOurs : ℕ → List (Event Reply) → Type 0
IsOurs id past =
    IsOwned id past ⊎ ((listing : Listing) × Logged (publish_collection listing) (ok id) past)

-- No collection is changed or deleted but the account's own, none is set to have no members, and no
-- source is registered.
abbrev pub OfPublish : List (Event Reply) → Call → Type 0
OfPublish past (set_collection_children id ids) = IsOurs id past × (ids ≢ [])
OfPublish past (update_collection id listing) = IsOurs id past
OfPublish past (delete_collection id) = IsOurs id past
OfPublish past acquire = Unit
OfPublish past mark_bad = Unit
OfPublish past (resolve_source_ids ids) = Unit
OfPublish past (get_collection_details id) = Unit
OfPublish past (publish_collection listing) = Unit
OfPublish past _ = ⊥

IsOwned-cons :
    (id : ℕ) (e : Event Reply) (past : List (Event Reply)) → IsOwned id past → IsOwned id (e ∷ past)
IsOwned-cons id e past (steam_id, details, l, m, same) =
    (steam_id, details, Memᴰ.tail l, Memᴰ.tail m, same)

module _ (is_transient : Text → Bool) where
  module _ {A : Type 0} (Q : List (Event Reply) → Result Text A → Type 0)
      (stops : (h : List (Event Reply)) (e : Text) → Q h (err e)) where
    module _ (f : ℕ → Fallible A)
        (inner : (h : List (Event Reply)) (steam_id : ℕ)
          → Logged acquire (ok (some steam_id)) h
          → Holds OfPublish Q h (f steam_id)) where
      on_conn-Holds :
          (h : List (Event Reply)) (conn : Option ℕ)
          → Logged acquire (ok conn) h
          → Holds OfPublish Q h (lift (account_steam_id conn) >>= f)
      unfolding account_steam_id ◌>>=◌
      on_conn-Holds h none seen = at_err (stops h _)
      on_conn-Holds h (some steam_id) seen = inner h steam_id seen

      -- a call made on a connection that is logged in
      with_account-Holds : Holds OfPublish Q [] (with_account is_transient f)
      unfolding with_account
      with_account-Holds =
          with_conn-Holds is_transient OfPublish (λ h. tt) (λ h. tt) Q stops _ on_conn-Holds

  module _ (show_debug : Text → Text) where
    -- What a publishing ends with: an owned collection that was there, or one published by it.
    -- Either way it was filled with these mods.
    abbrev pub Published : Option ℕ → List ℕ → List (Event Reply) → ℕ × Bool → Type 0
    Published (some id) mod_ids past placed =
        (placed ≡ (id, false))
        × IsOwned id past
        × Logged (set_collection_children id mod_ids) (ok tt) past
    Published none mod_ids past placed =
        (listing : Listing) × (placed.1 ≡ true)
        × Logged (publish_collection listing) (ok (placed.0)) past
        × Logged (set_collection_children (placed.0) mod_ids) (ok tt) past

    ensured-Holds :
        {A : Type 0} (Q : List (Event Reply) → Result Text A → Type 0) (m : Fallible A)
        (details : CollectionDetails) (steam_id : ℕ) (h : List (Event Reply))
        → ((e : Text) → Q h (err e))
        → ((details.creator == steam_id) ≡ true → Holds OfPublish Q h m)
        → Holds OfPublish Q h
            (lift (ensure_owned is_transient show_debug details steam_id) >>= λ _. m)
    unfolding ensure_owned ◌>>=◌
    ensured-Holds Q m details steam_id h stops inner =
        elim (Bool-cases (details.creator == steam_id)) [
          | inl ours ↦ rw ours (inner ours)
          | inr others ↦ rw others (at_err (stops _))
        ]

    refill-Holds :
        (id : ℕ) (listing : Listing) (mod_ids : List ℕ) (h : List (Event Reply))
        → mod_ids ≢ []
        → IsOwned id h
        → Holds OfPublish
            (λ h r. IfOk (Published (some id) mod_ids h) r)
            h
            (refill is_transient show_debug id listing mod_ids)
    unfolding refill ◌>>=◌
    refill-Holds id listing mod_ids h filled owned =
        at_call {c = set_collection_children id mod_ids} (inl owned, filled)
          (elim [
            | err e ↦ at_err tt
            | ok u ↦
                let owned' = IsOwned-cons id (set_collection_children id mod_ids, ok u) h owned in
                at_call {c = update_collection id listing} (inl owned') (elim [
                  | err e ↦ at_err tt
                  | ok v ↦ at_ok (
                    refl,
                    IsOwned-cons id (update_collection id listing, ok v) _ owned',
                    Memᴰ.tail (Memᴰ.head refl),
                  )
                ])
          ])

    replace-Holds :
        (steam_id id : ℕ) (listing : Listing) (mod_ids : List ℕ) (h : List (Event Reply))
        → mod_ids ≢ []
        → Logged acquire (ok (some steam_id)) h
        → Holds OfPublish
            (λ h r. IfOk (Published (some id) mod_ids h) r)
            h
            (replace_collection is_transient show_debug steam_id id listing mod_ids)
    unfolding replace_collection ◌>>=◌
    replace-Holds steam_id id listing mod_ids h filled seen =
        at_call {c = get_collection_details id} tt (elim [
          | err e ↦ at_err tt
          | ok details ↦
              ensured-Holds _ _ details steam_id _ (λ e. tt)
                λ ours.
                  refill-Holds id listing mod_ids _ filled
                    (steam_id, details, Memᴰ.tail seen, Memᴰ.head refl, ours)
        ])

    created-Holds :
        (id : ℕ) (listing : Listing) (mod_ids : List ℕ) (filled : Result Text Unit)
        (h : List (Event Reply))
        → Logged (publish_collection listing) (ok id) h
        → Holds OfPublish
            (λ h r. IfOk (Published none mod_ids h) r)
            ((set_collection_children id mod_ids, filled) ∷ h)
            (keep_or_delete is_transient show_debug id filled)
    unfolding keep_or_delete ◌>>=◌
    created-Holds id listing mod_ids (ok u) h seen =
        at_ok (listing, refl, Memᴰ.tail seen, Memᴰ.head refl)
    created-Holds id listing mod_ids (err e) h seen =
        at_call {c = delete_collection id} (inr (listing, Memᴰ.tail seen)) λ _. at_err tt

    create-Holds :
        (listing : Listing) (mod_ids : List ℕ) (h : List (Event Reply))
        → mod_ids ≢ []
        → Holds OfPublish
            (λ h r. IfOk (Published none mod_ids h) r)
            h
            (create_collection is_transient show_debug listing mod_ids)
    unfolding create_collection ◌>>=◌
    create-Holds listing mod_ids h filled = at_call {c = publish_collection listing} tt (elim [
      | err e ↦ at_err tt
      | ok id ↦
          at_call {c = set_collection_children id mod_ids} (inr (listing, Memᴰ.head refl), filled)
            λ reply. created-Holds id listing mod_ids reply _ (Memᴰ.head refl)
    ])

    place-Holds :
        (steam_id : ℕ) (existing : Option ℕ) (listing : Listing) (mod_ids : List ℕ)
        (h : List (Event Reply))
        → mod_ids ≢ []
        → Logged acquire (ok (some steam_id)) h
        → Holds OfPublish
            (λ h r. IfOk (Published existing mod_ids h) r)
            h
            (place is_transient show_debug steam_id existing listing mod_ids)
    unfolding place
    place-Holds steam_id none listing mod_ids h filled seen = create-Holds listing mod_ids h filled
    place-Holds steam_id (some id) listing mod_ids h filled seen =
        replace-Holds steam_id id listing mod_ids h filled seen

    any_resolved_filled :
        (candidates ids mod_ids : List ℕ)
        → any_resolved is_transient show_debug candidates ids ≡ ok mod_ids
        → mod_ids ≢ []
    unfolding any_resolved
    any_resolved_filled candidates [] mod_ids is empty = absurd (cc)
    any_resolved_filled candidates (id ∷ ids) mod_ids is empty = absurd (cc)

    -- What a call of `publish` returns.
    -- It was filled with the mods of the outcome, and there is one.
    abbrev pub IsPublished : Option ℕ → List (Event Reply) → Result Text PublishOutcome → Type 0
    IsPublished existing h (ok outcome) =
        (mod_ids_of outcome.mods ≢ [])
        × Published existing (mod_ids_of outcome.mods) h (outcome.collection_id, outcome.created)
    IsPublished existing h (err e) = Unit

    any_resolved-same :
        (candidates ids mod_ids : List ℕ)
        → any_resolved is_transient show_debug candidates ids ≡ ok mod_ids
        → mod_ids ≡ ids
    unfolding any_resolved
    any_resolved-same candidates [] mod_ids is = absurd (cc)
    any_resolved-same candidates (id ∷ ids) mod_ids is = cc

    publish-OfPublish :
        (existing : Option ℕ) (listing : Listing) (candidate_ids : List ℕ)
        → Holds OfPublish
            (IsPublished existing)
            []
            (publish is_transient show_debug existing listing candidate_ids)
    unfolding publish resolve_candidates ◌>>=◌
    publish-OfPublish existing listing candidate_ids =
        with_account-Holds _ (λ h e. tt) _
          λ h steam_id seen. at_call {c = resolve_source_ids candidate_ids} tt (elim [
            | err e ↦ at_err tt
            | ok resolved ↦
                elim (Result-cases
                  (any_resolved is_transient show_debug candidate_ids (mod_ids_of resolved.mods))) [
                    | inr (e, nothing) ↦ rw nothing (at_err tt)
                    | inl (mod_ids, some_ids) ↦ rw some_ids (
                        Holds-bind (
                          Holds-mono
                            (λ h. elim [
                              | ok placed ↦ λ published. at_ok (
                                  let same =
                                    any_resolved-same candidate_ids (mod_ids_of resolved.mods)
                                      mod_ids some_ids in
                                  (
                                    subst (λ ids. ids ≢ []) same
                                        (any_resolved_filled candidate_ids
                                          (mod_ids_of resolved.mods) mod_ids some_ids),
                                    subst (λ ids. Published existing ids h placed) same published,
                                  ))
                              | err e ↦ λ _. tt
                            ])
                            (place-Holds steam_id existing listing mod_ids _
                              (any_resolved_filled candidate_ids (mod_ids_of resolved.mods) mod_ids
                                some_ids)
                              (Memᴰ.tail seen))))
                  ]
          ])

    deleted-Holds :
        (id : ℕ) (h : List (Event Reply))
        → IsOwned id h
        → Holds OfPublish
            (λ h r. IfOk (λ _. IsOwned id h) r)
            h
            (request (delete_collection id) >>= λ deleted. lift deleted)
    unfolding ◌>>=◌
    deleted-Holds id h owned = at_call {c = delete_collection id} (inl owned) (elim [
      | err e ↦ at_err tt
      | ok u ↦ at_ok (IsOwned-cons id (delete_collection id, ok u) h owned)
    ])

    -- Whatever Steam replies: publishing changes or deletes no collection but one that the account
    -- owns, as Steam said in this call, or one that this call published, and registers no source; if
    -- it succeeds, it returns the collection that was asked for, or a new one, which was filled with
    -- the mods of the outcome, at least one.
    -- And deleting deletes no collection but one that the account owns.
    pub publish-delete_owned :
        (existing : Option ℕ) (listing : Listing) (candidate_ids : List ℕ) (collection_id : ℕ)
        → Holds OfPublish
            (IsPublished existing)
            []
            (publish is_transient show_debug existing listing candidate_ids)
          × Holds OfPublish
              (λ h r. IfOk (λ _. IsOwned collection_id h) r)
              []
              (delete_owned is_transient show_debug collection_id)
    unfolding delete_owned ◌>>=◌
    publish-delete_owned existing listing candidate_ids collection_id = (
      publish-OfPublish existing listing candidate_ids,
      with_account-Holds _ (λ h e. tt) _
          λ h steam_id seen. at_call {c = get_collection_details collection_id} tt (elim [
            | err e ↦ at_err tt
            | ok details ↦
                ensured-Holds _ _ details steam_id _ (λ e. tt)
                  λ ours.
                    deleted-Holds collection_id _
                      (steam_id, details, Memᴰ.tail seen, Memᴰ.head refl, ours)
          ]),
    )
