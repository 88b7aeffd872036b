-- ===== src/Controller/HeadlessClients/Ownership.antt =====
-- Which headless clients a pass may delete: services/controller/src/reconcile.rs.
use mathlib.Core.List.{Memᴰ}
use magpie.Prelude.{
  ℕ, ◌≤◌, ◌≡◌, refl, Bool-cases, inl, inr, List, [], ◌∷◌, map, Text, arith, text_eq, text_eq_iff,
  keep, leb, All,
}
use magpie.Prelude.Prog.{
  ◌>>=◌, IfOk, Prog, request, ok, err, Event, Holds, at_ok, at_err, at_call, Holds-bind, Holds-mono,
  Logged,
}
use magpie.Prelude.Only.{Only-Holds, Only-keeps}
use magpie.Crd.{ArmaServer, HeadlessClient}
use magpie.Controller.Calls.{Call, Reply, list_headless_clients, delete_headless_client}
use magpie.Controller.HeadlessClients.{
  ignore_404, clients_of, delete_excess, create_missing, ensure_headless_clients, delete_each,
  delete_all_headless_clients,
}
use magpie.Controller.HeadlessClients.Only.{ignore_404-Only, create_missing-Only}

-- The API server listed the client, as one of the server `name`.
abbrev pub IsListed : Text → List (Event Reply) → HeadlessClient → Type 0
IsListed name past hc =
    (all : List HeadlessClient) × Logged list_headless_clients (ok all) past
    × Memᴰ hc all
    × (hc.spec.server ≡ name)

-- Each deletion is of a client that was listed as one of the server `name` and satisfies `Chosen`.
abbrev pub Owned : Text → (HeadlessClient → Type 0) → List (Event Reply) → Call → Type 0
Owned name Chosen past (Call.delete_headless_client n) =
    (hc : HeadlessClient) × IsListed name past hc × Chosen hc × (n ≡ hc.name)
Owned name Chosen past _ = Unit

abbrev pub DeletesNone : Call → Type 0
DeletesNone (Call.delete_headless_client n) = ⊥
DeletesNone _ = Unit

All-IsListed-cons :
    (name : Text) (e : Event Reply) (past : List (Event Reply)) (hcs : List HeadlessClient)
    → All (IsListed name past) hcs
    → All (IsListed name (e ∷ past)) hcs
All-IsListed-cons name e past [] h = tt
All-IsListed-cons name e past (hc ∷ hcs) ((all, seen, mem, owner), h) =
    ((all, Memᴰ.tail seen, mem, owner), All-IsListed-cons name e past hcs h)

-- what passes the filter is listed
keep-IsListed :
    (name : Text) (past : List (Event Reply)) (all : List HeadlessClient)
    → Logged list_headless_clients (ok all) past
    → (hcs : List HeadlessClient) → ((hc : HeadlessClient) → Memᴰ hc hcs → Memᴰ hc all)
    → All (IsListed name past) (keep (λ hc. text_eq hc.spec.server name) hcs)
keep-IsListed name past all seen [] within = tt
keep-IsListed name past all seen (hc ∷ hcs) within =
    elim (Bool-cases (text_eq hc.spec.server name)) [
      | inl same ↦
          rw (same, keep, All)
            (
              (all, seen, within hc (Memᴰ.head refl), (text_eq_iff hc.spec.server name).0 same),
              keep-IsListed name past all seen hcs (λ x m. within x (Memᴰ.tail m)),
            )
      | inr differs ↦
          rw (differs, keep, All)
            (keep-IsListed name past all seen hcs (λ x m. within x (Memᴰ.tail m)))
    ]

module _ (name : Text) (Chosen : HeadlessClient → Type 0) where
  pub DeletesNone-Owned :
      (past : List (Event Reply)) (c : Call) → DeletesNone c → Owned name Chosen past c
  DeletesNone-Owned past (Call.delete_headless_client n) q = absurd q
  DeletesNone-Owned past _ q = tt

  clients_of-Owned :
      (past : List (Event Reply))
      → Holds (Owned name Chosen) (λ h r. IfOk (All (IsListed name h)) r) past (clients_of name)
  unfolding clients_of ◌>>=◌
  clients_of-Owned past = at_call tt (elim [
    | ok all ↦ at_ok (keep-IsListed name _ all (Memᴰ.head refl) all (λ _ m. m))
    | err e ↦ at_err tt
  ])

  -- one deletion, and what comes behind it
  delete-Owned :
      (hc : HeadlessClient) (rest : List HeadlessClient) (past : List (Event Reply))
      (later : Prog Reply Text (Unit {0}))
      → All (IsListed name past) (hc ∷ rest)
      → Chosen hc
      → ((h : List (Event Reply))
          → All (IsListed name h) rest
          → Holds (Owned name Chosen) (λ h r. Unit {0}) h later)
      → Holds
          (Owned name Chosen)
          (λ h r. Unit {0})
          past
          (request (delete_headless_client hc.name) >>= λ reply. ignore_404 reply >>= λ _. later)
  unfolding ◌>>=◌
  delete-Owned hc rest past later listed chosen next =
      at_call (hc, listed.0, chosen, refl)
        λ reply. Holds-bind (
          Holds-mono (λ h. elim [ ok _ ↦ λ l. next h l | err e ↦ λ _. tt ])
            (Only-keeps DeletesNone-Owned (λ h. All (IsListed name h) rest)
              (λ e past l. All-IsListed-cons name e past rest l) (ignore_404-Only reply)
              (All-IsListed-cons name _ past rest listed.1)))

  delete_each-Owned :
      ((hc : HeadlessClient) → Chosen hc)
      → (hcs : List HeadlessClient) (past : List (Event Reply)) → All (IsListed name past) hcs
      → Holds (Owned name Chosen) (λ h r. Unit {0}) past (delete_each hcs)
  unfolding delete_each
  delete_each-Owned any [] past listed = at_ok tt
  delete_each-Owned any (hc ∷ rest) past listed =
      delete-Owned hc rest past (delete_each rest) listed (any hc) (delete_each-Owned any rest)

  -- `delete_all_headless_clients` deletes only what it found listed for this server.
  pub delete_all-Owned :
      ((hc : HeadlessClient) → Chosen hc)
      → (past : List (Event Reply))
      → Holds (Owned name Chosen) (λ h r. Unit {0}) past (delete_all_headless_clients name)
  unfolding delete_all_headless_clients
  delete_all-Owned any past = Holds-bind (
      Holds-mono (λ h. elim [ ok hcs ↦ λ l. delete_each-Owned any hcs h l | err e ↦ λ _. tt ])
        (clients_of-Owned past))

  module _ (desired : ℕ)
      (excess : (hc : HeadlessClient) → desired ≤ hc.spec.index → Chosen hc) where
    delete_excess-Owned :
        (hcs : List HeadlessClient) (past : List (Event Reply))
        → All (IsListed name past) hcs
        → Holds (Owned name Chosen) (λ h r. Unit {0}) past (delete_excess desired hcs)
    unfolding delete_excess
    delete_excess-Owned [] past listed = at_ok tt
    delete_excess-Owned (hc ∷ rest) past listed = elim (Bool-cases (leb desired hc.spec.index)) [
      | inl above ↦ rw above (
          delete-Owned hc rest past (delete_excess desired rest) listed (excess hc (ground arith))
            (delete_excess-Owned rest))
      | inr below ↦ rw below (delete_excess-Owned rest past listed.1)
    ]

module _ (obj : ArmaServer) (Chosen : HeadlessClient → Type 0)
    (excess : (hc : HeadlessClient) → obj.spec.headless_clients ≤ hc.spec.index → Chosen hc) where
  -- behind the list of the server's clients
  after_list-Owned :
      (hcs : List HeadlessClient) (past : List (Event Reply))
      → All (IsListed obj.name past) hcs
      → Holds
          (Owned obj.name Chosen)
          (λ h r. Unit {0})
          past
          (delete_excess obj.spec.headless_clients hcs >>= λ _.
            create_missing obj.name (map (λ hc. hc.spec.index) hcs) 0 obj.spec.headless_clients)
  after_list-Owned hcs past listed = Holds-bind (
      Holds-mono
        (λ h. elim [
          | ok _ ↦ λ _.
              Only-Holds (DeletesNone-Owned obj.name Chosen)
                (create_missing-Only _ _ 0 obj.spec.headless_clients (λ _. tt))
          | err e ↦ λ _. tt
        ])
        (delete_excess-Owned obj.name Chosen obj.spec.headless_clients excess hcs past listed))

  -- `ensure_headless_clients` deletes only clients of this server from the wanted number on.
  pub ensure-Owned :
      (past : List (Event Reply))
      → Holds (Owned obj.name Chosen) (λ h r. Unit {0}) past (ensure_headless_clients obj)
  unfolding ensure_headless_clients
  ensure-Owned past = Holds-bind (
      Holds-mono (λ h. elim [ ok hcs ↦ λ l. after_list-Owned hcs h l | err e ↦ λ _. tt ])
        (clients_of-Owned obj.name Chosen past))
