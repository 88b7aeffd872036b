-- ===== src/Controller/HeadlessClients/Only.antt =====
-- What the functions on headless clients call.
use magpie.Prelude.{ℕ, zero, suc, ◌+◌, List, [], ◌∷◌, Text}
use magpie.Prelude.Prog.{Result, ok, err}
use magpie.Prelude.Only.{Only, only_pure, only_fail, only_call, Only-bind, Only-lift, Only-if}
use magpie.Crd.{ArmaServer, HeadlessClient}
use magpie.Controller.Calls.{
  Call, KubeError, not_found, other, list_headless_clients, delete_headless_client,
  apply_headless_client,
}
use magpie.Controller.HeadlessClients.{
  ignore_404, clients_of, delete_excess, hc_name, new_client, create_missing,
  ensure_headless_clients, delete_each, delete_all_headless_clients,
}

module _ {P : Call → Type 0} where
  pub ignore_404-Only : (r : Result KubeError (Unit {0})) → Only P (ignore_404 r)
  ignore_404-Only (ok _) = only_pure
  ignore_404-Only (err (not_found t)) = only_pure
  ignore_404-Only (err (other t)) = only_fail

  clients_of-Only : (name : Text) → P list_headless_clients → Only P (clients_of name)
  unfolding clients_of
  clients_of-Only name p = only_call p λ r. Only-bind (Only-lift _) (λ _. only_pure)

  pub create_missing-Only :
      (name : Text) (indices : List ℕ) (index count : ℕ)
      → ((i : ℕ) → P (apply_headless_client (hc_name name i) (new_client name i)))
      → Only P (create_missing name indices index count)
  unfolding create_missing
  create_missing-Only name indices index zero creates = only_pure
  create_missing-Only name indices index (suc count) creates =
      Only-if _ (create_missing-Only name indices (index + 1) count creates) (
        only_call (creates index) λ r.
          Only-bind (Only-lift _) (λ _. create_missing-Only name indices (index + 1) count creates))

  module _ (deletes : (n : Text) → P (delete_headless_client n)) where
    delete_each-Only : (hcs : List HeadlessClient) → Only P (delete_each hcs)
    unfolding delete_each
    delete_each-Only [] = only_pure
    delete_each-Only (hc ∷ rest) =
        only_call (deletes hc.name) λ r. Only-bind (ignore_404-Only r) (λ _. delete_each-Only rest)

    pub delete_all-Only :
        (name : Text) → P list_headless_clients → Only P (delete_all_headless_clients name)
    unfolding delete_all_headless_clients
    delete_all-Only name p = Only-bind (clients_of-Only name p) delete_each-Only

    delete_excess-Only :
        (desired : ℕ) (hcs : List HeadlessClient) → Only P (delete_excess desired hcs)
    unfolding delete_excess
    delete_excess-Only desired [] = only_pure
    delete_excess-Only desired (hc ∷ rest) =
        Only-if _
          (only_call (deletes hc.name)
            λ r. Only-bind (ignore_404-Only r) (λ _. delete_excess-Only desired rest))
          (delete_excess-Only desired rest)

    pub ensure-Only :
        (obj : ArmaServer)
        → P list_headless_clients
        → ((i : ℕ) → P (apply_headless_client (hc_name obj.name i) (new_client obj.name i)))
        → Only P (ensure_headless_clients obj)
    unfolding ensure_headless_clients
    ensure-Only obj p creates = Only-bind (clients_of-Only obj.name p) λ existing.
        Only-bind (delete_excess-Only obj.spec.headless_clients existing)
          λ _. create_missing-Only obj.name _ 0 obj.spec.headless_clients creates
