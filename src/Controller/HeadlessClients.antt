-- ===== src/Controller/HeadlessClients.antt =====
-- services/controller/src/reconcile.rs: the HeadlessClient objects of a server.
pub mod Only
pub mod Ownership
use magpie.Prelude.{
  ℕ, zero, suc, ◌+◌, List, [], ◌∷◌, ◌++◌, map, Text, codes, text_eq, decimal, keep, any, leb, ◌==◌,
  if◌then◌else◌,
}
use magpie.Prelude.Prog.{Result, ok, err, pure, fail, ◌>>=◌, ◌>>◌, request, lift}
use magpie.Crd.{ArmaServer, HeadlessClient}
use magpie.Controller.Calls.{
  M, KubeError, not_found, other, list_headless_clients, delete_headless_client,
  apply_headless_client,
}
use magpie.Controller.ArmaConfig.Resolve.{kube}

-- `Ok(_) => {}`, `Err(404) => {}`, `Err(e) => return Err(e)`
abbrev pub ignore_404 : Result KubeError (Unit {0}) → M (Unit {0})
ignore_404 (ok _) = pure tt
ignore_404 (err (not_found text)) = pure tt
ignore_404 (err (other text)) = fail text

-- `list_headless_clients`: those of the server named
unfoldable pub clients_of : Text → M (List HeadlessClient)
unfolding ◌>>=◌
clients_of name = do
  all ← request list_headless_clients
  all ← lift (kube all)
  pure (keep (λ hc. text_eq hc.spec.server name) all)

-- the first loop of `ensure_headless_clients`
unfoldable pub delete_excess : ℕ → List HeadlessClient → M (Unit {0})
unfolding ◌>>=◌
delete_excess desired [] = pure tt
delete_excess desired (hc ∷ rest) =
    let later = delete_excess desired rest in
    if leb desired hc.spec.index
    then (do reply ← request (delete_headless_client hc.name); ignore_404 reply; later)
    else later

unfoldable pub hc_name : Text → ℕ → Text
hc_name name index = name ++ (codes "-hc-" ++ decimal index)

unfoldable pub new_client : Text → ℕ → HeadlessClient
unfolding hc_name
new_client name index = record {
  name = hc_name name index;
  spec = record { server = name; index = index };
}

-- the second loop, over `count` indices from `index` on
unfoldable pub create_missing : Text → List ℕ → ℕ → ℕ → M (Unit {0})
unfolding ◌>>=◌ hc_name new_client
create_missing name existing_indices index zero = pure tt
create_missing name existing_indices index (suc count) =
    let later = create_missing name existing_indices (index + 1) count in
    if any (λ i. i == index) existing_indices then later else (do
      reply ← request (apply_headless_client (hc_name name index) (new_client name index))
      lift (kube reply)
      later)

unfoldable pub ensure_headless_clients : ArmaServer → M (Unit {0})
unfolding ◌>>=◌ clients_of delete_excess create_missing
ensure_headless_clients obj = do
  existing ← clients_of obj.name
  delete_excess obj.spec.headless_clients existing
  create_missing obj.name (map (λ hc. hc.spec.index) existing) 0 obj.spec.headless_clients

delete_each : List HeadlessClient → M (Unit {0})
unfolding ◌>>=◌
delete_each [] = pure tt
delete_each (hc ∷ rest) = do
  reply ← request (delete_headless_client hc.name)
  ignore_404 reply
  delete_each rest

unfoldable pub delete_all_headless_clients : Text → M (Unit {0})
unfolding ◌>>=◌ clients_of delete_each
delete_all_headless_clients name = do existing ← clients_of name; delete_each existing
