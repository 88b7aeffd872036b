-- ===== src/Controller.antt =====
-- services/controller: the reconciler of servers and headless clients.
pub mod Config
pub mod Deployment
pub mod Calls
pub mod ArmaConfig
pub mod Pods
pub mod Environment
pub mod HeadlessClients
pub mod Reconcile
mod Tests
