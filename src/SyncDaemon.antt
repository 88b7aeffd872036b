-- ===== src/SyncDaemon.antt =====
-- services/sync-daemon: mod sources and Workshop collections.
-- Service.antt is the registering of sources and the publishing of collections in src/service.rs,
-- Reconcile.antt is src/reconcile.rs, and Calls.antt names what they ask of Steam, of the content
-- cache and of the Kubernetes API.
pub mod Calls
pub mod Service
pub mod Reconcile
pub mod Connections
pub mod Contents
pub mod Ownership
pub mod Statuses
mod Tests
