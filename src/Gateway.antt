-- ===== src/Gateway.antt =====
-- services/gateway: the API that operators call.
pub mod Access
pub mod Names
pub mod Metadata
pub mod Entries
pub mod Replacing
pub mod Calls
pub mod Service
mod Tests
