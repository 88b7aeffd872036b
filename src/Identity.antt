-- ===== src/Identity.antt =====
-- services/identity: the login service.
-- Providers.antt is src/oauth.rs and src/steam.rs, Flow.antt is src/state.rs, Tokens.antt is
-- src/tokens.rs with the refresh tokens of crates/registry-db/src/lib.rs, and Handlers.antt is
-- src/handlers.rs. Calls.antt names what they ask of Postgres, the providers, the clock, the random
-- number generator and the map of exchange codes.
pub mod Calls
pub mod Providers
pub mod Flow
pub mod Tokens
pub mod Handlers
pub mod Login
pub mod Callback
pub mod Once
pub mod Redirects
pub mod Rotation
pub mod Exchange
mod Tests
