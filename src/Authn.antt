-- ===== src/Authn.antt =====
-- crates/authn: who may call what.
-- Jwt.antt is src/jwt.rs and Authz.antt is src/authz.rs.
pub mod Jwt
pub mod Authz
pub mod Grantable
mod Tests
