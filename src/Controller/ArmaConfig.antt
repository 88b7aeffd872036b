-- ===== src/Controller/ArmaConfig.antt =====
-- services/controller/src/arma_config.rs: main.cfg and basic.cfg, from a baseline ConfigMap and a
-- server's own. Values.antt reads single values of the merged map, Render.antt prints the files,
-- Resolve.antt fetches and resolves, and Write.antt does what a pass does with the result.
pub mod Values
pub mod Render
pub mod Resolve
pub mod Write
pub mod Only
pub mod Quoting
pub mod Merging
