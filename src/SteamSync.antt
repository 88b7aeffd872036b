-- ===== src/SteamSync.antt =====
-- crates/steam-sync: the content cache on the shared volume, src/cache.rs.
-- Keys.antt is the file of depot keys, Synced.antt the table of what is synced, Sources.antt the
-- mods that each source wants, and Locks.antt the locks between processes. The tables are Turso's;
-- a function is what its statements do when they succeed.
pub mod Keys
pub mod Synced
pub mod Sources
pub mod Locks
mod Tests
