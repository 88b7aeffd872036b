-- ===== src/Registry.antt =====
-- services/registry: who may call what, what a preset is made of, missions and local mods.
pub mod Access
pub mod PresetExport
mod Tests
pub mod Calls
pub mod Missions
pub mod LocalMods
