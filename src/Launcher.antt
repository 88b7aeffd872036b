-- ===== src/Launcher.antt =====
-- services/launcher: what starts the game process in a Pod.
-- Config.antt is src/config.rs, Missions.antt, Ports.antt and Launch.antt are src/launch.rs, and
-- Calls.antt names what they ask of the system.
pub mod Calls
pub mod Config
pub mod Missions
pub mod Ports
pub mod Launch
pub mod Starting
mod Tests
