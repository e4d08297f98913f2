-- ===== src/Downstream.antt =====
-- The downstream side: pacing, heartbeats and the replay of the file over multicast.
pub mod Pacer
pub mod Feed
pub mod Heartbeat
pub mod Setup
pub mod Session
