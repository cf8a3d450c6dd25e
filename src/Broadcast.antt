-- ===== src/Broadcast.antt =====
-- Package broadcast: events, and who is on a channel (broadcast/).
pub mod Hub
pub mod Presence
