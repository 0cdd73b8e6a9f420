-- ===== src/Sim2h.antt =====
-- The switchboard server `crates/sim2h`: who is connected, who should hold which data, and what
-- has to be gossiped.
pub mod Sharding
pub mod Space
pub mod Store
pub mod Server
mod Tests
