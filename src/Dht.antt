-- ===== src/Dht.antt =====
-- The state of a node's DHT shard, crates/core/src/dht.
pub mod Pending
pub mod Store
pub mod Persistence
pub mod Inner
pub mod Reducers
mod Tests
