-- ===== src/Net.antt =====
-- The crate crates/net.
pub mod AspectMap
mod Tests
