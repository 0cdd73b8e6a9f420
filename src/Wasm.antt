-- ===== src/Wasm.antt =====
-- What a zome and the conductor pass through WASM memory: crates/core_types/src/bits_n_pieces.rs,
-- crates/core_types/src/error/ribosome_error.rs and crates/wasm_utils/src/memory.
pub mod Bits
pub mod Encoding
pub mod Memory
mod Tests
