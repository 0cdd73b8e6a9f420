-- ===== src/Wasm/Bits.antt =====
-- crates/core_types/src/bits_n_pieces.rs. A cast to a shorter integer is a remainder, and `|` of two
-- integers that share no bit is a sum.
use rust_holochain.Base.{ℕ, ◌+◌, ◌*◌, ◌/◌, ◌%◌, ◌<◌, ◌≡◌, arith}

abbrev pub u16_size : ℕ
u16_size = 65536

abbrev pub u32_size : ℕ
u32_size = 4294967296

abbrev pub u64_size : ℕ
u64_size = 18446744073709551616

unfoldable pub u32_high_bits : ℕ → ℕ
u32_high_bits i = i / u16_size % u16_size

unfoldable pub u32_low_bits : ℕ → ℕ
u32_low_bits i = i % u16_size

unfoldable pub u32_split_bits : ℕ → ℕ × ℕ
unfolding u32_high_bits u32_low_bits
u32_split_bits i = (u32_high_bits i, u32_low_bits i)

unfoldable pub u32_merge_bits : ℕ → ℕ → ℕ
u32_merge_bits high low = high * u16_size % u32_size + low

unfoldable pub u64_high_bits : ℕ → ℕ
u64_high_bits i = i / u32_size % u32_size

unfoldable pub u64_low_bits : ℕ → ℕ
u64_low_bits i = i % u32_size

unfoldable pub u64_split_bits : ℕ → ℕ × ℕ
unfolding u64_high_bits u64_low_bits
u64_split_bits i = (u64_high_bits i, u64_low_bits i)

unfoldable pub u64_merge_bits : ℕ → ℕ → ℕ
u64_merge_bits high low = high * u32_size % u64_size + low

pub u64_split-merge :
    (high low : ℕ)
    → high < u32_size
    → low < u32_size
    → (u64_high_bits (u64_merge_bits high low) ≡ high)
      × (u64_low_bits (u64_merge_bits high low) ≡ low)
      × (u64_merge_bits high low < u64_size)
unfolding u64_high_bits u64_low_bits u64_merge_bits
u64_split-merge high low h l = (omega (arith, h, l), omega (arith, h, l), omega (arith, h, l))

pub u64_merge-split : (i : ℕ) → i < u64_size → u64_merge_bits (u64_high_bits i) (u64_low_bits i) ≡ i
unfolding u64_high_bits u64_low_bits u64_merge_bits
u64_merge-split i h = omega (arith, h)

pub u32_split-merge :
    (high low : ℕ)
    → high < u16_size
    → low < u16_size
    → (u32_high_bits (u32_merge_bits high low) ≡ high)
      × (u32_low_bits (u32_merge_bits high low) ≡ low)
      × (u32_merge_bits high low < u32_size)
unfolding u32_high_bits u32_low_bits u32_merge_bits
u32_split-merge high low h l = (omega (arith, h, l), omega (arith, h, l), omega (arith, h, l))

pub u32_merge-split : (i : ℕ) → i < u32_size → u32_merge_bits (u32_high_bits i) (u32_low_bits i) ≡ i
unfolding u32_high_bits u32_low_bits u32_merge_bits
u32_merge-split i h = omega (arith, h)
