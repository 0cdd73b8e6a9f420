-- ===== src/Wasm/Encoding/RoundTrip.antt =====
-- Which values of crates/core_types/src/error/ribosome_error.rs survive their encoding.
use rust_holochain.Base.{ℕ, ◌*◌, ◌/◌, ◌%◌, ◌<◌, ◌≡◌, refl, ap, ◌∙◌, true, false, some, arith}
use rust_holochain.Wasm.Bits.{u32_size, u64_size, u64_high_bits, u64_low_bits}
use rust_holochain.Wasm.Encoding.{
  RibosomeErrorCode, unspecified, argument_deserialization_failed, out_of_memory,
  received_wrong_action_result, callback_failed, recursive_call_forbidden,
  response_serialization_failed, not_an_allocation, zero_sized_allocation, unknown_entry_type,
  mismatch_wasm_call_data_type, entry_not_found, workflow_failed, RibosomeEncodedValue, success,
  allocation, failure, code_int, from_code_int, failure_of, encoding_bits, encoded_value,
}

-- What becomes of a code that is sent: one code is taken for another.
abbrev pub received_code : RibosomeErrorCode → RibosomeErrorCode
received_code mismatch_wasm_call_data_type = unspecified
received_code code = code

abbrev pub received : RibosomeEncodedValue → RibosomeEncodedValue
received (failure code) = failure (received_code code)
received v = v

-- An allocation is 64 bits with a length that is not zero.
abbrev pub IsEncodable : RibosomeEncodedValue → Type 0
IsEncodable (allocation bits) = (bits < u64_size) × (u64_low_bits bits ≡ 0 → false ≡ true)
IsEncodable _ = Unit

code_round_trip :
    (code : RibosomeErrorCode) → from_code_int (code_int code) ≡ some (received_code code)
unfolding from_code_int code_int
code_round_trip unspecified = refl
code_round_trip argument_deserialization_failed = refl
code_round_trip out_of_memory = refl
code_round_trip received_wrong_action_result = refl
code_round_trip callback_failed = refl
code_round_trip recursive_call_forbidden = refl
code_round_trip response_serialization_failed = refl
code_round_trip not_an_allocation = refl
code_round_trip zero_sized_allocation = refl
code_round_trip unknown_entry_type = refl
code_round_trip mismatch_wasm_call_data_type = refl
code_round_trip entry_not_found = refl
code_round_trip workflow_failed = refl

code_range : (code : RibosomeErrorCode) → (0 < code_int code) × (code_int code < 14)
unfolding code_int
code_range code = (ground arith, ground arith)

encoded_code :
    (c : ℕ) → 0 < c → c < 14 → encoded_value (c * u32_size) ≡ failure_of (from_code_int c)
unfolding encoded_value u64_low_bits u64_high_bits
encoded_code c low high =
    let zero_low : c * u32_size % u32_size ≡ 0 = omega arith in
    let is_high : c * u32_size / u32_size % u32_size ≡ c = omega arith in
    rw is_high (ground (arith, zero_low))

pub encoded_allocation :
    (bits : ℕ)
    → (u64_low_bits bits ≡ 0 → false ≡ true)
    → encoded_value bits ≡ some (allocation bits)
unfolding encoded_value u64_low_bits
encoded_allocation bits long = ground arith

-- Every success, every allocation with a length, and every failure comes back from its 64-bit
-- encoding as it was, without a panic, except that `MismatchWasmCallDataType` comes back as
-- `Unspecified`.
pub encoded_value-encoding_bits :
    (v : RibosomeEncodedValue) → IsEncodable v → encoded_value (encoding_bits v) ≡ some (received v)
unfolding encoded_value encoding_bits
encoded_value-encoding_bits success h = refl
encoded_value-encoding_bits (allocation bits) (small, long) = encoded_allocation bits long
encoded_value-encoding_bits (failure code) h =
    let (low, high) = code_range code in
    encoded_code (code_int code) low high ∙ ap failure_of (code_round_trip code)
