-- ===== src/Wasm/Encoding.antt =====
-- crates/core_types/src/error/ribosome_error.rs: how a result of a zome function is put into one
-- 64-bit integer. `none` is a panic.
pub mod RoundTrip
use rust_holochain.Base.{ℕ, ◌+◌, ◌*◌, ◌≡◌, refl, Option, none, some, ◌==◌, if◌then◌else◌}
use rust_holochain.Wasm.Bits.{u32_size, u64_high_bits, u64_low_bits}

pub data RibosomeErrorCode : Type 0 where
  unspecified argument_deserialization_failed out_of_memory received_wrong_action_result
        callback_failed recursive_call_forbidden response_serialization_failed not_an_allocation
        zero_sized_allocation unknown_entry_type mismatch_wasm_call_data_type entry_not_found
        workflow_failed :
      RibosomeErrorCode

-- The allocation is kept as its bits.
pub data RibosomeEncodedValue : Type 0 where
  success : RibosomeEncodedValue
  allocation : (bits : ℕ) → RibosomeEncodedValue
  failure : RibosomeErrorCode → RibosomeEncodedValue

-- The discriminant of the enum, in its high bits.
unfoldable pub code_int : RibosomeErrorCode → ℕ
code_int unspecified = 1
code_int argument_deserialization_failed = 2
code_int out_of_memory = 3
code_int received_wrong_action_result = 4
code_int callback_failed = 5
code_int recursive_call_forbidden = 6
code_int response_serialization_failed = 7
code_int not_an_allocation = 8
code_int zero_sized_allocation = 9
code_int unknown_entry_type = 10
code_int mismatch_wasm_call_data_type = 11
code_int entry_not_found = 12
code_int workflow_failed = 13

unfoldable pub from_code_int : ℕ → Option RibosomeErrorCode
from_code_int code =
    if code == 0
    then none
    else if code == 2
    then some argument_deserialization_failed
    else if code == 3
    then some out_of_memory
    else if code == 4
    then some received_wrong_action_result
    else if code == 5
    then some callback_failed
    else if code == 6
    then some recursive_call_forbidden
    else if code == 7
    then some response_serialization_failed
    else if code == 8
    then some not_an_allocation
    else if code == 9
    then some zero_sized_allocation
    else if code == 10
    then some unknown_entry_type
    else if code == 12
    then some entry_not_found
    else if code == 13
    then some workflow_failed
    else some unspecified

unfoldable pub encoding_bits : RibosomeEncodedValue → ℕ
unfolding code_int
encoding_bits success = 0
encoding_bits (allocation bits) = bits
encoding_bits (failure code) = code_int code * u32_size

abbrev pub failure_of : Option RibosomeErrorCode → Option RibosomeEncodedValue
failure_of none = none
failure_of (some code) = some (failure code)

unfoldable pub encoded_value : ℕ → Option RibosomeEncodedValue
encoded_value i =
    if i == 0
    then some success
    else if u64_low_bits i == 0
    then failure_of (from_code_int (u64_high_bits i))
    else some (allocation i)
