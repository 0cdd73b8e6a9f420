-- ===== src/Wasm/Tests.antt =====
-- Tests of the WASM memory, and its theorems at concrete inputs.
use rust_holochain.Base.{
  ℕ, ◌≡◌, refl, Bool, none, some, List, [], ◌∷◌, arith, all, ltb, if◌then◌else◌,
}
use rust_holochain.Wasm.Encoding.{
  failure, out_of_memory, mismatch_wasm_call_data_type, unspecified, encoding_bits, encoded_value,
  code_int,
}
use rust_holochain.Wasm.Encoding.RoundTrip.{encoded_value-encoding_bits}
use rust_holochain.Wasm.Memory.{
  WasmAllocation, WasmStack, Bytes, ok, stack_try_from, as_ribosome_encoding,
  try_from_ribosome_encoding, write_bytes, write_string, c_str, read_to_string, out_of_fuel,
  utf8_text, panicked,
}
use rust_holochain.Wasm.Memory.Stack.{
  Scopes, finished, scope, run, run_restores, try_from-as_ribosome_encoding,
}
use rust_holochain.Wasm.Memory.Strings.{read_to_string-write_string}

code_out_of_memory : encoding_bits (failure out_of_memory) ≡ 12884901888
unfolding encoding_bits code_int
code_out_of_memory = refl

encoded_value-encoding_bits_example :
    encoded_value (encoding_bits (failure mismatch_wasm_call_data_type))
    ≡ some (failure unspecified)
encoded_value-encoding_bits_example =
    encoded_value-encoding_bits (failure mismatch_wasm_call_data_type) tt

-- Two strings side by side inside of a third.
abbrev strings : Scopes
strings = scope 100 (scope 5 finished (scope 3 finished finished)) (scope 7 finished finished)

run_restores_example : run strings (record { top = 16 }) ≡ ok (record { top = 16 })
run_restores_example =
    run_restores strings (record { top = 16 })
      (
        omega arith,
        omega arith,
        (
          omega arith,
          omega arith,
          omega arith,
          (omega arith, omega arith, omega arith, omega arith),
        ),
        (omega arith, omega arith, omega arith, omega arith),
      )

abbrev an_allocation : WasmAllocation
an_allocation = record { offset = 16; len = 5 }

try_from-as_ribosome_encoding_example :
    (try_from_ribosome_encoding (as_ribosome_encoding an_allocation) ≡ some (ok an_allocation))
    × (stack_try_from an_allocation ≡ ok (record { top = 21 }))
try_from-as_ribosome_encoding_example =
    try_from-as_ribosome_encoding an_allocation
      (record { in_bounds = omega arith; not_empty = omega arith })

-- An old string of five bytes is in the memory.
abbrev is_ascii : List ℕ → Bool
is_ascii = all (λ b. ltb b 128)

abbrev used : Bytes
used = write_bytes 16 (104 ∷ 101 ∷ 108 ∷ 108 ∷ 111 ∷ []) (λ _. 0)

read_to_string-write_string_example :
    (a : WasmAllocation) × (s' : WasmStack) × (m' : Bytes) × (write_string
        (97 ∷ 98 ∷ [])
        (record { top = 16 })
        used
      ≡ (ok a, (s', m')))
    × (read_to_string is_ascii 12 m' a ≡ elim (c_str 10 used 18) [
      | none ↦ out_of_fuel
      | some more ↦ if is_ascii (97 ∷ 98 ∷ more) then utf8_text (97 ∷ 98 ∷ more) else panicked
    ])
read_to_string-write_string_example =
    read_to_string-write_string is_ascii (97 ∷ 98 ∷ []) (record { top = 16 }) used 10
      (refl, (refl, tt)) (omega arith)

rest_of_used : c_str 10 used 18 ≡ some (108 ∷ 108 ∷ 111 ∷ [])
unfolding c_str write_bytes
rest_of_used = refl
