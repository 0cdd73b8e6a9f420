-- ===== src/Wasm/Memory.antt =====
-- crates/wasm_utils/src/memory: allocations (allocation.rs), the stack that hands them out
-- (stack.rs), their encoding (ribosome.rs), and the strings in them (write.rs, read.rs).
-- `Offset`, `Length` and `Top` are u32 integers.
pub mod Stack
pub mod Strings
use rust_holochain.Base.{
  ℕ, zero, suc, ◌+◌, ◌%◌, ◌≡◌, refl, Bool, true, false, Option, none, some, List, [], ◌∷◌, not, ltb,
  ◌==◌, if◌then◌else◌, length,
}
use rust_holochain.Wasm.Bits.{u32_size, u64_high_bits, u64_low_bits, u64_merge_bits}
use rust_holochain.Wasm.Encoding.{
  RibosomeErrorCode, out_of_memory, zero_sized_allocation, not_an_allocation, RibosomeEncodedValue,
  success, allocation, failure, encoding_bits, encoded_value,
}

abbrev pub memory_int_max : ℕ
memory_int_max = 4294967295

pub data AllocationError : Type 0 where
  out_of_bounds zero_length bad_stack_alignment serialization : AllocationError

pub data Result (A : Type 0) : Type 0 where
  ok : A → Result A
  err : AllocationError → Result A

pub record WasmAllocation : Type 0 where
  pub offset : ℕ
  pub len : ℕ

pub record WasmStack : Type 0 where
  pub top : ℕ

unfoldable pub new_allocation : ℕ → ℕ → Result WasmAllocation
new_allocation offset len =
    if ltb memory_int_max (offset + len)
    then err out_of_bounds
    else if len == 0
    then err zero_length
    else ok (record { offset = offset; len = len })

abbrev pub new_stack : WasmStack
new_stack = record { top = 0 }

abbrev pub next_allocation : WasmStack → ℕ → Result WasmAllocation
next_allocation stack len = new_allocation stack.top len

-- The result is the former top.
unfoldable pub allocate : WasmAllocation → WasmStack → Result ℕ × WasmStack
allocate a stack =
    if not (stack.top == a.offset)
    then (err bad_stack_alignment, stack)
    else if ltb memory_int_max (stack.top + a.len)
    then (err out_of_bounds, stack)
    else (ok stack.top, record { top = (a.offset + a.len) % u32_size })

-- The u32 sum wraps, as in a release build; no offset is below the least top, which is 0.
unfoldable pub deallocate : WasmAllocation → WasmStack → Result ℕ × WasmStack
deallocate a stack =
    if not (stack.top == (a.offset + a.len) % u32_size)
    then (err bad_stack_alignment, stack)
    else if ltb a.offset 0
    then (err out_of_bounds, stack)
    else (ok stack.top, record { top = a.offset })

-- The result of an operation of the stack, and the stack after it.
abbrev pub stack_of : Result ℕ × WasmStack → Result WasmStack
stack_of (err e, _) = err e
stack_of (ok _, stack) = ok stack

unfoldable pub stack_try_from : WasmAllocation → Result WasmStack
unfolding allocate
stack_try_from a = stack_of (allocate a (record { top = a.offset }))

unfoldable pub as_ribosome_encoding : WasmAllocation → ℕ
unfolding encoding_bits u64_merge_bits
as_ribosome_encoding a = encoding_bits (allocation (u64_merge_bits a.offset a.len))

unfoldable pub error_code : AllocationError → RibosomeErrorCode
error_code out_of_bounds = out_of_memory
error_code zero_length = zero_sized_allocation
error_code bad_stack_alignment = not_an_allocation
error_code serialization = not_an_allocation

abbrev allocation_of : Option RibosomeEncodedValue → Option (Result WasmAllocation)
allocation_of none = none
allocation_of (some success) = some (err zero_length)
allocation_of (some (failure _)) = some (err out_of_bounds)
allocation_of (some (allocation bits)) =
    some (new_allocation (u64_high_bits bits) (u64_low_bits bits))

-- `none` is the panic of the decoding.
unfoldable pub try_from_ribosome_encoding : ℕ → Option (Result WasmAllocation)
unfolding encoded_value
try_from_ribosome_encoding i = allocation_of (encoded_value i)

-- The linear memory, byte by byte.
abbrev pub Bytes : Type 0
Bytes = ℕ → ℕ

unfoldable pub write_bytes : ℕ → List ℕ → Bytes → Bytes
write_bytes ptr [] memory = memory
write_bytes ptr (b ∷ bytes) memory =
    write_bytes (suc ptr) bytes (λ i. if i == ptr then b else memory i)

abbrev pub max : ℕ → ℕ → ℕ
max m n = if ltb m n then n else m

abbrev written :
    List ℕ → Bytes → Result ℕ × WasmStack → ℕ → Result WasmAllocation × (WasmStack × Bytes)
written bytes memory (err e, stack) len = (err e, (stack, memory))
written bytes memory (ok ptr, stack) len =
    (new_allocation ptr len, (stack, write_bytes ptr bytes memory))

abbrev write_in :
    List ℕ
    → ℕ
    → WasmStack
    → Bytes
    → Result WasmAllocation
    → Result WasmAllocation × (WasmStack × Bytes)
write_in bytes len stack memory (err e) = (err e, (stack, memory))
write_in bytes len stack memory (ok a) = written bytes memory (allocate a stack) len

unfoldable pub write_in_wasm_memory :
    List ℕ → ℕ → WasmStack → Bytes → Result WasmAllocation × (WasmStack × Bytes)
unfolding new_allocation allocate write_bytes
write_in_wasm_memory bytes len stack memory =
    write_in bytes len stack memory (next_allocation stack len)

unfoldable pub write_string :
    List ℕ → WasmStack → Bytes → Result WasmAllocation × (WasmStack × Bytes)
unfolding write_in_wasm_memory
write_string bytes stack memory =
    let len = max (length bytes) 1 % u32_size in
    if ltb memory_int_max len
    then (err out_of_bounds, (stack, memory))
    else write_in_wasm_memory bytes len stack memory

abbrev pub byte_then : ℕ → Option (List ℕ) → Option (List ℕ)
byte_then b none = if b == 0 then some [] else none
byte_then b (some bytes) = if b == 0 then some [] else some (b ∷ bytes)

-- `CStr::from_ptr`: the bytes before the next zero, which is sought for at most `fuel` bytes.
unfoldable pub c_str : ℕ → Bytes → ℕ → Option (List ℕ)
c_str zero memory ptr = none
c_str (suc fuel) memory ptr = byte_then (memory ptr) (c_str fuel memory (suc ptr))

-- What a read comes to: no zero byte within the fuel, a panic, or a text.
pub data Read : Type 0 where
  out_of_fuel : Read
  panicked : Read
  utf8_text : List ℕ → Read

-- `to_str().unwrap()`, by the test of the standard library that bytes are UTF-8.
abbrev pub to_str : (List ℕ → Bool) → Option (List ℕ) → Read
to_str is_utf8 none = out_of_fuel
to_str is_utf8 (some bytes) = if is_utf8 bytes then utf8_text bytes else panicked

-- WasmAllocation::read_to_string with read_str_raw
abbrev pub read_to_string : (List ℕ → Bool) → ℕ → Bytes → WasmAllocation → Read
read_to_string is_utf8 fuel memory a = to_str is_utf8 (c_str fuel memory a.offset)
