-- ===== src/Wasm/Memory/Strings.antt =====
-- Strings in WASM memory: what `read_to_string` of crates/wasm_utils/src/memory/read.rs makes of what
-- `write_string` of write.rs has written.
use rust_holochain.Base.{
  ℕ, zero, suc, ◌+◌, ◌%◌, ◌≤◌, ◌<◌, ◌≡◌, refl, ap, ◌∙◌, ◌⊎◌, inl, Bool, false, Option, none, some,
  List, [], ◌∷◌, ◌++◌, arith, ltb, ◌==◌, ==_self, if◌then◌else◌, length, All,
}
use rust_holochain.Wasm.Bits.{u32_size}
use rust_holochain.Wasm.Memory.{
  WasmAllocation, WasmStack, ok, memory_int_max, Bytes, write_bytes, max, write_in_wasm_memory,
  write_string, byte_then, c_str, out_of_fuel, panicked, utf8_text, to_str, read_to_string,
}
use rust_holochain.Wasm.Memory.Stack.{new_allocation-ok, allocate-next}

abbrev pub IsText : List ℕ → Type 0
IsText = All (λ b. b == 0 ≡ false)

abbrev pub put : ℕ → ℕ → Bytes → Bytes
put ptr b memory i = if i == ptr then b else memory i

write_bytes-outside :
    (ptr : ℕ) (bytes : List ℕ) (memory : Bytes) (i : ℕ)
    → (i < ptr) ⊎ (ptr + length bytes ≤ i)
    → write_bytes ptr bytes memory i ≡ memory i
unfolding write_bytes
write_bytes-outside ptr [] memory i h = refl
write_bytes-outside ptr (b ∷ bytes) memory i h =
    let other : i == ptr ≡ false = ground arith in
    write_bytes-outside (suc ptr) bytes (put ptr b memory) i (ground arith) ∙ ground arith

abbrev pub prepend : List ℕ → Option (List ℕ) → Option (List ℕ)
prepend bytes none = none
prepend bytes (some more) = some (bytes ++ more)

c_str-same :
    (fuel : ℕ) (m m' : Bytes) (ptr : ℕ)
    → ((i : ℕ) → ptr ≤ i → m i ≡ m' i)
    → c_str fuel m ptr ≡ c_str fuel m' ptr
unfolding c_str
c_str-same zero m m' ptr h = refl
c_str-same (suc fuel) m m' ptr h =
    ap (λ b. byte_then b (c_str fuel m (suc ptr))) (h ptr (omega arith))
    ∙ ap (byte_then (m' ptr)) (c_str-same fuel m m' (suc ptr) (λ i le. h i (omega (arith, le))))

prepend_nothing : (o : Option (List ℕ)) → o ≡ prepend [] o
prepend_nothing none = refl
prepend_nothing (some bytes) = refl

byte_then-prepend :
    (b : ℕ) (bytes : List ℕ) (o : Option (List ℕ))
    → b == 0 ≡ false
    → byte_then b (prepend bytes o) ≡ prepend (b ∷ bytes) o
byte_then-prepend b bytes none h = ground arith
byte_then-prepend b bytes (some more) h = ground arith

-- Reading from the start of written bytes goes on into what was in the memory behind them.
c_str-write_bytes :
    (bytes : List ℕ) (fuel : ℕ) (memory : Bytes) (ptr : ℕ)
    → IsText bytes
    → c_str (length bytes + fuel) (write_bytes ptr bytes memory) ptr
      ≡ prepend bytes (c_str fuel memory (ptr + length bytes))
unfolding c_str write_bytes
c_str-write_bytes [] fuel memory ptr h =
    let steps : 0 + fuel ≡ fuel = omega arith in
    let place : ptr ≡ ptr + 0 = omega arith in
    ap (λ n. c_str n memory ptr) steps
    ∙ ap (c_str fuel memory) place
    ∙ prepend_nothing (c_str fuel memory (ptr + 0))
c_str-write_bytes (b ∷ bytes) fuel memory ptr (text, h) =
    let memory' = write_bytes (suc ptr) bytes (put ptr b memory) in
    let first : memory' ptr ≡ b =
      write_bytes-outside (suc ptr) bytes (put ptr b memory) ptr (inl (omega arith))
      ∙ ground (arith, ==_self ptr) in
    let behind =
      c_str-same fuel (put ptr b memory) memory (suc ptr + length bytes)
        (λ i le. let away : i == ptr ≡ false = ground arith in ground arith) in
    let steps : suc (length bytes) + fuel ≡ suc (length bytes + fuel) = omega arith in
    let place : suc ptr + length bytes ≡ ptr + suc (length bytes) = omega arith in
    ap (λ n. c_str n memory' ptr) steps
    ∙ ap (λ c. byte_then c (c_str (length bytes + fuel) memory' (suc ptr))) first
    ∙ ap (byte_then b) (c_str-write_bytes bytes fuel (put ptr b memory) (suc ptr) h)
    ∙ byte_then-prepend b bytes (c_str fuel (put ptr b memory) (suc ptr + length bytes)) text
    ∙ ap (prepend (b ∷ bytes)) (behind ∙ ap (c_str fuel memory) place)

abbrev pub written_to : List ℕ → WasmStack → WasmAllocation
written_to bytes stack = record { offset = stack.top; len = max (length bytes) 1 }

write_string_lem :
    (bytes : List ℕ) (stack : WasmStack) (memory : Bytes)
    → stack.top + max (length bytes) 1 ≤ memory_int_max
    → write_string bytes stack memory ≡ (
      ok (written_to bytes stack),
      (record { top = stack.top + max (length bytes) 1 }, write_bytes stack.top bytes memory),
    )
unfolding write_string write_in_wasm_memory
write_string_lem bytes stack memory h =
    let len = max (length bytes) 1 in
    let long : 0 < len = ground arith in
    let kept : len % u32_size ≡ len = omega (arith, h) in
    let allowed : ltb memory_int_max len ≡ false = ground arith in
    let new = new_allocation-ok stack.top len h long in
    rw (kept, allowed, new, allocate-next stack len h, new) refl

to_str-prepend :
    (is_utf8 : List ℕ → Bool) (bytes : List ℕ) (o : Option (List ℕ))
    → to_str is_utf8 (prepend bytes o) ≡ elim o [
      | none ↦ out_of_fuel
      | some more ↦ if is_utf8 (bytes ++ more) then utf8_text (bytes ++ more) else panicked
    ]
to_str-prepend is_utf8 bytes none = refl
to_str-prepend is_utf8 bytes (some more) = refl

-- A text without zero bytes that fits on the stack is written without an error. Reading it back, on
-- fuel for `fuel` bytes behind the text, takes the text followed by whatever was in the memory behind it
-- up to the next zero byte: if that is UTF-8 it is what is read, else the read panics, and without a
-- zero byte among those bytes the fuel runs out.
pub read_to_string-write_string :
    (is_utf8 : List ℕ → Bool) (bytes : List ℕ) (stack : WasmStack) (memory : Bytes) (fuel : ℕ)
    → IsText bytes
    → stack.top + max (length bytes) 1 ≤ memory_int_max
    → (a : WasmAllocation) × (s' : WasmStack) × (m' : Bytes) × (write_string bytes stack memory
        ≡ (ok a, (s', m')))
      × (read_to_string is_utf8 (length bytes + fuel) m' a
          ≡ elim (c_str fuel memory (stack.top + length bytes)) [
            | none ↦ out_of_fuel
            | some more ↦ if is_utf8 (bytes ++ more) then utf8_text (bytes ++ more) else panicked
          ])
read_to_string-write_string is_utf8 bytes stack memory fuel text h = (
  written_to bytes stack,
  record { top = stack.top + max (length bytes) 1 },
  write_bytes stack.top bytes memory,
  write_string_lem bytes stack memory h,
  ap (to_str is_utf8) (c_str-write_bytes bytes fuel memory stack.top text)
      ∙ to_str-prepend is_utf8 bytes (c_str fuel memory (stack.top + length bytes)),
)
