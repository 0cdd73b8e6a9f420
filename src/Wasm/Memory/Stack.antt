-- ===== src/Wasm/Memory/Stack.antt =====
-- The stack discipline of crates/wasm_utils/src/memory/stack.rs, and allocations as one integer.
use rust_holochain.Base.{ℕ, ◌+◌, ◌%◌, ◌≤◌, ◌<◌, ◌≡◌, refl, ap, some, arith, ==_self}
use rust_holochain.Wasm.Bits.{u32_size, u64_merge_bits, u64_split-merge}
use rust_holochain.Wasm.Encoding.RoundTrip.{encoded_allocation}
use rust_holochain.Wasm.Memory.{
  WasmAllocation, WasmStack, Result, ok, err, memory_int_max, new_allocation, next_allocation,
  stack_of, allocate, deallocate, stack_try_from, as_ribosome_encoding, try_from_ribosome_encoding,
}

-- What `new_allocation` lets through.
pub record IsAllocation (a : WasmAllocation) : Type 0 where
  pub in_bounds : a.offset + a.len ≤ memory_int_max
  pub not_empty : 0 < a.len

pub new_allocation-ok :
    (offset len : ℕ)
    → offset + len ≤ memory_int_max
    → 0 < len
    → new_allocation offset len ≡ ok (record { offset = offset; len = len })
unfolding new_allocation
new_allocation-ok offset len h p = ground arith

infixl 5 ◌>>=◌
abbrev ◌>>=◌ : {A : Type 0} {B : Type 0} → Result A → (A → Result B) → Result B
ok a >>= f = f a
err e >>= f = err e

-- A use of the stack: an allocation is freed after what is allocated inside of it.
pub data Scopes : Type 0 where
  finished : Scopes
  scope : (len : ℕ) → (inside then_next : Scopes) → Scopes

unfoldable pub run : Scopes → WasmStack → Result WasmStack
run finished stack = ok stack
run (scope len inside then_next) stack = next_allocation stack len >>= λ a.
    stack_of (allocate a stack) >>= λ s.
    run inside s >>= λ s'. stack_of (deallocate a s') >>= λ s''. run then_next s''

-- No scope is empty, and what is allocated at one time fits above the given top.
abbrev pub Fits : Scopes → ℕ → Type 0
Fits finished top = top ≤ memory_int_max
Fits (scope len inside then_next) top =
    (0 < len) × (top + len ≤ memory_int_max) × Fits inside (top + len) × Fits then_next top

pub allocate-next :
    (stack : WasmStack) (len : ℕ)
    → stack.top + len ≤ memory_int_max
    → allocate (record { offset = stack.top; len = len }) stack
      ≡ (ok stack.top, record { top = stack.top + len })
unfolding allocate
allocate-next stack len h =
    let small : (stack.top + len) % u32_size ≡ stack.top + len = omega (arith, h) in
    ground (arith, ==_self stack.top)

deallocate-last :
    (stack : WasmStack) (len : ℕ)
    → stack.top + len ≤ memory_int_max
    → deallocate (record { offset = stack.top; len = len }) (record { top = stack.top + len })
      ≡ (ok (stack.top + len), stack)
unfolding deallocate
deallocate-last stack len h =
    let small : (stack.top + len) % u32_size ≡ stack.top + len = omega (arith, h) in
    ground (arith, ==_self (stack.top + len))

-- If no scope is empty and all that is allocated at one time fits below the largest address, every
-- allocation of the scopes succeeds, every deallocation finds its allocation at the top, and in the
-- end the stack is as it was.
pub run_restores : (p : Scopes) (stack : WasmStack) → Fits p stack.top → run p stack ≡ ok stack
unfolding run
run_restores finished stack h = refl
run_restores (scope len inside then_next) stack (long, fits, inside_fits, next_fits) =
    let inner = run_restores inside (record { top = stack.top + len }) inside_fits in
    let next = run_restores then_next stack next_fits in
    rw
      (
        new_allocation-ok stack.top len fits long,
        allocate-next stack len fits,
        inner,
        deallocate-last stack len fits,
      )
      next

-- An allocation that the constructor lets through comes back from the 64-bit encoding that zome and
-- conductor exchange, and the stack that is made from it has its top right behind it.
pub try_from-as_ribosome_encoding :
    (a : WasmAllocation)
    → IsAllocation a
    → (try_from_ribosome_encoding (as_ribosome_encoding a) ≡ some (ok a))
      × (stack_try_from a ≡ ok (record { top = a.offset + a.len }))
unfolding try_from_ribosome_encoding as_ribosome_encoding stack_try_from
try_from-as_ribosome_encoding a h =
    let bits = u64_merge_bits a.offset a.len in
    let (high, low, small) =
      u64_split-merge a.offset a.len (omega (arith, h.in_bounds))
        (omega (arith, h.in_bounds, h.not_empty)) in
    (
      rw (encoded_allocation bits (λ e. absurd (omega (arith, e, low, h.not_empty))), high, low)
          (ap some (new_allocation-ok a.offset a.len h.in_bounds h.not_empty)),
      ap stack_of (allocate-next (record { top = a.offset }) a.len h.in_bounds),
    )
