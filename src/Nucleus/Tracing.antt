-- ===== src/Nucleus/Tracing.antt =====
-- The traces of HDK calls in crates/core/src/nucleus: what `begin_hdk_call` and `end_hdk_call` of
-- state.rs record when the reducers call them.
use rust_holochain.Base.{ℕ, ◌≡◌, refl, true, false, none, some, List, [], ◌∷◌, arith, ==_self}
use rust_holochain.Base.Map
use rust_holochain.Base.Map.{Map}
use rust_holochain.CoreTypes.{HolochainError, ok, err}
use rust_holochain.Nucleus.{
  NucleusState, trace_invoke_hdk_function, trace_return_hdk_function, ZomeApiFunction, init_globals,
  zome_api, HdkFnCall, HdkFnCallResult, ZomeFnCallState, function_eq, hdk_call_eq, begin_hdk_call,
  end_hdk_call, reduce_trace_invoke_hdk_function, reduce_trace_return_hdk_function, reduce,
}

function_eq_self : (f : ZomeApiFunction) → function_eq f f ≡ true
function_eq_self init_globals = refl
function_eq_self (zome_api f) = ==_self f

hdk_call_eq_self : (c : HdkFnCall) → hdk_call_eq c c ≡ true
hdk_call_eq_self c = ground (arith, function_eq_self c.function, ==_self c.parameters)

end-begin :
    (call : HdkFnCall) (result : HdkFnCallResult) (calls : ZomeFnCallState)
    → end_hdk_call call result (begin_hdk_call call calls) ≡ ((call, some result) ∷ calls, ok tt)
unfolding end_hdk_call begin_hdk_call
end-begin call result calls = ground (arith, hdk_call_eq_self call)

-- The calls of a zome call, one after the other, each begun and ended.
abbrev pub trace : ℕ → List (HdkFnCall × HdkFnCallResult) → NucleusState → NucleusState
trace zome_call [] st = st
trace zome_call ((call, result) ∷ rest) st = trace zome_call rest (
    reduce (trace_return_hdk_function zome_call call result)
      (reduce (trace_invoke_hdk_function zome_call call) st))

-- The record of finished calls, on top of an earlier one.
abbrev pub finished_calls : List (HdkFnCall × HdkFnCallResult) → ZomeFnCallState → ZomeFnCallState
finished_calls [] calls = calls
finished_calls ((call, result) ∷ rest) calls = finished_calls rest ((call, some result) ∷ calls)

step-known :
    (zome_call : ℕ) (call : HdkFnCall) (result : HdkFnCallResult) (st : NucleusState)
    (calls : ZomeFnCallState)
    → Map.get zome_call st.hdk_function_calls ≡ some calls
    → Map.get zome_call
        (reduce
          (trace_return_hdk_function zome_call call result)
          (reduce (trace_invoke_hdk_function zome_call call) st)).hdk_function_calls
      ≡ some ((call, some result) ∷ calls)
unfolding reduce reduce_trace_invoke_hdk_function reduce_trace_return_hdk_function
step-known zome_call call result st calls e =
    let calls' = begin_hdk_call call calls in
    let begun = Map.get-insert_self zome_call calls' st.hdk_function_calls in
    let ended =
      Map.get-insert_self zome_call ((end_hdk_call call result calls').0)
        (Map.insert zome_call calls' st.hdk_function_calls) in
    ground (arith, end-begin call result calls)

step-unknown :
    (zome_call : ℕ) (call : HdkFnCall) (result : HdkFnCallResult) (st : NucleusState)
    → Map.get zome_call st.hdk_function_calls ≡ none
    → Map.get zome_call
        (reduce
          (trace_return_hdk_function zome_call call result)
          (reduce (trace_invoke_hdk_function zome_call call) st)).hdk_function_calls
      ≡ some []
unfolding reduce reduce_trace_invoke_hdk_function reduce_trace_return_hdk_function end_hdk_call
step-unknown zome_call call result st e =
    let none_yet : ZomeFnCallState = [] in
    let begun = Map.get-insert_self zome_call none_yet st.hdk_function_calls in
    let ended =
      Map.get-insert_self zome_call none_yet
        (Map.insert zome_call none_yet st.hdk_function_calls) in
    ground arith

trace-known :
    (zome_call : ℕ) (calls : List (HdkFnCall × HdkFnCallResult)) (st : NucleusState)
    (before : ZomeFnCallState)
    → Map.get zome_call st.hdk_function_calls ≡ some before
    → Map.get zome_call (trace zome_call calls st).hdk_function_calls
      ≡ some (finished_calls calls before)
trace-known zome_call [] st before e = e
trace-known zome_call ((call, result) ∷ rest) st before e =
    trace-known zome_call rest _ ((call, some result) ∷ before)
      (step-known zome_call call result st before e)

-- When a zome call that is not traced yet makes calls one after the other, all of them are
-- recorded with their results, in order, but for the first, of which nothing is.
pub trace_lem :
    (zome_call : ℕ) (call : HdkFnCall) (result : HdkFnCallResult)
    (calls : List (HdkFnCall × HdkFnCallResult)) (st : NucleusState)
    → Map.get zome_call st.hdk_function_calls ≡ none
    → Map.get zome_call (trace zome_call ((call, result) ∷ calls) st).hdk_function_calls
      ≡ some (finished_calls calls [])
trace_lem zome_call call result calls st e =
    trace-known zome_call calls _ [] (step-unknown zome_call call result st e)

-- When a call is made within another, other call and both are ended, the inner first, the second
-- end fails, the record of the inner call is lost and that of the outer one stays unfinished.
pub nested_calls :
    (outer inner : HdkFnCall) (r s : HdkFnCallResult) (calls : ZomeFnCallState)
    → hdk_call_eq outer inner ≡ false
    → end_hdk_call outer r
        (end_hdk_call inner s (begin_hdk_call inner (begin_hdk_call outer calls))).0
      ≡ ((outer, none) ∷ calls, err HolochainError.error_generic)
unfolding end_hdk_call begin_hdk_call
nested_calls outer inner r s calls differ = ground (arith, hdk_call_eq_self inner)
