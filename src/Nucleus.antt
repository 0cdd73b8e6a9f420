-- ===== src/Nucleus.antt =====
-- The nucleus slice of a node's state: crates/core/src/nucleus/state.rs and the reducers of
-- crates/core/src/nucleus/reducers. A zome call, the parameters of a call of the HDK, a DNA and the
-- outcome of an initialisation are only compared or passed on, and are numbers.
pub mod Scheduling
pub mod Tracing
mod Tests
use rust_holochain.Base.{
  ℕ, ◌≡◌, refl, Bool, true, false, not, ◌&&◌, Option, none, some, List, [], ◌∷◌, ◌++◌, ltb, ◌==◌,
  length, filter, is_some, if◌then◌else◌,
}
use rust_holochain.Base.Map
use rust_holochain.Base.Map.{Map}
use rust_holochain.Base.Set
use rust_holochain.Base.Set.{Set}
use rust_holochain.CoreTypes.{HolochainError, HcResult, ok, err}

-- Why an initialisation failed: the first three texts of the reducers, or what the callback said.
pub data InitializationFailure : Type 0 where
  already_initializing already_initialized not_initializing : InitializationFailure
  reported : ℕ → InitializationFailure

-- `Result<Initialization, String>`
pub data InitializationResult : Type 0 where
  success failure : ℕ → InitializationResult

pub data NucleusStatus : Type 0 where
  new_nucleus initializing : NucleusStatus
  initialized : ℕ → NucleusStatus
  initialization_failed : InitializationFailure → NucleusStatus

pub data ZomeApiFunction : Type 0 where
  init_globals : ZomeApiFunction
  zome_api : ℕ → ZomeApiFunction

pub record HdkFnCall : Type 0 where
  pub function : ZomeApiFunction
  pub parameters : ℕ

pub data HdkFnCallResult : Type 0 where
  returned failed : ℕ → HdkFnCallResult

-- The calls of the HDK that a zome call made, the last one first.
abbrev pub ZomeFnCallState : Type 0
ZomeFnCallState = List (HdkFnCall × Option HdkFnCallResult)

pub record NucleusState : Type 0 where
  pub status : NucleusStatus
  pub dna : Option ℕ
  pub queued_zome_calls : List ℕ
  pub running_zome_calls : Set
  pub hdk_function_calls : Map ZomeFnCallState
  pub zome_call_results : Map (HcResult ℕ)

pub data Action : Type 0 where
  clear_zome_function_call : ℕ → Action
  return_initialization_result : InitializationResult → Action
  initialize_chain : ℕ → Action
  return_zome_function_result : ℕ → HcResult ℕ → Action
  queue_zome_function_call : ℕ → Action
  trace_invoke_hdk_function : ℕ → HdkFnCall → Action
  trace_return_hdk_function : ℕ → HdkFnCall → HdkFnCallResult → Action
  other : Action

-- From crates/core/src/wasm_engine/mod.rs.
abbrev pub max_zome_calls : ℕ
max_zome_calls = 10

unfoldable pub new : NucleusState
new = record {
  status = new_nucleus;
  dna = none;
  queued_zome_calls = [];
  running_zome_calls = [];
  hdk_function_calls = [];
  zome_call_results = [];
}

-- `NucleusStateSnapshot::from` and `NucleusState::from`: only the status is kept.
unfoldable pub snapshot : NucleusState → NucleusStatus
snapshot st = st.status

unfoldable pub from_snapshot : NucleusStatus → NucleusState
unfolding new
from_snapshot status = record new { status = status }

abbrev pub has_initialized : NucleusState → Bool
has_initialized st = elim st.status [ initialized _ ↦ true | _ ↦ false ]

abbrev pub has_initialization_failed : NucleusState → Bool
has_initialization_failed st = elim st.status [ initialization_failed _ ↦ true | _ ↦ false ]

abbrev pub function_eq : ZomeApiFunction → ZomeApiFunction → Bool
function_eq init_globals init_globals = true
function_eq init_globals (zome_api g) = false
function_eq (zome_api f) init_globals = false
function_eq (zome_api f) (zome_api g) = f == g

abbrev pub hdk_call_eq : HdkFnCall → HdkFnCall → Bool
hdk_call_eq c d = function_eq c.function d.function && (c.parameters == d.parameters)

unfoldable pub begin_hdk_call : HdkFnCall → ZomeFnCallState → ZomeFnCallState
begin_hdk_call call calls = (call, none) ∷ calls

-- `none` with no call begun: nothing is left of the failed ends but their error.
unfoldable pub end_hdk_call :
    HdkFnCall → HdkFnCallResult → ZomeFnCallState → ZomeFnCallState × HcResult (Unit {0})
end_hdk_call call result [] = elim call.function [
  | init_globals ↦ ([], ok tt)
  | zome_api _ ↦ ([], err HolochainError.error_generic)
]
end_hdk_call call result ((current_call, current_result) ∷ calls) =
    if not (hdk_call_eq call current_call)
    then (calls, err HolochainError.error_generic)
    else if is_some current_result
    then (calls, err HolochainError.error_generic)
    else ((call, some result) ∷ calls, ok tt)

unfoldable pub reduce_clear_zome_function_call : ℕ → NucleusState → NucleusState
reduce_clear_zome_function_call call st = record st {
  queued_zome_calls = filter (λ c. not (c == call)) st.queued_zome_calls;
  running_zome_calls = Set.remove st.running_zome_calls call;
  hdk_function_calls = Map.remove call st.hdk_function_calls;
  zome_call_results = Map.remove call st.zome_call_results;
}

unfoldable pub reduce_initialize_chain : ℕ → NucleusState → NucleusState
reduce_initialize_chain dna st = elim st.status [
  | initializing ↦ record st { status = initialization_failed already_initializing }
  | initialized _ ↦ record st { status = initialization_failed already_initialized }
  | new_nucleus ↦ record st { status = initializing; dna = some dna }
  | initialization_failed _ ↦ record st { status = initializing; dna = some dna }
]

unfoldable pub reduce_return_initialization_result :
    InitializationResult → NucleusState → NucleusState
reduce_return_initialization_result result st = elim st.status [
  | initializing ↦ elim result [
    | success init ↦ record st { status = initialized init }
    | failure e ↦ record st { status = initialization_failed (reported e) }
  ]
  | _ ↦ record st { status = initialization_failed not_initializing }
]

-- The first queued call, if there is one, starts to run.
unfoldable pub start_next : NucleusState → NucleusState
start_next st = elim st.queued_zome_calls [
  | [] ↦ st
  | next_call ∷ rest ↦ record st {
    queued_zome_calls = rest;
    running_zome_calls = Set.insert st.running_zome_calls next_call;
  }
]

unfoldable pub reduce_return_zome_function_result : ℕ → HcResult ℕ → NucleusState → NucleusState
unfolding start_next
reduce_return_zome_function_result call result st = start_next (record st {
  zome_call_results = Map.insert call result st.zome_call_results;
  running_zome_calls = Set.remove st.running_zome_calls call;
  hdk_function_calls = Map.remove call st.hdk_function_calls;
})

unfoldable pub reduce_queue_zome_function_call : ℕ → NucleusState → NucleusState
reduce_queue_zome_function_call call st =
    if ltb (length st.running_zome_calls) max_zome_calls
    then record st { running_zome_calls = Set.insert st.running_zome_calls call }
    else record st { queued_zome_calls = st.queued_zome_calls ++ (call ∷ []) }

-- `entry(..).and_modify(..).or_insert_with(ZomeFnCallState::default)`
unfoldable pub reduce_trace_invoke_hdk_function : ℕ → HdkFnCall → NucleusState → NucleusState
unfolding begin_hdk_call
reduce_trace_invoke_hdk_function zome_call hdk_call st =
    elim (Map.get zome_call st.hdk_function_calls) [
      | none ↦ record st { hdk_function_calls = Map.insert zome_call [] st.hdk_function_calls }
      | some calls ↦ record st {
        hdk_function_calls =
            Map.insert zome_call (begin_hdk_call hdk_call calls) st.hdk_function_calls;
      }
    ]

-- An error is logged; what `end_hdk_call` did before it failed stays done.
unfoldable pub reduce_trace_return_hdk_function :
    ℕ → HdkFnCall → HdkFnCallResult → NucleusState → NucleusState
unfolding end_hdk_call
reduce_trace_return_hdk_function zome_call hdk_call result st =
    elim (Map.get zome_call st.hdk_function_calls) [
      | none ↦ st
      | some calls ↦ record st {
        hdk_function_calls =
            Map.insert zome_call (end_hdk_call hdk_call result calls).0 st.hdk_function_calls;
      }
    ]

unfoldable pub reduce : Action → NucleusState → NucleusState
reduce (clear_zome_function_call call) st = reduce_clear_zome_function_call call st
reduce (return_initialization_result result) st = reduce_return_initialization_result result st
reduce (initialize_chain dna) st = reduce_initialize_chain dna st
reduce (return_zome_function_result call result) st =
    reduce_return_zome_function_result call result st
reduce (queue_zome_function_call call) st = reduce_queue_zome_function_call call st
reduce (trace_invoke_hdk_function zome_call hdk_call) st =
    reduce_trace_invoke_hdk_function zome_call hdk_call st
reduce (trace_return_hdk_function zome_call hdk_call result) st =
    reduce_trace_return_hdk_function zome_call hdk_call result st
reduce other st = st

unfoldable pub run : List Action → NucleusState → NucleusState
run [] st = st
run (a ∷ actions) st = run actions (reduce a st)
