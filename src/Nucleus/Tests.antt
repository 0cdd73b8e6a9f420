-- ===== src/Nucleus/Tests.antt =====
-- The theorems on the nucleus at a few zome calls.
use rust_holochain.Base.{◌≡◌, refl, some, List, [], ◌∷◌}
use rust_holochain.Base.Map
use rust_holochain.Base.Set
use rust_holochain.CoreTypes.{ok}
use rust_holochain.Nucleus.{
  Action, queue_zome_function_call, return_zome_function_result, clear_zome_function_call,
  HdkFnCall, zome_api, returned, failed, new, run,
}
use rust_holochain.Nucleus.Scheduling.{Schedules, AllAllowed, run_refines}
use rust_holochain.Nucleus.Tracing.{trace, trace_lem}

abbrev actions : List Action
actions =
    queue_zome_function_call 1
    ∷ queue_zome_function_call 2
    ∷ return_zome_function_result 1 (ok 7)
    ∷ clear_zome_function_call 1
    ∷ []

actions-AllAllowed : AllAllowed actions []
unfolding Set.remove
actions-AllAllowed = (refl, (refl, (refl, (refl, tt))))

run_refines_example : Schedules (run actions new) (2 ∷ [])
unfolding Set.remove
run_refines_example = run_refines actions actions-AllAllowed

abbrev emit : HdkFnCall
emit = record { function = zome_api 3; parameters = 5 }

abbrev query : HdkFnCall
query = record { function = zome_api 4; parameters = 6 }

trace_lem_example :
    Map.get 1 (trace 1 ((emit, returned 8) ∷ (query, failed 9) ∷ []) new).hdk_function_calls
    ≡ some ((query, some (failed 9)) ∷ [])
trace_lem_example = trace_lem 1 emit (returned 8) ((query, failed 9) ∷ []) new (unfold new in refl)
