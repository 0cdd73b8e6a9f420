-- ===== src/Network/Tests.antt =====
-- The tables of the network slice at a concrete run.
use rust_holochain.Base.{◌≡◌, refl, some, List, [], ◌∷◌}
use rust_holochain.Base.Map
use rust_holochain.CoreTypes.{ok}
use rust_holochain.Network.State.{NetworkHost, NetworkState, Action, query_timeout, new}
use rust_holochain.Network.Reducers.{reduce_query_timeout}
use rust_holochain.Network.{run, reduce}
use rust_holochain.Network.Answers.{run_keeps_result, result_of}

abbrev host : NetworkHost
host = record { send_over = λ network msg. ok tt; now = 50; fresh_id = 9 }

abbrev answered : NetworkState
unfolding new
answered = record new {
  get_query_results = (3, some (ok 77)) ∷ [];
  query_timeouts = (3, (10, 40)) ∷ [];
}

abbrev log : List (NetworkHost × Action)
log = (host, query_timeout 3) ∷ (host, query_timeout 4) ∷ []

abbrev later : NetworkState
later = record answered { query_timeouts = [] }

log_runs : run log answered ≡ some later
unfolding new run reduce reduce_query_timeout Map.remove Map.insert
log_runs = refl

run_keeps_result_example :
    (result_of 3 later ≡ some (some (ok 77)))
    × (result_of 3 (reduce_query_timeout 3 later) ≡ some (some (ok 77)))
unfolding new
run_keeps_result_example =
    run_keeps_result 3 (ok 77) log answered later refl (tt, (tt, tt)) log_runs
