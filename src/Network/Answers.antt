-- ===== src/Network/Answers.antt =====
-- The life of a query in crates/core/src/network/reducers: an answer is not lost, and a timeout ends
-- only a query that is still open.
use rust_holochain.Base.{
  ℕ, ◌≡◌, ◌≢◌, inl, inr, Option, none, some, List, [], ◌∷◌, arith, ◌==◌, ==_iff, ==_self,
  Option-cases, All, if◌then◌else◌,
}
use rust_holochain.Base.Map
use rust_holochain.CoreTypes.{HcResult, ok, err, timeout, ChainHeader}
use rust_holochain.Network.State.{
  NetworkState, NetworkHost, Action, ValidationPackage, clear_query_result,
  clear_validation_package_result, clear_custom_send_response, query, query_timeout, handle_query,
  get_validation_package, get_validation_package_timeout, handle_get_validation_package,
  handle_custom_send_response, resolve_direct_connection, send_message_to,
  send_direct_message_timeout, other, cache_validation, cache_headers, initialized,
}
use rust_holochain.Network.Reducers.{
  reduce_query, query_inner, waiting_or_error, reduce_query_timeout, reduce_handle_get_result,
  reduce_get_validation_package, reduce_get_validation_package_timeout,
  reduce_handle_get_validation_package, reduce_handle_custom_send_response,
  reduce_resolve_direct_connection, reduce_send_direct_message, reduce_send_direct_message_timeout,
  get_validation_package_inner, send_message,
}
use rust_holochain.Network.{reduce, run}

abbrev pub result_of : ℕ → NetworkState → Option (Option (HcResult ℕ))
result_of key st = Map.get key st.get_query_results

-- The action asks the query again, answers it, or clears its result.
abbrev pub Leaves : ℕ → NetworkHost × Action → Type 0
Leaves key (_, query k _) = key ≢ k
Leaves key (_, handle_query _ k) = key ≢ k
Leaves key (_, clear_query_result k) = key ≢ k
Leaves key _ = Unit

cache_validation-same :
    (host : NetworkHost) (agent : ℕ) (validation : ValidationPackage) (st st' : NetworkState)
    → cache_validation host agent validation st ≡ some st'
    → st'.get_query_results ≡ st.get_query_results
unfolding cache_validation cache_headers
cache_validation-same host agent validation st st' e = ground arith

reduce_get_validation_package-same :
    (host : NetworkHost) (key : ℕ) (header : ChainHeader) (st : NetworkState)
    → (reduce_get_validation_package host key header st).get_query_results ≡ st.get_query_results
unfolding reduce_get_validation_package get_validation_package_inner send_message initialized
reduce_get_validation_package-same host key header st = ground arith

reduce_handle_get_validation_package-same :
    (host : NetworkHost) (responder key : ℕ) (validation : Option ValidationPackage)
    (st st' : NetworkState)
    → reduce_handle_get_validation_package host responder key validation st ≡ some st'
    → st'.get_query_results ≡ st.get_query_results
unfolding reduce_handle_get_validation_package
reduce_handle_get_validation_package-same host responder key none st st' e = ground arith
reduce_handle_get_validation_package-same host responder key (some v) st st' e =
    cache_validation-same host responder v _ st' e

-- What a timeout makes of a result.
abbrev pub timed_out : Option (Option (HcResult ℕ)) → Option (Option (HcResult ℕ))
timed_out (some none) = some (some (err timeout))
timed_out result = result

reduce_query_timeout_lem :
    (k : ℕ) (st : NetworkState) (key : ℕ)
    → result_of key (reduce_query_timeout k st)
      ≡ (if k == key then timed_out (result_of key st) else result_of key st)
unfolding reduce_query_timeout
reduce_query_timeout_lem k st key =
    ground (arith, Map.get-insert k (some (err timeout)) st.get_query_results key, ==_iff k key)

module _ (key : ℕ) (r : HcResult ℕ) where
  abbrev Answered : NetworkState → Type 0
  Answered st = result_of key st ≡ some (some r)

  step-Answered :
      (host : NetworkHost) (action : Action) (st st' : NetworkState)
      → Leaves key (host, action)
      → reduce host action st ≡ some st'
      → Answered st
      → Answered st'
  unfolding reduce reduce_query reduce_handle_get_result reduce_get_validation_package_timeout
      reduce_send_direct_message reduce_send_direct_message_timeout
      reduce_handle_custom_send_response reduce_resolve_direct_connection initialized
  step-Answered host (clear_query_result k) st st' h e known =
      ground (arith, Map.get-remove k st.get_query_results key, ==_iff k key, h)
  step-Answered host (query k maybe) st st' h e known = ground (
    arith,
    Map.get-insert k (waiting_or_error (query_inner host k st)) st.get_query_results key,
    ==_iff k key,
    h,
  )
  step-Answered host (handle_query payload k) st st' h e known =
      ground (arith, Map.get-insert k (some (ok payload)) st.get_query_results key, ==_iff k key, h)
  step-Answered host (query_timeout k) st st' h e known =
      ground (arith, reduce_query_timeout_lem k st key)
  step-Answered host (get_validation_package k header) st st' h e known =
      ground (arith, reduce_get_validation_package-same host k header st)
  step-Answered host (handle_get_validation_package responder k validation) st st' h e known =
      ground (arith, reduce_handle_get_validation_package-same host responder k validation st st' e)
  step-Answered host (get_validation_package_timeout k) st st' h e known = ground arith
  step-Answered host (send_message_to a id m b maybe) st st' h e known = ground arith
  step-Answered host (send_direct_message_timeout id) st st' h e known = ground arith
  step-Answered host (clear_validation_package_result k) st st' h e known = ground arith
  step-Answered host (clear_custom_send_response id) st st' h e known = ground arith
  step-Answered host (handle_custom_send_response id response) st st' h e known = ground arith
  step-Answered host (resolve_direct_connection id) st st' h e known = ground arith
  step-Answered host other st st' h e known = ground arith

  run-Answered :
      (log : List (NetworkHost × Action)) (st st' : NetworkState)
      → All (Leaves key) log
      → run log st ≡ some st'
      → Answered st
      → Answered st'
  unfolding run
  run-Answered [] st st' h e known = ground arith
  run-Answered ((host, action) ∷ log) st st' (h, hs) e known =
      elim (Option-cases (reduce host action st)) [
        | inl bad ↦ absurd (ground arith)
        | inr (next, step) ↦
            run-Answered log next st' hs (ground arith)
              (step-Answered host action st next h step known)
      ]

-- A query that has a result, an answer or an error, keeps it through every run of actions that does
-- not panic and neither asks this query again nor answers it nor clears its result; its timeout, in
-- between or afterwards, does not overwrite it.
pub run_keeps_result :
    (key : ℕ) (r : HcResult ℕ) (log : List (NetworkHost × Action)) (st st' : NetworkState)
    → result_of key st ≡ some (some r)
    → All (Leaves key) log
    → run log st ≡ some st'
    → (result_of key st' ≡ some (some r))
      × (result_of key (reduce_query_timeout key st') ≡ some (some r))
run_keeps_result key r log st st' known h e =
    let kept = run-Answered key r log st st' h e known in
    (kept, ground (arith, reduce_query_timeout_lem key st' key, kept, ==_self key))
