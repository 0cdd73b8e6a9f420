-- ===== src/Network.antt =====
-- The network slice of a node's state: crates/core/src/network/state.rs and the reducers of
-- crates/core/src/network/reducers that keep its tables of open queries, validation packages and
-- direct messages. `none` is a panic. The key of a query and of a validation package is a number, and
-- so are a payload and a message of an application.
pub mod State
pub mod Reducers
pub mod Answers
mod Tests
use rust_holochain.Base.{
  ℕ, ◌+◌, ◌≡◌, refl, Bool, true, false, Option, none, some, List, [], ◌∷◌, arith, ltb, leb, ◌==◌,
  if◌then◌else◌,
}
use rust_holochain.Base.Map
use rust_holochain.Base.Map.{Map}
use rust_holochain.CoreTypes.{
  HolochainError, HcResult, ok, err, error_generic, timeout, Provenance, ChainHeader, Entry,
}
use rust_holochain.Network.State.{
  ValidationPackage, ValidationCacheData, DirectMessage, Lib3hClientProtocol, Timeout, NetworkState,
  NetworkHost, Action, new, initialized, send, cache_headers, cache_validation,
  request_validation_package, custom_message, validation_package, query_entry, send_direct_message,
  handle_send_direct_message_result, clear_query_result, clear_validation_package_result,
  clear_custom_send_response, query, query_timeout, handle_query, get_validation_package,
  get_validation_package_timeout, handle_get_validation_package, handle_custom_send_response,
  resolve_direct_connection, send_message_to, send_direct_message_timeout, other,
}
use rust_holochain.Network.Reducers.{
  waiting_or_error, query_inner, insert_if, reduce_query, reduce_query_timeout,
  reduce_handle_get_result, send_message, get_validation_package_inner,
  get_validation_package_message_timeout_ms, reduce_get_validation_package,
  reduce_get_validation_package_timeout, reduce_handle_get_validation_package,
  reduce_handle_custom_send_response, reduce_resolve_direct_connection, reduce_send_direct_message,
  reduce_send_direct_message_timeout,
}

unfoldable pub reduce : NetworkHost → Action → NetworkState → Option NetworkState
reduce host (clear_query_result key) st =
    some (record st { get_query_results = Map.remove key st.get_query_results })
reduce host (clear_validation_package_result key) st = some (record st {
  get_validation_package_results = Map.remove key st.get_validation_package_results;
  get_validation_package_timeouts = Map.remove key st.get_validation_package_timeouts;
})
reduce host (clear_custom_send_response id) st =
    some
      (record st { custom_direct_message_replys = Map.remove id st.custom_direct_message_replys })
reduce host (query key maybe_timeout) st = some (reduce_query host key maybe_timeout st)
reduce host (query_timeout key) st = some (reduce_query_timeout key st)
reduce host (handle_query payload key) st = some (reduce_handle_get_result payload key st)
reduce host (get_validation_package key header) st =
    some (reduce_get_validation_package host key header st)
reduce host (get_validation_package_timeout key) st =
    some (reduce_get_validation_package_timeout key st)
reduce host (handle_get_validation_package responder key validation) st =
    reduce_handle_get_validation_package host responder key validation st
reduce host (handle_custom_send_response msg_id response) st =
    some (reduce_handle_custom_send_response msg_id response st)
reduce host (resolve_direct_connection id) st = some (reduce_resolve_direct_connection id st)
reduce host (send_message_to address msg_id message is_response maybe_timeout) st =
    some (reduce_send_direct_message msg_id message is_response maybe_timeout st)
reduce host (send_direct_message_timeout id) st = some (reduce_send_direct_message_timeout id st)
reduce host other st = some st

-- The actions of a run, each with what the host does then.
unfoldable pub run : List (NetworkHost × Action) → NetworkState → Option NetworkState
run [] st = some st
run ((host, action) ∷ rest) st = elim (reduce host action st) [
  | none ↦ none
  | some st' ↦ run rest st'
]
