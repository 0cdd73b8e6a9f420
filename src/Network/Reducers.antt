-- ===== src/Network/Reducers.antt =====
-- The reducers of crates/core/src/network/reducers that keep the tables of open queries, validation
-- packages and direct messages.
use rust_holochain.Base.{ℕ, Bool, Option, none, some, [], ◌∷◌, if◌then◌else◌}
use rust_holochain.Base.Map
use rust_holochain.Base.Map.{Map}
use rust_holochain.CoreTypes.{HcResult, ok, err, error_generic, timeout, ChainHeader}
use rust_holochain.Network.State.{
  ValidationPackage, DirectMessage, Timeout, NetworkState, NetworkHost, initialized, send,
  cache_validation, request_validation_package, query_entry, send_direct_message,
}

-- A result of sending, as it is kept: nothing yet, or the error.
abbrev pub waiting_or_error : {A B : Type 0} → HcResult A → Option (HcResult B)
waiting_or_error (ok _) = none
waiting_or_error (err e) = some (err e)

unfoldable pub query_inner : NetworkHost → ℕ → NetworkState → HcResult (Unit {0})
unfolding initialized send
query_inner host key st = elim (initialized st) [
  | err e ↦ err e
  | ok (space, agent) ↦ send host (query_entry agent space key) st
]

abbrev pub insert_if : {V : Type 0} → ℕ → Option V → Map V → Map V
insert_if key none m = m
insert_if key (some v) m = Map.insert key v m

unfoldable pub reduce_query : NetworkHost → ℕ → Option Timeout → NetworkState → NetworkState
unfolding query_inner
reduce_query host key maybe_timeout st = record st {
  get_query_results =
      Map.insert key (waiting_or_error (query_inner host key st)) st.get_query_results;
  query_timeouts = insert_if key maybe_timeout st.query_timeouts;
}

-- Only an open query gets the error.
unfoldable pub reduce_query_timeout : ℕ → NetworkState → NetworkState
reduce_query_timeout key st =
    let st' = record st { query_timeouts = Map.remove key st.query_timeouts } in
    elim (Map.get key st.get_query_results) [
      | none ↦ st'
      | some (some _) ↦ st'
      | some none ↦ record st' {
        get_query_results = Map.insert key (some (err timeout)) st.get_query_results;
      }
    ]

unfoldable pub reduce_handle_get_result : ℕ → ℕ → NetworkState → NetworkState
reduce_handle_get_result payload key st = record st {
  get_query_results = Map.insert key (some (ok payload)) st.get_query_results;
  query_timeouts = Map.remove key st.query_timeouts;
}

abbrev logged :
    ℕ
    → DirectMessage
    → Timeout
    → NetworkState
    → HcResult (Unit {0})
    → HcResult (Unit {0}) × NetworkState
logged id message maybe_until st (err e) = (err e, st)
logged id message maybe_until st (ok sent) = (
  ok sent,
  record st {
    direct_message_connections = Map.insert id message st.direct_message_connections;
    direct_message_timeouts = Map.insert id maybe_until st.direct_message_timeouts;
  },
)

-- `send_message`: the connection is logged once the message is sent.
unfoldable pub send_message :
    NetworkHost
    → (space agent to_agent_id : ℕ) → DirectMessage
    → Timeout
    → NetworkState
    → HcResult (Unit {0}) × NetworkState
unfolding send
send_message host space agent to_agent_id message until st =
    logged host.fresh_id message until st
      (send host (send_direct_message host.fresh_id space to_agent_id agent message) st)

unfoldable pub get_validation_package_inner :
    NetworkHost → ChainHeader → ℕ → Timeout → NetworkState → HcResult (Unit {0}) × NetworkState
unfolding initialized send_message
get_validation_package_inner host header key until st = elim (initialized st) [
  | err e ↦ (err e, st)
  | ok (space, agent) ↦ elim header.provenances [
    | [] ↦ (err error_generic, st)
    | p ∷ _ ↦ send_message host space agent p.source (request_validation_package key) until st
  ]
]

abbrev pub get_validation_package_message_timeout_ms : ℕ
get_validation_package_message_timeout_ms = 61000

unfoldable pub reduce_get_validation_package :
    NetworkHost → ℕ → ChainHeader → NetworkState → NetworkState
unfolding get_validation_package_inner
reduce_get_validation_package host key header st =
    let until : Timeout = (host.now, get_validation_package_message_timeout_ms) in
    let (result, st') = get_validation_package_inner host header key until st in
    record st' {
      get_validation_package_results =
          Map.insert key (waiting_or_error result) st'.get_validation_package_results;
      get_validation_package_timeouts = Map.insert key until st'.get_validation_package_timeouts;
    }

-- Without any result, an open or a cleared request gets the error.
unfoldable pub reduce_get_validation_package_timeout : ℕ → NetworkState → NetworkState
reduce_get_validation_package_timeout key st =
    let st' = record st {
      get_validation_package_timeouts = Map.remove key st.get_validation_package_timeouts;
    } in
    let timed_out = record st' {
      get_validation_package_results =
          Map.insert key (some (err timeout)) st.get_validation_package_results;
    } in
    elim (Map.get key st.get_validation_package_results) [
      | none ↦ timed_out
      | some none ↦ timed_out
      | some (some _) ↦ st'
    ]

unfoldable pub reduce_handle_get_validation_package :
    NetworkHost → ℕ → ℕ → Option ValidationPackage → NetworkState → Option NetworkState
unfolding cache_validation
reduce_handle_get_validation_package host responder key maybe_validation_package st =
    let st' = record st {
      get_validation_package_results =
          Map.insert key (some (ok maybe_validation_package)) st.get_validation_package_results;
    } in
    elim maybe_validation_package [
      | none ↦ some st'
      | some found ↦ cache_validation host responder found st'
    ]

unfoldable pub reduce_handle_custom_send_response : ℕ → Option ℕ → NetworkState → NetworkState
reduce_handle_custom_send_response msg_id response st = record st {
  custom_direct_message_replys =
      Map.insert msg_id (elim response [ none ↦ err error_generic | some r ↦ ok r ])
        st.custom_direct_message_replys;
}

unfoldable pub reduce_resolve_direct_connection : ℕ → NetworkState → NetworkState
reduce_resolve_direct_connection id st = record st {
  direct_message_connections = Map.remove id st.direct_message_connections;
  direct_message_timeouts = Map.remove id st.direct_message_timeouts;
}

-- The timeout is kept first. A message that is no response is logged as open before it is sent, and
-- an error of sending is only printed.
unfoldable pub reduce_send_direct_message :
    ℕ → DirectMessage → (is_response : Bool) → Option Timeout → NetworkState → NetworkState
unfolding initialized
reduce_send_direct_message msg_id message is_response maybe_timeout st =
    let st' = record st {
      direct_message_timeouts = insert_if msg_id maybe_timeout st.direct_message_timeouts;
    } in
    elim (initialized st') [
      | err _ ↦ st'
      | ok _ ↦ if is_response then st' else record st' {
        direct_message_connections = Map.insert msg_id message st.direct_message_connections;
      }
    ]

unfoldable pub reduce_send_direct_message_timeout : ℕ → NetworkState → NetworkState
reduce_send_direct_message_timeout id st =
    let st' = record st {
      direct_message_timeouts = Map.remove id st.direct_message_timeouts;
      direct_message_connections = Map.remove id st.direct_message_connections;
    } in
    elim (Map.get id st.custom_direct_message_replys) [
      | some _ ↦ st'
      | none ↦ record st' {
        custom_direct_message_replys = Map.insert id (err timeout) st.custom_direct_message_replys;
      }
    ]
