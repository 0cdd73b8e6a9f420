-- ===== src/Network/State.antt =====
-- The state of crates/core/src/network/state.rs, its actions, and the cache of source chains that it
-- keeps for validation. `none` is a panic.
use rust_holochain.Base.{ℕ, Bool, Option, none, some, List, [], ◌∷◌, ltb, if◌then◌else◌}
use rust_holochain.Base.Map
use rust_holochain.Base.Map.{Map}
use rust_holochain.CoreTypes.{HcResult, ok, err, error_generic, ChainHeader, Entry}

pub record ValidationPackage : Type 0 where
  pub chain_header : ChainHeader
  pub source_chain_entries : Option (List Entry)
  pub source_chain_headers : Option (List ChainHeader)
  pub custom : Option ℕ

pub record ValidationCacheData : Type 0 where
  pub entries : Option (List Entry)
  pub headers : List ChainHeader
  pub cached_at : ℕ

pub data DirectMessage : Type 0 where
  request_validation_package : (key : ℕ) → DirectMessage
  custom_message : ℕ → DirectMessage
  validation_package : Option ValidationPackage → DirectMessage

-- The messages of lib3h that the reducers send.
pub data Lib3hClientProtocol : Type 0 where
  query_entry : (requester space key : ℕ) → Lib3hClientProtocol
  send_direct_message : (request_id space to from : ℕ) → DirectMessage → Lib3hClientProtocol
  handle_send_direct_message_result :
      (request_id space to from : ℕ) → DirectMessage → Lib3hClientProtocol

-- A time and how long to wait from it.
abbrev pub Timeout : Type 0
Timeout = ℕ × ℕ

pub record NetworkState : Type 0 where
  pub network : Option ℕ
  pub dna_address : Option ℕ
  pub agent_id : Option ℕ
  pub get_query_results : Map (Option (HcResult ℕ))
  pub query_timeouts : Map Timeout
  pub get_validation_package_results : Map (Option (HcResult (Option ValidationPackage)))
  pub get_validation_package_timeouts : Map Timeout
  pub direct_message_connections : Map DirectMessage
  pub direct_message_timeouts : Map Timeout
  pub custom_direct_message_replys : Map (HcResult ℕ)
  pub validation_cache : Map ValidationCacheData

-- The connection (crate net), the clock, and the fresh ids of nanoid.
pub record NetworkHost : Type 0 where
  pub send_over : ℕ → Lib3hClientProtocol → HcResult (Unit {0})
  pub now : ℕ
  pub fresh_id : ℕ

pub data Action : Type 0 where
  clear_query_result clear_validation_package_result clear_custom_send_response : ℕ → Action
  query : (key : ℕ) → Option Timeout → Action
  query_timeout : (key : ℕ) → Action
  handle_query : (payload key : ℕ) → Action
  get_validation_package : (key : ℕ) → ChainHeader → Action
  get_validation_package_timeout : (key : ℕ) → Action
  handle_get_validation_package : (responder key : ℕ) → Option ValidationPackage → Action
  handle_custom_send_response : (msg_id : ℕ) → Option ℕ → Action
  resolve_direct_connection : (id : ℕ) → Action
  send_message_to :
      (address msg_id : ℕ) → DirectMessage → (is_response : Bool) → Option Timeout → Action
  send_direct_message_timeout : (id : ℕ) → Action
  other : Action

unfoldable pub new : NetworkState
new = record {
  network = none;
  dna_address = none;
  agent_id = none;
  get_query_results = [];
  query_timeouts = [];
  get_validation_package_results = [];
  get_validation_package_timeouts = [];
  direct_message_connections = [];
  direct_message_timeouts = [];
  custom_direct_message_replys = [];
  validation_cache = [];
}

-- `initialized`: the connection, the space and the agent, which the callers unwrap.
unfoldable pub initialized : NetworkState → HcResult (ℕ × ℕ)
initialized st = elim st.network [
  | none ↦ err error_generic
  | some _ ↦ elim st.dna_address [
    | none ↦ err error_generic
    | some space ↦ elim st.agent_id [ none ↦ err error_generic | some agent ↦ ok (space, agent) ]
  ]
]

unfoldable pub send : NetworkHost → Lib3hClientProtocol → NetworkState → HcResult (Unit {0})
send host msg st = elim st.network [
  | none ↦ err error_generic
  | some network ↦ host.send_over network msg
]

abbrev latest_timestamp : List ChainHeader → Option ℕ
latest_timestamp [] = none
latest_timestamp (h ∷ _) = some h.timestamp

abbrev update_cache :
    ℕ → ValidationPackage → List ChainHeader → ValidationCacheData → NetworkState → NetworkState
update_cache agent validation headers cached st = record st {
  validation_cache =
      Map.insert agent
        (record cached {
          headers = headers;
          entries = elim validation.source_chain_entries [
            | none ↦ cached.entries
            | some entries ↦ some entries
          ];
        })
        st.validation_cache;
}

-- The first header of a cached list is unwrapped.
unfoldable pub cache_headers :
    NetworkHost → ℕ → ValidationPackage → List ChainHeader → NetworkState → Option NetworkState
cache_headers host agent validation headers st = elim (Map.get agent st.validation_cache) [
  | none ↦ some (record st {
    validation_cache =
        Map.insert agent
          (record {
            entries = validation.source_chain_entries;
            headers = headers;
            cached_at = host.now;
          })
          st.validation_cache;
  })
  | some cached ↦ elim (latest_timestamp cached.headers) [
    | none ↦ none
    | some latest ↦ some (
        if ltb latest validation.chain_header.timestamp
        then update_cache agent validation headers cached st
        else st)
  ]
]

unfoldable pub cache_validation :
    NetworkHost → ℕ → ValidationPackage → NetworkState → Option NetworkState
unfolding cache_headers
cache_validation host agent validation st = elim validation.source_chain_headers [
  | none ↦ some st
  | some headers ↦ cache_headers host agent validation headers st
]
