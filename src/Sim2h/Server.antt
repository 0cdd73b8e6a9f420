-- ===== src/Sim2h/Server.antt =====
-- Which message goes to which handler: crates/sim2h/src/lib.rs. A handler is run in one or
-- more tokio tasks; the effects that it has on the store and on the connections are listed here in
-- the order in which the code issues them. Each `get_clone()` is a read of the store at some later
-- moment: the n-th read of a message is `views n`. `none` is a panic, on which the process exits.
-- The tracing spans that the messages carry are left out.
pub mod Wire
pub mod Effects
pub mod Handlers
pub mod Payload
pub mod Resync
pub mod Confinement
pub mod Delivery
pub mod Gossip
mod Tests
use rust_holochain.Base.{
  ℕ, suc, ◌+◌, ◌≡◌, refl, Bool, true, false, Option, none, some, List, [], ◌∷◌, ◌++◌, not, ◌&&◌,
  ◌||◌, arith, ◌==◌, if◌then◌else◌, length,
}
use rust_holochain.Base.Map
use rust_holochain.Base.Map.{Map}
use rust_holochain.Base.Set
use rust_holochain.Base.Set.{Set}
use rust_holochain.Sim2h.Sharding.{Lib3h}
use rust_holochain.Sim2h.Space
use rust_holochain.Sim2h.Space.{Space}
use rust_holochain.Sim2h.Store
use rust_holochain.Sim2h.Store.{Store, AolEntry, lookup_joined, get_space_info_from_uri}
use rust_holochain.Sim2h.Server.Wire.{
  WireMessage, ClientToLib3h, Lib3hToClient, Lib3hToClientResponse, ClientToLib3hResponse,
  DirectMessageData, ProvidedEntryData, EntryListData, FetchEntryResultData, QueryEntryData,
  QueryEntryResultData, EntryAspectData, wire_version, join_space, leave_space, send_direct_message,
  publish_entry, query_entry, bootstrap, fetch_entry, handle_send_direct_message_result,
  handle_get_authoring_entry_list_result, handle_get_gossiping_entry_list_result,
  handle_fetch_entry_result, handle_query_entry_result, handle_drop_entry_result,
  handle_store_entry_aspect_result, ping, status, debug, hello, client_to_lib3h, lib3h_to_client,
  client_to_lib3h_response, lib3h_to_client_response, multi_send_response,
}
use rust_holochain.Sim2h.Server.Effects.{
  Sim2hHandle, Effect, disconnect, send_receipt, send_to_joined, send_to_all,
}
use rust_holochain.Sim2h.Server.Handlers.{
  handle_message_ping, joined_connections, handle_message_hello, handle_message_status,
  handle_message_debug, handle_message_join_space, handle_message_send_dmx, handle_message_send_dm,
  handle_message_send_dm_result, store_aspects, handle_message_publish_entry, hold_listed,
  handle_message_list_data, get_agents_that_need_aspect, aspects_needed, fetches,
  handle_message_authoring_entry_list, push_for, push_for_all, group_by_agent, send_grouped,
  handle_message_fetch_entry_result, handle_message_query_entry, handle_message_query_entry_result,
}

unfoldable pub handle_client_to_lib3h :
    Sim2hHandle → Store → ℕ → ℕ → ℕ → ClientToLib3h → Option (List Effect)
handle_client_to_lib3h handle state uri signer space_hash leave_space = some (disconnect (uri ∷ []))
handle_client_to_lib3h handle state uri signer space_hash (send_direct_message dm) =
    some (handle_message_send_dm state space_hash dm)
handle_client_to_lib3h handle state uri signer space_hash (publish_entry published) =
    some (handle_message_publish_entry handle state signer space_hash published)
handle_client_to_lib3h handle state uri signer space_hash (query_entry query) =
    handle_message_query_entry handle state signer space_hash query
handle_client_to_lib3h handle state uri signer space_hash _ = some []

unfoldable pub handle_lib3h_to_client_response :
    Sim2hHandle → Store → ℕ → ℕ → ℕ → Lib3hToClientResponse → List Effect
handle_lib3h_to_client_response handle state uri signer space_hash
      (handle_send_direct_message_result dm) =
    handle_message_send_dm_result state space_hash dm
handle_lib3h_to_client_response handle state uri signer space_hash
      (handle_get_authoring_entry_list_result list_data) =
    handle_message_list_data signer space_hash list_data
    ++ handle_message_authoring_entry_list handle state uri signer space_hash list_data
handle_lib3h_to_client_response handle state uri signer space_hash
      (handle_get_gossiping_entry_list_result list_data) =
    handle_message_list_data signer space_hash list_data
handle_lib3h_to_client_response handle state uri signer space_hash
      (handle_fetch_entry_result fetch_result) =
    handle_message_fetch_entry_result handle state signer space_hash fetch_result
handle_lib3h_to_client_response handle state uri signer space_hash
      (handle_query_entry_result result) =
    handle_message_query_entry_result state signer space_hash result
handle_lib3h_to_client_response handle state uri signer space_hash _ = []

-- The loop over the messages of a `MultiSendResponse`; each starts its own tasks.
unfoldable pub handle_responses :
    Sim2hHandle → (ℕ → Store) → ℕ → ℕ → ℕ → ℕ → List Lib3hToClientResponse → List Effect
handle_responses handle views n uri signer space_hash [] = []
handle_responses handle views n uri signer space_hash (m ∷ ms) =
    handle_lib3h_to_client_response handle (views n) uri signer space_hash m
    ++ handle_responses handle views (suc n) uri signer space_hash ms

-- What a member of a space may send.
unfoldable pub dispatch : Sim2hHandle → (ℕ → Store) → ℕ → ℕ → ℕ → WireMessage → Option (List Effect)
dispatch handle views uri signer space_hash (client_to_lib3h m) =
    handle_client_to_lib3h handle (views 1) uri signer space_hash m
dispatch handle views uri signer space_hash (lib3h_to_client_response m) =
    some (handle_lib3h_to_client_response handle (views 1) uri signer space_hash m)
dispatch handle views uri signer space_hash (multi_send_response ms) =
    some (handle_responses handle views 1 uri signer space_hash ms)
dispatch handle views uri signer space_hash _ = some []

abbrev pub after_receipt : Effect → Option (List Effect) → Option (List Effect)
after_receipt receipt none = none
after_receipt receipt (some effects) = some (receipt ∷ effects)

-- The rest of `handle_message`, for which the sender has to be in a space.
unfoldable pub handle_joined :
    Sim2hHandle → (ℕ → Store) → ℕ → WireMessage → ℕ → WireMessage → Option (List Effect)
handle_joined handle views uri message signer receipt =
    elim (get_space_info_from_uri (views 0) uri) [
      | none ↦ some (disconnect (uri ∷ []))
      | some (agent_id, space_hash) ↦
          if agent_id == signer
          then after_receipt (send_receipt receipt signer uri)
              (dispatch handle views uri signer space_hash message)
          else some []
    ]

unfoldable pub handle_message :
    Sim2hHandle → (ℕ → Store) → ℕ → WireMessage → ℕ → WireMessage → Option (List Effect)
handle_message handle views uri (lib3h_to_client _) signer receipt = some []
handle_message handle views uri (client_to_lib3h_response _) signer receipt = some []
handle_message handle views uri ping signer receipt = some (handle_message_ping uri signer receipt)
handle_message handle views uri status signer receipt =
    some (handle_message_status handle (views 0) uri signer receipt)
handle_message handle views uri debug signer receipt =
    some (handle_message_debug uri signer receipt)
handle_message handle views uri (hello version) signer receipt =
    some (handle_message_hello handle uri signer version receipt)
handle_message handle views uri (client_to_lib3h (join_space space_address agent_id)) signer
      receipt =
    some (handle_message_join_space uri signer space_address agent_id receipt)
handle_message handle views uri message signer receipt =
    handle_joined handle views uri message signer receipt
