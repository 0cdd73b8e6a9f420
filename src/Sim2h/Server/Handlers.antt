-- ===== src/Sim2h/Server/Handlers.antt =====
-- The handlers of single messages in crates/sim2h/src/lib.rs, `spawn_handle_message_...` and
-- `handle_message_join_space`. A handler is given the read of the store that its task makes.
use rust_holochain.Base.{
  ℕ, ◌+◌, Option, none, some, List, [], ◌∷◌, ◌++◌, ◌&&◌, ◌==◌, if◌then◌else◌, length,
}
use rust_holochain.Base.Map
use rust_holochain.Base.Map.{Map}
use rust_holochain.Base.Set
use rust_holochain.Base.Set.{Set}
use rust_holochain.Sim2h.Sharding.{Lib3h}
use rust_holochain.Sim2h.Space
use rust_holochain.Sim2h.Space.{Space}
use rust_holochain.Sim2h.Store
use rust_holochain.Sim2h.Store.{Store, AolEntry, lookup_joined, get_space_info_from_uri}
use rust_holochain.Sim2h.Server.Wire.{
  WireMessage, Lib3hToClient, ClientToLib3hResponse, DirectMessageData, ProvidedEntryData,
  EntryListData, FetchEntryResultData, QueryEntryData, QueryEntryResultData, EntryAspectData,
  wire_version, lib3h_to_client, client_to_lib3h_response,
}
use rust_holochain.Sim2h.Server.Effects.{
  Sim2hHandle, Effect, disconnect, send_receipt, send_to_joined, send_to_all, sent, mutation,
}

unfoldable pub handle_message_ping : ℕ → ℕ → WireMessage → List Effect
handle_message_ping uri signer receipt =
    sent signer uri WireMessage.pong ∷ send_receipt receipt signer uri ∷ []

unfoldable pub joined_connections : Map Space → ℕ
joined_connections [] = 0
joined_connections ((_, space) ∷ rest) = length space.connections + joined_connections rest

unfoldable pub handle_message_hello : Sim2hHandle → ℕ → ℕ → ℕ → WireMessage → List Effect
handle_message_hello handle uri signer version receipt =
    sent signer uri (
      WireMessage.hello_response
        (record { redundant_count = handle.redundant_count; version = wire_version }))
    ∷ send_receipt receipt signer uri
    ∷ (if version == wire_version then [] else disconnect (uri ∷ []))

unfoldable pub handle_message_status : Sim2hHandle → Store → ℕ → ℕ → WireMessage → List Effect
handle_message_status handle state uri signer receipt =
    sent signer uri (
      WireMessage.status_response (record {
        spaces = length state.spaces;
        connections = handle.connection_count;
        joined_connections = joined_connections state.spaces;
        redundant_count = handle.redundant_count;
        version = wire_version;
      }))
    ∷ send_receipt receipt signer uri
    ∷ []

-- The text of the answer and the files that the handler writes are left out.
abbrev pub handle_message_debug : ℕ → ℕ → WireMessage → List Effect
handle_message_debug uri signer receipt =
    sent signer uri WireMessage.debug_response ∷ send_receipt receipt signer uri ∷ []

unfoldable pub handle_message_join_space :
    ℕ → ℕ → (space_address agent_id : ℕ) → WireMessage → List Effect
handle_message_join_space uri signer space_address agent_id receipt =
    mutation (AolEntry.new_connection 0 space_address agent_id uri)
    ∷ send_receipt receipt signer uri
    ∷ sent agent_id uri
        (lib3h_to_client (Lib3hToClient.handle_get_gossiping_entry_list space_address agent_id))
    ∷ sent agent_id uri
        (lib3h_to_client (Lib3hToClient.handle_get_authoring_entry_list space_address agent_id))
    ∷ []

unfoldable pub handle_message_send_dmx : Store → ℕ → ℕ → ℕ → WireMessage → List Effect
handle_message_send_dmx state to_agent_id data_space_hash space_hash message =
    if data_space_hash == space_hash
    then send_to_joined state space_hash to_agent_id message
    else []

abbrev pub handle_message_send_dm : Store → ℕ → DirectMessageData → List Effect
handle_message_send_dm state space_hash dm =
    handle_message_send_dmx state dm.to_agent_id dm.space_address space_hash
      (lib3h_to_client (Lib3hToClient.handle_send_direct_message dm))

abbrev pub handle_message_send_dm_result : Store → ℕ → DirectMessageData → List Effect
handle_message_send_dm_result state space_hash dm =
    handle_message_send_dmx state dm.to_agent_id dm.space_address space_hash
      (lib3h_to_client (Lib3hToClient.send_direct_message_result dm))

-- One message for each aspect of the entry.
unfoldable pub store_aspects : ℕ → ℕ → ℕ → List EntryAspectData → List Lib3hToClient
store_aspects space_hash provider entry_address [] = []
store_aspects space_hash provider entry_address (aspect ∷ aspects) =
    Lib3hToClient.handle_store_entry_aspect space_hash provider entry_address aspect
    ∷ store_aspects space_hash provider entry_address aspects

unfoldable pub handle_message_publish_entry :
    Sim2hHandle → Store → ℕ → ℕ → ProvidedEntryData → List Effect
handle_message_publish_entry handle state signer space_hash published =
    if published.space_address == space_hash
    then elim (store_aspects space_hash signer published.entry.entry_address
        published.entry.aspect_list) [
          | [] ↦ []
          | m ∷ ms ↦
              elim (Store.get_agents_that_should_hold_entry handle.lib state space_hash
                published.entry.entry_address) [
                  | none ↦ []
                  | some send_to ↦
                      send_to_all state space_hash send_to (WireMessage.multi_send (m ∷ ms))
                ]
        ]
    else []

-- The loop over the address map: an entry without aspects is skipped.
unfoldable pub hold_listed : ℕ → ℕ → Map (List ℕ) → List Effect
hold_listed space_hash signer [] = []
hold_listed space_hash signer ((entry_hash, []) ∷ rest) = hold_listed space_hash signer rest
hold_listed space_hash signer ((entry_hash, a ∷ aspects) ∷ rest) =
    mutation (AolEntry.agent_holds_aspects 0 space_hash signer entry_hash (a ∷ aspects))
    ∷ hold_listed space_hash signer rest

unfoldable pub handle_message_list_data : ℕ → ℕ → EntryListData → List Effect
handle_message_list_data signer space_hash list_data =
    if (signer == list_data.provider_agent_id) && (list_data.space_address == space_hash)
    then hold_listed space_hash signer list_data.address_map
    else []

-- `Store::get_agents_that_need_aspect`: nobody, for an unknown space.
unfoldable pub get_agents_that_need_aspect : Lib3h → Store → ℕ → ℕ → ℕ → Set
get_agents_that_need_aspect lib state space_hash entry_hash aspect_hash =
    elim (Map.get space_hash state.spaces) [
      | none ↦ []
      | some space ↦ Space.get_agents_that_need_aspect lib space entry_hash aspect_hash
    ]

unfoldable pub aspects_needed : Lib3h → Store → ℕ → ℕ → List ℕ → List ℕ
aspects_needed lib state space_hash entry_hash [] = []
aspects_needed lib state space_hash entry_hash (aspect ∷ aspects) =
    let rest = aspects_needed lib state space_hash entry_hash aspects in
    if Set.is_empty (get_agents_that_need_aspect lib state space_hash entry_hash aspect)
    then rest
    else aspect ∷ rest

unfoldable pub fetches : Lib3h → Store → ℕ → ℕ → Map (List ℕ) → List Lib3hToClient
fetches lib state space_hash signer [] = []
fetches lib state space_hash signer ((entry_hash, aspects) ∷ rest) =
    elim (aspects_needed lib state space_hash entry_hash aspects) [
      | [] ↦ fetches lib state space_hash signer rest
      | a ∷ needed ↦
          Lib3hToClient.handle_fetch_entry space_hash signer entry_hash (some (a ∷ needed))
          ∷ fetches lib state space_hash signer rest
    ]

unfoldable pub handle_message_authoring_entry_list :
    Sim2hHandle → Store → ℕ → ℕ → ℕ → EntryListData → List Effect
handle_message_authoring_entry_list handle state uri signer space_hash list_data =
    if (signer == list_data.provider_agent_id) && (list_data.space_address == space_hash)
    then elim (fetches handle.lib state space_hash signer list_data.address_map) [
      | [] ↦ []
      | m ∷ ms ↦ sent signer uri (WireMessage.multi_send (m ∷ ms)) ∷ []
    ]
    else []

-- `to_agent`: what each agent is to be sent. `entry(agent).or_default().push(m)`.
unfoldable pub push_for : ℕ → Lib3hToClient → Map (List Lib3hToClient) → Map (List Lib3hToClient)
push_for agent_id m to_agent =
    Map.insert agent_id
      (elim (Map.get agent_id to_agent) [ none ↦ m ∷ [] | some ms ↦ ms ++ (m ∷ []) ]) to_agent

unfoldable pub push_for_all :
    ℕ → ℕ → EntryAspectData → Set → Map (List Lib3hToClient) → Map (List Lib3hToClient)
push_for_all space_hash entry_address aspect [] to_agent = to_agent
push_for_all space_hash entry_address aspect (agent_id ∷ agents) to_agent =
    push_for_all space_hash entry_address aspect agents (
      push_for agent_id
        (Lib3hToClient.handle_store_entry_aspect space_hash agent_id entry_address aspect) to_agent)

unfoldable pub group_by_agent :
    Lib3h
    → Store
    → ℕ
    → ℕ
    → List EntryAspectData
    → Map (List Lib3hToClient)
    → Map (List Lib3hToClient)
group_by_agent lib state space_hash entry_address [] to_agent = to_agent
group_by_agent lib state space_hash entry_address (aspect ∷ aspects) to_agent =
    group_by_agent lib state space_hash entry_address aspects (
      push_for_all space_hash entry_address aspect
        (get_agents_that_need_aspect lib state space_hash entry_address aspect.aspect_address)
        to_agent)

unfoldable pub send_grouped : Store → ℕ → Map (List Lib3hToClient) → List Effect
send_grouped state space_hash [] = []
send_grouped state space_hash ((agent_id, multi_message) ∷ rest) =
    send_to_joined state space_hash agent_id (WireMessage.multi_send multi_message)
    ++ send_grouped state space_hash rest

unfoldable pub handle_message_fetch_entry_result :
    Sim2hHandle → Store → ℕ → ℕ → FetchEntryResultData → List Effect
handle_message_fetch_entry_result handle state signer space_hash fetch_result =
    if (signer == fetch_result.provider_agent_id) && (fetch_result.space_address == space_hash)
    then send_grouped state space_hash (
        group_by_agent handle.lib state space_hash fetch_result.entry.entry_address
          fetch_result.entry.aspect_list [])
    else []

-- `holding_agents[0]` panics on an empty answer.
unfoldable pub handle_message_query_entry :
    Sim2hHandle → Store → ℕ → ℕ → QueryEntryData → Option (List Effect)
handle_message_query_entry handle state signer space_hash query =
    if (signer == query.requester_agent_id) && (query.space_address == space_hash)
    then elim (Store.get_agents_for_query handle.lib handle.shuffle state space_hash
        query.entry_address (some query.requester_agent_id)) [
          | [] ↦ none
          | query_target ∷ _ ↦ some (
              send_to_joined state space_hash query_target
                (lib3h_to_client (Lib3hToClient.handle_query_entry query)))
        ]
    else some []

unfoldable pub handle_message_query_entry_result :
    Store → ℕ → ℕ → QueryEntryResultData → List Effect
handle_message_query_entry_result state signer space_hash result =
    if (signer == result.responder_agent_id) && (result.space_address == space_hash)
    then send_to_joined state space_hash result.requester_agent_id
        (client_to_lib3h_response (ClientToLib3hResponse.query_entry_result result))
    else []
