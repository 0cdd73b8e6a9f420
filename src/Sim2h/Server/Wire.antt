-- ===== src/Sim2h/Server/Wire.antt =====
-- `WireMessage` of crates/sim2h/src/wire_message.rs, and of the protocol types of lib3h that it
-- carries the fields that the server reads. A content (the text of a direct message, an aspect, a
-- query) is a number that is passed on.
use rust_holochain.Base.{ℕ, Option, List}
use rust_holochain.Base.Map.{Map}

abbrev pub wire_version : ℕ
wire_version = 4

pub record DirectMessageData : Type 0 where
  pub space_address : ℕ
  pub to_agent_id : ℕ
  pub from_agent_id : ℕ
  pub content : ℕ

pub record EntryAspectData : Type 0 where
  pub aspect_address : ℕ
  pub aspect : ℕ

pub record EntryData : Type 0 where
  pub entry_address : ℕ
  pub aspect_list : List EntryAspectData

pub record ProvidedEntryData : Type 0 where
  pub space_address : ℕ
  pub provider_agent_id : ℕ
  pub entry : EntryData

pub record EntryListData : Type 0 where
  pub space_address : ℕ
  pub provider_agent_id : ℕ
  pub address_map : Map (List ℕ)

pub record FetchEntryResultData : Type 0 where
  pub space_address : ℕ
  pub provider_agent_id : ℕ
  pub entry : EntryData

pub record QueryEntryData : Type 0 where
  pub space_address : ℕ
  pub entry_address : ℕ
  pub requester_agent_id : ℕ
  pub query : ℕ

pub record QueryEntryResultData : Type 0 where
  pub space_address : ℕ
  pub entry_address : ℕ
  pub requester_agent_id : ℕ
  pub responder_agent_id : ℕ
  pub query_result : ℕ

pub record StatusData : Type 0 where
  pub spaces : ℕ
  pub connections : ℕ
  pub joined_connections : ℕ
  pub redundant_count : ℕ
  pub version : ℕ

pub record HelloData : Type 0 where
  pub redundant_count : ℕ
  pub version : ℕ

pub data ClientToLib3h : Type 0 where
  bootstrap : ClientToLib3h
  fetch_entry : ClientToLib3h
  join_space : (space_address agent_id : ℕ) → ClientToLib3h
  leave_space : ClientToLib3h
  publish_entry : ProvidedEntryData → ClientToLib3h
  query_entry : QueryEntryData → ClientToLib3h
  send_direct_message : DirectMessageData → ClientToLib3h

pub data ClientToLib3hResponse : Type 0 where
  bootstrap_success : ClientToLib3hResponse
  fetch_entry_result : ClientToLib3hResponse
  join_space_result : ClientToLib3hResponse
  leave_space_result : ClientToLib3hResponse
  query_entry_result : QueryEntryResultData → ClientToLib3hResponse
  client_send_direct_message_result : ClientToLib3hResponse

pub data Lib3hToClient : Type 0 where
  connected : Lib3hToClient
  handle_drop_entry : Lib3hToClient
  handle_fetch_entry :
      (space_address provider_agent_id entry_address : ℕ)
      → (aspect_address_list : Option (List ℕ)) → Lib3hToClient
  handle_get_authoring_entry_list : (space_address provider_agent_id : ℕ) → Lib3hToClient
  handle_get_gossiping_entry_list : (space_address provider_agent_id : ℕ) → Lib3hToClient
  handle_query_entry : QueryEntryData → Lib3hToClient
  handle_send_direct_message : DirectMessageData → Lib3hToClient
  handle_store_entry_aspect :
      (space_address provider_agent_id entry_address : ℕ) → EntryAspectData → Lib3hToClient
  send_direct_message_result : DirectMessageData → Lib3hToClient
  unbound : Lib3hToClient

pub data Lib3hToClientResponse : Type 0 where
  handle_drop_entry_result : Lib3hToClientResponse
  handle_fetch_entry_result : FetchEntryResultData → Lib3hToClientResponse
  handle_get_authoring_entry_list_result : EntryListData → Lib3hToClientResponse
  handle_get_gossiping_entry_list_result : EntryListData → Lib3hToClientResponse
  handle_query_entry_result : QueryEntryResultData → Lib3hToClientResponse
  handle_send_direct_message_result : DirectMessageData → Lib3hToClientResponse
  handle_store_entry_aspect_result : Lib3hToClientResponse

pub data WireMessage : Type 0 where
  client_to_lib3h : ClientToLib3h → WireMessage
  client_to_lib3h_response : ClientToLib3hResponse → WireMessage
  lib3h_to_client : Lib3hToClient → WireMessage
  lib3h_to_client_response : Lib3hToClientResponse → WireMessage
  multi_send : List Lib3hToClient → WireMessage
  multi_send_response : List Lib3hToClientResponse → WireMessage
  err : WireMessage
  ping : WireMessage
  pong : WireMessage
  hello : (version : ℕ) → WireMessage
  hello_response : HelloData → WireMessage
  status : WireMessage
  status_response : StatusData → WireMessage
  ack : (receipt_hash : ℕ) → WireMessage
  debug : WireMessage
  debug_response : WireMessage
