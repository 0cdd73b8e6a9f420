-- ===== src/Sim2h/Server/Tests.antt =====
-- Tests of the message handlers of the server, and their theorems at concrete inputs.
use rust_holochain.Base.{
  ℕ, ◌+◌, ◌*◌, ◌≡◌, refl, true, false, none, some, List, [], ◌∷◌, ◌||◌, ◌&&◌, ◌==◌, arith, ltb,
  if◌then◌else◌, All, ◌↔◌,
}
use rust_holochain.Base.Map
use rust_holochain.Base.Set
use rust_holochain.Sim2h.Sharding.{Moment, Lib3h, IsRng}
use rust_holochain.Sim2h.Space
use rust_holochain.Sim2h.Space.{Space}
use rust_holochain.Sim2h.Store.{
  Store, AolEntry, Response, new, run, at, mutate, lookup_joined, get_space_info_from_uri,
}
use rust_holochain.Sim2h.Store.Coherent.{IsStore, new-IsStore}
use rust_holochain.Sim2h.Store.Query.{IsShuffle}
use rust_holochain.Sim2h.Server.Wire.{
  WireMessage, Lib3hToClient, EntryListData, FetchEntryResultData, client_to_lib3h, lib3h_to_client,
  join_space, send_direct_message, ack, multi_send,
}
use rust_holochain.Sim2h.Server
use rust_holochain.Sim2h.Server.Effects.{Sim2hHandle, Effect, sent, mutation, send_to_joined}
use rust_holochain.Sim2h.Server.Handlers.{
  handle_message_send_dmx, handle_message_list_data, handle_message_fetch_entry_result,
}
use rust_holochain.Sim2h.Server.{handle_message, handle_joined, dispatch, handle_client_to_lib3h}
use rust_holochain.Sim2h.Server.Payload.{Codec, SignedWireMessage, handle_payload}
use rust_holochain.Sim2h.Server.Payload.Signatures.{
  Unverifiable, handle_payload_panics, join_as_other,
}
use rust_holochain.Sim2h.Server.Resync.{check, checks, check_lem}
use rust_holochain.Sim2h.Server.Confinement.Permission.{Permitted}
use rust_holochain.Sim2h.Server.Confinement.{handle_message-Permitted}
use rust_holochain.Sim2h.Server.Delivery.{frames_for, frames_for-fetch_entry_result}
use rust_holochain.Sim2h.Server.Gossip.{handle_message_list_data_lem, log_of, held, listed}

abbrev lib : Lib3h
lib = record {
  calc_location_for_id = λ id. some (id * 100);
  hashed_location = λ id. id;
  forward_distance = λ from to. from + to;
  shard_width = λ n r. 1000;
  gen_range = λ i low high. if ltb low high then some low else none;
  now = 20;
}

lib-IsRng : IsRng lib
lib-IsRng = record {
  in_range = λ i low high h. (low, ground arith, omega arith, h);
  empty_range = λ i low high h. ground arith;
}

abbrev handle : Sim2hHandle
handle = record { lib = lib; shuffle = λ xs. xs; redundant_count = 0; connection_count = 2 }

same_order : IsShuffle (λ xs. xs)
same_order = record { same_members = λ xs a. refl; same_length = λ xs. refl }

-- Agents 1 and 2 are in space 7; agent 1 holds aspect 60 of entry 50.
abbrev space : Space
space = record {
  redundancy = 0;
  all_aspects = (60, 60) ∷ [];
  entry_to_all_aspects =
      (50, record { entry_hash = 50; entry_loc = 5000; aspects = (60, 1 ∷ []) ∷ [] }) ∷ [];
  connections =
      (1, record { agent_id = 1; agent_loc = 100; uri = 101; next_gossip_check = 10 })
      ∷ (2, record { agent_id = 2; agent_loc = 200; uri = 102; next_gossip_check = 15 })
      ∷ [];
  uri_to_connection = (101, 1) ∷ (102, 2) ∷ [];
  disconnect_uri = [];
  gossip_interval = 100;
}

abbrev views : ℕ → Store
views _ = record { redundancy = 0; spaces = (7, space) ∷ []; gossip_interval = 100 }

abbrev hello_two : WireMessage
hello_two = client_to_lib3h (
    send_direct_message
      (record { space_address = 7; to_agent_id = 2; from_agent_id = 1; content = 5 }))

abbrev hello_two_effects : List Effect
hello_two_effects =
    sent 1 101 (ack 9)
    ∷ sent 2 102 (
        lib3h_to_client (
          Lib3hToClient.handle_send_direct_message
            (record { space_address = 7; to_agent_id = 2; from_agent_id = 1; content = 5 })))
    ∷ []

hello_two_handled : handle_message handle views 101 hello_two 1 (ack 9) ≡ some hello_two_effects
unfolding handle_message handle_joined dispatch handle_client_to_lib3h handle_message_send_dmx
    send_to_joined lookup_joined get_space_info_from_uri
hello_two_handled = refl

handle_message-Permitted_example : All (Permitted views 101 1) hello_two_effects
handle_message-Permitted_example =
    handle_message-Permitted handle views 101 1 hello_two (ack 9) hello_two_effects refl
      hello_two_handled

abbrev fetched : FetchEntryResultData
fetched = record {
  space_address = 7;
  provider_agent_id = 1;
  entry = record {
    entry_address = 50;
    aspect_list = record { aspect_address = 60; aspect = 6 } ∷ [];
  };
}

frames_for-fetch_entry_result_example :
    frames_for 2 (handle_message_fetch_entry_result handle (views 1) 1 7 fetched)
    ≡ (
      102,
      multi_send (
          Lib3hToClient.handle_store_entry_aspect 7 2 50
            (record { aspect_address = 60; aspect = 6 })
          ∷ []),
    )
      ∷ []
unfolding lookup_joined Server.Handlers.get_agents_that_need_aspect
    Space.get_agents_that_need_aspect Space.not_holding Space.get_agents_that_should_hold_entry
    Map.keys Set.insert
frames_for-fetch_entry_result_example = frames_for-fetch_entry_result handle (views 1) 1 7 fetched 2

-- Payload 1 is a join of agent 5 to space 7 with a proper signature of agent 6, payload 2 one whose
-- signature is no base64 text.
abbrev codec : Codec
codec = record {
  signed_of = λ p. some (record { source = 6; signature = p; payload = p });
  wire_of = λ p. some (client_to_lib3h (join_space 7 5));
  base64_decode = λ s. if s == 2 then none else some s;
  verify_bufs = λ a p s. some true;
  generate_ack_receipt_hash = λ p. p;
}

handle_payload_panics_example :
    (handle_payload codec handle views 105 2 ≡ none) ↔ Unverifiable codec 2
handle_payload_panics_example = handle_payload_panics handle views same_order codec 105 2

abbrev empty : Store
empty = new 0 100

join_as_other_example :
    (m : AolEntry) × (es : List Effect) × (st' : Store) × (r : Response) × (handle_payload codec
        handle views 105 1
      ≡ some (mutation m ∷ es))
    × (mutate lib m empty ≡ some (st', r))
    × (lookup_joined st' 7 5 ≡ some 105)
unfolding new Server.Payload.verify
join_as_other_example =
    join_as_other codec handle views 105 1 7 5 500
      (record { source = 6; signature = 1; payload = 1 }) empty lib-IsRng (omega arith)
      (new-IsStore lib 0 100) refl refl refl refl

-- Entry 50 was recorded at 1000 and is asked for again at 2000; entry 51 is checked in between.
check_lem_example :
    (false ≡ false)
    × ((check 2999 50 (checks ((2500, 51) ∷ []) (check 2000 50 ((50, 1000) ∷ [])).1)).0 ≡ true)
unfolding check Map.remove_where
check_lem_example =
    check_lem 2000 50 2999 ((2500, 51) ∷ []) ((50, 1000) ∷ []) (refl, tt) refl (omega arith, tt)
      (omega arith)

abbrev gossip_list : EntryListData
gossip_list = record {
  space_address = 7;
  provider_agent_id = 1;
  address_map = (50, 60 ∷ 61 ∷ []) ∷ (51, []) ∷ [];
}

abbrev moment : Moment
moment = record { time = 30; draw = λ i low high. if ltb low high then some low else none }

moment-IsRng : IsRng (at lib moment)
moment-IsRng = record {
  in_range = λ i low high h. (low, ground arith, omega arith, h);
  empty_range = λ i low high h. ground arith;
}

handle_message_list_data_lem_example :
    (st' : Store) × (run lib (log_of moment (handle_message_list_data 1 7 gossip_list)) empty
      ≡ some st')
    × IsStore lib st'
    × ((f x b : ℕ)
        → held st' 7 f x b
          ≡ (held empty 7 f x b || (listed f x gossip_list.address_map && (1 == b))))
unfolding new
handle_message_list_data_lem_example =
    handle_message_list_data_lem lib moment moment-IsRng 7 1 gossip_list empty refl refl
      (omega arith) (new-IsStore lib 0 100)
