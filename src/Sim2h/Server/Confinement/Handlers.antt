-- ===== src/Sim2h/Server/Confinement/Handlers.antt =====
-- The handlers of crates/sim2h/src/lib.rs do what is permitted, in a space that is joined.
use rust_holochain.Base.{ℕ, suc, ◌≡◌, refl, inl, inr, Option, some, List, [], ◌∷◌, ◌==◌, All, ◌&&◌}
use rust_holochain.Base.Map.{Map}
use rust_holochain.Base.Set.{Set}
use rust_holochain.Sim2h.Store
use rust_holochain.Sim2h.Store.{Store, AolEntry, lookup_joined, get_space_info_from_uri}
use rust_holochain.Sim2h.Server.Wire.{
  WireMessage, ClientToLib3h, Lib3hToClient, Lib3hToClientResponse, ProvidedEntryData,
  EntryListData, FetchEntryResultData, QueryEntryData, QueryEntryResultData, join_space,
  leave_space, send_direct_message, publish_entry, query_entry, bootstrap, fetch_entry,
  handle_send_direct_message_result, handle_get_authoring_entry_list_result,
  handle_get_gossiping_entry_list_result, handle_fetch_entry_result, handle_query_entry_result,
  handle_drop_entry_result, handle_store_entry_aspect_result, client_to_lib3h, lib3h_to_client,
  lib3h_to_client_response, multi_send_response, multi_send,
}
use rust_holochain.Sim2h.Server.Effects.{
  Sim2hHandle, Effect, disconnect, send_to_joined, send_to_all,
}
use rust_holochain.Sim2h.Server.Handlers.{
  handle_message_send_dmx, store_aspects, handle_message_publish_entry, hold_listed,
  handle_message_list_data, fetches, handle_message_authoring_entry_list, send_grouped,
  handle_message_fetch_entry_result, handle_message_query_entry, handle_message_query_entry_result,
}
use rust_holochain.Sim2h.Server.{
  handle_client_to_lib3h, handle_lib3h_to_client_response, handle_responses, dispatch,
}
use rust_holochain.Sim2h.Server.Confinement.Permission.{
  Permitted, All-append, All-if, All-some, All-nonempty, IfReturned, IfReturned-if,
  IfReturned-nonempty,
}

module _ (handle : Sim2hHandle) (views : ℕ → Store) (uri signer space : ℕ)
    (joined : get_space_info_from_uri (views 0) uri ≡ some (signer, space)) where
  abbrev Ok : List Effect → Type 0
  Ok = All (Permitted views uri signer)

  abbrev OkIfReturned : Option (List Effect) → Type 0
  OkIfReturned = IfReturned (Permitted views uri signer)

  send_to_joined-Ok : (n a : ℕ) (m : WireMessage) → Ok (send_to_joined (views n) space a m)
  unfolding send_to_joined
  send_to_joined-Ok n a m =
      All-some (Permitted views uri signer) (lookup_joined (views n) space a) _
        (λ u e. ((space, joined, inr (n, e)), tt))

  send_to_all-Ok :
      (n : ℕ) (agents : Set) (m : WireMessage) → Ok (send_to_all (views n) space agents m)
  unfolding send_to_all
  send_to_all-Ok n [] m = tt
  send_to_all-Ok n (a ∷ agents) m =
      All-append (Permitted views uri signer) _ _ (send_to_joined-Ok n a m)
        (send_to_all-Ok n agents m)

  send_grouped-Ok :
      (n : ℕ) (to_agent : Map (List Lib3hToClient)) → Ok (send_grouped (views n) space to_agent)
  unfolding send_grouped
  send_grouped-Ok n [] = tt
  send_grouped-Ok n ((a, ms) ∷ rest) =
      All-append (Permitted views uri signer) _ _ (send_to_joined-Ok n a (multi_send ms))
        (send_grouped-Ok n rest)

  send_dmx-Ok :
      (n to : ℕ) (data_space : ℕ) (m : WireMessage)
      → Ok (handle_message_send_dmx (views n) to data_space space m)
  unfolding handle_message_send_dmx
  send_dmx-Ok n to data_space m = All-if (Permitted views uri signer) _ _ (send_to_joined-Ok n to m)

  publish_entry-Ok :
      (n : ℕ) (d : ProvidedEntryData)
      → Ok (handle_message_publish_entry handle (views n) signer space d)
  unfolding handle_message_publish_entry
  publish_entry-Ok n d = All-if (Permitted views uri signer) _ _ (
      All-nonempty (Permitted views uri signer)
        (store_aspects space signer d.entry.entry_address d.entry.aspect_list) _
        (λ m ms.
          All-some (Permitted views uri signer)
            (Store.get_agents_that_should_hold_entry handle.lib (views n) space
              d.entry.entry_address)
            _ (λ agents _. send_to_all-Ok n agents (multi_send (m ∷ ms)))))

  hold_listed-Ok : (m : Map (List ℕ)) → Ok (hold_listed space signer m)
  unfolding hold_listed
  hold_listed-Ok [] = tt
  hold_listed-Ok ((e, []) ∷ rest) = hold_listed-Ok rest
  hold_listed-Ok ((e, a ∷ aspects) ∷ rest) = ((joined, refl), hold_listed-Ok rest)

  list_data-Ok : (d : EntryListData) → Ok (handle_message_list_data signer space d)
  unfolding handle_message_list_data
  list_data-Ok d = All-if (Permitted views uri signer) _ _ (hold_listed-Ok d.address_map)

  authoring-Ok :
      (n : ℕ) (d : EntryListData)
      → Ok (handle_message_authoring_entry_list handle (views n) uri signer space d)
  unfolding handle_message_authoring_entry_list
  authoring-Ok n d = All-if (Permitted views uri signer) _ _ (
      All-nonempty (Permitted views uri signer)
        (fetches handle.lib (views n) space signer d.address_map) _
        (λ m ms. ((space, joined, inl (refl, refl)), tt)))

  fetch_result-Ok :
      (n : ℕ) (d : FetchEntryResultData)
      → Ok (handle_message_fetch_entry_result handle (views n) signer space d)
  unfolding handle_message_fetch_entry_result
  fetch_result-Ok n d = All-if (Permitted views uri signer) _ _ (send_grouped-Ok n _)

  query_result-Ok :
      (n : ℕ) (d : QueryEntryResultData)
      → Ok (handle_message_query_entry_result (views n) signer space d)
  unfolding handle_message_query_entry_result
  query_result-Ok n d =
      All-if (Permitted views uri signer) _ _ (send_to_joined-Ok n d.requester_agent_id _)

  response-Ok :
      (n : ℕ) (m : Lib3hToClientResponse)
      → Ok (handle_lib3h_to_client_response handle (views n) uri signer space m)
  unfolding handle_lib3h_to_client_response
  response-Ok n (handle_send_direct_message_result dm) =
      send_dmx-Ok n dm.to_agent_id dm.space_address _
  response-Ok n (handle_get_authoring_entry_list_result d) =
      All-append (Permitted views uri signer) _ _ (list_data-Ok d) (authoring-Ok n d)
  response-Ok n (handle_get_gossiping_entry_list_result d) = list_data-Ok d
  response-Ok n (handle_fetch_entry_result d) = fetch_result-Ok n d
  response-Ok n (handle_query_entry_result d) = query_result-Ok n d
  response-Ok n handle_drop_entry_result = tt
  response-Ok n handle_store_entry_aspect_result = tt

  responses-Ok :
      (n : ℕ) (ms : List Lib3hToClientResponse)
      → Ok (handle_responses handle views n uri signer space ms)
  unfolding handle_responses
  responses-Ok n [] = tt
  responses-Ok n (m ∷ ms) =
      All-append (Permitted views uri signer) _ _ (response-Ok n m) (responses-Ok (suc n) ms)

  query_entry-Ok :
      (n : ℕ) (d : QueryEntryData)
      → OkIfReturned (handle_message_query_entry handle (views n) signer space d)
  unfolding handle_message_query_entry
  query_entry-Ok n d =
      IfReturned-if (Permitted views uri signer)
        ((signer == d.requester_agent_id) && (d.space_address == space)) _
        (λ _.
          IfReturned-nonempty (Permitted views uri signer)
            (Store.get_agents_for_query handle.lib handle.shuffle (views n) space d.entry_address
              (some d.requester_agent_id))
            _
            (λ a rest.
              send_to_joined-Ok n a (lib3h_to_client (Lib3hToClient.handle_query_entry d))))

  client-Ok :
      (n : ℕ) (m : ClientToLib3h)
      → OkIfReturned (handle_client_to_lib3h handle (views n) uri signer space m)
  unfolding handle_client_to_lib3h disconnect
  client-Ok n leave_space = (refl, (refl, tt))
  client-Ok n (send_direct_message dm) = send_dmx-Ok n dm.to_agent_id dm.space_address _
  client-Ok n (publish_entry d) = publish_entry-Ok n d
  client-Ok n (query_entry d) = query_entry-Ok n d
  client-Ok n bootstrap = tt
  client-Ok n fetch_entry = tt
  client-Ok n (join_space _ _) = tt

  pub dispatch-Ok : (m : WireMessage) → OkIfReturned (dispatch handle views uri signer space m)
  unfolding dispatch
  dispatch-Ok (client_to_lib3h m) = client-Ok 1 m
  dispatch-Ok (lib3h_to_client_response m) = response-Ok 1 m
  dispatch-Ok (multi_send_response ms) = responses-Ok 1 ms
  dispatch-Ok _ = tt
