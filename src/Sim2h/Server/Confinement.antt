-- ===== src/Sim2h/Server/Confinement.antt =====
-- What the messages of a connection can bring about: `handle_message` of crates/sim2h/src/lib.rs.
pub mod Permission
pub mod Handlers
use rust_holochain.Base.{
  ℕ, suc, ◌≡◌, refl, sym, subst, ap, ◌∙◌, ◌⊎◌, inl, inr, Bool, true, false, Option, none, some,
  List, [], ◌∷◌, ◌++◌, arith, ◌==◌, ==_iff, if◌then◌else◌, All, ◌&&◌,
}
use rust_holochain.Base.Map.{Map}
use rust_holochain.Base.Set.{Set}
use rust_holochain.Sim2h.Store
use rust_holochain.Sim2h.Store.{Store, AolEntry, lookup_joined, get_space_info_from_uri}
use rust_holochain.Sim2h.Server.Wire.{
  WireMessage, ClientToLib3h, Lib3hToClient, Lib3hToClientResponse, ProvidedEntryData,
  EntryListData, FetchEntryResultData, QueryEntryData, QueryEntryResultData, join_space,
  leave_space, send_direct_message, publish_entry, query_entry, bootstrap, fetch_entry,
  handle_send_direct_message_result, handle_get_authoring_entry_list_result,
  handle_get_gossiping_entry_list_result, handle_fetch_entry_result, handle_query_entry_result,
  handle_drop_entry_result, handle_store_entry_aspect_result, ping, status, debug, hello,
  client_to_lib3h, lib3h_to_client, client_to_lib3h_response, lib3h_to_client_response,
  multi_send_response, multi_send, err, pong, hello_response, status_response, ack, debug_response,
}
use rust_holochain.Sim2h.Server.Effects.{
  Sim2hHandle, Effect, sent, mutation, closed, disconnect, send_to_joined, send_to_all,
  send_receipt,
}
use rust_holochain.Sim2h.Server.Handlers.{
  handle_message_send_dmx, store_aspects, handle_message_publish_entry, hold_listed,
  handle_message_list_data, fetches, handle_message_authoring_entry_list, send_grouped,
  handle_message_fetch_entry_result, handle_message_query_entry, handle_message_query_entry_result,
}
use rust_holochain.Sim2h.Server.{
  handle_client_to_lib3h, handle_lib3h_to_client_response, handle_responses, dispatch,
  handle_joined, handle_message, after_receipt,
}
use rust_holochain.Sim2h.Server.Confinement.Permission.{
  before_joining, Permitted, All-append, All-if, All-some, All-nonempty, IfReturned, IfReturned-if,
  IfReturned-nonempty,
}
use rust_holochain.Sim2h.Server.Confinement.Handlers.{dispatch-Ok}

module _ (handle : Sim2hHandle) (views : ℕ → Store) (uri signer : ℕ) where
  after_receipt-Ok :
      (space : ℕ)
      → get_space_info_from_uri (views 0) uri ≡ some (signer, space)
      → (receipt : WireMessage) (o : Option (List Effect))
      → IfReturned (Permitted views uri signer) o
      → IfReturned (Permitted views uri signer) (after_receipt (send_receipt receipt signer uri) o)
  after_receipt-Ok space joined receipt none h = tt
  after_receipt-Ok space joined receipt (some es) h = ((space, joined, inl (refl, refl)), h)

  IfReturned-info :
      (o : Option (ℕ × ℕ)) (f : ℕ → ℕ → Option (List Effect))
      → All (Permitted views uri signer) (disconnect (uri ∷ []))
      → ((agent space : ℕ)
          → o ≡ some (agent, space)
          → IfReturned (Permitted views uri signer) (f agent space))
      → IfReturned
          (Permitted views uri signer)
          (elim o [ none ↦ some (disconnect (uri ∷ [])) | some (agent, space) ↦ f agent space ])
  IfReturned-info none f h k = h
  IfReturned-info (some (agent, space)) f h k = k agent space refl

  handle_joined-Ok :
      (m receipt : WireMessage)
      → IfReturned (Permitted views uri signer) (handle_joined handle views uri m signer receipt)
  unfolding handle_joined disconnect
  handle_joined-Ok m receipt =
      IfReturned-info (get_space_info_from_uri (views 0) uri) _ (refl, (refl, tt))
        (λ agent space e. IfReturned-if (Permitted views uri signer) (agent == signer) _ (λ same.
          let joined : get_space_info_from_uri (views 0) uri ≡ some (signer, space) =
            e ∙ ap (λ a. some (a, space)) ((==_iff agent signer).0 same) in
          after_receipt-Ok space joined receipt (dispatch handle views uri signer space m)
            (dispatch-Ok handle views uri signer space joined m)))

  handle_message-joined :
      (m receipt : WireMessage)
      → before_joining m ≡ false
      → handle_message handle views uri m signer receipt
        ≡ handle_joined handle views uri m signer receipt
  unfolding handle_message
  handle_message-joined (client_to_lib3h bootstrap) receipt h = refl
  handle_message-joined (client_to_lib3h fetch_entry) receipt h = refl
  handle_message-joined (client_to_lib3h (join_space _ _)) receipt h = absurd (ground arith)
  handle_message-joined (client_to_lib3h leave_space) receipt h = refl
  handle_message-joined (client_to_lib3h (publish_entry _)) receipt h = refl
  handle_message-joined (client_to_lib3h (query_entry _)) receipt h = refl
  handle_message-joined (client_to_lib3h (send_direct_message _)) receipt h = refl
  handle_message-joined (client_to_lib3h_response _) receipt h = absurd (ground arith)
  handle_message-joined (lib3h_to_client _) receipt h = absurd (ground arith)
  handle_message-joined (lib3h_to_client_response _) receipt h = refl
  handle_message-joined (multi_send _) receipt h = refl
  handle_message-joined (multi_send_response _) receipt h = refl
  handle_message-joined err receipt h = refl
  handle_message-joined ping receipt h = absurd (ground arith)
  handle_message-joined pong receipt h = refl
  handle_message-joined (hello _) receipt h = absurd (ground arith)
  handle_message-joined (hello_response _) receipt h = refl
  handle_message-joined status receipt h = absurd (ground arith)
  handle_message-joined (status_response _) receipt h = refl
  handle_message-joined (ack _) receipt h = refl
  handle_message-joined debug receipt h = absurd (ground arith)
  handle_message-joined debug_response receipt h = refl

  -- A message that needs a space, from one connection, and handled without a panic, sends frames
  -- only to its signer at that connection's uri, or to agents of the space that the signer has joined
  -- through this uri, at the uri where the store has them; it records aspects only for the signer in
  -- this space; it adds no connection; and it drops or closes only the connection it came from. If
  -- the uri is not joined, or by another agent than the signer, it sends and records nothing.
  pub handle_message-Permitted :
      (m receipt : WireMessage) (es : List Effect)
      → before_joining m ≡ false
      → handle_message handle views uri m signer receipt ≡ some es
      → All (Permitted views uri signer) es
  handle_message-Permitted m receipt es h e =
      subst (IfReturned (Permitted views uri signer)) (sym (handle_message-joined m receipt h) ∙ e)
        (handle_joined-Ok m receipt)
