-- ===== src/Sim2h/Server/Payload/Signatures.antt =====
-- What a signature decides: `handle_payload` and `handle_message` of crates/sim2h/src/lib.rs.
use rust_holochain.Base.{
  ℕ, ◌≤◌, ◌≡◌, refl, ap, ◌∙◌, ◌↔◌, inl, inr, Bool, true, false, Option, none, some, List, [], ◌∷◌,
  arith, ◌==◌, ◌&&◌, Option-cases, if◌then◌else◌, length,
}
use rust_holochain.Base.Map
use rust_holochain.Sim2h.Sharding.{IsRng}
use rust_holochain.Sim2h.Space.Connect.{check_insert_connection_joins}
use rust_holochain.Sim2h.Store.{
  Store, AolEntry, Response, get_space_info_from_uri, get_agents_for_query, lookup_joined, mutate,
  get_space_mut,
}
use rust_holochain.Sim2h.Store.Coherent.{
  IsStore, get_space_mut-IsSpace, check_insert_connection_total,
}
use rust_holochain.Sim2h.Store.Query.{IsShuffle, get_agents_for_query_lem}
use rust_holochain.Sim2h.Server.Wire.{
  WireMessage, ClientToLib3h, Lib3hToClient, QueryEntryData, join_space, leave_space,
  send_direct_message, publish_entry, query_entry, bootstrap, fetch_entry, ping, status, debug,
  hello, client_to_lib3h, lib3h_to_client, client_to_lib3h_response, lib3h_to_client_response,
  multi_send_response, multi_send, err, pong, hello_response, status_response, ack, debug_response,
}
use rust_holochain.Sim2h.Server.Effects.{Sim2hHandle, Effect, sent, send_receipt, mutation}
use rust_holochain.Sim2h.Server.Handlers.{handle_message_query_entry, handle_message_join_space}
use rust_holochain.Sim2h.Server.{
  after_receipt, handle_client_to_lib3h, dispatch, handle_joined, handle_message,
}
use rust_holochain.Sim2h.Server.Payload.{
  Codec, SignedWireMessage, verify, accepted, handle_verified, handle_payload,
}

abbrev pub Returns : Option (List Effect) → Type 0
Returns o = (es : List Effect) × (o ≡ some es)

Returns-after_receipt :
    (receipt : Effect) (o : Option (List Effect)) → Returns o → Returns (after_receipt receipt o)
Returns-after_receipt receipt none (es, e) = absurd (ground arith)
Returns-after_receipt receipt (some xs) r = (receipt ∷ xs, refl)

Returns-if : (b : Bool) (o : Option (List Effect)) → Returns o → Returns (if b then o else some [])
Returns-if true o r = r
Returns-if false o r = ([], refl)

Returns-nonempty :
    (xs : List ℕ) (f : ℕ → List ℕ → List Effect)
    → 1 ≤ length xs
    → Returns (elim xs [ [] ↦ none | x ∷ rest ↦ some (f x rest) ])
Returns-nonempty [] f h = absurd (omega (arith, h))
Returns-nonempty (x ∷ xs) f h = (f x xs, refl)

module _ (codec : Codec) where
  -- A join whose signature cannot be checked at all.
  abbrev pub Unverifiable : ℕ → Type 0
  Unverifiable payload =
      (signed : SignedWireMessage) × (space : ℕ) × (agent : ℕ) × (codec.signed_of payload
        ≡ some signed)
      × (codec.wire_of signed.payload ≡ some (client_to_lib3h (join_space space agent)))
      × (verify codec signed ≡ none)

module _ (handle : Sim2hHandle) (views : ℕ → Store) (shuffles : IsShuffle handle.shuffle) where
  query_entry-Returns :
      (state : Store) (signer space : ℕ) (d : QueryEntryData)
      → Returns (handle_message_query_entry handle state signer space d)
  unfolding handle_message_query_entry
  query_entry-Returns state signer space d =
      let (_, _, asked) =
        get_agents_for_query_lem handle.lib handle.shuffle state space d.entry_address
          (some d.requester_agent_id) shuffles in
      Returns-if ((signer == d.requester_agent_id) && (d.space_address == space)) _ (
        Returns-nonempty
          (get_agents_for_query handle.lib handle.shuffle state space d.entry_address
            (some d.requester_agent_id))
          _ (asked d.requester_agent_id refl))

  client-Returns :
      (state : Store) (uri signer space : ℕ) (m : ClientToLib3h)
      → Returns (handle_client_to_lib3h handle state uri signer space m)
  unfolding handle_client_to_lib3h
  client-Returns state uri signer space (query_entry d) = query_entry-Returns state signer space d
  client-Returns state uri signer space leave_space = (_, refl)
  client-Returns state uri signer space (send_direct_message dm) = (_, refl)
  client-Returns state uri signer space (publish_entry d) = (_, refl)
  client-Returns state uri signer space bootstrap = (_, refl)
  client-Returns state uri signer space fetch_entry = (_, refl)
  client-Returns state uri signer space (join_space _ _) = (_, refl)

  dispatch-Returns :
      (uri signer space : ℕ) (m : WireMessage) → Returns (dispatch handle views uri signer space m)
  unfolding dispatch
  dispatch-Returns uri signer space (client_to_lib3h m) =
      client-Returns (views 1) uri signer space m
  dispatch-Returns uri signer space (lib3h_to_client_response m) = (_, refl)
  dispatch-Returns uri signer space (multi_send_response ms) = (_, refl)
  dispatch-Returns uri signer space _ = ([], refl)

  Returns-info :
      (o : Option (ℕ × ℕ)) (xs : List Effect) (f : ℕ → ℕ → Option (List Effect))
      → ((agent space : ℕ) → Returns (f agent space))
      → Returns (elim o [ none ↦ some xs | some (agent, space) ↦ f agent space ])
  Returns-info none xs f k = (xs, refl)
  Returns-info (some (agent, space)) xs f k = k agent space

  joined-Returns :
      (uri signer : ℕ) (m receipt : WireMessage)
      → Returns (handle_joined handle views uri m signer receipt)
  unfolding handle_joined
  joined-Returns uri signer m receipt =
      Returns-info (get_space_info_from_uri (views 0) uri) _ _ (λ agent space.
        Returns-if (agent == signer) _ (
          Returns-after_receipt _ (dispatch handle views uri signer space m)
            (dispatch-Returns uri signer space m)))

  message-Returns :
      (uri signer : ℕ) (m receipt : WireMessage)
      → Returns (handle_message handle views uri m signer receipt)
  unfolding handle_message
  message-Returns uri signer (client_to_lib3h (join_space _ _)) receipt = (_, refl)
  message-Returns uri signer (client_to_lib3h bootstrap) receipt =
      joined-Returns uri signer _ receipt
  message-Returns uri signer (client_to_lib3h fetch_entry) receipt =
      joined-Returns uri signer _ receipt
  message-Returns uri signer (client_to_lib3h leave_space) receipt =
      joined-Returns uri signer _ receipt
  message-Returns uri signer (client_to_lib3h (publish_entry _)) receipt =
      joined-Returns uri signer _ receipt
  message-Returns uri signer (client_to_lib3h (query_entry _)) receipt =
      joined-Returns uri signer _ receipt
  message-Returns uri signer (client_to_lib3h (send_direct_message _)) receipt =
      joined-Returns uri signer _ receipt
  message-Returns uri signer (client_to_lib3h_response _) receipt = (_, refl)
  message-Returns uri signer (lib3h_to_client _) receipt = (_, refl)
  message-Returns uri signer (lib3h_to_client_response _) receipt =
      joined-Returns uri signer _ receipt
  message-Returns uri signer (multi_send _) receipt = joined-Returns uri signer _ receipt
  message-Returns uri signer (multi_send_response _) receipt = joined-Returns uri signer _ receipt
  message-Returns uri signer err receipt = joined-Returns uri signer _ receipt
  message-Returns uri signer ping receipt = (_, refl)
  message-Returns uri signer pong receipt = joined-Returns uri signer _ receipt
  message-Returns uri signer (hello _) receipt = (_, refl)
  message-Returns uri signer (hello_response _) receipt = joined-Returns uri signer _ receipt
  message-Returns uri signer status receipt = (_, refl)
  message-Returns uri signer (status_response _) receipt = joined-Returns uri signer _ receipt
  message-Returns uri signer (ack _) receipt = joined-Returns uri signer _ receipt
  message-Returns uri signer debug receipt = (_, refl)
  message-Returns uri signer debug_response receipt = joined-Returns uri signer _ receipt

  module _ (codec : Codec) where
    Returns-not-none : (o : Option (List Effect)) → Returns o → o ≡ none → false ≡ true
    Returns-not-none o (es, r) e = absurd (ground arith)

    verified-panics :
        (url : ℕ) (signed : SignedWireMessage) (wire : WireMessage) (b : Option Bool)
        → handle_verified codec handle views url signed wire b ≡ none
        → b ≡ none
    unfolding handle_verified
    verified-panics url signed wire none e = refl
    verified-panics url signed wire (some false) e = absurd (ground arith)
    verified-panics url signed wire (some true) e =
        absurd
          (let c = Returns-not-none _ (message-Returns url signed.source wire _) e in ground arith)

    accepted-join :
        (signed : SignedWireMessage) (wire : WireMessage)
        → accepted codec signed wire ≡ none
        → (space : ℕ) × (agent : ℕ) × (wire ≡ client_to_lib3h (join_space space agent))
          × (verify codec signed ≡ none)
    unfolding accepted
    accepted-join signed (client_to_lib3h (join_space space agent)) e = (space, agent, refl, e)
    accepted-join signed (client_to_lib3h bootstrap) e = absurd (ground arith)
    accepted-join signed (client_to_lib3h fetch_entry) e = absurd (ground arith)
    accepted-join signed (client_to_lib3h leave_space) e = absurd (ground arith)
    accepted-join signed (client_to_lib3h (publish_entry _)) e = absurd (ground arith)
    accepted-join signed (client_to_lib3h (query_entry _)) e = absurd (ground arith)
    accepted-join signed (client_to_lib3h (send_direct_message _)) e = absurd (ground arith)
    accepted-join signed _ e = absurd (ground arith)

    panics :
        (url payload : ℕ)
        → handle_payload codec handle views url payload ≡ none
        → Unverifiable codec payload
    unfolding handle_payload
    panics url payload e = elim (Option-cases (codec.signed_of payload)) [
      | inl bad ↦ absurd (ground arith)
      | inr (signed, is) ↦ elim (Option-cases (codec.wire_of signed.payload)) [
        | inl bad ↦ absurd (ground arith)
        | inr (wire, carries) ↦
            let ends : handle_verified codec handle views url signed wire
                  (accepted codec signed wire)
                ≡ none =
              ground arith in
            let (space, agent, join, bad) =
              accepted-join signed wire (verified-panics url signed wire _ ends) in
            (signed, space, agent, is, carries ∙ ap some join, bad)
      ]
    ]

    unverifiable-panics :
        (url payload : ℕ)
        → Unverifiable codec payload
        → handle_payload codec handle views url payload ≡ none
    unfolding handle_payload accepted handle_verified
    unverifiable-panics url payload (signed, space, agent, is, carries, bad) =
        ground (arith, is, carries, bad)

    -- With a shuffle that keeps the members and their number, a payload makes the server panic
    -- exactly if it is a join whose signature cannot be checked, since it is no base64 text or the
    -- check itself fails. Every other payload is handled to its end.
    pub handle_payload_panics :
        (url payload : ℕ)
        → (handle_payload codec handle views url payload ≡ none) ↔ Unverifiable codec payload
    handle_payload_panics url payload = (panics url payload, unverifiable-panics url payload)

module _ (codec : Codec) (handle : Sim2hHandle) (views : ℕ → Store) where
  -- A join that is signed properly, by whichever agent, and asks for any agent of any space: the
  -- mutation that it brings about makes the store reach that agent at the uri of the join. This is
  -- so in a store in order, with a gossip interval of at least four milliseconds, draws as rand
  -- documents them, and if the location of the agent can be computed.
  pub join_as_other :
      (url payload space agent loc : ℕ) (signed : SignedWireMessage) (st : Store)
      → IsRng handle.lib
      → 4 ≤ st.gossip_interval
      → IsStore handle.lib st
      → handle.lib.calc_location_for_id agent ≡ some loc
      → codec.signed_of payload ≡ some signed
      → codec.wire_of signed.payload ≡ some (client_to_lib3h (join_space space agent))
      → verify codec signed ≡ some true
      → (m : AolEntry) × (es : List Effect) × (st' : Store) × (r : Response) × (handle_payload codec
            handle views url payload
          ≡ some (mutation m ∷ es))
        × (mutate handle.lib m st ≡ some (st', r))
        × (lookup_joined st' space agent ≡ some url)
  unfolding handle_payload accepted handle_verified handle_message handle_message_join_space mutate
      lookup_joined
  join_as_other url payload space agent loc signed st rng i h located is carries good =
      let s = get_space_mut space st in
      let valid = get_space_mut-IsSpace handle.lib space st h in
      let (t, done, _) =
        check_insert_connection_total handle.lib agent url st.gossip_interval s rng i valid in
      let (_, (_, _, here), _, _, _) =
        check_insert_connection_joins handle.lib agent url loc s t rng valid.coherent located
          done in
      (
        AolEntry.new_connection 0 space agent url,
        send_receipt (ack (codec.generate_ack_receipt_hash signed.payload)) signed.source url
            ∷ sent agent url
                (lib3h_to_client (Lib3hToClient.handle_get_gossiping_entry_list space agent))
            ∷ sent agent url
                (lib3h_to_client (Lib3hToClient.handle_get_authoring_entry_list space agent))
            ∷ [],
        record st { spaces = Map.insert space t st.spaces },
        Response.complete,
        ground (arith, is, carries, good),
        ground (arith, done),
        ground (arith, Map.get-insert_self space t st.spaces, here),
      )
