-- ===== src/Sim2h/Server/Payload.antt =====
-- How a frame becomes a message: `priv_handle_recv_data`, `handle_payload` and
-- `priv_check_incoming_messages` of crates/sim2h/src/lib.rs, and `SignedWireMessage::verify` of
-- crates/sim2h/src/crypto.rs.
pub mod Signatures
use rust_holochain.Base.{
  ℕ, zero, suc, ◌≡◌, refl, Bool, true, false, Option, none, some, List, [], ◌∷◌, ◌++◌, Option-cases,
}
use rust_holochain.Sim2h.Store.{Store}
use rust_holochain.Sim2h.Server.Wire.{WireMessage, ClientToLib3h, client_to_lib3h, join_space}
use rust_holochain.Sim2h.Server.Effects.{Sim2hHandle, Effect, disconnect}
use rust_holochain.Sim2h.Server.{handle_message}

-- The signer is the source of the provenance.
pub record SignedWireMessage : Type 0 where
  pub source : ℕ
  pub signature : ℕ
  pub payload : ℕ

-- Serde, base64, sodium and the hash of the receipts. `verify_bufs` is `none` for an error, such as
-- a key that cannot be decoded.
pub record Codec : Type 0 where
  pub signed_of : ℕ → Option SignedWireMessage
  pub wire_of : ℕ → Option WireMessage
  pub base64_decode : ℕ → Option ℕ
  pub verify_bufs : (source payload signature : ℕ) → Option Bool
  pub generate_ack_receipt_hash : ℕ → ℕ

pub data WsFrame : Type 0 where
  text : WsFrame
  binary : ℕ → WsFrame
  ping : WsFrame
  pong : WsFrame
  close : WsFrame

pub data ConMgrEvent : Type 0 where
  disconnected : (uri : ℕ) → ConMgrEvent
  receive_data : (uri : ℕ) → WsFrame → ConMgrEvent

module _ (codec : Codec) where
  -- `none` is an error.
  unfoldable pub verify : SignedWireMessage → Option Bool
  verify signed = elim (codec.base64_decode signed.signature) [
    | none ↦ none
    | some signature_bytes ↦ codec.verify_bufs signed.source signed.payload signature_bytes
  ]

  -- Only a join is verified; `none` is the panic of `unwrap`.
  unfoldable pub accepted : SignedWireMessage → WireMessage → Option Bool
  unfolding verify
  accepted signed (client_to_lib3h (join_space _ _)) = verify signed
  accepted signed _ = some true

  module _ (handle : Sim2hHandle) where
    unfoldable pub handle_verified :
        (ℕ → Store) → ℕ → SignedWireMessage → WireMessage → Option Bool → Option (List Effect)
    handle_verified views url signed wire none = none
    handle_verified views url signed wire (some false) = some (disconnect (url ∷ []))
    handle_verified views url signed wire (some true) =
        handle_message handle views url wire signed.source
          (WireMessage.ack (codec.generate_ack_receipt_hash signed.payload))

    unfoldable pub handle_payload : (ℕ → Store) → ℕ → ℕ → Option (List Effect)
    unfolding accepted handle_verified
    handle_payload views url payload = elim (codec.signed_of payload) [
      | none ↦ some (disconnect (url ∷ []))
      | some signed ↦ elim (codec.wire_of signed.payload) [
        | none ↦ some (disconnect (url ∷ []))
        | some wire ↦ handle_verified views url signed wire (accepted signed wire)
      ]
    ]

    unfoldable pub handle_recv_data : (ℕ → Store) → ℕ → WsFrame → Option (List Effect)
    handle_recv_data views uri text = some (disconnect (uri ∷ []))
    handle_recv_data views uri (binary payload) = handle_payload views uri payload
    handle_recv_data views uri ping = some []
    handle_recv_data views uri pong = some []
    handle_recv_data views uri close = some (disconnect (uri ∷ []))

    abbrev pub and_then : Option (List Effect) → Option (List Effect) → Option (List Effect)
    and_then none _ = none
    and_then (some _) none = none
    and_then (some xs) (some ys) = some (xs ++ ys)

    -- The loop of `priv_check_incoming_messages`, for a channel that is open. At most `n` events are
    -- taken; the uris that went away are disconnected after the loop. The
    -- n-th message reads the store at `views n`.
    unfoldable pub check_events :
        ℕ → (ℕ → ℕ → Store) → List ℕ → List ConMgrEvent → Option (List Effect)
    check_events zero views gone events = some (disconnect gone)
    check_events (suc n) views gone [] = some (disconnect gone)
    check_events (suc n) views gone (disconnected uri ∷ events) =
        check_events n views (gone ++ (uri ∷ [])) events
    check_events (suc n) views gone (receive_data uri frame ∷ events) =
        and_then (handle_recv_data (views n) uri frame) (check_events n views gone events)

    abbrev pub check_incoming_messages : (ℕ → ℕ → Store) → List ConMgrEvent → Option (List Effect)
    check_incoming_messages views events = check_events 100 views [] events
