-- ===== src/Sim2h/Server/Effects.antt =====
-- What the message handlers of crates/sim2h/src/lib.rs do: `Sim2hHandle`, and sending to an agent who
-- is joined.
use rust_holochain.Base.{ℕ, none, some, List, [], ◌∷◌, ◌++◌}
use rust_holochain.Base.Set.{Set}
use rust_holochain.Sim2h.Sharding.{Lib3h}
use rust_holochain.Sim2h.Store.{Store, AolEntry, lookup_joined}
use rust_holochain.Sim2h.Server.Wire.{WireMessage}

-- `redundant_count` is that of `DhtAlgorithm`, 0 for full sync; `connection_count` is what the
-- connection manager reports; the shuffle is that of rand.
pub record Sim2hHandle : Type 0 where
  pub lib : Lib3h
  pub shuffle : List ℕ → List ℕ
  pub redundant_count : ℕ
  pub connection_count : ℕ

-- What a handler does: a frame for a connection, a message for the task of the store, or the end
-- of a connection.
pub data Effect : Type 0 where
  sent : (agent_id uri : ℕ) → WireMessage → Effect
  mutation : AolEntry → Effect
  closed : (uri : ℕ) → Effect

unfoldable pub disconnect : List ℕ → List Effect
disconnect [] = []
disconnect (uri ∷ uris) =
    mutation (AolEntry.drop_connection_by_uri 0 uri) ∷ closed uri ∷ disconnect uris

abbrev pub send_receipt : WireMessage → ℕ → ℕ → Effect
send_receipt receipt source url = sent source url receipt

-- `handle.send` to an agent of the space, if it is connected.
unfoldable pub send_to_joined : Store → ℕ → ℕ → WireMessage → List Effect
send_to_joined state space_hash agent_id message = elim (lookup_joined state space_hash agent_id) [
  | none ↦ []
  | some uri ↦ sent agent_id uri message ∷ []
]

unfoldable pub send_to_all : Store → ℕ → Set → WireMessage → List Effect
send_to_all state space_hash [] message = []
send_to_all state space_hash (agent_id ∷ agents) message =
    send_to_joined state space_hash agent_id message ++ send_to_all state space_hash agents message
