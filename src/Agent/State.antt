-- ===== src/Agent/State.antt =====
-- crates/core/src/agent/state.rs: the state slice of the agent, and its reducers. The clock, the
-- signing by the conductor and the storage are the host's.
pub mod Commit
pub mod Recent
use rust_holochain.Base.{
  ℕ, ◌-◌, ◌≡◌, refl, Bool, true, false, not, ◌&&◌, Option, none, some, List, [], ◌∷◌, ◌++◌, ltb,
  leb, ◌==◌, if◌then◌else◌,
}
use rust_holochain.Base.Map
use rust_holochain.Base.Map.{Map}
use rust_holochain.CoreTypes.{
  HcResult, ok, err, Entry, EntryType, ChainHeader, Provenance, Hashing, entry_address, entry_type,
}
use rust_holochain.Dht.Persistence.{Persistence, Content}
use rust_holochain.Agent.Chain.{any_header, head, collect, iter_type, collect_type}

-- The result of a commit, with the time at which it was noted.
pub record Response : Type 0 where
  pub created_at : ℕ
  pub commit : HcResult ℕ

-- The actions stand under their ids, by which they are compared.
pub record AgentState : Type 0 where
  pub actions : Map Response
  pub top_chain_header : Option ChainHeader
  pub initial_agent_address : ℕ

pub data Action : Type 0 where
  commit : Entry → Option ℕ → List Provenance → Action
  prune : Action
  clear_action_response : ℕ → Action
  other : Action

pub record ActionWrapper : Type 0 where
  pub action : Action
  pub id : ℕ

-- `CryptoMethod::Sign` of the conductor, and the clock in milliseconds.
pub record Host : Type 0 where
  pub sign : ℕ → HcResult ℕ
  pub now : ℕ

abbrev pub action_prune_ms : ℕ
action_prune_ms = 60000

unfoldable pub new_with_top_chain_header : Option ChainHeader → ℕ → AgentState
new_with_top_chain_header top initial_agent_address = record {
  actions = [];
  top_chain_header = top;
  initial_agent_address = initial_agent_address;
}

-- A response from the future has no elapsed time and stays.
abbrev pub is_old : ℕ → ℕ → Response → Bool
is_old now _ r = if ltb now r.created_at then false else ltb action_prune_ms (now - r.created_at)

unfoldable pub reduce_prune : Host → AgentState → AgentState
reduce_prune host st = record st { actions = Map.remove_where (is_old host.now) st.actions }

-- The filter keeps the actions whose id is the given one.
unfoldable pub reduce_clear_action_response : ℕ → AgentState → AgentState
reduce_clear_action_response id st = record st {
  actions = Map.remove_where (λ k _. not (k == id)) st.actions;
}

abbrev pub respond : Host → ℕ → HcResult ℕ → AgentState → AgentState
respond host id r st = record st {
  actions = Map.insert id (record { created_at = host.now; commit = r }) st.actions;
}

abbrev pub header_address_of : Hashing → Option ChainHeader → Option ℕ
header_address_of hash none = none
header_address_of hash (some h) = some (hash.header_address h)

module _ (hash : Hashing) (db : Persistence) where
  -- `iter_type(..).nth(0)`; the outer `none` is a panic.
  unfoldable pub nth_0 : ℕ → db.Storage → AgentState → EntryType → Option (Option ChainHeader)
  nth_0 fuel s st t = elim (collect_type db fuel s st.top_chain_header t 0 1) [
    | none ↦ none
    | some hs ↦ some (head hs)
  ]

  unfoldable pub get_agent_address : ℕ → db.Storage → AgentState → Option ℕ
  unfolding nth_0
  get_agent_address fuel s st = elim (nth_0 fuel s st EntryType.agent_id) [
    | none ↦ none
    | some none ↦ some st.initial_agent_address
    | some (some h) ↦ some h.entry_address
  ]

  -- The outer `none` is a panic.
  unfoldable pub get_most_recent_header_for_entry :
      ℕ → db.Storage → AgentState → Entry → Option (Option ChainHeader)
  get_most_recent_header_for_entry fuel s st e =
      elim (iter_type db fuel s st.top_chain_header (entry_type e)) [
        | none ↦ none
        | some start ↦
            elim (collect db (λ h. h.link_same_type) (λ h. h.entry_address == entry_address hash e)
              s 0 1 fuel start) [ none ↦ none | some hs ↦ some (head hs) ]
      ]

  abbrev pub header_with :
      Host
      → Entry
      → AgentState
      → Option ℕ
      → List Provenance
      → (agent signature : ℕ) → Option ChainHeader
      → ChainHeader
  header_with host e st crud_link provenances agent signature same_type = record {
    entry_type = entry_type e;
    entry_address = entry_address hash e;
    provenances = provenances ++ (record { source = agent; signature = signature } ∷ []);
    link = header_address_of hash st.top_chain_header;
    link_same_type = header_address_of hash same_type;
    link_update_delete = crud_link;
    timestamp = host.now;
  }

  unfoldable pub create_new_chain_header :
      ℕ
      → Host
      → Entry
      → db.Storage
      → AgentState
      → Option ℕ
      → List Provenance
      → Option (HcResult ChainHeader)
  unfolding get_agent_address
  create_new_chain_header fuel host e s st crud_link provenances =
      elim (get_agent_address fuel s st) [
        | none ↦ none
        | some agent ↦ elim (host.sign (entry_address hash e)) [
          | err f ↦ some (err f)
          | ok signature ↦ elim (nth_0 fuel s st (entry_type e)) [
            | none ↦ none
            | some same_type ↦
                some (ok (header_with host e st crud_link provenances agent signature same_type))
          ]
        ]
      ]

  -- Entry and header are stored, and only then is the header the top of the chain.
  unfoldable pub store_and_advance :
      Host → ℕ → Entry → ChainHeader → db.Storage → AgentState → db.Storage × AgentState
  store_and_advance host id e h s st =
      let stored = db.add_content s (Content.entry e) in
      elim (stored.1) [
        | err f ↦ (stored.0, respond host id (err f) st)
        | ok _ ↦
            let stored' = db.add_content (stored.0) (Content.header h) in
            elim (stored'.1) [
              | err f ↦ (stored'.0, respond host id (err f) st)
              | ok _ ↦ (
                stored'.0,
                respond host id (ok (entry_address hash e))
                    (record st { top_chain_header = some h }),
              )
            ]
      ]

  unfoldable pub reduce_commit_entry :
      ℕ
      → Host
      → ℕ
      → Entry
      → Option ℕ
      → List Provenance
      → db.Storage
      → AgentState
      → Option (db.Storage × AgentState)
  unfolding create_new_chain_header store_and_advance
  reduce_commit_entry fuel host id e crud_link provenances s st =
      elim (create_new_chain_header fuel host e s st crud_link provenances) [
        | none ↦ none
        | some (err f) ↦ some (s, respond host id (err f) st)
        | some (ok h) ↦ some (store_and_advance host id e h s st)
      ]

  unfoldable pub reduce :
      ℕ → Host → ActionWrapper → db.Storage → AgentState → Option (db.Storage × AgentState)
  unfolding reduce_commit_entry reduce_prune reduce_clear_action_response
  reduce fuel host w s st = elim w.action [
    | commit e crud_link provenances ↦
        reduce_commit_entry fuel host w.id e crud_link provenances s st
    | prune ↦ some (s, reduce_prune host st)
    | clear_action_response id ↦ some (s, reduce_clear_action_response id st)
    | other ↦ some (s, st)
  ]
