-- ===== src/Sim2h/Store.antt =====
-- `Store` of crates/sim2h/src/sim2h_im_state.rs: all spaces of the server. A mutation arrives as an
-- `AolEntry` in the one task that owns the store, so `mutate` runs them one after another; an
-- answer that the code sends back through a channel is the second result.
pub mod Coherent
pub mod Query
pub mod Drops
pub mod Runs
pub mod Task
use rust_holochain.Base.{
  ℕ, ◌≡◌, refl, Bool, true, false, Option, none, some, List, [], ◌∷◌, ◌++◌, arith, ◌==◌,
  if◌then◌else◌, take,
}
use rust_holochain.Base.Map
use rust_holochain.Base.Map.{Map}
use rust_holochain.Base.Set
use rust_holochain.Base.Set.{Set}
use rust_holochain.Sim2h.Sharding.{Moment, Lib3h}
use rust_holochain.Sim2h.Space
use rust_holochain.Sim2h.Space.{Space, ConnectionState, clear_holding, or_default}

-- The counter `con_incr` only numbers the entries, and no mutation reads the number.
pub record Store : Type 0 where
  pub redundancy : ℕ
  pub spaces : Map Space
  pub gossip_interval : ℕ

pub data AolEntry : Type 0 where
  new_connection : (aol_idx space_hash agent_id uri : ℕ) → AolEntry
  drop_connection_by_uri : (aol_idx uri : ℕ) → AolEntry
  agent_holds_aspects : (aol_idx space_hash agent_id entry_hash : ℕ) → List ℕ → AolEntry
  check_gossip : (aol_idx : ℕ) → AolEntry
  check_disconnected : (aol_idx : ℕ) → AolEntry

-- `CheckGossipData`: the agents that are due, by space.
abbrev pub CheckGossipData : Type 0
CheckGossipData = Map Set

pub data Response : Type 0 where
  complete : Response
  gossip_data : CheckGossipData → Response
  disconnected : List ℕ → Response

unfoldable pub new : ℕ → ℕ → Store
new redundancy gossip_interval = record {
  redundancy = redundancy;
  spaces = [];
  gossip_interval = gossip_interval;
}

-- `get_space_mut`: the space, created if it is missing.
unfoldable pub get_space_mut : ℕ → Store → Space
get_space_mut space_hash st = elim (Map.get space_hash st.spaces) [
  | none ↦ Space.new st.redundancy st.gossip_interval
  | some s ↦ s
]

abbrev pub put_space : ℕ → Store → Space → Store
put_space space_hash st s = record st { spaces = Map.insert space_hash s st.spaces }

unfoldable pub add_agent : ℕ → ℕ → CheckGossipData → CheckGossipData
add_agent space_hash agent_id d =
    Map.insert space_hash (Set.insert (or_default (Map.get space_hash d)) agent_id) d

unfoldable pub add_agents : ℕ → Set → CheckGossipData → CheckGossipData
add_agents space_hash [] d = d
add_agents space_hash (a ∷ agents) d = add_agent space_hash a (add_agents space_hash agents d)

unfoldable pub drop_connection_inner : ℕ → Space → Space
drop_connection_inner agent_id s =
    let s' = clear_holding agent_id s in
    elim (Map.get agent_id s'.connections) [
      | none ↦ s'
      | some c ↦ record s' {
        connections = Map.remove agent_id s'.connections;
        uri_to_connection = Map.remove c.uri s'.uri_to_connection;
      }
    ]

-- The body of the loop of `drop_connection_by_uri`.
unfoldable pub drop_uri : ℕ → Space → Space
drop_uri uri s = elim (Map.get uri s.uri_to_connection) [
  | none ↦ s
  | some agent_id ↦ drop_connection_inner agent_id s
]

abbrev pub is_unused : Space → Bool
is_unused s = Set.is_empty (Map.keys s.connections)

unfoldable pub check_drop_spaces : Store → Store
check_drop_spaces st = record st { spaces = Map.remove_where (λ _ s. is_unused s) st.spaces }

unfoldable pub drop_uri_everywhere : ℕ → Store → Store
drop_uri_everywhere uri st =
    check_drop_spaces (record st { spaces = Map.map_values (λ _ s. drop_uri uri s) st.spaces })

-- `check_disconnected`: the uris to close, and the spaces with their lists emptied.
unfoldable pub disconnected_uris : Map Space → List ℕ
disconnected_uris [] = []
disconnected_uris ((_, s) ∷ rest) = s.disconnect_uri ++ disconnected_uris rest

abbrev pub clear_disconnected : Space → Space
clear_disconnected s = record s { disconnect_uri = [] }

module _ (lib : Lib3h) where
  -- The loop of `check_gossip` over the spaces; `none` is the panic of rand.
  unfoldable pub check_spaces : Map Space → Option (Map Space × CheckGossipData)
  check_spaces [] = some ([], [])
  check_spaces ((k, s) ∷ rest) = elim (check_spaces rest) [
    | none ↦ none
    | some (rest', d) ↦ elim (Space.check_gossip lib s) [
      | none ↦ none
      | some (s', due) ↦ some ((k, s') ∷ rest', add_agents k due d)
    ]
  ]

  unfoldable pub mutate : AolEntry → Store → Option (Store × Response)
  mutate (new_connection _ space_hash agent_id uri) st =
      elim (Space.check_insert_connection lib agent_id uri (get_space_mut space_hash st)) [
        | none ↦ none
        | some s ↦ some (put_space space_hash st s, complete)
      ]
  mutate (drop_connection_by_uri _ uri) st = some (drop_uri_everywhere uri st, complete)
  mutate (agent_holds_aspects _ space_hash agent_id entry_hash aspects) st =
      elim (Space.agent_holds_aspects lib agent_id entry_hash aspects
        (get_space_mut space_hash st)) [
          | none ↦ none
          | some s ↦ some (put_space space_hash st s, complete)
        ]
  mutate (check_gossip _) st = elim (check_spaces st.spaces) [
    | none ↦ none
    | some (spaces, d) ↦ some (record st { spaces = spaces }, gossip_data d)
  ]
  mutate (check_disconnected _) st = some (
    record st { spaces = Map.map_values (λ _ s. clear_disconnected s) st.spaces },
    disconnected (disconnected_uris st.spaces),
  )

  -- The crates as they are while a message is handled.
  abbrev pub at : Moment → Lib3h
  at moment = record lib { now = moment.time; gen_range = moment.draw }

-- The task of the store: it handles the messages in order, and ends where one panics.
unfoldable pub run : Lib3h → List (Moment × AolEntry) → Store → Option Store
run lib [] st = some st
run lib ((moment, e) ∷ log) st = elim (mutate (at lib moment) e st) [
  | none ↦ none
  | some (st', _) ↦ run lib log st'
]

unfoldable pub lookup_joined : Store → ℕ → ℕ → Option ℕ
lookup_joined st space_hash agent_id = elim (Map.get space_hash st.spaces) [
  | none ↦ none
  | some s ↦ elim (Map.get agent_id s.connections) [ none ↦ none | some con ↦ some con.uri ]
]

-- The first space of the iteration that knows the uri.
unfoldable pub space_info : ℕ → Map Space → Option (ℕ × ℕ)
space_info uri [] = none
space_info uri ((space_hash, s) ∷ rest) = elim (Map.get uri s.uri_to_connection) [
  | none ↦ space_info uri rest
  | some agent_id ↦ some (agent_id, space_hash)
]

unfoldable pub get_space_info_from_uri : Store → ℕ → Option (ℕ × ℕ)
unfolding space_info
get_space_info_from_uri st uri = space_info uri st.spaces

abbrev pub without : Option ℕ → Set → Set
without none s = s
without (some a) s = Set.remove s a

abbrev pub get_agents_holding_entry : Store → ℕ → ℕ → Option Set
get_agents_holding_entry st space_hash entry_hash = elim (Map.get space_hash st.spaces) [
  | none ↦ none
  | some s ↦ some (Space.get_agents_holding_entry s entry_hash)
]

abbrev pub get_agents_that_should_hold_entry : Lib3h → Store → ℕ → ℕ → Option Set
get_agents_that_should_hold_entry lib st space_hash entry_hash =
    elim (Map.get space_hash st.spaces) [
      | none ↦ none
      | some s ↦ some (Space.get_agents_that_should_hold_entry lib s entry_hash)
    ]

-- The three stages of `get_agents_for_query`: the holders, then those that should hold the entry,
-- then the asker himself.
unfoldable pub query_candidates : Option ℕ → Option Set → Option Set → Set
query_candidates asker holding should =
    let out = without asker (or_default holding) in
    let out' =
      if Set.is_empty out then without asker (elim should [ none ↦ out | some s ↦ s ]) else out in
    if Set.is_empty out' then elim asker [ none ↦ [] | some a ↦ Set.insert out' a ] else out'

-- The shuffle is that of rand.
unfoldable pub get_agents_for_query : Lib3h → (List ℕ → List ℕ) → Store → ℕ → ℕ → Option ℕ → List ℕ
get_agents_for_query lib shuffle st space_hash entry_hash asker = take 3 (
    shuffle (
      query_candidates asker (get_agents_holding_entry st space_hash entry_hash)
        (get_agents_that_should_hold_entry lib st space_hash entry_hash)))
