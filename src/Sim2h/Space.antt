-- ===== src/Sim2h/Space.antt =====
-- `Space` of crates/sim2h/src/sim2h_im_state.rs: the connections and the aspects of one DNA.
-- A `MonoRef` is a shared reference that compares as its content, so it is its content here.
pub mod Coherent
pub mod Gossip
pub mod Rounds
pub mod Connect
pub mod Holding
use rust_holochain.Base.{
  ℕ, ◌+◌, ◌*◌, ◌/◌, ◌≡◌, refl, Bool, true, false, Option, none, some, List, [], ◌∷◌, ◌++◌, not,
  ◌&&◌, arith, ltb, ◌==◌, if◌then◌else◌, length,
}
use rust_holochain.Base.Map
use rust_holochain.Base.Map.{Map}
use rust_holochain.Base.Set
use rust_holochain.Base.Set.{Set}
use rust_holochain.Sim2h.Sharding.{Lib3h, entry_location, should_store}

pub record ConnectionState : Type 0 where
  pub agent_id : ℕ
  pub agent_loc : ℕ
  pub uri : ℕ
  pub next_gossip_check : ℕ

-- Which agents hold an aspect.
abbrev pub Holding : Type 0
Holding = Map Set

pub record EntryInfo : Type 0 where
  pub entry_hash : ℕ
  pub entry_loc : ℕ
  pub aspects : Holding

pub record Space : Type 0 where
  pub redundancy : ℕ
  pub all_aspects : Map ℕ
  pub entry_to_all_aspects : Map EntryInfo
  pub connections : Map ConnectionState
  pub uri_to_connection : Map ℕ
  pub disconnect_uri : List ℕ
  pub gossip_interval : ℕ

unfoldable pub new : ℕ → ℕ → Space
new redundancy gossip_interval = record {
  redundancy = redundancy;
  all_aspects = [];
  entry_to_all_aspects = [];
  connections = [];
  uri_to_connection = [];
  disconnect_uri = [];
  gossip_interval = gossip_interval;
}

abbrev pub agent_count : Space → ℕ
agent_count s = length s.connections

-- `map.entry(k).or_default()` of a map of sets.
abbrev pub or_default : Option Set → Set
or_default none = []
or_default (some s) = s

unfoldable pub get_mono_agent_id : Space → ℕ → ℕ
get_mono_agent_id s agent_id = elim (Map.get agent_id s.connections) [
  | none ↦ agent_id
  | some c ↦ c.agent_id
]

-- `UpcomingInstant`, in milliseconds.
abbrev pub still_pending : Lib3h → ℕ → Bool
still_pending lib instant = ltb lib.now instant

abbrev pub forget_holder : ℕ → ℕ → Set → Set
forget_holder agent_id _ holding = Set.remove holding agent_id

abbrev pub forget_in_entry : ℕ → ℕ → EntryInfo → EntryInfo
forget_in_entry agent_id _ entry = record entry {
  aspects = Map.map_values (forget_holder agent_id) entry.aspects;
}

unfoldable pub clear_holding : ℕ → Space → Space
clear_holding agent_id s = record s {
  entry_to_all_aspects = Map.map_values (forget_in_entry agent_id) s.entry_to_all_aspects;
}

-- The intersection over the remaining holders, with its early return.
unfoldable pub intersect_holders : Set → Holding → Set
intersect_holders remaining [] = remaining
intersect_holders remaining ((_, holding) ∷ rest) =
    let remaining' = Set.intersection remaining holding in
    let more = intersect_holders remaining' rest in if Set.is_empty remaining' then [] else more

abbrev pub holders : Holding → Set
holders [] = []
holders ((_, holding) ∷ rest) = intersect_holders holding rest

unfoldable pub get_agents_holding_entry : Space → ℕ → Set
get_agents_holding_entry s entry_hash = elim (Map.get entry_hash s.entry_to_all_aspects) [
  | none ↦ []
  | some entry ↦ holders entry.aspects
]

unfoldable pub priv_check_insert_aspect : ℕ → Space → Space
priv_check_insert_aspect aspect_hash s = elim (Map.get aspect_hash s.all_aspects) [
  | some _ ↦ s
  | none ↦ record s { all_aspects = Map.insert aspect_hash aspect_hash s.all_aspects }
]

-- The first loop of `agent_holds_aspects`.
unfoldable pub check_insert_aspects : List ℕ → Space → Space
check_insert_aspects [] s = s
check_insert_aspects (a ∷ aspects) s = check_insert_aspects aspects (priv_check_insert_aspect a s)

-- The second loop: the agent is entered as a holder of each aspect.
unfoldable pub add_holder : ℕ → List ℕ → Holding → Holding
add_holder agent_id [] h = h
add_holder agent_id (a ∷ aspects) h =
    add_holder agent_id aspects (Map.insert a (Set.insert (or_default (Map.get a h)) agent_id) h)

-- The agents of a set that are not in `holding`.
unfoldable pub not_holding : Set → Set → Set
not_holding holding [] = []
not_holding holding (a ∷ agents) =
    if Set.contains holding a
    then not_holding holding agents
    else Set.insert (not_holding holding agents) a

-- The aspects that an agent does not hold.
abbrev pub missing_aspects : ℕ → Holding → Set
missing_aspects agent_id = Map.keys_where (λ _ holding. not (Set.contains holding agent_id))

module _ (lib : Lib3h) where
  unfoldable pub get_entry_location : Space → ℕ → ℕ
  get_entry_location s entry_hash = elim (Map.get entry_hash s.entry_to_all_aspects) [
    | some entry ↦ entry.entry_loc
    | none ↦ entry_location lib entry_hash
  ]

  unfoldable pub get_agents_that_should_hold_entry : Space → ℕ → Set
  get_agents_that_should_hold_entry s entry_hash =
      if s.redundancy == 0
      then Map.keys s.connections
      else Map.keys_where
          (λ _ con.
            should_store lib con.agent_loc (get_entry_location s entry_hash) (agent_count s)
              s.redundancy)
          s.connections

  unfoldable pub get_agents_that_need_aspect : Space → ℕ → ℕ → Set
  get_agents_that_need_aspect s entry_hash aspect_hash =
      elim (Map.get entry_hash s.entry_to_all_aspects) [
        | none ↦ []
        | some entry ↦ elim (Map.get aspect_hash entry.aspects) [
          | none ↦ []
          | some holding ↦ not_holding holding (get_agents_that_should_hold_entry s entry_hash)
        ]
      ]

  -- The loop over the entries; the last entry is handled first, as the order of a map is free.
  unfoldable pub gossip_loop : Space → ℕ → ℕ → Map EntryInfo → Map Set
  gossip_loop s agent_id agent_loc [] = []
  gossip_loop s agent_id agent_loc ((_, entry) ∷ rest) =
      let out = gossip_loop s agent_id agent_loc rest in
      if should_store lib agent_loc entry.entry_loc (agent_count s) s.redundancy
      then Map.insert entry.entry_hash
          (Set.union (missing_aspects agent_id entry.aspects)
            (or_default (Map.get entry.entry_hash out)))
          out
      else out

  unfoldable pub get_gossip_aspects_needed_for_agent : Space → ℕ → Map Set
  get_gossip_aspects_needed_for_agent s agent_id = elim (Map.get agent_id s.connections) [
    | none ↦ []
    | some c ↦ gossip_loop s agent_id c.agent_loc s.entry_to_all_aspects
  ]

  -- The connection is entered under its agent, and the agent's former uri is given up.
  unfoldable pub replace_connection : ConnectionState → Space → Space
  replace_connection con s = elim (Map.get con.agent_id s.connections) [
    | none ↦ record s { connections = Map.insert con.agent_id con s.connections }
    | some old ↦ record s {
      connections = Map.insert con.agent_id con s.connections;
      uri_to_connection = Map.remove old.uri s.uri_to_connection;
      disconnect_uri = s.disconnect_uri ++ (old.uri ∷ []);
    }
  ]

  unfoldable pub connect : ConnectionState → Space → Space
  unfolding replace_connection
  connect con s =
      let s' = replace_connection con s in
      clear_holding con.agent_id
        (record s' { uri_to_connection = Map.insert con.uri con.agent_id s'.uri_to_connection })

  -- `none` is the panic of rand on an empty range. A location that cannot be computed leaves the
  -- space as it is.
  unfoldable pub check_insert_connection : ℕ → ℕ → Space → Option Space
  check_insert_connection agent_id uri s =
      let agent = get_mono_agent_id s agent_id in
      elim (lib.calc_location_for_id agent) [
        | none ↦ some s
        | some agent_loc ↦ elim (lib.gen_range agent 10 (s.gossip_interval / 4 + 10)) [
          | none ↦ none
          | some to_add ↦ some (
              connect
                (record {
                  agent_id = agent;
                  agent_loc = agent_loc;
                  uri = uri;
                  next_gossip_check = lib.now + to_add;
                })
                s)
        ]
      ]

  unfoldable pub priv_check_insert_entry_hash : ℕ → Space → Space
  priv_check_insert_entry_hash entry_hash s = elim (Map.get entry_hash s.entry_to_all_aspects) [
    | some _ ↦ s
    | none ↦ record s {
      entry_to_all_aspects =
          Map.insert entry_hash
            (record {
              entry_hash = entry_hash;
              entry_loc = entry_location lib entry_hash;
              aspects = [];
            })
            s.entry_to_all_aspects;
    }
  ]

  -- The entry is looked up again after both inserts, and that lookup is unwrapped.
  unfoldable pub agent_holds_aspects : ℕ → ℕ → List ℕ → Space → Option Space
  agent_holds_aspects agent_id entry_hash aspects s =
      let agent = get_mono_agent_id s agent_id in
      let s' = check_insert_aspects aspects (priv_check_insert_entry_hash entry_hash s) in
      elim (Map.get entry_hash s'.entry_to_all_aspects) [
        | none ↦ none
        | some e ↦ some (record s' {
          entry_to_all_aspects =
              Map.insert entry_hash (record e { aspects = add_holder agent aspects e.aspects })
                s'.entry_to_all_aspects;
        })
      ]

  -- The loop of `check_gossip`: the connections with new deadlines, and the agents that are due.
  unfoldable pub check_connections : ℕ → Map ConnectionState → Option (Map ConnectionState × Set)
  check_connections gossip_interval [] = some ([], [])
  check_connections gossip_interval ((k, con) ∷ rest) =
      elim (check_connections gossip_interval rest) [
        | none ↦ none
        | some (rest', due) ↦
            if still_pending lib con.next_gossip_check
            then some ((k, con) ∷ rest', due)
            else elim (lib.gen_range con.agent_id (gossip_interval * 3 / 4)
                (gossip_interval * 5 / 4)) [
                  | none ↦ none
                  | some to_add ↦ some (
                    (k, record con { next_gossip_check = lib.now + to_add }) ∷ rest',
                    Set.insert due con.agent_id,
                  )
                ]
      ]

  unfoldable pub check_gossip : Space → Option (Space × Set)
  check_gossip s = elim (check_connections s.gossip_interval s.connections) [
    | none ↦ none
    | some (connections, due) ↦ some (record s { connections = connections }, due)
  ]
