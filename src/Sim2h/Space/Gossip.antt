-- ===== src/Sim2h/Space/Gossip.antt =====
-- Who should hold what: the queries of `Space` in crates/sim2h/src/sim2h_im_state.rs.
use rust_holochain.Base.{
  ℕ, ◌≡◌, refl, sym, ◌∙◌, inl, inr, Bool, true, false, not, ◌&&◌, Option, none, some, [], ◌∷◌,
  arith, ◌==◌, ==_iff, Option-cases, Bool-cases, all, is_some,
}
use rust_holochain.Base.Map
use rust_holochain.Base.Map.{Map, Unique, holds}
use rust_holochain.Base.Set
use rust_holochain.Base.Set.{Set}
use rust_holochain.Sim2h.Sharding.{Lib3h, should_store, should_store_full}
use rust_holochain.Sim2h.Space.{
  Space, ConnectionState, EntryInfo, Holding, agent_count, or_default, not_holding, missing_aspects,
  get_entry_location, get_agents_that_should_hold_entry, get_agents_that_need_aspect, gossip_loop,
  get_gossip_aspects_needed_for_agent, intersect_holders, holders, get_agents_holding_entry,
}
use rust_holochain.Sim2h.Space.Coherent.{IsCoherent, Entries}

contains-not_holding :
    (holding agents : Set) (a : ℕ)
    → Set.contains (not_holding holding agents) a
      ≡ (Set.contains agents a && not (Set.contains holding a))
unfolding not_holding
contains-not_holding holding [] a = refl
contains-not_holding holding (x ∷ agents) a = ground (
  arith,
  contains-not_holding holding agents a,
  Set.contains-insert (not_holding holding agents) x a,
)

-- Every holder set of the entry's aspects has the agent.
abbrev pub holds_all : ℕ → Holding → Bool
holds_all a h = all (λ e. Set.contains e.1 a) h

contains-intersect_holders :
    (remaining : Set) (h : Holding) (a : ℕ)
    → Set.contains (intersect_holders remaining h) a ≡ (Set.contains remaining a && holds_all a h)
unfolding intersect_holders
contains-intersect_holders remaining [] a = ground arith
contains-intersect_holders remaining ((x, holding) ∷ h) a = ground (
  arith,
  contains-intersect_holders (Set.intersection remaining holding) h a,
  Set.contains-intersection remaining holding a,
  Set.is_empty-contains (Set.intersection remaining holding) a,
)

-- The agents that hold an entry are those that hold every one of its aspects; an entry that is
-- unknown, or has no aspect, is held by nobody.
pub contains-get_agents_holding_entry :
    (s : Space) (entry a : ℕ)
    → Set.contains (get_agents_holding_entry s entry) a
      ≡ elim (Map.get entry s.entry_to_all_aspects) [
        | none ↦ false
        | some i ↦ elim i.aspects [ [] ↦ false | x ∷ rest ↦ holds_all a (x ∷ rest) ]
      ]
unfolding get_agents_holding_entry
contains-get_agents_holding_entry s entry a =
    elim (Option-cases (Map.get entry s.entry_to_all_aspects)) [
      | inl e ↦ rw (e, get_agents_holding_entry)
      | inr (i, e) ↦ rw (e, get_agents_holding_entry) (by_aspects i.aspects)
    ]
  where
    by_aspects :
        (h : Holding)
        → Set.contains (holders h) a ≡ elim h [ [] ↦ false | x ∷ rest ↦ holds_all a (x ∷ rest) ]
    by_aspects [] = refl
    by_aspects ((x, holding) ∷ rest) = contains-intersect_holders holding rest a

module _ (lib : Lib3h) where
  -- In a space whose connections are distinct, the agents that should hold an entry are exactly
  -- the connected ones for whose location and that of the entry the sharding says so.
  pub contains-get_agents_that_should_hold_entry :
      (s : Space) (entry a : ℕ)
      → Unique s.connections
      → Set.contains (get_agents_that_should_hold_entry lib s entry) a
        ≡ holds
            (λ con.
              should_store lib con.agent_loc
                (get_entry_location lib s entry)
                (agent_count s)
                s.redundancy)
            (Map.get a s.connections)
  unfolding get_agents_that_should_hold_entry
  contains-get_agents_that_should_hold_entry s entry a u = elim (Bool-cases (s.redundancy == 0)) [
    | inl full ↦
        rw full (Map.contains-keys s.connections a ∙ full_sync full (Map.get a s.connections))
    | inr sharded ↦ rw sharded (Map.contains-keys_where _ s.connections a u)
  ]
    where
      full_sync :
          (s.redundancy == 0) ≡ true
          → (o : Option ConnectionState)
          → is_some o
            ≡ holds
                (λ con.
                  should_store lib con.agent_loc
                    (get_entry_location lib s entry)
                    (agent_count s)
                    s.redundancy)
                o
      full_sync full none = refl
      full_sync full (some con) = sym (should_store_full lib _ _ _ _ full)

  contains-missing_aspects :
      (agent : ℕ) (h : Holding) (aspect : ℕ)
      → Unique h
      → Set.contains (missing_aspects agent h) aspect
        ≡ holds (λ holding. not (Set.contains holding agent)) (Map.get aspect h)
  contains-missing_aspects agent h aspect u = Map.contains-keys_where _ h aspect u

  -- What the entry, if there is one, adds for an agent at a location.
  abbrev needed : Space → ℕ → ℕ → ℕ → Option EntryInfo → Bool
  needed s agent agent_loc aspect none = false
  needed s agent agent_loc aspect (some i) =
      should_store lib agent_loc i.entry_loc (agent_count s) s.redundancy
      && holds (λ holding. not (Set.contains holding agent)) (Map.get aspect i.aspects)

  Entries-tail :
      (k : ℕ) (i : EntryInfo) (m : Map EntryInfo)
      → Map.get k m ≡ none
      → Entries lib ((k, i) ∷ m)
      → Entries lib m
  Entries-tail k i m u h e j g = h e j (ground arith)

  contains-gossip_loop :
      (s : Space) (agent agent_loc : ℕ) (m : Map EntryInfo) (entry aspect : ℕ)
      → Unique m
      → Entries lib m
      → Set.contains (or_default (Map.get entry (gossip_loop lib s agent agent_loc m))) aspect
        ≡ needed s agent agent_loc aspect (Map.get entry m)
  unfolding gossip_loop
  contains-gossip_loop s agent agent_loc [] entry aspect u h = refl
  contains-gossip_loop s agent agent_loc ((k, i) ∷ m) entry aspect u h =
      let valid = h k i (ground (arith, ==_iff k k)) in
      let out = gossip_loop lib s agent agent_loc m in
      let ih =
        contains-gossip_loop s agent agent_loc m entry aspect u.1 (Entries-tail k i m u.0 h) in
      let own = contains-gossip_loop s agent agent_loc m k aspect u.1 (Entries-tail k i m u.0 h) in
      let missing = missing_aspects agent i.aspects in
      let here = or_default (Map.get i.entry_hash out) in
      ground (
        arith,
        valid.hash,
        u.0,
        ih,
        own,
        contains-missing_aspects agent i.aspects aspect valid.aspects,
        Map.get-insert i.entry_hash (Set.union missing here) out entry,
        Set.contains-union missing here aspect,
      )

  contains-get_agents_that_need_aspect :
      (s : Space) (agent entry aspect : ℕ)
      → Unique s.connections
      → Set.contains (get_agents_that_need_aspect lib s entry aspect) agent
        ≡ holds
            (λ con. needed s agent con.agent_loc aspect (Map.get entry s.entry_to_all_aspects))
            (Map.get agent s.connections)
  unfolding get_agents_that_need_aspect get_entry_location
  contains-get_agents_that_need_aspect s agent entry aspect u =
      elim (Option-cases (Map.get entry s.entry_to_all_aspects)) [
        | inl e ↦ ground arith
        | inr (i, e) ↦ elim (Option-cases (Map.get aspect i.aspects)) [
          | inl f ↦ ground arith
          | inr (holding, f) ↦ ground (
            arith,
            contains-not_holding holding (get_agents_that_should_hold_entry lib s entry) agent,
            contains-get_agents_that_should_hold_entry s entry agent u,
          )
        ]
      ]

  -- The two directions of gossip agree in a coherent space: an aspect of an entry is among those
  -- that an agent is asked to fetch exactly if the agent is among those that need this aspect.
  pub gossip_duality :
      (s : Space) (agent entry aspect : ℕ)
      → IsCoherent lib s
      → Set.contains
          (or_default (Map.get entry (get_gossip_aspects_needed_for_agent lib s agent)))
          aspect
        ≡ Set.contains (get_agents_that_need_aspect lib s entry aspect) agent
  unfolding get_gossip_aspects_needed_for_agent
  gossip_duality s agent entry aspect h =
      let need = contains-get_agents_that_need_aspect s agent entry aspect h.connections_unique in
      elim (Option-cases (Map.get agent s.connections)) [
        | inl e ↦ ground arith
        | inr (con, e) ↦ ground (
          arith,
          contains-gossip_loop s agent con.agent_loc s.entry_to_all_aspects entry aspect
              h.entries_unique h.entries,
        )
      ]
