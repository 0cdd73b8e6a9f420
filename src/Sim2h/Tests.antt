-- ===== src/Sim2h/Tests.antt =====
-- Tests of the switchboard server, and the theorems applied to a space of two agents.
use rust_holochain.Base.{
  ◌⊎◌, ◌-◌, is_some, ℕ, ◌+◌, ◌*◌, ◌/◌, ◌≤◌, ◌≡◌, refl, true, false, none, some, List, [], ◌∷◌, not,
  ◌&&◌, arith, ltb, ◌==◌, if◌then◌else◌, ◌≢◌, ◌||◌, subst, length,
}
use rust_holochain.Base.Map
use rust_holochain.Base.Map.{Map, holds}
use rust_holochain.Base.Set
use rust_holochain.Base.Set.{Set}
use rust_holochain.Sim2h.Sharding.{Moment, Lib3h, IsRng, entry_location, should_store}
use rust_holochain.Sim2h.Space
use rust_holochain.Sim2h.Space.{
  Space, ConnectionState, EntryInfo, or_default, get_agents_that_need_aspect,
  get_gossip_aspects_needed_for_agent, check_insert_connection, check_gossip,
  get_agents_holding_entry, get_agents_that_should_hold_entry, get_mono_agent_id,
}
use rust_holochain.Sim2h.Space.Coherent.{IsCoherent}
use rust_holochain.Sim2h.Space.Gossip.{gossip_duality}
use rust_holochain.Sim2h.Space.Rounds.{check_gossip_round, due_now}
use rust_holochain.Sim2h.Space.Connect.{is_held_by, check_insert_connection_joins}
use rust_holochain.Sim2h.Space.Holding.{agent_holds_aspects_total}
use rust_holochain.Sim2h.Store
use rust_holochain.Sim2h.Store.{
  Store, AolEntry, Response, CheckGossipData, run, new, mutate, drop_uri, drop_uri_everywhere,
  is_unused,
}
use rust_holochain.Sim2h.Store.Coherent.{IsStore}
use rust_holochain.Sim2h.Store.Task.{Draws, run-IsStore}
use rust_holochain.Sim2h.Store.Drops.{IsDropped, drop_uri_everywhere_lem}
use rust_holochain.Sim2h.Store.Query.{IsShuffle, get_agents_for_query_lem, Candidate}

abbrev lib : Lib3h
lib = record {
  calc_location_for_id = λ id. some (id * 100);
  hashed_location = λ id. id;
  forward_distance = λ from to. from + to;
  shard_width = λ n r. 4294967296 * r / n;
  gen_range = λ i low high. if ltb low high then some low else none;
  now = 20;
}

lib-IsRng : IsRng lib
lib-IsRng = record {
  in_range = λ i low high h. (low, ground arith, omega arith, h);
  empty_range = λ i low high h. ground arith;
}

-- The second draw is the highest one of its range.
abbrev lowest : ℕ → Moment
lowest time = record { time = time; draw = λ i low high. if ltb low high then some low else none }

abbrev highest : ℕ → Moment
highest time = record {
  time = time;
  draw = λ i low high. if ltb low high then some (high - 1) else none;
}

lowest-IsRng : (time : ℕ) → IsRng (Store.at lib (lowest time))
lowest-IsRng time = record {
  in_range = λ i low high h. (low, ground arith, omega arith, h);
  empty_range = λ i low high h. ground arith;
}

highest-IsRng : (time : ℕ) → IsRng (Store.at lib (highest time))
highest-IsRng time = record {
  in_range = λ i low high h. (high - 1, ground arith, omega (arith, h), omega (arith, h));
  empty_range = λ i low high h. ground arith;
}

abbrev log : List (Moment × AolEntry)
log =
    (lowest 0, AolEntry.new_connection 0 7 1 101)
    ∷ (highest 5, AolEntry.new_connection 1 7 2 102)
    ∷ (lowest 6, AolEntry.agent_holds_aspects 2 7 1 50 (60 ∷ 61 ∷ []))
    ∷ []

-- Agent 1 holds both aspects of entry 50, agent 2 nothing.
abbrev space : Space
space = record {
  redundancy = 0;
  all_aspects = (60, 60) ∷ (61, 61) ∷ [];
  entry_to_all_aspects =
      (50, record { entry_hash = 50; entry_loc = 5000; aspects = (60, 1 ∷ []) ∷ (61, 1 ∷ []) ∷ [] })
      ∷ [];
  connections =
      (1, record { agent_id = 1; agent_loc = 100; uri = 101; next_gossip_check = 10 })
      ∷ (2, record { agent_id = 2; agent_loc = 200; uri = 102; next_gossip_check = 39 })
      ∷ [];
  uri_to_connection = (101, 1) ∷ (102, 2) ∷ [];
  disconnect_uri = [];
  gossip_interval = 100;
}

abbrev store : Store
store = record { redundancy = 0; spaces = (7, space) ∷ []; gossip_interval = 100 }

log-Draws : Draws lib log
log-Draws = (lowest-IsRng 0, (highest-IsRng 5, (lowest-IsRng 6, tt)))

run-IsStore_example : (st : Store) × (run lib log (new 0 100) ≡ some st) × IsStore lib st
run-IsStore_example = run-IsStore lib log 0 100 log-Draws (omega arith)

run-store : run lib log (new 0 100) ≡ some store
unfolding run new mutate check_insert_connection Store.get_space_mut Space.new Map.insert
    Space.connect Space.clear_holding Space.agent_holds_aspects Space.check_insert_aspects
    Space.priv_check_insert_aspect Space.priv_check_insert_entry_hash Map.map_values
    get_mono_agent_id entry_location Space.add_holder Set.insert
run-store = refl

store-IsStore : IsStore lib store
store-IsStore =
    let (st, ran, ok) = run-IsStore lib log 0 100 log-Draws (omega arith) in
    let same : st ≡ store = ground (arith, run-store) in subst (IsStore lib) same ok

space-IsCoherent : IsCoherent lib space
space-IsCoherent = (store-IsStore.spaces 7 space refl).coherent

gossip_duality_example :
    Set.contains (or_default (Map.get 50 (get_gossip_aspects_needed_for_agent lib space 2))) 60
    ≡ Set.contains (get_agents_that_need_aspect lib space 50 60) 2
gossip_duality_example = gossip_duality lib space 2 50 60 space-IsCoherent

-- Agent 2 is told of both aspects.
agent_2_needs : get_gossip_aspects_needed_for_agent lib space 2 ≡ (50, 60 ∷ 61 ∷ []) ∷ []
unfolding get_gossip_aspects_needed_for_agent Space.gossip_loop should_store Map.insert Set.union
    Map.keys_where
agent_2_needs = refl

-- Nobody but agent 1 holds the whole entry.
holder_of_50 : get_agents_holding_entry space 50 ≡ 1 ∷ []
unfolding get_agents_holding_entry Space.intersect_holders Set.is_empty Set.intersection
holder_of_50 = refl

check_gossip_round_example :
    (t : Space) × (due : Set) × (check_gossip lib space ≡ some (t, due))
    × IsCoherent lib t
    × ((a : ℕ) → Set.contains due a ≡ holds (due_now lib) (Map.get a space.connections))
    × ((a : ℕ) → holds (due_now lib) (Map.get a t.connections) ≡ false)
check_gossip_round_example = check_gossip_round lib space lib-IsRng space-IsCoherent (omega arith)

-- Agent 1 after it joined again, and after it joined at another uri.
abbrev joined : ℕ → Space
joined uri = record space {
  entry_to_all_aspects =
      (50, record { entry_hash = 50; entry_loc = 5000; aspects = (60, []) ∷ (61, []) ∷ [] }) ∷ [];
  connections =
      (1, record { agent_id = 1; agent_loc = 100; uri = uri; next_gossip_check = 30 })
      ∷ (2, record { agent_id = 2; agent_loc = 200; uri = 102; next_gossip_check = 39 })
      ∷ [];
  uri_to_connection = (102, 2) ∷ (uri, 1) ∷ [];
  disconnect_uri = 101 ∷ [];
}

join_elsewhere : check_insert_connection lib 1 104 space ≡ some (joined 104)
unfolding check_insert_connection Space.connect Space.clear_holding get_mono_agent_id Map.map_values
    Map.insert Set.remove Map.remove
join_elsewhere = refl

join_again : check_insert_connection lib 1 101 space ≡ some (joined 101)
unfolding check_insert_connection Space.connect Space.clear_holding get_mono_agent_id Map.map_values
    Map.insert Set.remove Map.remove
join_again = refl

check_insert_connection_joins_example :
    IsCoherent lib (joined 104)
    × ((deadline : ℕ) × (30 ≤ deadline)
        × (Map.get 1 (joined 104).connections
            ≡ some (record {
              agent_id = 1;
              agent_loc = 100;
              uri = 104;
              next_gossip_check = deadline;
            })))
    × ((b : ℕ) → 1 ≢ b → Map.get b (joined 104).connections ≡ Map.get b space.connections)
    × (Map.get 104 (joined 104).uri_to_connection ≡ some 1)
    × ((entry aspect b : ℕ)
        → is_held_by (joined 104) entry aspect b
          ≡ (not (1 == b) && is_held_by space entry aspect b))
check_insert_connection_joins_example =
    check_insert_connection_joins lib 1 104 100 space (joined 104) lib-IsRng space-IsCoherent refl
      join_elsewhere

agent_holds_aspects_total_example :
    (t : Space) × (Space.agent_holds_aspects lib 2 50 (61 ∷ []) space ≡ some t)
    × ((f x b : ℕ)
        → is_held_by t f x b
          ≡ (is_held_by space f x b || ((50 == f) && (Set.contains (61 ∷ []) x && (2 == b)))))
    × (t.connections ≡ space.connections)
    × (t.gossip_interval ≡ 100)
agent_holds_aspects_total_example =
    agent_holds_aspects_total lib 2 50 (61 ∷ []) space space-IsCoherent

drop_uri_everywhere_lem_example :
    ((k : ℕ)
      → Map.get k store.spaces ≡ none
      → Map.get k (drop_uri_everywhere 101 store).spaces ≡ none)
    × ((k : ℕ) (s : Space)
        → Map.get k store.spaces ≡ some s
        → (t : Space) × (Map.get 101 s.uri_to_connection ≡ none → t ≡ s)
          × ((agent : ℕ)
              → Map.get 101 s.uri_to_connection ≡ some agent
              → IsDropped lib 101 agent s t)
          × ((((a : ℕ) → Map.get a t.connections ≡ none)
                × (Map.get k (drop_uri_everywhere 101 store).spaces ≡ none))
              ⊎ (((a : ℕ) × (is_some (Map.get a t.connections) ≡ true))
                  × (Map.get k (drop_uri_everywhere 101 store).spaces ≡ some t))))
drop_uri_everywhere_lem_example = drop_uri_everywhere_lem lib 101 store store-IsStore

same_order : IsShuffle (λ xs. xs)
same_order = record { same_members = λ xs a. refl; same_length = λ xs. refl }

get_agents_for_query_lem_example :
    (length (Store.get_agents_for_query lib (λ xs. xs) store 7 50 (some 2)) ≤ 3)
    × ((b : ℕ)
        → Set.contains (Store.get_agents_for_query lib (λ xs. xs) store 7 50 (some 2)) b ≡ true
        → Candidate
            (some 2)
            (Store.get_agents_holding_entry store 7 50)
            (Store.get_agents_that_should_hold_entry lib store 7 50)
            b)
    × ((a : ℕ)
        → some 2 ≡ some a
        → 1 ≤ length (Store.get_agents_for_query lib (λ xs. xs) store 7 50 (some 2)))
get_agents_for_query_lem_example =
    get_agents_for_query_lem lib (λ xs. xs) store 7 50 (some 2) same_order
