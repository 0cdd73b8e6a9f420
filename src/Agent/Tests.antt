-- ===== src/Agent/Tests.antt =====
-- The theorems on the source chain at a chain of two headers in memory.
use rust_holochain.Base.{
  ℕ, ◌+◌, ◌≡◌, refl, ◌⊎◌, false, Option, none, some, List, [], ◌∷◌, arith, ◌==◌, if◌then◌else◌,
}
use rust_holochain.Base.Map
use rust_holochain.CoreTypes.{
  ok, Entry, EntryType, ChainHeader, Hashing, entry_address, entry_type, entry_type_eq,
  entry_type_eq,
}
use rust_holochain.Dht.Persistence.{Persistence, Content, address_of_content}
use rust_holochain.Agent.Chain.{ChainStoreQueryOptions, found, Names, query, select, addresses}
use rust_holochain.Agent.Chain.Linked.{IsChain, query_lem}
use rust_holochain.Agent.State.{
  AgentState, Host, get_most_recent_header_for_entry, reduce_commit_entry,
  reduce_clear_action_response,
}
use rust_holochain.Agent.State.Recent.{get_most_recent_header_for_entry_lem}
use rust_holochain.Agent.State.Commit.{IsCas, IsExtended, IsUnchanged, reduce_commit_entry_lem}

abbrev payload : Entry → ℕ
payload (Entry.app name value) = value
payload _ = 0

abbrev hash : Hashing
hash = record {
  header_address = λ h. h.timestamp;
  agent_address = λ a. a;
  content_address = payload;
  aspect_address = λ a. 0;
}

abbrev find_content : ℕ → List Content → Option Content
find_content a [] = none
find_content a (c ∷ cs) = if address_of_content hash c == a then some c else find_content a cs

abbrev memory : Persistence
memory = record {
  Storage = List Content;
  fetch = λ s a. ok (find_content a s);
  add_content = λ s c. (c ∷ s, ok tt);
  add_eavi = λ s e. (s, ok tt);
  fetch_eavi = λ s q. ok [];
  new_eavi = λ s e a v. ok (record { entity = e; attribute = a; value = v; index = 0 });
  new_eavi_with_index = λ e a v i. ok (record { entity = e; attribute = a; value = v; index = i });
}

memory-IsCas : IsCas hash memory
memory-IsCas = record {
  added = λ s c done. ground arith;
  kept = λ s c d a other there. ground arith;
}

abbrev header_of_note : (value timestamp : ℕ) → (link : Option ℕ) → ChainHeader
header_of_note value timestamp link = record {
  entry_type = EntryType.app 7;
  entry_address = value;
  provenances = [];
  link = link;
  link_same_type = link;
  link_update_delete = none;
  timestamp = timestamp;
}

abbrev older : ChainHeader
older = header_of_note 500 1 none

abbrev newer : ChainHeader
newer = header_of_note 501 2 (some 1)

abbrev chain : List ChainHeader
chain = newer ∷ older ∷ []

abbrev storage : List Content
storage = Content.header newer ∷ Content.header older ∷ []

storage-IsChain : IsChain hash memory storage chain
unfolding address_of_content entry_type_eq
storage-IsChain = (refl, refl, refl, (refl, refl, refl, tt))

abbrev names : Names
names = record {
  empty = 0;
  double_star = 1;
  is_glob_str = λ t. t == 2;
  from_str = λ t. some (EntryType.app t);
  globset = λ ts. none;
}

abbrev last_one : ChainStoreQueryOptions
last_one = record { start = 1; limit = 0; headers = false }

query_lem_example :
    query memory 3 names storage (some newer) (7 ∷ []) last_one ≡ found (addresses (500 ∷ []))
unfolding select entry_type_eq
query_lem_example =
    query_lem hash memory 3 names storage chain (7 ∷ []) last_one storage-IsChain (omega arith)

abbrev host : Host
host = record { sign = λ a. ok (a + 1); now = 30 }

abbrev agent : AgentState
agent = record {
  actions =
      (4, record { created_at = 3; commit = ok 501 })
      ∷ (5, record { created_at = 4; commit = ok 500 })
      ∷ [];
  top_chain_header = some newer;
  initial_agent_address = 77;
}

reduce_commit_entry_lem_example :
    (s' : List Content) × (st' : AgentState) × (reduce_commit_entry hash memory 3 host 6
        (Entry.app 7 502)
        none
        []
        storage
        agent
      ≡ some (s', st'))
    × (IsExtended hash memory (Entry.app 7 502) 6 chain s' st'
        ⊎ IsUnchanged hash memory 6 chain s' st')
unfolding entry_address
reduce_commit_entry_lem_example =
    reduce_commit_entry_lem hash memory 3 host 6 (Entry.app 7 502) none [] storage agent chain
      memory-IsCas (λ e. ground arith, (λ e. ground arith, tt))
      (λ h now. (λ e. ground arith, (λ e. ground arith, tt))) storage-IsChain refl (omega arith)

-- The response that is cleared stays, and the other one goes.
clear_run :
    (Map.get 4 (reduce_clear_action_response 4 agent).actions
      ≡ some (record { created_at = 3; commit = ok 501 }))
    × (Map.get 5 (reduce_clear_action_response 4 agent).actions ≡ none)
unfolding reduce_clear_action_response Map.remove_where
clear_run = (refl, refl)

get_most_recent_header_for_entry_lem_example :
    get_most_recent_header_for_entry hash memory 3 storage agent (Entry.app 7 500)
    ≡ some (some older)
unfolding entry_address entry_type entry_type_eq
get_most_recent_header_for_entry_lem_example =
    get_most_recent_header_for_entry_lem hash memory 3 storage agent (Entry.app 7 500) chain
      storage-IsChain refl (omega arith)
