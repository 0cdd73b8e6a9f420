-- ===== src/Agent/State/Recent.antt =====
-- `get_most_recent_header_for_entry` of crates/core/src/agent/state.rs.
use rust_holochain.Base.{
  ℕ, ◌<◌, ◌≡◌, refl, ap, ◌∙◌, Bool, true, ◌&&◌, some, List, [], ◌∷◌, arith, filter, length, ◌==◌,
}
use rust_holochain.CoreTypes.{
  Entry, EntryType, ChainHeader, Hashing, entry_address, entry_type, entry_type_eq,
}
use rust_holochain.Dht.Persistence.{Persistence}
use rust_holochain.Agent.Chain.{head, has_type}
use rust_holochain.Agent.Chain.Linked.{IsChain, first, first-head, iter_type_lem, collect_same_type}
use rust_holochain.Agent.State.{AgentState, get_most_recent_header_for_entry}

abbrev pub is_header_of : Hashing → Entry → ChainHeader → Bool
is_header_of hash e h = has_type (entry_type e) h && (h.entry_address == entry_address hash e)

first-filter :
    (p q : ChainHeader → Bool) (hs : List ChainHeader)
    → first q (filter p hs) ≡ first (λ h. p h && q h) hs
first-filter p q [] = refl
first-filter p q (h ∷ hs) = ground (arith, first-filter p q hs)

entry_type_eq_self : (t : EntryType) → entry_type_eq t t ≡ true
unfolding entry_type_eq
entry_type_eq_self t = ground arith

module _ (hash : Hashing) (db : Persistence) where
  -- On a linked chain, with more fuel than the chain has headers, the most recent header of an
  -- entry is the newest header of the chain with the entry's type and address.
  pub get_most_recent_header_for_entry_lem :
      (fuel : ℕ) (s : db.Storage) (st : AgentState) (e : Entry) (hs : List ChainHeader)
      → IsChain hash db s hs
      → st.top_chain_header ≡ head hs
      → length hs < fuel
      → get_most_recent_header_for_entry hash db fuel s st e ≡ some (first (is_header_of hash e) hs)
  unfolding get_most_recent_header_for_entry
  get_most_recent_header_for_entry_lem fuel s st e hs chain top enough =
      let t = entry_type e in
      let mine = λ (h : ChainHeader). h.entry_address == entry_address hash e in
      let started = iter_type_lem hash db t s fuel hs chain enough in
      let read = collect_same_type hash db t mine s 0 1 fuel hs chain enough in
      let at = first-head mine (filter (has_type t) hs) in
      let all = first-filter (has_type t) mine hs in
      rw (top, get_most_recent_header_for_entry)
        (rw (started, get_most_recent_header_for_entry)
          (rw (read, get_most_recent_header_for_entry) (ap some (at ∙ all))))
