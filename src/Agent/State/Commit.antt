-- ===== src/Agent/State/Commit.antt =====
-- A commit of crates/core/src/agent/state.rs extends the source chain by one header.
use rust_holochain.Base.{
  ℕ, ◌<◌, ◌≡◌, ◌≢◌, refl, ap, ◌∙◌, ◌⊎◌, inl, inr, Option, none, some, List, [], ◌∷◌, arith, filter,
  take, length, Option-cases, All,
}
use rust_holochain.Base.Map
use rust_holochain.CoreTypes.{
  HolochainError, HcResult, ok, err, Entry, EntryType, ChainHeader, Provenance, Hashing,
  entry_address, entry_type,
}
use rust_holochain.Dht.Persistence.{Persistence, Content, address_of_content}
use rust_holochain.Agent.Chain.{head, has_type, collect_type}
use rust_holochain.Agent.Chain.Linked.{IsChain, first, address_of, collect_type_chain, first-head}
use rust_holochain.Agent.State.{
  AgentState, Response, Host, respond, header_address_of, nth_0, get_agent_address, header_with,
  create_new_chain_header, store_and_advance, reduce_commit_entry,
}

-- What the commit relies on of a storage that is addressed by content: what was added is found under its
-- address, and an addition hides nothing that has another address. holochain_persistence documents this
-- of additions that succeed; that it holds of one that fails too is an assumption.
pub record IsCas (hash : Hashing) (db : Persistence) : Type 0 where
  pub added :
      (s : db.Storage) (c : Content)
      → (db.add_content s c).1 ≡ ok tt
      → db.fetch (db.add_content s c).0 (address_of_content hash c) ≡ ok (some c)
  pub kept :
      (s : db.Storage) (c d : Content) (a : ℕ)
      → address_of_content hash c ≢ a
      → db.fetch s a ≡ ok (some d)
      → db.fetch (db.add_content s c).0 a ≡ ok (some d)

result-cases : (r : HcResult (Unit {0})) → (r ≡ ok tt) ⊎ ((e : HolochainError) × (r ≡ err e))
result-cases (ok tt) = inl refl
result-cases (err e) = inr (e, refl)

sign-cases : (r : HcResult ℕ) → ((n : ℕ) × (r ≡ ok n)) ⊎ ((e : HolochainError) × (r ≡ err e))
sign-cases (ok n) = inl (n, refl)
sign-cases (err e) = inr (e, refl)

same_address :
    (hash : Hashing) (o : Option ChainHeader) → header_address_of hash o ≡ address_of hash o
same_address hash none = refl
same_address hash (some h) = refl

module _ (hash : Hashing) (db : Persistence) where
  -- No header of the chain has the address of the content.
  abbrev pub Fresh : ℕ → List ChainHeader → Type 0
  Fresh a = All (λ (h : ChainHeader). a ≢ hash.header_address h)

  add-IsChain :
      (s : db.Storage) (c : Content) (hs : List ChainHeader)
      → IsCas hash db
      → Fresh (address_of_content hash c) hs
      → IsChain hash db s hs
      → IsChain hash db (db.add_content s c).0 hs
  add-IsChain s c [] cas fresh chain = tt
  add-IsChain s c (h ∷ hs) cas fresh (stored, link, same, chain) = (
    cas.kept s c (Content.header h) (hash.header_address h) (fresh.0) stored,
    link,
    same,
    add-IsChain s c hs cas (fresh.1) chain,
  )

  -- The state after a commit whose header was stored: one header more, with the entry's address.
  pub record IsExtended (e : Entry) (id : ℕ) (hs : List ChainHeader) (s' : db.Storage)
      (st' : AgentState) : Type 0 where
    pub header : ChainHeader
    pub top : st'.top_chain_header ≡ some header
    pub chain : IsChain hash db s' (header ∷ hs)
    pub names : header.entry_address ≡ entry_address hash e
    pub typed : header.entry_type ≡ entry_type e
    pub response :
        (r : Response) × (Map.get id st'.actions ≡ some r) × (r.commit ≡ ok (entry_address hash e))

  -- The state after a commit that failed: the chain as it was, and the error as the response.
  pub record IsUnchanged (id : ℕ) (hs : List ChainHeader) (s' : db.Storage) (st' : AgentState)
      : Type 0 where
    pub top : st'.top_chain_header ≡ head hs
    pub chain : IsChain hash db s' hs
    pub response :
        (r : Response) × (f : HolochainError) × (Map.get id st'.actions ≡ some r)
        × (r.commit ≡ err f)

  nth_0_lem :
      (fuel : ℕ) (s : db.Storage) (st : AgentState) (t : EntryType) (hs : List ChainHeader)
      → IsChain hash db s hs
      → st.top_chain_header ≡ head hs
      → length hs < fuel
      → nth_0 hash db fuel s st t ≡ some (first (has_type t) hs)
  unfolding nth_0
  nth_0_lem fuel s st t hs chain top enough =
      let read = collect_type_chain hash db t s 0 1 fuel hs chain enough in
      let at = first-head (has_type t) hs in
      let all : collect_type db fuel s st.top_chain_header t 0 1
          ≡ some (take 1 (filter (has_type t) hs)) =
        ap (λ (top : Option ChainHeader). collect_type db fuel s top t 0 1) top ∙ read in
      rw (all, nth_0) (ap some at)

  store_lem :
      (host : Host) (id : ℕ) (e : Entry) (h : ChainHeader) (s : db.Storage) (st : AgentState)
      (hs : List ChainHeader)
      → IsCas hash db
      → Fresh (entry_address hash e) hs
      → Fresh (hash.header_address h) hs
      → IsChain hash db s hs
      → st.top_chain_header ≡ head hs
      → h.link ≡ address_of hash (head hs)
      → h.link_same_type ≡ address_of hash (first (has_type h.entry_type) hs)
      → h.entry_address ≡ entry_address hash e
      → h.entry_type ≡ entry_type e
      → (s' : db.Storage) × (st' : AgentState) × (store_and_advance hash db host id e h s st
          ≡ (s', st'))
        × (IsExtended e id hs s' st' ⊎ IsUnchanged id hs s' st')
  unfolding store_and_advance address_of_content entry_address
  store_lem host id e h s st hs cas fresh fresh' chain top link same names typed =
      let stored = db.add_content s (Content.entry e) in
      let chain' = add-IsChain s (Content.entry e) hs cas fresh chain in
      let stored' = db.add_content (stored.0) (Content.header h) in
      let chain'' = add-IsChain (stored.0) (Content.header h) hs cas fresh' chain' in
      elim (result-cases (stored.1)) [
        | inr (f, r) ↦ (
          stored.0,
          respond host id (err f) st,
          ground arith,
          inr (unchanged f (stored.0) chain'),
        )
        | inl r ↦ elim (result-cases (stored'.1)) [
          | inr (f, r') ↦ (
            stored'.0,
            respond host id (err f) st,
            ground arith,
            inr (unchanged f (stored'.0) chain''),
          )
          | inl r' ↦ (
            stored'.0,
            respond host id (ok (entry_address hash e)) (record st { top_chain_header = some h }),
            ground arith,
            inl (record {
              header = h;
              top = refl;
              chain = (cas.added (stored.0) (Content.header h) r', link, same, chain'');
              names = names;
              typed = typed;
              response = (_, Map.get-insert_self id _ st.actions, refl);
            }),
          )
        ]
      ]
    where
      unchanged :
          (f : HolochainError) (s' : db.Storage)
          → IsChain hash db s' hs
          → IsUnchanged id hs s' (respond host id (err f) st)
      unchanged f s' c = record {
        top = top;
        chain = c;
        response = (_, f, Map.get-insert_self id _ st.actions, refl);
      }

  get_agent_address_lem :
      (fuel : ℕ) (s : db.Storage) (st : AgentState) (hs : List ChainHeader)
      → IsChain hash db s hs
      → st.top_chain_header ≡ head hs
      → length hs < fuel
      → (a : ℕ) × (get_agent_address hash db fuel s st ≡ some a)
  unfolding get_agent_address
  get_agent_address_lem fuel s st hs chain top enough =
      let read = nth_0_lem fuel s st EntryType.agent_id hs chain top enough in
      elim (Option-cases (first (has_type EntryType.agent_id) hs)) [
        | inl missing ↦ (st.initial_agent_address, ground arith)
        | inr (h, there) ↦ (h.entry_address, ground arith)
      ]

  -- A commit on a linked chain never panics, with more fuel than the chain has headers. It either
  -- makes the chain longer by one header of the entry, linked to the chain and to the last header
  -- of its type, and answers with the entry's address; or leaves the chain as it was and answers
  -- with an error. The storage is one addressed by content, and neither the entry nor a header of
  -- this instant has the address of a header that is in the chain.
  pub reduce_commit_entry_lem :
      (fuel : ℕ) (host : Host) (id : ℕ) (e : Entry) (crud_link : Option ℕ)
      (provenances : List Provenance) (s : db.Storage) (st : AgentState) (hs : List ChainHeader)
      → IsCas hash db
      → Fresh (entry_address hash e) hs
      → ((h : ChainHeader) → h.timestamp ≡ host.now → Fresh (hash.header_address h) hs)
      → IsChain hash db s hs
      → st.top_chain_header ≡ head hs
      → length hs < fuel
      → (s' : db.Storage) × (st' : AgentState) × (reduce_commit_entry hash db fuel host id e
            crud_link provenances s st
          ≡ some (s', st'))
        × (IsExtended e id hs s' st' ⊎ IsUnchanged id hs s' st')
  unfolding reduce_commit_entry create_new_chain_header
  reduce_commit_entry_lem fuel host id e crud_link provenances s st hs cas fresh fresh' chain top
        enough =
      let (agent, found) = get_agent_address_lem fuel s st hs chain top enough in
      let same_type = nth_0_lem fuel s st (entry_type e) hs chain top enough in
      elim (sign-cases (host.sign (entry_address hash e))) [
        | inr (f, refused) ↦ (
          s,
          respond host id (err f) st,
          ground arith,
          inr (record {
            top = top;
            chain = chain;
            response = (_, f, Map.get-insert_self id _ st.actions, refl);
          }),
        )
        | inl (signature, signed) ↦
            let h =
              header_with hash db host e st crud_link provenances agent signature
                (first (has_type (entry_type e)) hs) in
            let (s', st', done, outcome) =
              store_lem host id e h s st hs cas fresh (fresh' h refl) chain top
                (ap (header_address_of hash) top ∙ same_address hash (head hs))
                (same_address hash (first (has_type (entry_type e)) hs)) refl refl in
            (s', st', ground arith, outcome)
      ]
