-- ===== src/Agent/Chain/Linked.antt =====
-- A chain that is linked as it should be is read back by the iterators of
-- crates/core/src/agent/chain_store.rs.
use rust_holochain.Base.{
  ℕ, zero, suc, ◌<◌, ◌≡◌, refl, sym, subst, ap, ◌∙◌, inl, inr, Bool, true, Option, none, some, List,
  [], ◌∷◌, ◌==◌, arith, filter, take, drop, length, if◌then◌else◌, Bool-cases, Option-cases,
}
use rust_holochain.CoreTypes.{ok, EntryType, ChainHeader, Hashing, entry_type_eq, entry_type_eq_lem}
use rust_holochain.Dht.Persistence.{Persistence, Content}
use rust_holochain.Agent.Chain.{
  header_of, usize_max, ChainStoreQueryOptions, Queried, unknown_entry_type, found, Names,
  Selection, everything, one_type, globs, select, head, any_header, has_type, follow, collect,
  iter_type, collect_type, present, answer, query, query_selection,
}

abbrev pub first : (ChainHeader → Bool) → List ChainHeader → Option ChainHeader
first p [] = none
first p (h ∷ hs) = if p h then some h else first p hs

abbrev pub address_of : Hashing → Option ChainHeader → Option ℕ
address_of hash none = none
address_of hash (some h) = some (hash.header_address h)

filter-any_header : (hs : List ChainHeader) → filter any_header hs ≡ hs
filter-any_header [] = refl
filter-any_header (h ∷ hs) = ap (◌∷◌ h) (filter-any_header hs)

pub first-head :
    (p : ChainHeader → Bool) (hs : List ChainHeader) → head (take 1 (filter p hs)) ≡ first p hs
first-head p [] = refl
first-head p (h ∷ hs) = ground (arith, first-head p hs)

first-any_header : (hs : List ChainHeader) → first any_header hs ≡ head hs
first-any_header [] = refl
first-any_header (h ∷ hs) = refl

module _ (hash : Hashing) (db : Persistence) where
  abbrev pub Stored : db.Storage → ChainHeader → Type 0
  Stored s h = db.fetch s (hash.header_address h) ≡ ok (some (Content.header h))

  -- The chain in the storage, the newest header first.
  abbrev pub IsChain : db.Storage → List ChainHeader → Type 0
  IsChain s [] = Unit
  IsChain s (h ∷ hs) =
      Stored s h
      × (h.link ≡ address_of hash (head hs))
      × (h.link_same_type ≡ address_of hash (first (has_type h.entry_type) hs))
      × IsChain s hs

  -- A field that leads from each header that passes a test to the next that does.
  abbrev Links :
      (ChainHeader → Option ℕ) → (ChainHeader → Bool) → db.Storage → List ChainHeader → Type 0
  Links field p s [] = Unit
  Links field p s (h ∷ hs) =
      (p h ≡ true → follow db field s h ≡ some (first p hs)) × Links field p s hs

  first-Stored :
      (p : ChainHeader → Bool) (s : db.Storage) (hs : List ChainHeader) {g : ChainHeader}
      → IsChain s hs
      → first p hs ≡ some g
      → Stored s g
  first-Stored p s [] c e = absurd (ground arith)
  first-Stored p s (h ∷ hs) {g} (stored, link, same, c) e = elim (Bool-cases (p h)) [
    | inl hit ↦ let h≡g : h ≡ g = ground arith in subst (Stored s) h≡g stored
    | inr miss ↦ first-Stored p s hs c (ground arith)
  ]

  follow-first :
      (field : ChainHeader → Option ℕ) (p : ChainHeader → Bool) (s : db.Storage) (h : ChainHeader)
      (hs : List ChainHeader)
      → IsChain s hs
      → field h ≡ address_of hash (first p hs)
      → follow db field s h ≡ some (first p hs)
  unfolding follow header_of
  follow-first field p s h hs c e = elim (Option-cases (first p hs)) [
    | inl missing ↦ ground arith
    | inr (g, there) ↦ let stored = first-Stored p s hs c there in ground arith
  ]

  chain-Links :
      (s : db.Storage) (hs : List ChainHeader) → IsChain s hs → Links (λ h. h.link) any_header s hs
  chain-Links s [] c = tt
  chain-Links s (h ∷ hs) (stored, link, same, c) = (
    λ _.
        follow-first (λ g. g.link) any_header s h hs c
          (link ∙ ap (address_of hash) (sym (first-any_header hs))),
    chain-Links s hs c,
  )

  type-Links :
      (t : EntryType) (s : db.Storage) (hs : List ChainHeader)
      → IsChain s hs
      → Links (λ h. h.link_same_type) (has_type t) s hs
  type-Links t s [] c = tt
  type-Links t s (h ∷ hs) (stored, link, same, c) = (
    λ own.
        follow-first (λ g. g.link_same_type) (has_type t) s h hs c
          (subst (λ (u : EntryType). h.link_same_type ≡ address_of hash (first (has_type u) hs))
            (entry_type_eq_lem h.entry_type t own) same),
    type-Links t s hs c,
  )

  collect_linked :
      (field : ChainHeader → Option ℕ) (p keep : ChainHeader → Bool) (s : db.Storage)
      (skip limit fuel : ℕ) (hs : List ChainHeader)
      → Links field p s hs
      → length hs < fuel
      → collect db field keep s skip limit fuel (first p hs)
        ≡ some (take limit (drop skip (filter keep (filter p hs))))
  unfolding collect
  collect_linked field p keep s skip limit zero hs l enough = absurd (omega (arith, enough))
  collect_linked field p keep s skip zero (suc fuel) hs l enough = refl
  collect_linked field p keep s zero (suc limit) (suc fuel) [] l enough = refl
  collect_linked field p keep s (suc n) (suc limit) (suc fuel) [] l enough = refl
  collect_linked field p keep s zero (suc limit) (suc fuel) (h ∷ hs) (own, l) enough = ground (
    arith,
    own,
    collect_linked field p keep s zero limit fuel hs l,
    collect_linked field p keep s zero (suc limit) fuel hs l,
    collect_linked field p keep s zero (suc limit) (suc fuel) hs l,
  )
  collect_linked field p keep s (suc n) (suc limit) (suc fuel) (h ∷ hs) (own, l) enough = ground (
    arith,
    own,
    collect_linked field p keep s n (suc limit) fuel hs l,
    collect_linked field p keep s (suc n) (suc limit) fuel hs l,
    collect_linked field p keep s (suc n) (suc limit) (suc fuel) hs l,
  )

  pub collect_chain :
      (keep : ChainHeader → Bool) (s : db.Storage) (skip limit fuel : ℕ) (hs : List ChainHeader)
      → IsChain s hs
      → length hs < fuel
      → collect db (λ h. h.link) keep s skip limit fuel (head hs)
        ≡ some (take limit (drop skip (filter keep hs)))
  collect_chain keep s skip limit fuel hs c enough =
      let read =
        collect_linked (λ h. h.link) any_header keep s skip limit fuel hs (chain-Links s hs c)
          enough in
      subst
        (λ (xs : List ChainHeader).
          collect db (λ h. h.link) keep s skip limit fuel (head hs)
          ≡ some (take limit (drop skip (filter keep xs))))
        (filter-any_header hs)
        (ap (collect db (λ h. h.link) keep s skip limit fuel) (sym (first-any_header hs)) ∙ read)

  pub collect_same_type :
      (t : EntryType) (keep : ChainHeader → Bool) (s : db.Storage) (skip limit fuel : ℕ)
      (hs : List ChainHeader)
      → IsChain s hs
      → length hs < fuel
      → collect db (λ h. h.link_same_type) keep s skip limit fuel (first (has_type t) hs)
        ≡ some (take limit (drop skip (filter keep (filter (has_type t) hs))))
  collect_same_type t keep s skip limit fuel hs c enough =
      collect_linked (λ h. h.link_same_type) (has_type t) keep s skip limit fuel hs
        (type-Links t s hs c) enough

  pub iter_type_lem :
      (t : EntryType) (s : db.Storage) (fuel : ℕ) (hs : List ChainHeader)
      → IsChain s hs
      → length hs < fuel
      → iter_type db fuel s (head hs) t ≡ some (first (has_type t) hs)
  unfolding iter_type
  iter_type_lem t s fuel hs c enough =
      let start = collect_chain (has_type t) s 0 1 fuel hs c enough in
      let at = first-head (has_type t) hs in ground arith

  -- The iterator of a type, found by `iter_type`, gives every header of the type.
  pub collect_type_chain :
      (t : EntryType) (s : db.Storage) (skip limit fuel : ℕ) (hs : List ChainHeader)
      → IsChain s hs
      → length hs < fuel
      → collect_type db fuel s (head hs) t skip limit
        ≡ some (take limit (drop skip (filter (has_type t) hs)))
  unfolding collect_type
  collect_type_chain t s skip limit fuel hs c enough =
      let started = iter_type_lem t s fuel hs c enough in
      let read = collect_same_type t any_header s skip limit fuel hs c enough in
      let all = filter-any_header (filter (has_type t) hs) in
      rw (started, collect_type)
        (read ∙ ap (λ (xs : List ChainHeader). some (take limit (drop skip xs))) all)

  -- What a query asks for, whatever way it is read: the test of the types.
  abbrev pub wanted : Selection → Option (EntryType → Bool)
  wanted everything = some (λ _. true)
  wanted (one_type none) = none
  wanted (one_type (some t)) = some (λ u. entry_type_eq u t)
  wanted (globs p) = p

  abbrev pub page : ChainStoreQueryOptions → List ChainHeader → List ChainHeader
  page options hs =
      take (if options.limit == 0 then usize_max else options.limit) (drop options.start hs)

  abbrev pub wanted_page :
      ChainStoreQueryOptions → List ChainHeader → Option (EntryType → Bool) → Queried
  wanted_page options hs none = unknown_entry_type
  wanted_page options hs (some p) =
      found (present db options.headers (page options (filter (λ h. p h.entry_type) hs)))

  query_selection_lem :
      (fuel : ℕ) (s : db.Storage) (hs : List ChainHeader) (options : ChainStoreQueryOptions)
      (selection : Selection)
      → IsChain s hs
      → length hs < fuel
      → query_selection db fuel s
          (head hs)
          options
          (if options.limit == 0 then usize_max else options.limit)
          selection
        ≡ wanted_page options hs (wanted selection)
  unfolding query_selection
  query_selection_lem fuel s hs options everything c enough =
      ap (answer db options.headers) (collect_chain any_header s options.start _ fuel hs c enough)
  query_selection_lem fuel s hs options (one_type none) c enough = refl
  query_selection_lem fuel s hs options (one_type (some t)) c enough =
      ap (answer db options.headers) (collect_type_chain t s options.start _ fuel hs c enough)
  query_selection_lem fuel s hs options (globs none) c enough = refl
  query_selection_lem fuel s hs options (globs (some p)) c enough =
      ap (answer db options.headers)
        (collect_chain (λ h. p h.entry_type) s options.start _ fuel hs c enough)

  -- On a linked chain a query never panics, with more fuel than the chain has headers. With an
  -- unknown type or a bad pattern it says so; otherwise it gives the headers of the wanted types,
  -- newest first, without the first `start` of them and at most `limit` of the rest, a limit of
  -- zero being the largest machine number. A query for one type reads the same by its shorter way
  -- along the links of this type.
  pub query_lem :
      (fuel : ℕ) (n : Names) (s : db.Storage) (hs : List ChainHeader) (names : List ℕ)
      (options : ChainStoreQueryOptions)
      → IsChain s hs
      → length hs < fuel
      → query db fuel n s (head hs) names options ≡ wanted_page options hs (wanted (select n names))
  unfolding query
  query_lem fuel n s hs names options c enough =
      query_selection_lem fuel s hs options (select n names) c enough
