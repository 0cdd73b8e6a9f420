-- ===== src/Agent/Chain.antt =====
-- crates/core/src/agent/chain_store.rs: the iterators over the source chain, and its query. Each
-- header names the one before it, and the one before it of the same entry type.
pub mod Linked
use rust_holochain.Base.{
  ℕ, zero, suc, ◌≡◌, refl, Bool, true, false, not, ◌||◌, Option, none, some, List, [], ◌∷◌, map,
  ◌==◌, if◌then◌else◌,
}
use rust_holochain.CoreTypes.{HcResult, ok, err, Entry, EntryType, ChainHeader, entry_type_eq}
use rust_holochain.Dht.Persistence.{Persistence, Content}

-- `ChainHeader::try_from_content`: the content of a header entry is that of its header.
unfoldable pub header_of : Content → Option ChainHeader
header_of (Content.header h) = some h
header_of (Content.entry (Entry.chain_header h)) = some h
header_of (Content.entry _) = none

-- `usize::max_value()` on a machine of 64 bits.
abbrev pub usize_max : ℕ
usize_max = 18446744073709551615

pub record ChainStoreQueryOptions : Type 0 where
  pub start : ℕ
  pub limit : ℕ
  pub headers : Bool

pub data ChainStoreQueryResult : Type 0 where
  addresses : List ℕ → ChainStoreQueryResult
  headers : List ChainHeader → ChainStoreQueryResult

-- How a query ends. An error of the storage, or content that is no header, is a panic.
pub data Queried : Type 0 where
  panics unknown_entry_type : Queried
  found : ChainStoreQueryResult → Queried

-- The names of a query: whether a name has glob characters, `EntryType::from_str`, and the set
-- that the crate globset builds, applied to the name of a type.
pub record Names : Type 0 where
  pub empty : ℕ
  pub double_star : ℕ
  pub is_glob_str : ℕ → Bool
  pub from_str : ℕ → Option EntryType
  pub globset : List ℕ → Option (EntryType → Bool)

pub data Selection : Type 0 where
  everything : Selection
  one_type : Option EntryType → Selection
  globs : Option (EntryType → Bool) → Selection

-- The match on the names in `query`.
unfoldable pub select : Names → List ℕ → Selection
select n [] = everything
select n (one ∷ []) =
    if (one == n.empty) || (one == n.double_star)
    then everything
    else if not (n.is_glob_str one)
    then one_type (n.from_str one)
    else globs (n.globset (one ∷ []))
select n (one ∷ two ∷ rest) = globs (n.globset (one ∷ two ∷ rest))

abbrev pub prepend : ChainHeader → Option (List ChainHeader) → Option (List ChainHeader)
prepend h none = none
prepend h (some hs) = some (h ∷ hs)

abbrev pub head : List ChainHeader → Option ChainHeader
head [] = none
head (h ∷ hs) = some h

abbrev pub any_header : ChainHeader → Bool
any_header _ = true

abbrev pub has_type : EntryType → ChainHeader → Bool
has_type t h = entry_type_eq h.entry_type t

module _ (db : Persistence) where
  -- `next` of an iterator: the header that its field names. The outer `none` is a panic.
  unfoldable pub follow :
      (ChainHeader → Option ℕ) → db.Storage → ChainHeader → Option (Option ChainHeader)
  follow field s h = elim (field h) [
    | none ↦ some none
    | some a ↦ elim (db.fetch s a) [
      | err _ ↦ none
      | ok none ↦ some none
      | ok (some c) ↦ elim (header_of c) [ none ↦ none | some g ↦ some (some g) ]
    ]
  ]

  -- `iter.filter(keep).skip(skip).take(limit).collect()`, for an iterator that stands at a header.
  -- The header after it is fetched before it is given out, and nothing is once `limit` are out.
  -- `none` is a panic, or that the fuel did not do.
  unfoldable pub collect :
      (ChainHeader → Option ℕ)
      → (ChainHeader → Bool)
      → db.Storage
      → (skip limit fuel : ℕ) → Option ChainHeader
      → Option (List ChainHeader)
  unfolding follow
  collect field keep s skip limit zero cur = none
  collect field keep s skip zero (suc fuel) cur = some []
  collect field keep s skip (suc limit) (suc fuel) none = some []
  collect field keep s skip (suc limit) (suc fuel) (some h) = elim (follow field s h) [
    | none ↦ none
    | some next ↦ elim (keep h) [
      | false ↦ collect field keep s skip (suc limit) fuel next
      | true ↦ elim skip [
        | zero ↦ prepend h (collect field keep s zero limit fuel next)
        | suc n ↦ collect field keep s n (suc limit) fuel next
      ]
    ]
  ]

  -- `iter_type`: where the iterator of a type starts.
  unfoldable pub iter_type :
      ℕ → db.Storage → Option ChainHeader → EntryType → Option (Option ChainHeader)
  iter_type fuel s top t = elim (collect (λ h. h.link) (has_type t) s 0 1 fuel top) [
    | none ↦ none
    | some hs ↦ some (head hs)
  ]

  unfoldable pub collect_type :
      ℕ → db.Storage → Option ChainHeader → EntryType → (skip limit : ℕ) → Option (List ChainHeader)
  unfolding iter_type
  collect_type fuel s top t skip limit = elim (iter_type fuel s top t) [
    | none ↦ none
    | some start ↦ collect (λ h. h.link_same_type) any_header s skip limit fuel start
  ]

  abbrev pub present : Bool → List ChainHeader → ChainStoreQueryResult
  present true hs = ChainStoreQueryResult.headers hs
  present false hs = addresses (map (λ h. h.entry_address) hs)

  abbrev pub answer : Bool → Option (List ChainHeader) → Queried
  answer b none = panics
  answer b (some hs) = found (present b hs)

  -- The arms of the match in `query`.
  unfoldable pub query_selection :
      ℕ
      → db.Storage
      → Option ChainHeader
      → ChainStoreQueryOptions
      → (limit : ℕ) → Selection
      → Queried
  unfolding collect collect_type
  query_selection fuel s top options limit everything =
      answer options.headers (collect (λ h. h.link) any_header s options.start limit fuel top)
  query_selection fuel s top options limit (one_type none) = unknown_entry_type
  query_selection fuel s top options limit (one_type (some t)) =
      answer options.headers (collect_type fuel s top t options.start limit)
  query_selection fuel s top options limit (globs none) = unknown_entry_type
  query_selection fuel s top options limit (globs (some matches)) =
      answer options.headers
        (collect (λ h. h.link) (λ h. matches h.entry_type) s options.start limit fuel top)

  unfoldable pub query :
      ℕ → Names → db.Storage → Option ChainHeader → List ℕ → ChainStoreQueryOptions → Queried
  unfolding select query_selection
  query fuel names s top entry_type_names options =
      let limit = if options.limit == 0 then usize_max else options.limit in
      query_selection fuel s top options limit (select names entry_type_names)
