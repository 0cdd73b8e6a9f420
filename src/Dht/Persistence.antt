-- ===== src/Dht/Persistence.antt =====
-- The two storages of a DHT shard, and the metadata that is kept there: crates/core_types/src/eav,
-- crates/core_types/src/crud_status.rs and crates/core/src/content_store.rs. The storages are the
-- crate holochain_persistence; all clones of a `DhtStore` share them, so a write is seen by every
-- clone and is not undone when a reducer fails.
use rust_holochain.Base.{
  ℕ, ◌≡◌, refl, Bool, true, false, Option, none, some, List, ◌==◌, if◌then◌else◌, is_some,
}
use rust_holochain.CoreTypes.{
  HolochainError, HcResult, ok, err, Entry, ChainHeader, Hashing, entry_address,
}

pub data Attribute : Type 0 where
  crud_status crud_link entry_header link : Attribute
  link_tag : (link_type tag : ℕ) → Attribute
  removed_link : (removed link_type tag : ℕ) → Attribute
  pending_entry target : Attribute

pub record Eavi : Type 0 where
  pub entity : ℕ
  pub attribute : Attribute
  pub value : ℕ
  pub index : ℕ

pub data CrudStatus : Type 0 where
  live rejected deleted modified locked : CrudStatus

-- `String::from(status)` and `FromStr`: the five words are the numbers below five.
abbrev pub crud_to_text : CrudStatus → ℕ
crud_to_text live = 0
crud_to_text rejected = 1
crud_to_text deleted = 2
crud_to_text modified = 3
crud_to_text locked = 4

unfoldable pub crud_from_text : ℕ → Option CrudStatus
crud_from_text t =
    if t == 0
    then some live
    else if t == 1
    then some rejected
    else if t == 2
    then some deleted
    else if t == 3
    then some modified
    else if t == 4
    then some locked
    else none

pub crud_from_text-crud_to_text : (s : CrudStatus) → crud_from_text (crud_to_text s) ≡ some s
unfolding crud_from_text
crud_from_text-crud_to_text live = refl
crud_from_text-crud_to_text rejected = refl
crud_from_text-crud_to_text deleted = refl
crud_from_text-crud_to_text modified = refl
crud_from_text-crud_to_text locked = refl

abbrev pub is_live : Option CrudStatus → Bool
is_live (some live) = true
is_live _ = false

pub data IndexFilter : Type 0 where
  latest_by_attribute : IndexFilter

-- A query for the entries of one entity whose attribute passes a test.
pub record EaviQuery : Type 0 where
  pub entity : ℕ
  pub attribute : Attribute → Bool
  pub index : IndexFilter
  pub tombstone : Option (Attribute → Bool)

pub data Content : Type 0 where
  entry : Entry → Content
  header : ChainHeader → Content

-- `Entry::try_from_content`: a stored header is read as the entry that wraps it.
unfoldable pub entry_of : Content → Entry
entry_of (Content.entry e) = e
entry_of (Content.header h) = Entry.chain_header h

unfoldable pub address_of_content : Hashing → Content → ℕ
address_of_content hash (Content.entry e) = entry_address hash e
address_of_content hash (Content.header h) = hash.header_address h

-- What the core calls of the storages. A failed write may leave any state behind.
pub record Persistence : Type 1 where
  pub Storage : Type 0
  pub fetch : Storage → ℕ → HcResult (Option Content)
  pub add_content : Storage → Content → Storage × HcResult (Unit {0})
  pub add_eavi : Storage → Eavi → Storage × HcResult (Unit {0})
  pub fetch_eavi : Storage → EaviQuery → HcResult (List Eavi)
  pub new_eavi : Storage → ℕ → Attribute → ℕ → HcResult Eavi
  pub new_eavi_with_index : ℕ → Attribute → ℕ → ℕ → HcResult Eavi

module _ (db : Persistence) where
  open db use {Storage, fetch, add_content, add_eavi, fetch_eavi, new_eavi}

  -- Code that works on the storages and may fail.
  abbrev pub M : Type 0 → Type 0
  M A = Storage → Storage × HcResult A

  abbrev pub bind : {A B : Type 0} → M A → (A → M B) → M B
  bind m f s = elim ((m s).1) [ err e ↦ ((m s).0, err e) | ok a ↦ f a (m s).0 ]

  abbrev pub return : {A : Type 0} → A → M A
  return a s = (s, ok a)

  abbrev pub throw : {A : Type 0} → HolochainError → M A
  throw e s = (s, err e)

  abbrev pub lift : {A : Type 0} → HcResult A → M A
  lift r s = (s, r)

  unfoldable pub get : ℕ → M (Option Entry)
  get address s = elim (fetch s address) [
    | err e ↦ (s, err e)
    | ok none ↦ (s, ok none)
    | ok (some c) ↦ (s, ok (some (entry_of c)))
  ]

  unfoldable pub contains : ℕ → M Bool
  contains address s = elim (fetch s address) [ err e ↦ (s, err e) | ok c ↦ (s, ok (is_some c)) ]

  unfoldable pub add : Content → M (Unit {0})
  add c s = add_content s c

  unfoldable pub put_eavi : Eavi → M (Unit {0})
  put_eavi e s = add_eavi s e

  unfoldable pub create_crud_status_eav : ℕ → CrudStatus → M Eavi
  create_crud_status_eav address status s =
      (s, new_eavi s address crud_status (crud_to_text status))

  unfoldable pub create_crud_link_eav : ℕ → ℕ → M Eavi
  create_crud_link_eav from to s = (s, new_eavi s from crud_link to)

  unfoldable pub query : EaviQuery → M (List Eavi)
  query q s = (s, fetch_eavi s q)
