-- ===== src/Dht/Inner.antt =====
-- crates/core/src/dht/dht_inner_reducers.rs: the writes of a hold.
use rust_holochain.Base.{
  ℕ, Bool, true, false, not, Option, none, some, List, [], ◌∷◌, filter, if◌then◌else◌,
}
use rust_holochain.CoreTypes.{
  HolochainError, ok, err, Entry, ChainHeader, LinkData, Hashing, entry_address, entry_type, is_sys,
}
use rust_holochain.Dht.Persistence.{
  Persistence, Attribute, crud_status, entry_header, link_tag, removed_link, Eavi, live, deleted,
  modified, crud_from_text, is_live, latest_by_attribute, Content, EaviQuery, M, bind, return,
  throw, lift, get, contains, add, put_eavi, create_crud_status_eav, create_crud_link_eav, query,
}

pub data LinkModification : Type 0 where
  add_link remove_link : LinkModification

abbrev pub is_crud_status : Attribute → Bool
is_crud_status crud_status = true
is_crud_status _ = false

abbrev pub not_live : Eavi → Bool
not_live e = not (is_live (crud_from_text e.value))

module _ (hash : Hashing) (db : Persistence) where
  -- Every failure is turned into a generic error.
  abbrev pub generic : {A : Type 0} → M db A → M db A
  generic m s = elim ((m s).1) [
    | err _ ↦ ((m s).0, err HolochainError.error_generic)
    | ok a ↦ ((m s).0, ok a)
  ]

  unfoldable pub reduce_store_entry_inner : Entry → M db (Unit {0})
  unfolding add create_crud_status_eav put_eavi
  reduce_store_entry_inner e = bind db (generic (add db (Content.entry e))) (λ _.
      bind db (create_crud_status_eav db (entry_address hash e) live)
        (λ status. generic (put_eavi db status)))

  abbrev pub link_attribute : LinkModification → LinkData → ChainHeader → Attribute
  link_attribute add_link l h = link_tag l.link.link_type l.link.tag
  link_attribute remove_link l h = removed_link h.entry_address l.link.link_type l.link.tag

  unfoldable pub reduce_add_remove_link_inner :
      LinkData → ℕ → LinkModification → ChainHeader → M db ℕ
  unfolding contains put_eavi
  reduce_add_remove_link_inner l address modification h =
      bind db (contains db l.link.base) (λ known.
        if known
        then bind db
            (lift db (
              db.new_eavi_with_index l.link.base (link_attribute modification l h) address
                h.timestamp))
            (λ eav. bind db (put_eavi db eav) (λ _. return db l.link.base))
        else throw db HolochainError.error_generic)

  unfoldable pub reduce_update_entry_inner : ℕ → ℕ → M db ℕ
  unfolding create_crud_status_eav create_crud_link_eav put_eavi
  reduce_update_entry_inner old_address new_address =
      bind db (create_crud_status_eav db old_address modified) (λ status.
        bind db (put_eavi db status) (λ _.
          bind db (create_crud_link_eav db old_address new_address)
            (λ crud_link. bind db (put_eavi db crud_link) (λ _. return db new_address))))

  abbrev pub status_query : ℕ → EaviQuery
  status_query address = record {
    entity = address;
    attribute = is_crud_status;
    index = latest_by_attribute;
    tombstone = none;
  }

  abbrev pub mark_deleted : ℕ → List Eavi → M db ℕ
  mark_deleted address [] =
      bind db (generic (create_crud_status_eav db address deleted))
        (λ status. bind db (put_eavi db status) (λ _. return db address))
  mark_deleted address (_ ∷ _) = throw db HolochainError.error_generic

  abbrev pub remove_found : ℕ → Option Entry → M db ℕ
  remove_found address none = throw db HolochainError.error_generic
  remove_found address (some e) =
      if is_sys (entry_type e)
      then throw db HolochainError.error_generic
      else bind db (query db (status_query address))
          (λ status_eavs. mark_deleted address (filter not_live status_eavs))

  unfoldable pub reduce_remove_entry_inner : ℕ → M db ℕ
  unfolding get query create_crud_status_eav put_eavi crud_from_text
  reduce_remove_entry_inner latest_deleted_address =
      bind db (get db latest_deleted_address) (remove_found latest_deleted_address)

  -- `DhtStore::add_header_for_entry`
  unfoldable pub add_header_for_entry : Entry → ChainHeader → M db (Unit {0})
  unfolding add put_eavi
  add_header_for_entry e h =
      bind db (λ s. (s, db.new_eavi s (entry_address hash e) entry_header (hash.header_address h)))
        (λ eavi. bind db (add db (Content.header h)) (λ _. put_eavi db eavi))
