-- ===== src/CoreTypes/Aspect.antt =====
-- crates/core_types/src/network/entry_aspect.rs: what an aspect is about.
use rust_holochain.Base.{ℕ}
use rust_holochain.CoreTypes.{
  HolochainError, HcResult, ok, ok_or, Hashing, EntryAspect, ChainHeader,
}

unfoldable pub header : EntryAspect → ChainHeader
header (EntryAspect.content _ h) = h
header (EntryAspect.header h) = h
header (EntryAspect.link_add _ h) = h
header (EntryAspect.link_remove _ _ h) = h
header (EntryAspect.update _ h) = h
header (EntryAspect.deletion h) = h

-- The address under which the aspect is kept.
unfoldable pub aspect_entry_address : Hashing → EntryAspect → HcResult ℕ
aspect_entry_address hash (EntryAspect.content _ h) = ok h.entry_address
aspect_entry_address hash (EntryAspect.header h) = ok (hash.header_address h)
aspect_entry_address hash (EntryAspect.link_add l _) = ok l.link.base
aspect_entry_address hash (EntryAspect.link_remove l _ _) = ok l.link.base
aspect_entry_address hash (EntryAspect.update _ h) =
    ok_or HolochainError.error_generic h.link_update_delete
aspect_entry_address hash (EntryAspect.deletion h) =
    ok_or HolochainError.error_generic h.link_update_delete
