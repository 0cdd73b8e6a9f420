-- ===== src/Dht/Pending.antt =====
-- crates/core/src/dht/pending_validations.rs, with `EntryWithHeader` of
-- crates/core/src/network/entry_with_header.rs and the dependencies of
-- crates/core/src/entry/validation_dependencies.rs.
use rust_holochain.Base.{
  ℕ, ◌≡◌, ◌≢◌, refl, sym, ◌∙◌, inl, inr, Bool, not, Option, none, some, List, [], ◌∷◌, arith, ◌==◌,
  ==_iff, Option-cases, if◌then◌else◌,
}
use rust_holochain.CoreTypes.{
  HolochainError, HcResult, ok, err, ok_or, ◌>>=◌, Hashing, Entry, EntryAspect, ChainHeader,
  entry_address,
}
use rust_holochain.CoreTypes.Aspect.{header}

pub data ValidatingWorkflow : Type 0 where
  hold_entry hold_link remove_link update_entry remove_entry : ValidatingWorkflow

pub record EntryWithHeader : Type 0 where
  pub entry : Entry
  pub header : ChainHeader

pub record PendingValidation : Type 0 where
  pub entry_with_header : EntryWithHeader
  pub dependencies : List ℕ
  pub workflow : ValidatingWorkflow
  pub uuid : ℕ

-- A duration and a point of time in milliseconds.
pub record ValidationTimeout : Type 0 where
  pub time_of_dispatch : ℕ
  pub delay : ℕ

pub record PendingValidationWithTimeout : Type 0 where
  pub pending : PendingValidation
  pub timeout : Option ValidationTimeout

abbrev pub workflow_code : ValidatingWorkflow → ℕ
workflow_code hold_entry = 0
workflow_code hold_link = 1
workflow_code remove_link = 2
workflow_code update_entry = 3
workflow_code remove_entry = 4

-- The derived `==` of workflows.
abbrev pub workflow_eq : ValidatingWorkflow → ValidatingWorkflow → Bool
workflow_eq v w = workflow_code v == workflow_code w

unfoldable pub try_from_entry_and_header : Hashing → Entry → ChainHeader → HcResult EntryWithHeader
try_from_entry_and_header hash e h =
    if not (entry_address hash e == h.entry_address)
    then err HolochainError.validation_failed
    else ok (record { entry = e; header = h })

abbrev pub option_to_list : Option ℕ → List ℕ
option_to_list none = []
option_to_list (some a) = a ∷ []

unfoldable pub dependencies_of : Entry → ChainHeader → List ℕ
dependencies_of (Entry.app _ _) h = option_to_list h.link_update_delete
dependencies_of (Entry.link_add l) h = l.link.base ∷ l.link.target ∷ []
dependencies_of (Entry.link_remove l _) h = l.link.base ∷ l.link.target ∷ []
dependencies_of (Entry.chain_header c) h = option_to_list c.link
dependencies_of (Entry.deletion d) h = d ∷ []
dependencies_of _ h = []

unfoldable pub get_validation_dependencies : EntryWithHeader → List ℕ
unfolding dependencies_of
get_validation_dependencies e = dependencies_of e.entry e.header

-- `uuid` is the fresh identifier that the process hands out.
unfoldable pub new : ℕ → EntryWithHeader → ValidatingWorkflow → PendingValidation
new uuid e workflow = record {
  entry_with_header = e;
  dependencies = get_validation_dependencies e;
  workflow = workflow;
  uuid = uuid;
}

abbrev pub pending_for :
    Hashing → ℕ → ValidatingWorkflow → Entry → ChainHeader → HcResult PendingValidation
pending_for hash uuid workflow e h =
    try_from_entry_and_header hash e h >>= λ ewh. ok (new uuid ewh workflow)

unfoldable pub try_from_aspect : Hashing → ℕ → EntryAspect → HcResult PendingValidation
unfolding try_from_entry_and_header new
try_from_aspect hash uuid (EntryAspect.content e h) = pending_for hash uuid hold_entry e h
try_from_aspect hash uuid (EntryAspect.header h) = err HolochainError.not_implemented
try_from_aspect hash uuid (EntryAspect.link_add l h) =
    pending_for hash uuid hold_link (Entry.link_add l) h
try_from_aspect hash uuid (EntryAspect.link_remove l removed h) =
    pending_for hash uuid remove_link (Entry.link_remove l removed) h
try_from_aspect hash uuid (EntryAspect.update e h) = pending_for hash uuid update_entry e h
try_from_aspect hash uuid (EntryAspect.deletion h) = do
  deleted ← ok_or HolochainError.validation_failed h.link_update_delete
  pending_for hash uuid remove_entry (Entry.deletion deleted) h

-- `From<PendingValidationStruct> for EntryAspect`; `none` is the panic of `unwrap_to!`.
unfoldable pub aspect_of : ValidatingWorkflow → Entry → ChainHeader → Option EntryAspect
aspect_of hold_entry e h = some (EntryAspect.content e h)
aspect_of hold_link (Entry.link_add l) h = some (EntryAspect.link_add l h)
aspect_of hold_link _ h = none
aspect_of remove_link (Entry.link_remove l removed) h = some (EntryAspect.link_remove l removed h)
aspect_of remove_link _ h = none
aspect_of update_entry e h = some (EntryAspect.update e h)
aspect_of remove_entry e h = some (EntryAspect.deletion h)

unfoldable pub into_aspect : PendingValidation → Option EntryAspect
unfolding aspect_of
into_aspect p = aspect_of p.workflow p.entry_with_header.entry p.entry_with_header.header

module _ (hash : Hashing) where
  -- An aspect that can be queued for validation is got back from the queued item.
  pub into_aspect-try_from_aspect :
      (uuid : ℕ) (aspect : EntryAspect) {p : PendingValidation}
      → try_from_aspect hash uuid aspect ≡ ok p
      → into_aspect p ≡ some aspect
  unfolding try_from_aspect into_aspect
  into_aspect-try_from_aspect uuid (EntryAspect.content e h) g = ground arith
  into_aspect-try_from_aspect uuid (EntryAspect.header h) g = absurd (ground arith)
  into_aspect-try_from_aspect uuid (EntryAspect.link_add l h) g = ground arith
  into_aspect-try_from_aspect uuid (EntryAspect.link_remove l removed h) g = ground arith
  into_aspect-try_from_aspect uuid (EntryAspect.update e h) g = ground arith
  into_aspect-try_from_aspect uuid (EntryAspect.deletion h) g = ground arith

  -- The entry that an aspect carries, or that is rebuilt from the header of a deletion.
  abbrev pub carried : EntryAspect → Option Entry
  carried (EntryAspect.content e h) = some e
  carried (EntryAspect.header h) = none
  carried (EntryAspect.link_add l h) = some (Entry.link_add l)
  carried (EntryAspect.link_remove l removed h) = some (Entry.link_remove l removed)
  carried (EntryAspect.update e h) = some e
  carried (EntryAspect.deletion h) = elim h.link_update_delete [
    | none ↦ none
    | some d ↦ some (Entry.deletion d)
  ]

  abbrev workflow_of : EntryAspect → ValidatingWorkflow
  workflow_of (EntryAspect.content _ _) = hold_entry
  workflow_of (EntryAspect.header _) = hold_entry
  workflow_of (EntryAspect.link_add _ _) = hold_link
  workflow_of (EntryAspect.link_remove _ _ _) = remove_link
  workflow_of (EntryAspect.update _ _) = update_entry
  workflow_of (EntryAspect.deletion _) = remove_entry

  try_from_carried :
      (uuid : ℕ) (aspect : EntryAspect) (e : Entry)
      → carried aspect ≡ some e
      → try_from_aspect hash uuid aspect
        ≡ pending_for hash uuid (workflow_of aspect) e (header aspect)
  unfolding try_from_aspect header
  try_from_carried uuid (EntryAspect.content e h) f c = ground arith
  try_from_carried uuid (EntryAspect.header h) f c = absurd (ground arith)
  try_from_carried uuid (EntryAspect.link_add l h) f c = ground arith
  try_from_carried uuid (EntryAspect.link_remove l removed h) f c = ground arith
  try_from_carried uuid (EntryAspect.update e h) f c = ground arith
  try_from_carried uuid (EntryAspect.deletion h) f c = ground arith

  not_carried :
      (uuid : ℕ) (aspect : EntryAspect) (p : PendingValidation)
      → carried aspect ≡ none
      → try_from_aspect hash uuid aspect ≢ ok p
  unfolding try_from_aspect
  not_carried uuid (EntryAspect.content e h) p c = absurd (ground arith)
  not_carried uuid (EntryAspect.header h) p c = ground arith
  not_carried uuid (EntryAspect.link_add l h) p c = absurd (ground arith)
  not_carried uuid (EntryAspect.link_remove l removed h) p c = absurd (ground arith)
  not_carried uuid (EntryAspect.update e h) p c = absurd (ground arith)
  not_carried uuid (EntryAspect.deletion h) p c = ground arith

  pending_for_cases :
      (uuid : ℕ) (w : ValidatingWorkflow) (e : Entry) (h : ChainHeader) (p : PendingValidation)
      → pending_for hash uuid w e h ≡ ok p
      → entry_address hash e ≡ h.entry_address
  unfolding try_from_entry_and_header
  pending_for_cases uuid w e h p g = ground (arith, ==_iff (entry_address hash e) h.entry_address)

  -- An aspect can be queued exactly if it carries an entry whose address is that of its header,
  -- and the queued item has this entry and header and the dependencies that they imply.
  pub try_from_aspect_lem :
      (uuid : ℕ) (aspect : EntryAspect)
      → ((e : Entry)
          → carried aspect ≡ some e
          → entry_address hash e ≡ (header aspect).entry_address
          → (p : PendingValidation) × (try_from_aspect hash uuid aspect ≡ ok p)
            × (p.entry_with_header ≡ record { entry = e; header = header aspect })
            × (p.dependencies ≡ dependencies_of e (header aspect)))
        × ((p : PendingValidation)
            → try_from_aspect hash uuid aspect ≡ ok p
            → (e : Entry) × (carried aspect ≡ some e)
              × (entry_address hash e ≡ (header aspect).entry_address))
  unfolding try_from_entry_and_header get_validation_dependencies new
  try_from_aspect_lem uuid aspect = (
    λ e c same.
        let ewh : EntryWithHeader = record { entry = e; header = header aspect } in
        (
          new uuid ewh (workflow_of aspect),
          try_from_carried uuid aspect e c
              ∙ ground (arith, same, ==_iff (entry_address hash e) (header aspect).entry_address),
          refl,
          refl,
        ),
    λ p g. elim (Option-cases (carried aspect)) [
      | inl c ↦ absurd (not_carried uuid aspect p c g)
      | inr (e, c) ↦ (
        e,
        c,
        pending_for_cases uuid (workflow_of aspect) e (header aspect) p
            (sym (try_from_carried uuid aspect e c) ∙ g),
      )
    ],
  )
