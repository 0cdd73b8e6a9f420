-- ===== src/Dht/Reducers.antt =====
-- crates/core/src/dht/dht_reducers.rs: the reducers of the DHT state, over the shared storages.
pub mod Hold
pub mod Once
pub mod Prune
use rust_holochain.Base.{
  ℕ, ◌≡◌, refl, Bool, true, false, not, ◌&&◌, ◌||◌, Option, none, some, List, [], ◌∷◌, ◌++◌, arith,
  ltb, ◌==◌, any, length, if◌then◌else◌,
}
use rust_holochain.CoreTypes.{
  HolochainError, HcResult, ok, err, Entry, EntryAspect, ChainHeader, LinkData, Hashing,
  entry_address,
}
use rust_holochain.Net.AspectMap
use rust_holochain.Net.AspectMap.{AspectMap}
use rust_holochain.Dht.Pending.{
  PendingValidation, PendingValidationWithTimeout, ValidationTimeout, into_aspect, workflow_eq,
}
use rust_holochain.Dht.Store.{
  DhtStore, HoldAspectAttemptId, HoldingWorkflowQueueing, mark_hold_aspect_complete,
  has_same_queued_holding_workflow, has_same_in_process_holding_workflow,
  update_queued_holding_workflow,
}
use rust_holochain.Dht.Persistence.{Persistence}
use rust_holochain.Dht.Inner.{
  LinkModification, add_link, remove_link, reduce_store_entry_inner, reduce_add_remove_link_inner,
  reduce_update_entry_inner, reduce_remove_entry_inner, add_header_for_entry,
}

pub data Action : Type 0 where
  commit : Entry → Action
  hold_aspect : EntryAspect → HoldAspectAttemptId → Action
  queue_holding_workflow : PendingValidation → Option ValidationTimeout → Action
  remove_queued_holding_workflow : HoldingWorkflowQueueing → PendingValidation → Action
  prune : Action
  other : Action

-- What a reducer does with the state: `None` leaves it unchanged.
pub data Reduced : Type 0 where
  panics unchanged : Reduced
  changed : DhtStore → Reduced

-- The outcome of the match in `reduce_hold_aspect`: an early return, or the result of the hold.
pub data Held : Type 0 where
  gave_up : Held
  finished : HcResult (Unit {0}) → Held

-- `unique_by`: the first item of each workflow and entry address.
abbrev pub same_key : PendingValidationWithTimeout → PendingValidationWithTimeout → Bool
same_key p q =
    workflow_eq p.pending.workflow q.pending.workflow
    && (p.pending.entry_with_header.header.entry_address
        == q.pending.entry_with_header.header.entry_address)

unfoldable pub unique_from :
    List PendingValidationWithTimeout
    → List PendingValidationWithTimeout
    → List PendingValidationWithTimeout
unique_from seen [] = []
unique_from seen (p ∷ ps) =
    let kept = p ∷ unique_from (p ∷ seen) ps in
    let dropped = unique_from seen ps in if any (same_key p) seen then dropped else kept

unfoldable pub reduce_prune : DhtStore → Reduced
reduce_prune st =
    let pruned_queue = unique_from [] st.queued_holding_workflows in
    if ltb (length pruned_queue) (length st.queued_holding_workflows)
    then changed (record st { queued_holding_workflows = pruned_queue })
    else unchanged

module _ (hash : Hashing) where
  -- The outer `none` is the panic of a pending item that is no aspect, or of one without an entry.
  unfoldable pub is_held : PendingValidation → DhtStore → Option Bool
  is_held pending st = elim (into_aspect pending) [
    | none ↦ none
    | some aspect ↦ AspectMap.contains hash st.holding_map aspect
  ]

  unfoldable pub reduce_queue_holding_workflow :
      PendingValidation → Option ValidationTimeout → DhtStore → Reduced
  reduce_queue_holding_workflow pending timeout st = elim (is_held pending st) [
    | none ↦ panics
    | some held ↦
        if held
        then unchanged
        else if has_same_queued_holding_workflow hash pending st
        then unchanged
        else if has_same_in_process_holding_workflow hash pending st
        then unchanged
        else changed (record st {
          queued_holding_workflows =
              st.queued_holding_workflows ++ (record { pending = pending; timeout = timeout } ∷ []);
        })
  ]

  unfoldable pub reduce_remove_queued_holding_workflow :
      ℕ → HoldingWorkflowQueueing → PendingValidation → DhtStore → Reduced
  reduce_remove_queued_holding_workflow now s pending st =
      changed (update_queued_holding_workflow hash now s pending st)

  module _ (db : Persistence) where
    unfoldable pub reduce_commit_entry : Entry → DhtStore → db.Storage → db.Storage × Reduced
    reduce_commit_entry e st s =
        let (s', r) = reduce_store_entry_inner hash db e s in
        (s', elim r [ ok _ ↦ changed st | err _ ↦ unchanged ])

    -- The fold over the removed links: each is tried, and the last failure is remembered.
    unfoldable pub remove_links :
        LinkData
        → List ℕ
        → ChainHeader
        → HcResult (Unit {0})
        → db.Storage
        → db.Storage × HcResult (Unit {0})
    remove_links l [] h result s = (s, result)
    remove_links l (a ∷ links) h result s =
        let (s', r) = reduce_add_remove_link_inner hash db l a remove_link h s in
        remove_links l links h (elim r [ ok _ ↦ result | err _ ↦ err HolochainError.error_generic ])
          s'

    abbrev pub done_or_generic : {A : Type 0} → db.Storage × HcResult A → db.Storage × Held
    done_or_generic r =
        (r.0, finished (elim (r.1) [ ok _ ↦ ok tt | err _ ↦ err HolochainError.error_generic ]))

    -- `add_header_for_entry(..).ok()?` returns from the whole reducer.
    abbrev pub header_added : db.Storage × HcResult (Unit {0}) → db.Storage × Held
    header_added r = (r.0, elim (r.1) [ ok _ ↦ finished (ok tt) | err _ ↦ gave_up ])

    unfoldable pub hold : EntryAspect → db.Storage → db.Storage × Held
    unfolding remove_links
    hold (EntryAspect.content e h) s =
        let r = reduce_store_entry_inner hash db e s in
        elim (r.1) [
          | ok _ ↦ header_added (add_header_for_entry hash db e h (r.0))
          | err _ ↦ (r.0, finished (err HolochainError.error_generic))
        ]
    hold (EntryAspect.link_add l h) s = done_or_generic (
        reduce_add_remove_link_inner hash db l (entry_address hash (Entry.link_add l)) add_link h s)
    hold (EntryAspect.link_remove l links h) s =
        let (s', r) = remove_links l links h (ok tt) s in (s', finished r)
    hold (EntryAspect.update e h) s = elim h.link_update_delete [
      | some crud_link ↦
          done_or_generic (reduce_update_entry_inner hash db crud_link (entry_address hash e) s)
      | none ↦ (s, finished (err HolochainError.error_generic))
    ]
    hold (EntryAspect.deletion h) s = elim h.link_update_delete [
      | some crud_link ↦ done_or_generic (reduce_remove_entry_inner hash db crud_link s)
      | none ↦ (s, finished (err HolochainError.error_generic))
    ]
    hold (EntryAspect.header h) s = (s, finished (err HolochainError.error_generic))

    -- What follows the match: only a success marks the aspect as held.
    unfoldable pub complete : EntryAspect → HoldAspectAttemptId → DhtStore → Held → Reduced
    complete aspect id st gave_up = unchanged
    complete aspect id st (finished (ok _)) = elim (AspectMap.add hash st.holding_map aspect) [
      | none ↦ panics
      | some held ↦
          changed (mark_hold_aspect_complete id (ok tt) (record st { holding_map = held }))
    ]
    complete aspect id st (finished (err e)) = changed (mark_hold_aspect_complete id (err e) st)

    unfoldable pub reduce_hold_aspect :
        EntryAspect → HoldAspectAttemptId → DhtStore → db.Storage → db.Storage × Reduced
    unfolding complete
    reduce_hold_aspect aspect id st s = let r = hold aspect s in (r.0, complete aspect id st (r.1))

    unfoldable pub resolve : ℕ → Action → DhtStore → db.Storage → db.Storage × Reduced
    resolve now (commit e) st s = reduce_commit_entry e st s
    resolve now (hold_aspect aspect id) st s = reduce_hold_aspect aspect id st s
    resolve now (queue_holding_workflow p timeout) st s =
        (s, reduce_queue_holding_workflow p timeout st)
    resolve now (remove_queued_holding_workflow state p) st s =
        (s, reduce_remove_queued_holding_workflow now state p st)
    resolve now prune st s = (s, reduce_prune st)
    resolve now other st s = (s, unchanged)

    -- `reduce`: the new state, or `none` for a panic.
    unfoldable pub reduce : ℕ → Action → DhtStore → db.Storage → db.Storage × Option DhtStore
    reduce now action st s =
        let r = resolve now action st s in
        (r.0, elim (r.1) [ panics ↦ none | unchanged ↦ some st | changed st' ↦ some st' ])
