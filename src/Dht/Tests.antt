-- ===== src/Dht/Tests.antt =====
-- The theorems on the DHT state at concrete items, with an in-memory storage.
use rust_holochain.Base.{
  ℕ, ◌+◌, ◌≤◌, ◌≡◌, ◌≢◌, ◌↔◌, refl, ◌⊎◌, Bool, true, false, ◌&&◌, Option, none, some, List, [], ◌∷◌,
  arith, ◌==◌, any, filter, map, if◌then◌else◌,
}
use rust_holochain.CoreTypes.{
  HolochainError, ok, err, Entry, EntryAspect, EntryType, ChainHeader, Hashing, entry_address,
}
use rust_holochain.CoreTypes.Aspect.{header, aspect_entry_address}
use rust_holochain.Net.AspectMap
use rust_holochain.Dht.Pending.{
  PendingValidation, PendingValidationWithTimeout, hold_entry, update_entry, try_from_aspect,
  into_aspect, get_validation_dependencies, into_aspect-try_from_aspect,
}
use rust_holochain.Dht.Store.{
  DhtStore, HoldAspectAttemptId, next_queued_holding_workflow, is_delayed, free_pending_filter,
  has_same_queued_holding_workflow, has_same_in_process_holding_workflow, snapshot,
  new_from_snapshot,
}
use rust_holochain.Dht.Store.Queues.{count}
use rust_holochain.Dht.Store.Next.{IsNext, next_queued_holding_workflow-IsNext}
use rust_holochain.Dht.Store.Schedule.{self_dependent_never_runs, restart_lem}
use rust_holochain.Dht.Persistence.{Persistence, Content, Eavi, address_of_content}
use rust_holochain.Dht.Inner.{reduce_store_entry_inner, add_header_for_entry}
use rust_holochain.Dht.Reducers.{
  queue_holding_workflow, unchanged, changed, gave_up, finished, hold, reduce_hold_aspect,
  reduce_prune, reduce_queue_holding_workflow, reduce, same_key, resolve, is_held,
}
use rust_holochain.Dht.Reducers.Hold.{IsHeld, IsRefused, reduce_hold_aspect_lem, gives_up_on_header}
use rust_holochain.Dht.Reducers.Prune.{Distinct, pruned, reduce_prune_lem}
use rust_holochain.Dht.Reducers.Once.{AtMostOnce, reduce-AtMostOnce}

abbrev payload : Entry → ℕ
payload (Entry.app name value) = value
payload (Entry.deletion d) = d
payload _ = 0

abbrev hash : Hashing
hash = record {
  header_address = λ h. h.timestamp;
  agent_address = λ a. a;
  content_address = payload;
  aspect_address = λ a. (header a).timestamp + 1000;
}

abbrev is_header : Content → Bool
is_header (Content.header h) = true
is_header (Content.entry e) = false

abbrev find_content : ℕ → List Content → Option Content
find_content a [] = none
find_content a (c ∷ cs) = if address_of_content hash c == a then some c else find_content a cs

-- A memory that takes everything but headers if it is told so.
abbrev memory : Bool → Persistence
memory refuses_headers = record {
  Storage = List Content × List Eavi;
  fetch = λ s a. ok (find_content a s.0);
  add_content = λ s c.
      if refuses_headers && is_header c
      then (s, err HolochainError.error_generic)
      else ((c ∷ s.0, s.1), ok tt);
  add_eavi = λ s e. ((s.0, e ∷ s.1), ok tt);
  fetch_eavi = λ s q. ok (filter (λ e. (e.entity == q.entity) && q.attribute e.attribute) s.1);
  new_eavi = λ s e a v. ok (record { entity = e; attribute = a; value = v; index = 0 });
  new_eavi_with_index = λ e a v i. ok (record { entity = e; attribute = a; value = v; index = i });
}

abbrev note : Entry
note = Entry.app 7 500

abbrev header_of : (entry_address timestamp : ℕ) → Option ℕ → ChainHeader
header_of entry_address timestamp updated = record {
  entry_type = EntryType.app 7;
  entry_address = entry_address;
  provenances = [];
  link = none;
  link_same_type = none;
  link_update_delete = updated;
  timestamp = timestamp;
}

abbrev noted : ChainHeader
noted = header_of 500 1 none

abbrev item : PendingValidation
item = record {
  entry_with_header = record { entry = note; header = noted };
  dependencies = [];
  workflow = hold_entry;
  uuid = 9;
}

-- An update to the content that the entry has already.
abbrev same_again : PendingValidation
same_again = record {
  entry_with_header = record { entry = note; header = header_of 500 2 (some 500) };
  dependencies = 500 ∷ [];
  workflow = update_entry;
  uuid = 10;
}

abbrev queued : DhtStore
queued = record {
  holding_map = [];
  holding_attempt_results = [];
  queued_holding_workflows = record { pending = item; timeout = none } ∷ [];
  in_process_holding_workflows = [];
}

abbrev running : DhtStore
running = record queued {
  queued_holding_workflows = [];
  in_process_holding_workflows = record { pending = item; timeout = none } ∷ [];
}

abbrev attempt : HoldAspectAttemptId
attempt = record { parent = 1; own = 2 }

made : try_from_aspect hash 9 (EntryAspect.content note noted) ≡ ok item
unfolding try_from_aspect entry_address get_validation_dependencies
made = refl

into_aspect-try_from_aspect_example : into_aspect item ≡ some (EntryAspect.content note noted)
into_aspect-try_from_aspect_example =
    into_aspect-try_from_aspect hash 9 (EntryAspect.content note noted) {p = item} made

next_is_item : next_queued_holding_workflow hash 0 queued ≡ some (item, none)
unfolding next_queued_holding_workflow free_pending_filter is_delayed
next_is_item = refl

next_queued_holding_workflow-IsNext_example :
    IsNext hash 0 queued.queued_holding_workflows queued.queued_holding_workflows
      (next_queued_holding_workflow hash 0 queued)
next_queued_holding_workflow-IsNext_example = next_queued_holding_workflow-IsNext hash 0 queued

self_dependent_never_runs_example :
    next_queued_holding_workflow hash 0 (record queued {
      queued_holding_workflows = record { pending = same_again; timeout = none } ∷ [];
    })
    ≢ some (same_again, none)
unfolding entry_address
self_dependent_never_runs_example =
    self_dependent_never_runs hash 0
      (record queued {
        queued_holding_workflows = record { pending = same_again; timeout = none } ∷ [];
      })
      same_again none refl

abbrev a_quarter : Option ℕ
a_quarter = some 15000

restart_lem_example :
    ((new_from_snapshot 8 (snapshot running)).holding_map ≡ [])
    × (map (λ x. x.pending) (new_from_snapshot 8 (snapshot running)).queued_holding_workflows
        ≡ item ∷ [])
    × ((new_from_snapshot 8 (snapshot running)).in_process_holding_workflows ≡ [])
    × (next_queued_holding_workflow hash 8 (new_from_snapshot 8 (snapshot running)) ≡ none)
restart_lem_example = restart_lem hash 8 running

reduce_hold_aspect_lem_example :
    (((hold hash (memory false) (EntryAspect.content note noted) ([], [])).1 ≡ finished (ok tt))
      × ((st' : DhtStore) × ((reduce_hold_aspect hash
              (memory false)
              (EntryAspect.content note noted)
              attempt
              running
              ([], [])).1
            ≡ changed st')
          × IsHeld hash (EntryAspect.content note noted) attempt running st'))
    ⊎ ((e : HolochainError) × ((hold hash
            (memory false)
            (EntryAspect.content note noted)
            ([], [])).1
          ≡ finished (err e))
        × ((st' : DhtStore) × ((reduce_hold_aspect hash
                (memory false)
                (EntryAspect.content note noted)
                attempt
                running
                ([], [])).1
              ≡ changed st')
            × IsRefused hash e attempt running st'))
    ⊎ (((hold hash (memory false) (EntryAspect.content note noted) ([], [])).1 ≡ gave_up)
        × ((reduce_hold_aspect hash
              (memory false)
              (EntryAspect.content note noted)
              attempt
              running
              ([], [])).1
            ≡ unchanged))
reduce_hold_aspect_lem_example =
    reduce_hold_aspect_lem hash (memory false) (EntryAspect.content note noted) attempt running
      ([], [])

gives_up :
    (reduce_hold_aspect hash
      (memory true)
      (EntryAspect.content note noted)
      attempt
      running
      ([], [])).1
    ≡ unchanged
unfolding reduce_hold_aspect hold reduce_store_entry_inner add_header_for_entry
gives_up = refl

gives_up_on_header_example :
    ((reduce_hold_aspect hash
        (memory true)
        (EntryAspect.content note noted)
        attempt
        running
        ([], [])).1
      ≡ unchanged)
    ↔ ((e : Entry) × (h : ChainHeader) × (f : HolochainError) × (EntryAspect.content note noted
          ≡ EntryAspect.content e h)
        × ((reduce_store_entry_inner hash (memory true) e ([], [])).1 ≡ ok tt)
        × ((add_header_for_entry hash
              (memory true)
              e
              h
              (reduce_store_entry_inner hash (memory true) e ([], [])).0).1
            ≡ err f))
gives_up_on_header_example =
    gives_up_on_header hash (memory true) (EntryAspect.content note noted) attempt running ([], [])

reduce_prune_lem_example :
    Distinct (pruned queued (reduce_prune queued)).queued_holding_workflows
    × ((x : PendingValidationWithTimeout)
        → any (same_key x) (pruned queued (reduce_prune queued)).queued_holding_workflows
          ≡ any (same_key x) queued.queued_holding_workflows)
    × ((q : PendingValidation → Bool)
        → count q (pruned queued (reduce_prune queued)).queued_holding_workflows
          ≤ count q queued.queued_holding_workflows)
    × ((pruned queued (reduce_prune queued)).in_process_holding_workflows ≡ [])
    × ((pruned queued (reduce_prune queued)).holding_map ≡ [])
reduce_prune_lem_example = reduce_prune_lem queued

empty-AtMostOnce : AtMostOnce (record queued { queued_holding_workflows = [] })
empty-AtMostOnce q = omega arith

queue_item :
    (reduce hash
      (memory false)
      0
      (queue_holding_workflow item none)
      (record queued { queued_holding_workflows = [] })
      ([], [])).1
    ≡ some queued
unfolding reduce resolve reduce_queue_holding_workflow is_held into_aspect AspectMap.contains
    aspect_entry_address has_same_queued_holding_workflow has_same_in_process_holding_workflow
queue_item = refl

reduce-AtMostOnce_example : AtMostOnce queued
reduce-AtMostOnce_example =
    reduce-AtMostOnce hash (memory false) 0 (queue_holding_workflow item none)
      (record queued { queued_holding_workflows = [] }) queued ([], []) queue_item empty-AtMostOnce

abbrev orphan : PendingValidation
orphan = record {
  entry_with_header = record { entry = note; header = noted };
  dependencies = [];
  workflow = update_entry;
  uuid = 9;
}

orphan_made : try_from_aspect hash 9 (EntryAspect.update note noted) ≡ ok orphan
unfolding try_from_aspect entry_address get_validation_dependencies
orphan_made = refl
