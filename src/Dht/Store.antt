-- ===== src/Dht/Store.antt =====
-- `DhtStore` of crates/core/src/dht/dht_store.rs: what is held and what waits for validation. The
-- two storages are shared by all clones of the state, and stand in `Dht.Persistence`.
pub mod Next
pub mod Queues
pub mod Schedule
use rust_holochain.Base.{
  ℕ, ◌+◌, ◌-◌, ◌*◌, ◌≡◌, refl, Bool, true, false, not, ◌&&◌, ◌||◌, Option, none, some, List, [],
  ◌∷◌, ◌++◌, map, arith, ltb, ◌==◌, any, all, filter, if◌then◌else◌,
}
use rust_holochain.Base.Set
use rust_holochain.Base.Set.{Set}
use rust_holochain.CoreTypes.{
  HolochainError, HcResult, ok, err, Hashing, EntryAspect, entry_address, header_eq,
}
use rust_holochain.Net.AspectMap
use rust_holochain.Net.AspectMap.{AspectMap}
use rust_holochain.Dht.Pending.{
  PendingValidation, PendingValidationWithTimeout, ValidationTimeout, EntryWithHeader, workflow_eq,
}

-- A holding attempt: the parent's identifier and its own.
pub record HoldAspectAttemptId : Type 0 where
  pub parent : ℕ
  pub own : ℕ

abbrev pub attempt_eq : HoldAspectAttemptId → HoldAspectAttemptId → Bool
attempt_eq a b = (a.parent == b.parent) && (a.own == b.own)

abbrev pub Attempts : Type 0
Attempts = List (HoldAspectAttemptId × HcResult (Unit {0}))

pub record DhtStore : Type 0 where
  pub holding_map : AspectMap
  pub holding_attempt_results : Attempts
  pub queued_holding_workflows : List PendingValidationWithTimeout
  pub in_process_holding_workflows : List PendingValidationWithTimeout

pub record DhtStoreSnapshot : Type 0 where
  pub holding_map : AspectMap
  pub queued_holding_workflows : List PendingValidationWithTimeout
  pub in_process_holding_workflows : List PendingValidationWithTimeout

pub data HoldingWorkflowQueueing : Type 0 where
  processing : HoldingWorkflowQueueing
  waiting : ℕ → HoldingWorkflowQueueing
  done : HoldingWorkflowQueueing

-- In milliseconds, from crates/core/src/instance.rs.
abbrev pub retry_validation_duration_min : ℕ
retry_validation_duration_min = 15000

abbrev pub new : DhtStore
new = record {
  holding_map = [];
  holding_attempt_results = [];
  queued_holding_workflows = [];
  in_process_holding_workflows = [];
}

unfoldable pub snapshot : DhtStore → DhtStoreSnapshot
snapshot st = record {
  holding_map = st.holding_map;
  queued_holding_workflows = st.queued_holding_workflows;
  in_process_holding_workflows = st.in_process_holding_workflows;
}

abbrev pub reset_timeout : ℕ → PendingValidationWithTimeout → PendingValidationWithTimeout
reset_timeout now item = record item {
  timeout = some (record { time_of_dispatch = now; delay = retry_validation_duration_min });
}

unfoldable pub new_from_snapshot : ℕ → DhtStoreSnapshot → DhtStore
new_from_snapshot now s = record new {
  holding_map = s.holding_map;
  queued_holding_workflows =
      map (reset_timeout now) (s.in_process_holding_workflows ++ s.queued_holding_workflows);
}

unfoldable pub insert_attempt : HoldAspectAttemptId → HcResult (Unit {0}) → Attempts → Attempts
insert_attempt id r [] = (id, r) ∷ []
insert_attempt id r ((j, q) ∷ rest) =
    if attempt_eq j id then (id, r) ∷ rest else (j, q) ∷ insert_attempt id r rest

unfoldable pub get_attempt : HoldAspectAttemptId → Attempts → Option (HcResult (Unit {0}))
get_attempt id [] = none
get_attempt id ((j, q) ∷ rest) = if attempt_eq j id then some q else get_attempt id rest

unfoldable pub mark_hold_aspect_complete :
    HoldAspectAttemptId → HcResult (Unit {0}) → DhtStore → DhtStore
unfolding insert_attempt
mark_hold_aspect_complete id r st = record st {
  holding_attempt_results = insert_attempt id r st.holding_attempt_results;
}

unfoldable pub hold_aspect_request_complete :
    HoldAspectAttemptId → DhtStore → Option (HcResult (Unit {0}))
unfolding get_attempt
hold_aspect_request_complete id st = get_attempt id st.holding_attempt_results

-- The sleep delay of a queued item has not elapsed. A dispatch time in the future has no elapsed
-- time, and does not hold the item back.
unfoldable pub is_delayed : ℕ → PendingValidationWithTimeout → Bool
is_delayed now item = elim item.timeout [
  | none ↦ false
  | some t ↦ if ltb now t.time_of_dispatch then false else ltb (now - t.time_of_dispatch) t.delay
]

-- The first item behind those at the front that pass the test: `skip_while` and `next`.
unfoldable pub first_after_while {ℓ} : {A : Type ℓ} → (A → Bool) → List A → Option A
first_after_while p [] = none
first_after_while p (x ∷ xs) = if p x then first_after_while p xs else some x

-- `position` and `remove`: the first item that passes the test, and the list without it.
unfoldable pub remove_first {ℓ} : {A : Type ℓ} → (A → Bool) → List A → Option (A × List A)
remove_first p [] = none
remove_first p (x ∷ xs) =
    let rest = remove_first p xs in
    if p x then some (x, xs) else elim rest [ none ↦ none | some (y, ys) ↦ some (y, x ∷ ys) ]

unfoldable pub deps_eq : List ℕ → List ℕ → Bool
deps_eq [] [] = true
deps_eq [] (b ∷ bs) = false
deps_eq (a ∷ as') [] = false
deps_eq (a ∷ as') (b ∷ bs) = (a == b) && deps_eq as' bs

module _ (hash : Hashing) where
  -- The derived `==` of pending validations; entries compare by their addresses.
  unfoldable pub pending_eq : PendingValidation → PendingValidation → Bool
  unfolding deps_eq
  pending_eq p q =
      (entry_address hash p.entry_with_header.entry == entry_address hash q.entry_with_header.entry)
      && (header_eq p.entry_with_header.header q.entry_with_header.header
          && (deps_eq p.dependencies q.dependencies
              && (workflow_eq p.workflow q.workflow && (p.uuid == q.uuid))))

  abbrev pub is_item : PendingValidation → PendingValidationWithTimeout → Bool
  is_item item p = pending_eq p.pending item

  abbrev pub is_same : PendingValidation → PendingValidationWithTimeout → Bool
  is_same item p =
      header_eq p.pending.entry_with_header.header item.entry_with_header.header
      && workflow_eq p.pending.workflow item.workflow

  unfoldable pub has_exact_queued_holding_workflow : PendingValidation → DhtStore → Bool
  has_exact_queued_holding_workflow item st = any (is_item item) st.queued_holding_workflows

  unfoldable pub has_exact_in_process_holding_workflow : PendingValidation → DhtStore → Bool
  has_exact_in_process_holding_workflow item st = any (is_item item) st.in_process_holding_workflows

  unfoldable pub has_same_queued_holding_workflow : PendingValidation → DhtStore → Bool
  has_same_queued_holding_workflow item st = any (is_same item) st.queued_holding_workflows

  unfoldable pub has_same_in_process_holding_workflow : PendingValidation → DhtStore → Bool
  has_same_in_process_holding_workflow item st = any (is_same item) st.in_process_holding_workflows

  abbrev pub address_of : PendingValidationWithTimeout → ℕ
  address_of p = entry_address hash p.pending.entry_with_header.entry

  -- An item is free if none of its dependencies is itself the entry of a queued item.
  unfoldable pub free_pending_filter :
      List PendingValidationWithTimeout → PendingValidationWithTimeout → Bool
  free_pending_filter pending p =
      all (λ dep. not (Set.contains (map address_of pending) dep)) p.pending.dependencies

  abbrev pub delay_of : PendingValidationWithTimeout → PendingValidation × Option ℕ
  delay_of p = (p.pending, elim p.timeout [ none ↦ none | some t ↦ some t.delay ])

  unfoldable pub next_queued_holding_workflow : ℕ → DhtStore → Option (PendingValidation × Option ℕ)
  unfolding first_after_while
  next_queued_holding_workflow now st =
      elim (first_after_while (is_delayed now)
        (filter (free_pending_filter st.queued_holding_workflows) st.queued_holding_workflows)) [
          | none ↦ none
          | some p ↦ some (delay_of p)
        ]

  unfoldable pub update_queued_holding_workflow :
      ℕ → HoldingWorkflowQueueing → PendingValidation → DhtStore → DhtStore
  update_queued_holding_workflow now (waiting delay) item st =
      elim (remove_first (is_item item) st.in_process_holding_workflows) [
        | none ↦ st
        | some (p, rest) ↦ record st {
          in_process_holding_workflows = rest;
          queued_holding_workflows =
              st.queued_holding_workflows
              ++ (record p { timeout = some (record { time_of_dispatch = now; delay = delay }) }
                  ∷ []);
        }
      ]
  update_queued_holding_workflow now processing item st =
      elim (remove_first (is_item item) st.queued_holding_workflows) [
        | none ↦ st
        | some (p, rest) ↦ record st {
          queued_holding_workflows = rest;
          in_process_holding_workflows = st.in_process_holding_workflows ++ (p ∷ []);
        }
      ]
  update_queued_holding_workflow now done item st =
      elim (remove_first (is_item item) st.in_process_holding_workflows) [
        | none ↦ st
        | some (p, rest) ↦ record st { in_process_holding_workflows = rest }
      ]

-- The holding loop of crates/core/src/instance.rs: what becomes of an item whose validation ended.
-- `unresolved` stands for `ValidationPending`, and the delay is capped at an hour.
pub data Validation : Type 0 where
  valid failed unresolved : Validation

abbrev pub retry_validation_duration_max : ℕ
retry_validation_duration_max = 3600000

unfoldable pub next_delay : Option ℕ → ℕ
next_delay maybe_delay =
    let delay : ℕ = elim maybe_delay [
      | none ↦ retry_validation_duration_min
      | some old_delay ↦ old_delay * 2
    ] in
    if ltb retry_validation_duration_max delay then retry_validation_duration_max else delay

unfoldable pub queueing_after : Validation → Option ℕ → HoldingWorkflowQueueing
unfolding next_delay
queueing_after unresolved maybe_delay = waiting (next_delay maybe_delay)
queueing_after failed maybe_delay = done
queueing_after valid maybe_delay = done
