-- ===== src/Dht/Store/Queues.antt =====
-- The two queues of `DhtStore`, crates/core/src/dht/dht_store.rs.
use rust_holochain.Base.{
  ℕ, suc, ◌+◌, ◌≡◌, ◌≢◌, refl, ap, inl, inr, Bool, true, false, not, ◌&&◌, Option, none, some, List,
  [], ◌∷◌, ◌++◌, arith, any, filter, if◌then◌else◌, Option-cases, Bool-cases, ◌⊎◌,
}
use rust_holochain.CoreTypes.{Hashing}
use rust_holochain.Dht.Pending.{PendingValidation, PendingValidationWithTimeout}
use rust_holochain.Dht.Store.{
  DhtStore, HoldingWorkflowQueueing, processing, waiting, done, is_delayed, first_after_while,
  remove_first, is_item, pending_eq, free_pending_filter, next_queued_holding_workflow,
  update_queued_holding_workflow, delay_of,
}

-- How many items of a queue have a pending validation that passes a test.
abbrev pub count : (PendingValidation → Bool) → List PendingValidationWithTimeout → ℕ
count q [] = 0
count q (x ∷ xs) = if q x.pending then suc (count q xs) else count q xs

-- How many items of both queues.
abbrev pub total : (PendingValidation → Bool) → DhtStore → ℕ
total q st = count q st.queued_holding_workflows + count q st.in_process_holding_workflows

count-append :
    (q : PendingValidation → Bool) (xs ys : List PendingValidationWithTimeout)
    → count q (xs ++ ys) ≡ count q xs + count q ys
count-append q [] ys = omega arith
count-append q (x ∷ xs) ys = ground (arith, count-append q xs ys)

abbrev pub one_if : Bool → ℕ
one_if true = 1
one_if false = 0

count-remove_first :
    (q : PendingValidation → Bool) (p : PendingValidationWithTimeout → Bool)
    (xs : List PendingValidationWithTimeout) {y : PendingValidationWithTimeout}
    {ys : List PendingValidationWithTimeout}
    → remove_first p xs ≡ some (y, ys)
    → (count q xs ≡ count q ys + one_if (q y.pending)) × (p y ≡ true)
unfolding remove_first
count-remove_first q p [] h = absurd (ground arith)
count-remove_first q p (x ∷ xs) {y} {ys} h = elim (Bool-cases (p x)) [
  | inl hit ↦ (ground arith, ground arith)
  | inr miss ↦ elim (Option-cases (remove_first p xs)) [
    | inl e ↦ absurd (ground arith)
    | inr ((z, zs), e) ↦
        let (counted, passes) = count-remove_first q p xs e in (ground arith, ground arith)
  ]
]

remove_first-none :
    (p : PendingValidationWithTimeout → Bool) (xs : List PendingValidationWithTimeout)
    → remove_first p xs ≡ none
    → any p xs ≡ false
unfolding remove_first
remove_first-none p [] h = refl
remove_first-none p (x ∷ xs) h = elim (Option-cases (remove_first p xs)) [
  | inl e ↦ ground (arith, remove_first-none p xs e)
  | inr ((z, zs), e) ↦ absurd (ground arith)
]

module _ (hash : Hashing) where
  -- Moving an item between the queues, in either direction, loses and makes up nothing: the two
  -- queues together hold as many items of any kind as before.
  pub total-move :
      (now : ℕ) (s : HoldingWorkflowQueueing) (item : PendingValidation) (st : DhtStore)
      (q : PendingValidation → Bool)
      → s ≢ done
      → total q (update_queued_holding_workflow hash now s item st) ≡ total q st
  unfolding update_queued_holding_workflow
  total-move now (waiting delay) item st q h =
      elim (Option-cases (remove_first (is_item hash item) st.in_process_holding_workflows)) [
        | inl e ↦ ground arith
        | inr ((p, rest), e) ↦
            let p' : PendingValidationWithTimeout = record p {
              timeout = some (record { time_of_dispatch = now; delay = delay });
            } in
            ground (
              arith,
              count-remove_first q (is_item hash item) st.in_process_holding_workflows e,
              count-append q st.queued_holding_workflows (p' ∷ []),
            )
      ]
  total-move now processing item st q h =
      elim (Option-cases (remove_first (is_item hash item) st.queued_holding_workflows)) [
        | inl e ↦ ground arith
        | inr ((p, rest), e) ↦ ground (
          arith,
          count-remove_first q (is_item hash item) st.queued_holding_workflows e,
          count-append q st.in_process_holding_workflows (p ∷ []),
        )
      ]
  total-move now done item st q h = absurd (h refl)

  -- Marking an item as done either finds no equal item in process and changes nothing, or takes
  -- out one that equals it: the number of items of any kind in both queues falls by one if the
  -- removed item is of this kind, and else stays.
  pub total-done :
      (now : ℕ) (item : PendingValidation) (st : DhtStore) (q : PendingValidation → Bool)
      → ((any (is_item hash item) st.in_process_holding_workflows ≡ false)
          × (update_queued_holding_workflow hash now done item st ≡ st))
        ⊎ ((p : PendingValidation) × (pending_eq hash p item ≡ true)
            × (total q st
                ≡ total q (update_queued_holding_workflow hash now done item st) + one_if (q p)))
  unfolding update_queued_holding_workflow
  total-done now item st q =
      elim (Option-cases (remove_first (is_item hash item) st.in_process_holding_workflows)) [
        | inl e ↦
            inl (
              remove_first-none (is_item hash item) st.in_process_holding_workflows e,
              ground arith,
            )
        | inr ((p, rest), e) ↦
            let (counted, same) =
              count-remove_first q (is_item hash item) st.in_process_holding_workflows e in
            inr (p.pending, same, ground arith)
      ]

  -- The reference for the choice of the next item.
  abbrev pub find :
      (PendingValidationWithTimeout → Bool)
      → List PendingValidationWithTimeout
      → Option PendingValidationWithTimeout
  find p [] = none
  find p (x ∷ xs) = if p x then some x else find p xs

  first-filter :
      (p d : PendingValidationWithTimeout → Bool) (xs : List PendingValidationWithTimeout)
      → first_after_while d (filter p xs) ≡ find (λ x. p x && not (d x)) xs
  unfolding first_after_while
  first-filter p d [] = refl
  first-filter p d (x ∷ xs) = ground (arith, first-filter p d xs)

  abbrev pub is_ready : ℕ → DhtStore → PendingValidationWithTimeout → Bool
  is_ready now st x =
      free_pending_filter hash st.queued_holding_workflows x && not (is_delayed now x)

  -- The next item is the first in the queue that is free of queued dependencies and whose delay
  -- is over.
  pub next_queued_holding_workflow_lem :
      (now : ℕ) (st : DhtStore)
      → next_queued_holding_workflow hash now st
        ≡ elim (find (is_ready now st) st.queued_holding_workflows) [
          | none ↦ none
          | some p ↦ some (delay_of hash p)
        ]
  unfolding next_queued_holding_workflow
  next_queued_holding_workflow_lem now st =
      ap
        (λ (o : Option PendingValidationWithTimeout). elim o [
          | none ↦ none
          | some p ↦ some (delay_of hash p)
        ])
        (first-filter (free_pending_filter hash st.queued_holding_workflows) (is_delayed now)
          st.queued_holding_workflows)
