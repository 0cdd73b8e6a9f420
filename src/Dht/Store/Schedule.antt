-- ===== src/Dht/Store/Schedule.antt =====
-- When a queued item runs: the filter and the delays of crates/core/src/dht/dht_store.rs, the
-- back-off of the holding loop of crates/core/src/instance.rs, and the restart from a snapshot.
use rust_holochain.Base.{
  ℕ, ◌*◌, ◌≤◌, ◌≡◌, ◌≢◌, refl, sym, subst, ap, ◌∙◌, inl, inr, Bool, true, false, not, ◌&&◌, Option,
  none, some, List, [], ◌∷◌, ◌++◌, map, arith, ==_iff, Option-cases, Bool-cases,
}
use mathlib.Core.List.{map-append}
use rust_holochain.Base.Set
use rust_holochain.CoreTypes.{Hashing, entry_address}
use rust_holochain.Dht.Pending.{PendingValidation, PendingValidationWithTimeout}
use rust_holochain.Dht.Store.{
  DhtStore, waiting, snapshot, reset_timeout, new_from_snapshot, is_delayed, free_pending_filter,
  next_queued_holding_workflow, delay_of, address_of, next_delay, queueing_after, unresolved,
}
use rust_holochain.Dht.Store.Next.{all-member}
use rust_holochain.Dht.Store.Queues.{find, is_ready, next_queued_holding_workflow_lem}

module _ (hash : Hashing) where
  find-some :
      (p : PendingValidationWithTimeout → Bool) (xs : List PendingValidationWithTimeout)
      {x : PendingValidationWithTimeout}
      → find hash p xs ≡ some x
      → (p x ≡ true) × (Set.contains (map (address_of hash) xs) (address_of hash x) ≡ true)
  find-some p [] h = absurd (ground arith)
  find-some p (y ∷ xs) {x} h = elim (Bool-cases (p y)) [
    | inl hit ↦
        let same : y ≡ x = ground arith in
        let found : Set.contains (map (address_of hash) (y ∷ xs)) (address_of hash y) ≡ true =
          ground (arith, ==_iff (address_of hash y) (address_of hash y)) in
        subst
          (λ (z : PendingValidationWithTimeout).
            (p z ≡ true)
            × (Set.contains (map (address_of hash) (y ∷ xs)) (address_of hash z) ≡ true))
          same (hit, found)
    | inr miss ↦ let (passes, there) = find-some p xs (ground arith) in (passes, ground arith)
  ]

  -- The item that is run next stands in the queue, its delay is over, and it depends on no entry
  -- that is still queued.
  next-IsFree :
      (now : ℕ) (st : DhtStore) {p : PendingValidation} {d : Option ℕ}
      → next_queued_holding_workflow hash now st ≡ some (p, d)
      → (x : PendingValidationWithTimeout) × (x.pending ≡ p)
        × (is_delayed now x ≡ false)
        × ((dep : ℕ)
            → Set.contains p.dependencies dep ≡ true
            → Set.contains (map (address_of hash) st.queued_holding_workflows) dep ≡ false)
        × (Set.contains (map (address_of hash) st.queued_holding_workflows) (address_of hash x)
            ≡ true)
  unfolding free_pending_filter
  next-IsFree now st {p} {d} h =
      let said = next_queued_holding_workflow_lem hash now st in
      elim (Option-cases (find hash (is_ready hash now st) st.queued_holding_workflows)) [
        | inl e ↦ absurd (ground arith)
        | inr (x, e) ↦
            let (ready, queued) = find-some (is_ready hash now st) st.queued_holding_workflows e in
            let same : x.pending ≡ p = ground arith in
            let addresses = map (address_of hash) st.queued_holding_workflows in
            (
              x,
              same,
              ground arith,
              λ dep m.
                  let free =
                    all-member hash (λ dep. not (Set.contains addresses dep)) x.pending.dependencies
                      dep (ground arith)
                      (subst (λ (q : PendingValidation). Set.contains q.dependencies dep ≡ true)
                        (sym same) m) in
                  ground arith,
              queued,
            )
      ]

  -- An item that depends on its own entry is never run, at any time and whatever else is queued.
  pub self_dependent_never_runs :
      (now : ℕ) (st : DhtStore) (p : PendingValidation) (d : Option ℕ)
      → Set.contains p.dependencies (entry_address hash p.entry_with_header.entry) ≡ true
      → next_queued_holding_workflow hash now st ≢ some (p, d)
  self_dependent_never_runs now st p d own h =
      let (x, same, ready, free, queued) = next-IsFree now st h in
      let absent = free (entry_address hash p.entry_with_header.entry) own in
      let present =
        subst
          (λ (q : PendingValidation).
            Set.contains (map (address_of hash) st.queued_holding_workflows)
              (entry_address hash q.entry_with_header.entry)
            ≡ true)
          same queued in
      cc

  -- An item whose dependencies stay unresolved waits again: a quarter of a minute if it had no
  -- delay, twice its delay if that is at most half an hour, never more than an hour, and never
  -- less than a quarter of a minute if its delay was not.
  pub next_delay_bounds :
      (old : Option ℕ)
      → (d : ℕ) × (queueing_after unresolved old ≡ waiting d)
        × (d ≤ 3600000)
        × (old ≡ none → d ≡ 15000)
        × ((o : ℕ) → old ≡ some o → o ≤ 1800000 → d ≡ 2 * o)
        × ((o : ℕ) → old ≡ some o → 15000 ≤ o → 15000 ≤ d)
  unfolding queueing_after next_delay
  next_delay_bounds none = (
    15000,
    refl,
    omega arith,
    λ e. refl,
    λ o e. absurd (ground arith),
    λ o e. absurd (ground arith),
  )
  next_delay_bounds (some old) = (
    next_delay (some old),
    refl,
    ground arith,
    λ e. absurd (ground arith),
    λ o e m. let same : old ≡ o = ground arith in ground arith,
    λ o e m. let same : old ≡ o = ground arith in ground arith,
  )

  all_delayed :
      (now : ℕ) (p : PendingValidationWithTimeout → Bool) (xs : List PendingValidationWithTimeout)
      → find hash (λ x. p x && not (is_delayed now x)) (map (reset_timeout now) xs) ≡ none
  unfolding is_delayed
  all_delayed now p [] = refl
  all_delayed now p (x ∷ xs) = ground (arith, all_delayed now p xs)

  -- A node that restarts from its snapshot holds what it held, has the items that were in process
  -- queued again before those that were waiting, each in order, has nothing in process, and runs
  -- none of them at once.
  pub restart_lem :
      (now : ℕ) (st : DhtStore)
      → ((new_from_snapshot now (snapshot st)).holding_map ≡ st.holding_map)
        × (map (λ x. x.pending) (new_from_snapshot now (snapshot st)).queued_holding_workflows
            ≡ map (λ x. x.pending) st.in_process_holding_workflows
              ++ map (λ x. x.pending) st.queued_holding_workflows)
        × ((new_from_snapshot now (snapshot st)).in_process_holding_workflows ≡ [])
        × (next_queued_holding_workflow hash now (new_from_snapshot now (snapshot st)) ≡ none)
  unfolding new_from_snapshot snapshot
  restart_lem now st =
      let items = st.in_process_holding_workflows ++ st.queued_holding_workflows in
      let st' = new_from_snapshot now (snapshot st) in
      (
        refl,
        reset_pending now items
            ∙ map-append _ st.in_process_holding_workflows st.queued_holding_workflows,
        refl,
        next_queued_holding_workflow_lem hash now st'
            ∙ ap
                (λ (o : Option PendingValidationWithTimeout). elim o [
                  | none ↦ none
                  | some p ↦ some (delay_of hash p)
                ])
                (all_delayed now (free_pending_filter hash st'.queued_holding_workflows) items),
      )
    where
      reset_pending :
          (now : ℕ) (xs : List PendingValidationWithTimeout)
          → map (λ x. x.pending) (map (reset_timeout now) xs) ≡ map (λ x. x.pending) xs
      reset_pending now [] = refl
      reset_pending now (x ∷ xs) = ap (◌∷◌ x.pending) (reset_pending now xs)
