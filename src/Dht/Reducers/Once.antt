-- ===== src/Dht/Reducers/Once.antt =====
-- The reducers of crates/core/src/dht/dht_reducers.rs keep each item at most once in the queues.
use rust_holochain.Base.{
  ℕ, ◌+◌, ◌≤◌, ◌≡◌, refl, subst, inl, inr, Bool, true, false, ◌&&◌, Option, none, some, List, [],
  ◌∷◌, ◌++◌, arith, any, if◌then◌else◌, Option-cases, Bool-cases, ◌⊎◌,
}
use rust_holochain.CoreTypes.{
  ok, Entry, EntryAspect, ChainHeader, Hashing, header_eq, header_eq_lem,
}
use rust_holochain.CoreTypes.Aspect.{aspect_entry_address}
use rust_holochain.Net.AspectMap
use rust_holochain.Dht.Pending.{
  PendingValidation, PendingValidationWithTimeout, ValidationTimeout, workflow_eq, try_from_aspect,
  into_aspect-try_from_aspect,
}
use rust_holochain.Dht.Store.{
  DhtStore, HoldingWorkflowQueueing, processing, waiting, done, is_same,
  has_same_queued_holding_workflow, has_same_in_process_holding_workflow,
  update_queued_holding_workflow,
}
use rust_holochain.Dht.Store.Queues.{count, total, total-move, total-done}
use rust_holochain.Dht.Persistence.{Persistence}
use rust_holochain.Dht.Reducers.{
  Action, commit, hold_aspect, queue_holding_workflow, remove_queued_holding_workflow, prune, other,
  Reduced, panics, unchanged, changed, is_held, reduce_queue_holding_workflow,
  reduce_remove_queued_holding_workflow, reduce_prune, reduce_commit_entry, resolve, reduce,
}
use rust_holochain.Dht.Reducers.Hold.{reduce_hold_aspect_lem}
use rust_holochain.Dht.Reducers.Prune.{reduce_prune_lem, pruned}

abbrev pub has_key : PendingValidation → PendingValidation → Bool
has_key q p =
    header_eq p.entry_with_header.header q.entry_with_header.header
    && workflow_eq p.workflow q.workflow

-- Both queues together hold at most one item with a given header and workflow.
abbrev pub AtMostOnce : DhtStore → Type 0
AtMostOnce st = (q : PendingValidation) → total (has_key q) st ≤ 1

count-none :
    (q : PendingValidation) (xs : List PendingValidationWithTimeout) (hash : Hashing)
    → any (is_same hash q) xs ≡ false
    → count (has_key q) xs ≡ 0
count-none q [] hash h = refl
count-none q (x ∷ xs) hash h = ground (arith, count-none q xs hash)

module _ (hash : Hashing) where
  move-AtMostOnce :
      (now : ℕ) (s : HoldingWorkflowQueueing) (item : PendingValidation) (st : DhtStore)
      → AtMostOnce st
      → AtMostOnce (update_queued_holding_workflow hash now s item st)
  move-AtMostOnce now done item st h q = elim (total-done hash now item st (has_key q)) [
    | inl (missing, same) ↦ rw same (h q)
    | inr (p, its, counted) ↦ omega (arith, h q)
  ]
  move-AtMostOnce now processing item st h q =
      omega (arith, h q, total-move hash now processing item st (has_key q) (λ e. ground arith))
  move-AtMostOnce now (waiting delay) item st h q =
      omega
        (arith, h q, total-move hash now (waiting delay) item st (has_key q) (λ e. ground arith))

  count-append_one :
      (q : PendingValidation) (x : PendingValidationWithTimeout)
      (xs : List PendingValidationWithTimeout)
      → count (has_key q) (xs ++ (x ∷ []))
        ≡ count (has_key q) xs + (if has_key q x.pending then 1 else 0)
  count-append_one q x [] = ground arith
  count-append_one q x (y ∷ xs) = ground (arith, count-append_one q x xs)

  -- An item that has the key of another is found by the same tests.
  workflow_eq_lem :
      (p q r : PendingValidation)
      → workflow_eq p.workflow q.workflow ≡ true
      → workflow_eq r.workflow q.workflow ≡ workflow_eq r.workflow p.workflow
  workflow_eq_lem p q r h = ground arith

  count_same_key :
      (p q : PendingValidation) (xs : List PendingValidationWithTimeout)
      → has_key q p ≡ true
      → count (has_key q) xs ≡ count (has_key p) xs
  count_same_key p q [] h = refl
  count_same_key p q (x ∷ xs) h =
      let same : p.entry_with_header.header ≡ q.entry_with_header.header =
        header_eq_lem p.entry_with_header.header q.entry_with_header.header (ground arith) in
      ground (arith, count_same_key p q xs h, workflow_eq_lem p q x.pending)

  enqueue-AtMostOnce :
      (item : PendingValidation) (timeout : Option ValidationTimeout) (st : DhtStore)
      → has_same_queued_holding_workflow hash item st ≡ false
      → has_same_in_process_holding_workflow hash item st ≡ false
      → AtMostOnce st
      → AtMostOnce (record st {
        queued_holding_workflows =
            st.queued_holding_workflows ++ (record { pending = item; timeout = timeout } ∷ []);
      })
  unfolding has_same_queued_holding_workflow has_same_in_process_holding_workflow
  enqueue-AtMostOnce item timeout st a b h q =
      let new : PendingValidationWithTimeout = record { pending = item; timeout = timeout } in
      let grown = count-append_one q new st.queued_holding_workflows in
      elim (Bool-cases (has_key q item)) [
        | inl same ↦
            let c = count-none item st.queued_holding_workflows hash a in
            let d = count-none item st.in_process_holding_workflows hash b in
            let e = count_same_key item q st.queued_holding_workflows same in
            let f = count_same_key item q st.in_process_holding_workflows same in ground arith
        | inr differ ↦ ground (arith, h q)
      ]

  queue-AtMostOnce :
      (item : PendingValidation) (timeout : Option ValidationTimeout) (st st' : DhtStore)
      → reduce_queue_holding_workflow hash item timeout st ≡ changed st'
      → AtMostOnce st
      → AtMostOnce st'
  unfolding reduce_queue_holding_workflow
  queue-AtMostOnce item timeout st st' e h = elim (Option-cases (is_held hash item st)) [
    | inl p ↦ absurd (ground arith)
    | inr (held, p) ↦ elim (Bool-cases held) [
      | inl t ↦ absurd (ground arith)
      | inr t ↦ elim (Bool-cases (has_same_queued_holding_workflow hash item st)) [
        | inl a ↦ absurd (ground arith)
        | inr a ↦ elim (Bool-cases (has_same_in_process_holding_workflow hash item st)) [
          | inl b ↦ absurd (ground arith)
          | inr b ↦
              let st'' : DhtStore = record st {
                queued_holding_workflows =
                    st.queued_holding_workflows
                    ++ (record { pending = item; timeout = timeout } ∷ []);
              } in
              let same : st'' ≡ st' = ground arith in
              subst AtMostOnce same (enqueue-AtMostOnce item timeout st a b h)
        ]
      ]
    ]
  ]

  module _ (db : Persistence) where
    same_queues :
        (st st' : DhtStore)
        → st'.queued_holding_workflows ≡ st.queued_holding_workflows
        → st'.in_process_holding_workflows ≡ st.in_process_holding_workflows
        → AtMostOnce st
        → AtMostOnce st'
    same_queues st st' a b h q = rw (a, b) (h q)

    resolve-AtMostOnce :
        (now : ℕ) (action : Action) (st st' : DhtStore) (s : db.Storage)
        → (resolve hash db now action st s).1 ≡ changed st'
        → AtMostOnce st
        → AtMostOnce st'
    unfolding resolve reduce_commit_entry reduce_remove_queued_holding_workflow
    resolve-AtMostOnce now (commit x) st st' s e h =
        let same : st ≡ st' = ground arith in subst AtMostOnce same h
    resolve-AtMostOnce now (hold_aspect aspect id) st st' s e h =
        elim (reduce_hold_aspect_lem hash db aspect id st s) [
          | inl (r, (t, eq, held)) ↦
              let same : t ≡ st' = ground arith in
              subst AtMostOnce same (same_queues st t held.queued held.in_process h)
          | inr (inl (f, r, (t, eq, refused))) ↦
              let same : t ≡ st' = ground arith in
              subst AtMostOnce same (same_queues st t refused.queued refused.in_process h)
          | inr (inr (r, kept)) ↦ absurd (ground arith)
        ]
    resolve-AtMostOnce now (queue_holding_workflow p timeout) st st' s e h =
        queue-AtMostOnce p timeout st st' e h
    resolve-AtMostOnce now (remove_queued_holding_workflow q p) st st' s e h =
        let same : update_queued_holding_workflow hash now q p st ≡ st' = ground arith in
        subst AtMostOnce same (move-AtMostOnce now q p st h)
    resolve-AtMostOnce now prune st st' s e h = λ q.
        let (distinct, keys, fewer, in_process, holding) = reduce_prune_lem st in
        let same : pruned st (reduce_prune st) ≡ st' = rw e in
        subst (λ (t : DhtStore). total (has_key q) t ≤ 1) same
          (rw in_process (omega (arith, h q, fewer (has_key q))))
    resolve-AtMostOnce now other st st' s e h = absurd (ground arith)

    Reduced-cases : (r : Reduced) → r ≡ panics ⊎ r ≡ unchanged ⊎ (t : DhtStore) × r ≡ changed t
    Reduced-cases panics = inl refl
    Reduced-cases unchanged = inr (inl refl)
    Reduced-cases (changed t) = inr (inr (t, refl))

    -- Whatever the action, a reduction that does not panic leaves at most one item with a given
    -- header and workflow in the two queues, if there was at most one before.
    pub reduce-AtMostOnce :
        (now : ℕ) (action : Action) (st st' : DhtStore) (s : db.Storage)
        → (reduce hash db now action st s).1 ≡ some st'
        → AtMostOnce st
        → AtMostOnce st'
    unfolding reduce
    reduce-AtMostOnce now action st st' s e h =
        elim (Reduced-cases ((resolve hash db now action st s).1)) [
          | inl p ↦ absurd (ground arith)
          | inr (inl p) ↦ let same : st ≡ st' = ground arith in subst AtMostOnce same h
          | inr (inr (t, p)) ↦
              let same : t ≡ st' = ground arith in
              subst AtMostOnce same (resolve-AtMostOnce now action st t s p h)
        ]

  -- Queueing a validation of an update whose header names no updated entry panics: the address
  -- to look the aspect up under is missing, although the item itself could be made.
  pub queue_update_panics :
      (uuid : ℕ) (e : Entry) (h : ChainHeader) {p : PendingValidation}
      (timeout : Option ValidationTimeout) (st : DhtStore)
      → h.link_update_delete ≡ none
      → try_from_aspect hash uuid (EntryAspect.update e h) ≡ ok p
      → reduce_queue_holding_workflow hash p timeout st ≡ panics
  unfolding reduce_queue_holding_workflow is_held AspectMap.contains aspect_entry_address
  queue_update_panics uuid e h timeout st missing made =
      let same = into_aspect-try_from_aspect hash uuid (EntryAspect.update e h) made in ground arith
