-- ===== src/Dht/Reducers/Prune.antt =====
-- `reduce_prune` of crates/core/src/dht/dht_reducers.rs: one queued item for each key.
use rust_holochain.Base.{
  ◌≤◌, ◌≡◌, refl, subst, ap, inl, inr, Bool, true, false, List, [], ◌∷◌, arith, ltb, any, length,
  Bool-cases,
}
use rust_holochain.Dht.Pending.{PendingValidation, PendingValidationWithTimeout, workflow_code}
use rust_holochain.Dht.Store.{DhtStore}
use rust_holochain.Dht.Store.Queues.{count}
use rust_holochain.Dht.Reducers.{same_key, unique_from, reduce_prune, Reduced, changed}

abbrev Queue : Type 0
Queue = List PendingValidationWithTimeout

-- No two items have the same workflow and entry address.
abbrev pub Distinct : Queue → Type 0
Distinct [] = Unit
Distinct (p ∷ ps) = (any (same_key p) ps ≡ false) × Distinct ps

pub count-unique_from-le :
    (q : PendingValidation → Bool) (seen ps : Queue) → count q (unique_from seen ps) ≤ count q ps
unfolding unique_from
count-unique_from-le q seen [] = omega arith
count-unique_from-le q seen (p ∷ ps) =
    ground (arith, count-unique_from-le q seen ps, count-unique_from-le q (p ∷ seen) ps)

same_key_sym : (p q : PendingValidationWithTimeout) → same_key p q ≡ same_key q p
same_key_sym p q = ground arith

same_key_trans :
    (p q r : PendingValidationWithTimeout) → same_key p q ≡ true → same_key q r ≡ same_key p r
same_key_trans p q r h =
    let w : workflow_code p.pending.workflow ≡ workflow_code q.pending.workflow = ground arith in
    let a : p.pending.entry_with_header.header.entry_address
        ≡ q.pending.entry_with_header.header.entry_address =
      ground arith in
    rw (w, a)

any-same_key :
    (p q : PendingValidationWithTimeout) (xs : Queue)
    → same_key p q ≡ true
    → any (same_key q) xs ≡ any (same_key p) xs
any-same_key p q [] h = refl
any-same_key p q (x ∷ xs) h = rw (same_key_trans p q x h, any-same_key p q xs h)

-- No kept item has the key of a seen one.
unseen :
    (x : PendingValidationWithTimeout) (seen ps : Queue)
    → any (same_key x) seen ≡ true
    → any (same_key x) (unique_from seen ps) ≡ false
unfolding unique_from
unseen x seen [] h = refl
unseen x seen (p ∷ ps) h = elim (Bool-cases (any (same_key p) seen)) [
  | inl e ↦ rw e (unseen x seen ps h)
  | inr e ↦ elim (Bool-cases (same_key x p)) [
    | inl same ↦ absurd (ground (arith, any-same_key x p seen same))
    | inr differ ↦ rw (e, differ) (unseen x (p ∷ seen) ps (rw (differ, h)))
  ]
]

Distinct-unique_from : (seen ps : Queue) → Distinct (unique_from seen ps)
unfolding unique_from
Distinct-unique_from seen [] = tt
Distinct-unique_from seen (p ∷ ps) = elim (Bool-cases (any (same_key p) seen)) [
  | inl e ↦ rw e (Distinct-unique_from seen ps)
  | inr e ↦
      rw e
        (unseen p (p ∷ seen) ps (ground (arith, same_self p)), Distinct-unique_from (p ∷ seen) ps)
]
  where
    same_self : (p : PendingValidationWithTimeout) → same_key p p ≡ true
    same_self p = ground arith

-- Every key of the queue is kept, or was seen.
kept_key :
    (x : PendingValidationWithTimeout) (seen ps : Queue)
    → any (same_key x) seen ≡ false
    → any (same_key x) (unique_from seen ps) ≡ any (same_key x) ps
unfolding unique_from
kept_key x seen [] h = refl
kept_key x seen (p ∷ ps) h = elim (Bool-cases (any (same_key p) seen)) [
  | inl e ↦ elim (Bool-cases (same_key x p)) [
    | inl same ↦ absurd (ground (arith, any-same_key x p seen same))
    | inr differ ↦ rw (e, differ) (kept_key x seen ps h)
  ]
  | inr e ↦ elim (Bool-cases (same_key x p)) [
    | inl same ↦ rw (e, same)
    | inr differ ↦ rw (e, differ) (kept_key x (p ∷ seen) ps (rw (differ, h)))
  ]
]

length-unique_from-le : (seen ps : Queue) → length (unique_from seen ps) ≤ length ps
unfolding unique_from
length-unique_from-le seen [] = omega arith
length-unique_from-le seen (p ∷ ps) =
    ground (arith, length-unique_from-le seen ps, length-unique_from-le (p ∷ seen) ps)

-- Nothing is dropped from a queue only if it has the length of its pruned form, and then it is it.
unique_from-same :
    (seen ps : Queue) → length ps ≤ length (unique_from seen ps) → unique_from seen ps ≡ ps
unfolding unique_from
unique_from-same seen [] h = refl
unique_from-same seen (p ∷ ps) h = elim (Bool-cases (any (same_key p) seen)) [
  | inl e ↦ absurd (ground (arith, length-unique_from-le seen ps))
  | inr e ↦ rw e (ap (◌∷◌ p) (unique_from-same (p ∷ seen) ps (ground arith)))
]

-- The state that a prune leaves.
abbrev pub pruned : DhtStore → Reduced → DhtStore
pruned st (changed st') = st'
pruned st _ = st

-- After a prune no two queued items have the same workflow and entry address, each such key that
-- was queued is still queued, no kind of item has become more frequent in the queue, and the items
-- in process and the holding map are as they were.
pub reduce_prune_lem :
    (st : DhtStore)
    → Distinct (pruned st (reduce_prune st)).queued_holding_workflows
      × ((x : PendingValidationWithTimeout)
          → any (same_key x) (pruned st (reduce_prune st)).queued_holding_workflows
            ≡ any (same_key x) st.queued_holding_workflows)
      × ((q : PendingValidation → Bool)
          → count q (pruned st (reduce_prune st)).queued_holding_workflows
            ≤ count q st.queued_holding_workflows)
      × ((pruned st (reduce_prune st)).in_process_holding_workflows
          ≡ st.in_process_holding_workflows)
      × ((pruned st (reduce_prune st)).holding_map ≡ st.holding_map)
unfolding reduce_prune
reduce_prune_lem st =
    let queue = unique_from [] st.queued_holding_workflows in
    elim (Bool-cases (ltb (length queue) (length st.queued_holding_workflows))) [
      | inl e ↦ rw e (
        Distinct-unique_from [] st.queued_holding_workflows,
        λ x. kept_key x [] st.queued_holding_workflows refl,
        λ q. count-unique_from-le q [] st.queued_holding_workflows,
        refl,
        refl,
      )
      | inr e ↦ rw e (
        subst Distinct (unique_from-same [] st.queued_holding_workflows (ground arith))
            (Distinct-unique_from [] st.queued_holding_workflows),
        λ x. refl,
        λ q. omega arith,
        refl,
        refl,
      )
    ]
