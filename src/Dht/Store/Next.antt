-- ===== src/Dht/Store/Next.antt =====
-- The choice of the next item of `DhtStore`, crates/core/src/dht/dht_store.rs, by what it is that keeps an
-- item in the queue.
use rust_holochain.Base.{
  ℕ, ◌+◌, ◌≤◌, ◌<◌, ◌≡◌, refl, ap, sym, subst, ◌⊎◌, inl, inr, Bool, true, false, not, Option, none,
  some, List, [], ◌∷◌, ◌++◌, map, arith, ◌==◌, ==_iff, all, All, Bool-cases, Option-cases,
}
use rust_holochain.Base.Set
use rust_holochain.CoreTypes.{Hashing}
use rust_holochain.Dht.Pending.{PendingValidation, PendingValidationWithTimeout, ValidationTimeout}
use rust_holochain.Dht.Store.{
  DhtStore, is_delayed, free_pending_filter, next_queued_holding_workflow, address_of,
}
use rust_holochain.Dht.Store.Queues.{find, is_ready, next_queued_holding_workflow_lem}

module _ (hash : Hashing) where
  -- What keeps an item in the queue: a dependency that is the entry of a queued item, or a delay that has
  -- begun and is not over.
  pub IsBlocked : ℕ → List PendingValidationWithTimeout → PendingValidationWithTimeout → Type 0
  IsBlocked now queue x =
      ((dep : ℕ) × (Set.contains x.pending.dependencies dep ≡ true)
        × (Set.contains (map (address_of hash) queue) dep ≡ true))
      ⊎ ((t : ValidationTimeout) × (x.timeout ≡ some t)
          × (t.time_of_dispatch ≤ now)
          × (now < t.time_of_dispatch + t.delay))

  -- The item chosen from a queue, of which only the rest is looked at: it is not blocked and all before it
  -- are; or all are.
  pub IsNext :
      ℕ
      → List PendingValidationWithTimeout
      → List PendingValidationWithTimeout
      → Option (PendingValidation × Option ℕ)
      → Type 0
  IsNext now queue rest none = All (IsBlocked now queue) rest
  IsNext now queue rest (some (p, d)) =
      (before : List PendingValidationWithTimeout) × (x : PendingValidationWithTimeout)
      × (after : List PendingValidationWithTimeout) × (rest ≡ before ++ (x ∷ after))
      × (x.pending ≡ p)
      × (d ≡ elim x.timeout [ none ↦ none | some t ↦ some t.delay ])
      × All (IsBlocked now queue) before
      × ¬ (IsBlocked now queue x)

  pub all-member :
      (p : ℕ → Bool) (xs : List ℕ) (a : ℕ) → all p xs ≡ true → Set.contains xs a ≡ true → p a ≡ true
  all-member p [] a h m = absurd (ground arith)
  all-member p (x ∷ xs) a h m = elim (Bool-cases (x == a)) [
    | inl hit ↦ subst (λ n. p n ≡ true) ((==_iff x a).0 hit) (ground arith)
    | inr miss ↦ all-member p xs a (ground arith) (ground arith)
  ]

  all-failing :
      (p : ℕ → Bool) (xs : List ℕ)
      → all p xs ≡ false
      → (a : ℕ) × (Set.contains xs a ≡ true) × (p a ≡ false)
  all-failing p [] h = absurd (ground arith)
  all-failing p (x ∷ xs) h = elim (Bool-cases (p x)) [
    | inl e ↦ let (a, there, fails) = all-failing p xs (ground arith) in (a, ground arith, fails)
    | inr e ↦ (x, ground (arith, ==_iff x x), e)
  ]

  delayed-blocked :
      (now : ℕ) (x : PendingValidationWithTimeout)
      → is_delayed now x ≡ true
      → (t : ValidationTimeout) × (x.timeout ≡ some t)
        × (t.time_of_dispatch ≤ now)
        × (now < t.time_of_dispatch + t.delay)
  unfolding is_delayed
  delayed-blocked now x h = elim (Option-cases x.timeout) [
    | inl e ↦ absurd (ground arith)
    | inr (t, e) ↦ (t, e, ground arith, ground arith)
  ]

  blocked-delayed :
      (now : ℕ) (x : PendingValidationWithTimeout) (t : ValidationTimeout)
      → x.timeout ≡ some t
      → t.time_of_dispatch ≤ now
      → now < t.time_of_dispatch + t.delay
      → is_delayed now x ≡ true
  unfolding is_delayed
  blocked-delayed now x t e begun over = ground arith

  -- Ready is what is not blocked.
  ready-cases :
      (now : ℕ) (st : DhtStore) (x : PendingValidationWithTimeout)
      → ((is_ready hash now st x ≡ true) × ¬ (IsBlocked now st.queued_holding_workflows x))
        ⊎ ((is_ready hash now st x ≡ false) × IsBlocked now st.queued_holding_workflows x)
  unfolding free_pending_filter IsBlocked
  ready-cases now st x =
      let addresses = map (address_of hash) st.queued_holding_workflows in
      let free = λ (dep : ℕ). not (Set.contains addresses dep) in
      elim (Bool-cases (all free x.pending.dependencies)) [
        | inl e ↦ elim (Bool-cases (is_delayed now x)) [
          | inl e' ↦ inr (ground arith, inr (delayed-blocked now x e'))
          | inr e' ↦ inl (
            ground arith,
            λ b. elim b [
              | inl (dep, depends, queued) ↦
                  let passes = all-member free x.pending.dependencies dep e depends in
                  absurd (ground arith)
              | inr (t, has, begun, over) ↦
                  let delayed = blocked-delayed now x t has begun over in absurd (ground arith)
            ],
          )
        ]
        | inr e ↦
            let (dep, depends, fails) = all-failing free x.pending.dependencies e in
            inr (ground arith, inl (dep, depends, ground arith))
      ]

  find-IsNext :
      (now : ℕ) (st : DhtStore) (rest : List PendingValidationWithTimeout)
      → IsNext now st.queued_holding_workflows rest (elim (find hash (is_ready hash now st) rest) [
        | none ↦ none
        | some p ↦ some (p.pending, elim p.timeout [ none ↦ none | some t ↦ some t.delay ])
      ])
  unfolding IsNext
  find-IsNext now st [] = tt
  find-IsNext now st (x ∷ rest) = elim (ready-cases now st x) [
    | inl (e, free) ↦ rw e ([], x, rest, refl, refl, refl, tt, free)
    | inr (e, blocked) ↦
        rw e (one_more now st.queued_holding_workflows x rest _ blocked (find-IsNext now st rest))
  ]
    where
      one_more :
          (now : ℕ) (queue : List PendingValidationWithTimeout) (x : PendingValidationWithTimeout)
          (rest : List PendingValidationWithTimeout) (o : Option (PendingValidation × Option ℕ))
          → IsBlocked now queue x
          → IsNext now queue rest o
          → IsNext now queue (x ∷ rest) o
      one_more now queue x rest none b h = (b, h)
      one_more now queue x rest (some (p, d)) b (before, y, after, split, same, delay, all, free) =
          (x ∷ before, y, after, ap (◌∷◌ x) split, same, delay, (b, all), free)

  -- The item that is run next, given with its delay, stands in the queue; it depends on no entry of a
  -- queued item, and it has no delay that has begun and is not over; every item before it has such a
  -- dependency or such a delay. If no item is run next, every queued item has one of the two. A dispatch
  -- time in the future holds no item back.
  pub next_queued_holding_workflow-IsNext :
      (now : ℕ) (st : DhtStore)
      → IsNext now st.queued_holding_workflows st.queued_holding_workflows
          (next_queued_holding_workflow hash now st)
  next_queued_holding_workflow-IsNext now st =
      subst (IsNext now st.queued_holding_workflows st.queued_holding_workflows)
        (sym (next_queued_holding_workflow_lem hash now st))
        (find-IsNext now st st.queued_holding_workflows)
