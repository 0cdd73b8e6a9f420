-- ===== src/Dht/Reducers/Hold.antt =====
-- `reduce_hold_aspect` of crates/core/src/dht/dht_reducers.rs: what it leaves in the state.
use rust_holochain.Base.{
  ℕ, ◌≡◌, ◌≢◌, ◌↔◌, refl, ap, sym, ◌∙◌, inl, inr, ◌&&◌, ◌||◌, some, [], ◌∷◌, arith, ◌==◌,
  if◌then◌else◌, Option-cases, ◌⊎◌,
}
use rust_holochain.CoreTypes.{
  HolochainError, HcResult, ok, err, Entry, EntryAspect, ChainHeader, Hashing,
}
use rust_holochain.CoreTypes.Aspect.{aspect_entry_address}
use rust_holochain.Net.AspectMap
use rust_holochain.Net.AspectMap.{AspectMap, contains_at, add_at, contains_at-add_at}
use rust_holochain.Dht.Store.{
  DhtStore, HoldAspectAttemptId, Attempts, attempt_eq, insert_attempt, get_attempt,
  mark_hold_aspect_complete, hold_aspect_request_complete,
}
use rust_holochain.Dht.Persistence.{Persistence}
use rust_holochain.Dht.Inner.{add_header_for_entry, reduce_store_entry_inner}
use rust_holochain.Dht.Reducers.{
  unchanged, changed, Held, gave_up, finished, hold, complete, reduce_hold_aspect,
}

get_attempt-insert_attempt :
    (id : HoldAspectAttemptId) (r : HcResult (Unit {0})) (m : Attempts) (j : HoldAspectAttemptId)
    → get_attempt j (insert_attempt id r m) ≡ (if attempt_eq id j then some r else get_attempt j m)
unfolding get_attempt insert_attempt
get_attempt-insert_attempt id r [] j = refl
get_attempt-insert_attempt id r ((k, q) ∷ m) j = ground (arith, get_attempt-insert_attempt id r m j)

HcResult-cases : (r : HcResult (Unit {0})) → (r ≡ ok tt) ⊎ ((e : HolochainError) × (r ≡ err e))
HcResult-cases (ok tt) = inl refl
HcResult-cases (err e) = inr (e, refl)

Held-cases :
    (r : Held)
    → (r ≡ finished (ok tt)) ⊎ ((e : HolochainError) × (r ≡ finished (err e))) ⊎ (r ≡ gave_up)
Held-cases gave_up = inr (inr refl)
Held-cases (finished (ok tt)) = inl refl
Held-cases (finished (err e)) = inr (inl (e, refl))

module _ (hash : Hashing) where
  -- The state after a hold that succeeded: the attempt has its result, exactly this aspect is held
  -- besides those before, and the queues are as they were.
  pub record IsHeld (aspect : EntryAspect) (id : HoldAspectAttemptId) (st st' : DhtStore)
      : Type 0 where
    pub entry : ℕ
    pub names : aspect_entry_address hash aspect ≡ ok entry
    pub holding :
        (e a : ℕ)
        → contains_at st'.holding_map e a
          ≡ (contains_at st.holding_map e a || ((entry == e) && (hash.aspect_address aspect == a)))
    pub attempts :
        (j : HoldAspectAttemptId)
        → hold_aspect_request_complete j st'
          ≡ (if attempt_eq id j then some (ok tt) else hold_aspect_request_complete j st)
    pub queued : st'.queued_holding_workflows ≡ st.queued_holding_workflows
    pub in_process : st'.in_process_holding_workflows ≡ st.in_process_holding_workflows

  -- The state after a hold that failed: the attempt has the error, and nothing else differs.
  pub record IsRefused (e : HolochainError) (id : HoldAspectAttemptId) (st st' : DhtStore)
      : Type 0 where
    pub holding : st'.holding_map ≡ st.holding_map
    pub attempts :
        (j : HoldAspectAttemptId)
        → hold_aspect_request_complete j st'
          ≡ (if attempt_eq id j then some (err e) else hold_aspect_request_complete j st)
    pub queued : st'.queued_holding_workflows ≡ st.queued_holding_workflows
    pub in_process : st'.in_process_holding_workflows ≡ st.in_process_holding_workflows

  module _ (db : Persistence) where
    -- A successful hold is one of an aspect that names an entry.
    hold-names :
        (aspect : EntryAspect) (s : db.Storage)
        → (hold hash db aspect s).1 ≡ finished (ok tt)
        → (entry : ℕ) × (aspect_entry_address hash aspect ≡ ok entry)
    unfolding hold aspect_entry_address
    hold-names (EntryAspect.content e h) s g = (h.entry_address, refl)
    hold-names (EntryAspect.link_add l h) s g = (l.link.base, refl)
    hold-names (EntryAspect.link_remove l links h) s g = (l.link.base, refl)
    hold-names (EntryAspect.header h) s g = absurd (ground arith)
    hold-names (EntryAspect.update e h) s g = elim (Option-cases h.link_update_delete) [
      | inl none_there ↦ absurd (ground arith)
      | inr (a, there) ↦ (a, ground arith)
    ]
    hold-names (EntryAspect.deletion h) s g = elim (Option-cases h.link_update_delete) [
      | inl none_there ↦ absurd (ground arith)
      | inr (a, there) ↦ (a, ground arith)
    ]

    complete-IsHeld :
        (aspect : EntryAspect) (id : HoldAspectAttemptId) (st : DhtStore) (entry : ℕ)
        → aspect_entry_address hash aspect ≡ ok entry
        → (st' : DhtStore) × (complete hash db aspect id st (finished (ok tt)) ≡ changed st')
          × IsHeld aspect id st st'
    unfolding complete AspectMap.add mark_hold_aspect_complete hold_aspect_request_complete
    complete-IsHeld aspect id st entry names =
        let held = add_at st.holding_map entry (hash.aspect_address aspect) in
        (
          record st {
            holding_map = held;
            holding_attempt_results = insert_attempt id (ok tt) st.holding_attempt_results;
          },
          ground arith,
          record {
            entry = entry;
            names = names;
            holding =
                λ e a. contains_at-add_at st.holding_map entry (hash.aspect_address aspect) e a;
            attempts = λ j. get_attempt-insert_attempt id (ok tt) st.holding_attempt_results j;
            queued = refl;
            in_process = refl;
          },
        )

    complete-IsRefused :
        (aspect : EntryAspect) (id : HoldAspectAttemptId) (st : DhtStore) (e : HolochainError)
        → (st' : DhtStore) × (complete hash db aspect id st (finished (err e)) ≡ changed st')
          × IsRefused e id st st'
    unfolding complete mark_hold_aspect_complete hold_aspect_request_complete
    complete-IsRefused aspect id st e = (
      record st { holding_attempt_results = insert_attempt id (err e) st.holding_attempt_results },
      refl,
      record {
        holding = refl;
        attempts = λ j. get_attempt-insert_attempt id (err e) st.holding_attempt_results j;
        queued = refl;
        in_process = refl;
      },
    )

    complete-gave_up :
        (aspect : EntryAspect) (id : HoldAspectAttemptId) (st : DhtStore)
        → complete hash db aspect id st gave_up ≡ unchanged
    unfolding complete
    complete-gave_up aspect id st = refl

    -- A hold never panics. It succeeds and marks exactly this aspect as held, with the attempt
    -- completed; or it fails, completes the attempt with the error and holds what was held; or it
    -- gives up and leaves the state as it was.
    pub reduce_hold_aspect_lem :
        (aspect : EntryAspect) (id : HoldAspectAttemptId) (st : DhtStore) (s : db.Storage)
        → (((hold hash db aspect s).1 ≡ finished (ok tt))
            × ((st' : DhtStore) × ((reduce_hold_aspect hash db aspect id st s).1 ≡ changed st')
                × IsHeld aspect id st st'))
          ⊎ ((e : HolochainError) × ((hold hash db aspect s).1 ≡ finished (err e))
              × ((st' : DhtStore) × ((reduce_hold_aspect hash db aspect id st s).1 ≡ changed st')
                  × IsRefused e id st st'))
          ⊎ (((hold hash db aspect s).1 ≡ gave_up)
              × ((reduce_hold_aspect hash db aspect id st s).1 ≡ unchanged))
    unfolding reduce_hold_aspect
    reduce_hold_aspect_lem aspect id st s = elim (Held-cases (hold hash db aspect s).1) [
      | inl e ↦
          let (entry, names) = hold-names aspect s e in
          let (st', completed, held) = complete-IsHeld aspect id st entry names in
          inl (e, (st', ap (complete hash db aspect id st) e ∙ completed, held))
      | inr (inl (f, e)) ↦
          let (st', completed, refused) = complete-IsRefused aspect id st f in
          inr (inl (f, e, (st', ap (complete hash db aspect id st) e ∙ completed, refused)))
      | inr (inr e) ↦
          inr (inr (e, ap (complete hash db aspect id st) e ∙ complete-gave_up aspect id st))
    ]

    gave_up-on_header :
        (aspect : EntryAspect) (s : db.Storage)
        → (hold hash db aspect s).1 ≡ gave_up
        → (e : Entry) × (h : ChainHeader) × (f : HolochainError) × (aspect
            ≡ EntryAspect.content e h)
          × ((reduce_store_entry_inner hash db e s).1 ≡ ok tt)
          × ((add_header_for_entry hash db e h (reduce_store_entry_inner hash db e s).0).1 ≡ err f)
    unfolding hold
    gave_up-on_header (EntryAspect.content e h) s g =
        elim (HcResult-cases (reduce_store_entry_inner hash db e s).1) [
          | inl stored ↦
              elim (HcResult-cases
                (add_header_for_entry hash db e h (reduce_store_entry_inner hash db e s).0).1) [
                  | inl added ↦ absurd (ground arith)
                  | inr (f, failed) ↦ (e, h, f, refl, stored, failed)
                ]
          | inr (f, failed) ↦ absurd (ground arith)
        ]
    gave_up-on_header (EntryAspect.header h) s g = absurd (ground arith)
    gave_up-on_header (EntryAspect.link_add l h) s g = absurd (ground arith)
    gave_up-on_header (EntryAspect.link_remove l links h) s g = absurd (ground arith)
    gave_up-on_header (EntryAspect.update e h) s g = elim (Option-cases h.link_update_delete) [
      | inl missing ↦ absurd (ground arith)
      | inr (a, there) ↦ absurd (ground arith)
    ]
    gave_up-on_header (EntryAspect.deletion h) s g = elim (Option-cases h.link_update_delete) [
      | inl missing ↦ absurd (ground arith)
      | inr (a, there) ↦ absurd (ground arith)
    ]

    header_refused :
        (e : Entry) (h : ChainHeader) (f : HolochainError) (s : db.Storage)
        → (reduce_store_entry_inner hash db e s).1 ≡ ok tt
        → (add_header_for_entry hash db e h (reduce_store_entry_inner hash db e s).0).1 ≡ err f
        → (hold hash db (EntryAspect.content e h) s).1 ≡ gave_up
    unfolding hold
    header_refused e h f s stored failed = ground arith

    -- A hold leaves the state as it was, with no result for the attempt, exactly if it is that of a
    -- content whose entry is stored and whose header cannot be.
    pub gives_up_on_header :
        (aspect : EntryAspect) (id : HoldAspectAttemptId) (st : DhtStore) (s : db.Storage)
        → ((reduce_hold_aspect hash db aspect id st s).1 ≡ unchanged) ↔ (
            (e : Entry) × (h : ChainHeader) × (f : HolochainError) × (aspect
              ≡ EntryAspect.content e h)
            × ((reduce_store_entry_inner hash db e s).1 ≡ ok tt)
            × ((add_header_for_entry hash db e h (reduce_store_entry_inner hash db e s).0).1
                ≡ err f))
    unfolding reduce_hold_aspect
    gives_up_on_header aspect id st s = (
      λ same. elim (reduce_hold_aspect_lem aspect id st s) [
        | inl (e, (st', done, held)) ↦ absurd (changed-unchanged st' (sym done ∙ same))
        | inr (inl (f, e, (st', done, refused))) ↦ absurd (changed-unchanged st' (sym done ∙ same))
        | inr (inr (g, left)) ↦ gave_up-on_header aspect s g
      ],
      λ refused.
          let (e, h, f, is_content, stored, failed) = refused in
          let g : (hold hash db aspect s).1 ≡ gave_up =
            ap (λ a. (hold hash db a s).1) is_content ∙ header_refused e h f s stored failed in
          ap (complete hash db aspect id st) g ∙ complete-gave_up aspect id st,
    )
      where
        changed-unchanged : (st' : DhtStore) → changed st' ≢ unchanged
        changed-unchanged st' e = cc
