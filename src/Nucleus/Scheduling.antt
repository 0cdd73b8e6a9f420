-- ===== src/Nucleus/Scheduling.antt =====
-- Which zome calls run: the queue of crates/core/src/nucleus/reducers, against a plain list of the
-- calls that are not finished, in the order in which they came. At most `max_zome_calls` run, and
-- those that run are the first of the list.
use rust_holochain.Base.{
  ℕ, zero, suc, ◌≤◌, ◌<◌, ◌≡◌, refl, sym, subst, ap, ◌∙◌, inl, inr, Bool, true, false, not, ◌&&◌,
  ◌||◌, List, [], ◌∷◌, ◌++◌, arith, ltb, ◌==◌, ==_iff, length, length-append, take, drop, filter,
  Bool-cases,
}
use rust_holochain.Base.Set
use rust_holochain.Base.Set.{Set}
use rust_holochain.Base.Distinct
use rust_holochain.Base.Distinct.{Distinct}
use rust_holochain.CoreTypes.{HcResult}
use rust_holochain.Nucleus.{
  NucleusState, Action, queue_zome_function_call, return_zome_function_result,
  clear_zome_function_call, return_initialization_result, initialize_chain,
  trace_invoke_hdk_function, trace_return_hdk_function, other, max_zome_calls, new,
  reduce_queue_zome_function_call, reduce_return_zome_function_result,
  reduce_clear_zome_function_call, reduce_initialize_chain, reduce_return_initialization_result,
  reduce_trace_invoke_hdk_function, reduce_trace_return_hdk_function, start_next, reduce, run,
}

-- The unfinished calls after an action: a new call goes last, and a returned one leaves.
abbrev pub unfinished : Action → Set → Set
unfinished (queue_zome_function_call call) calls = calls ++ (call ∷ [])
unfinished (return_zome_function_result call result) calls = Set.remove calls call
unfinished _ calls = calls

abbrev pub unfinished_after : List Action → Set → Set
unfinished_after [] calls = calls
unfinished_after (a ∷ actions) calls = unfinished_after actions (unfinished a calls)

-- What the callers keep to: a call is queued once, only a running call returns, and a call is
-- cleared only when it is finished.
abbrev pub Allowed : Action → Set → Type 0
Allowed (queue_zome_function_call call) calls = Set.contains calls call ≡ false
Allowed (return_zome_function_result call result) calls =
    Set.contains (take max_zome_calls calls) call ≡ true
Allowed (clear_zome_function_call call) calls = Set.contains calls call ≡ false
Allowed _ calls = Unit

abbrev pub AllAllowed : List Action → Set → Type 0
AllAllowed [] calls = Unit
AllAllowed (a ∷ actions) calls = Allowed a calls × AllAllowed actions (unfinished a calls)

-- The state runs the first calls of the list and queues the others in its order.
pub record Schedules (st : NucleusState) (calls : Set) : Type 0 where
  pub distinct : Distinct calls
  pub queued : st.queued_zome_calls ≡ drop max_zome_calls calls
  pub running :
      (c : ℕ) → Set.contains st.running_zome_calls c ≡ Set.contains (take max_zome_calls calls) c
  pub running_distinct : Distinct st.running_zome_calls
  pub count : length st.running_zome_calls ≡ length (take max_zome_calls calls)

length-take : (n : ℕ) (xs : Set) → n ≤ length xs → length (take n xs) ≡ n
length-take zero xs h = refl
length-take (suc n) [] h = absurd (omega (arith, h))
length-take (suc n) (x ∷ xs) h = ap suc (length-take n xs (omega (arith, h)))

short : (n : ℕ) (xs : Set) → length (take n xs) < n → length xs < n
short zero xs h = absurd (omega (arith, h))
short (suc n) [] h = omega arith
short (suc n) (x ∷ xs) h = omega (arith, short n xs (omega (arith, h)))

not_short : (n : ℕ) (xs : Set) → n ≤ length (take n xs) → n ≤ length xs
not_short zero xs h = omega arith
not_short (suc n) [] h = h
not_short (suc n) (x ∷ xs) h = omega (arith, not_short n xs (omega (arith, h)))

not_in_front :
    (n : ℕ) (xs : Set) (a : ℕ) → Set.contains xs a ≡ false → Set.contains (take n xs) a ≡ false
not_in_front n xs a h = ground (arith, Distinct.contains_split n xs a)

not_in_back :
    (n : ℕ) (xs : Set) (a : ℕ) → Set.contains xs a ≡ false → Set.contains (drop n xs) a ≡ false
not_in_back n xs a h = ground (arith, Distinct.contains_split n xs a)

contains-take_one :
    (xs : Set) (a : ℕ) → Set.contains (take 1 xs) a ≡ true → Set.contains xs a ≡ true
contains-take_one [] a h = h
contains-take_one (x ∷ xs) a h = ground arith

filter_absent : (xs : Set) (a : ℕ) → Set.contains xs a ≡ false → filter (λ c. not (c == a)) xs ≡ xs
filter_absent [] a h = refl
filter_absent (x ∷ xs) a h = ground (arith, filter_absent xs a)

queue-Schedules :
    (call : ℕ) (st : NucleusState) (calls : Set)
    → Schedules st calls
    → Set.contains calls call ≡ false
    → Schedules (reduce_queue_zome_function_call call st) (calls ++ (call ∷ []))
unfolding reduce_queue_zome_function_call
queue-Schedules call st calls h fresh =
    elim (Bool-cases (ltb (length st.running_zome_calls) max_zome_calls)) [
      | inl free ↦
          let few : length calls < max_zome_calls =
            short max_zome_calls calls (ground (arith, h.count)) in
          let all : take max_zome_calls calls ≡ calls =
            Distinct.take_all max_zome_calls calls (omega (arith, few)) in
          let grown = length-append calls (call ∷ []) in
          let all' : take max_zome_calls (calls ++ (call ∷ [])) ≡ calls ++ (call ∷ []) =
            Distinct.take_all max_zome_calls (calls ++ (call ∷ [])) (omega (arith, few, grown)) in
          let none_left : drop max_zome_calls calls ≡ [] =
            Distinct.drop_all max_zome_calls calls (omega (arith, few)) in
          let none_left' : drop max_zome_calls (calls ++ (call ∷ [])) ≡ [] =
            Distinct.drop_all max_zome_calls (calls ++ (call ∷ [])) (omega (arith, few, grown)) in
          let absent : Set.contains st.running_zome_calls call ≡ false =
            h.running call ∙ not_in_front max_zome_calls calls call fresh in
          rw free (record {
            distinct = Distinct.Distinct-append_one calls call h.distinct fresh;
            queued = h.queued ∙ none_left ∙ sym none_left';
            running = λ c.
                Set.contains-insert st.running_zome_calls call c
                ∙ ap (λ (b : Bool). (call == c) || b)
                    (h.running c ∙ ap (λ (xs : Set). Set.contains xs c) all)
                ∙ ground (arith, Distinct.contains-append calls (call ∷ []) c)
                ∙ sym (ap (λ (xs : Set). Set.contains xs c) all');
            running_distinct =
                Distinct.Distinct-insert st.running_zome_calls call h.running_distinct;
            count =
                Distinct.length-insert_new st.running_zome_calls call absent
                ∙ ap suc (h.count ∙ ap length all)
                ∙ omega (arith, grown)
                ∙ sym (ap length all');
          })
      | inr full ↦
          let many : max_zome_calls ≤ length calls =
            not_short max_zome_calls calls (ground (arith, h.count)) in
          let front = Distinct.take-append max_zome_calls calls (call ∷ []) many in
          rw full (record {
            distinct = Distinct.Distinct-append_one calls call h.distinct fresh;
            queued =
                ap (λ (xs : Set). xs ++ (call ∷ [])) h.queued
                ∙ sym (Distinct.drop-append max_zome_calls calls (call ∷ []) many);
            running = λ c. h.running c ∙ sym (ap (λ (xs : Set). Set.contains xs c) front);
            running_distinct = h.running_distinct;
            count = h.count ∙ sym (ap length front);
          })
    ]

-- The first of the back moves up.
start_next-Schedules :
    (st : NucleusState) (front back calls : Set)
    → st.queued_zome_calls ≡ back
    → Distinct calls
    → take max_zome_calls calls ≡ front ++ take 1 back
    → drop max_zome_calls calls ≡ drop 1 back
    → ((c : ℕ) → Set.contains st.running_zome_calls c ≡ Set.contains front c)
    → Distinct st.running_zome_calls
    → length st.running_zome_calls ≡ length front
    → ((c : ℕ) → Set.contains (take 1 back) c ≡ true → Set.contains front c ≡ false)
    → Schedules (start_next st) calls
unfolding start_next
start_next-Schedules st front [] calls q d t e run rd n apart =
    let same : start_next st ≡ st = ground arith in
    subst (λ (s : NucleusState). Schedules s calls) (sym same)
      (record {
        distinct = d;
        queued = q ∙ sym e;
        running = λ c.
            run c
            ∙ ground (arith, Distinct.contains-append front [] c)
            ∙ sym (ap (λ (xs : Set). Set.contains xs c) t);
        running_distinct = rd;
        count = n ∙ omega (arith, length-append front []) ∙ sym (ap length t);
      })
start_next-Schedules st front (x ∷ rest) calls q d t e run rd n apart =
    let st' : NucleusState = record st {
      queued_zome_calls = rest;
      running_zome_calls = Set.insert st.running_zome_calls x;
    } in
    let same : start_next st ≡ st' = ground arith in
    let absent : Set.contains st.running_zome_calls x ≡ false =
      run x ∙ apart x (ground (arith, ==_iff x x)) in
    subst (λ (s : NucleusState). Schedules s calls) (sym same)
      (record {
        distinct = d;
        queued = sym e;
        running = λ c.
            Set.contains-insert st.running_zome_calls x c
            ∙ ap (λ (b : Bool). (x == c) || b) (run c)
            ∙ ground (arith, Distinct.contains-append front (x ∷ []) c)
            ∙ sym (ap (λ (xs : Set). Set.contains xs c) t);
        running_distinct = Distinct.Distinct-insert st.running_zome_calls x rd;
        count =
            Distinct.length-insert_new st.running_zome_calls x absent
            ∙ ap suc n
            ∙ omega (arith, length-append front (x ∷ []))
            ∙ sym (ap length t);
      })

return-Schedules :
    (call : ℕ) (result : HcResult ℕ) (st : NucleusState) (calls : Set)
    → Schedules st calls
    → Set.contains (take max_zome_calls calls) call ≡ true
    → Schedules (reduce_return_zome_function_result call result st) (Set.remove calls call)
unfolding reduce_return_zome_function_result
return-Schedules call result st calls h runs =
    let front = take max_zome_calls calls in
    let running' = Set.remove st.running_zome_calls call in
    let held : Set.contains st.running_zome_calls call ≡ true = h.running call ∙ runs in
    start_next-Schedules _ (Set.remove front call) (drop max_zome_calls calls)
      (Set.remove calls call) h.queued (Distinct.Distinct-remove calls call h.distinct)
      (Distinct.take-remove max_zome_calls calls call h.distinct runs)
      (Distinct.drop-remove max_zome_calls calls call h.distinct runs)
      (λ c.
        Set.contains-remove st.running_zome_calls call c
        ∙ ap (λ (b : Bool). not (call == c) && b) (h.running c)
        ∙ sym (Set.contains-remove front call c))
      (Distinct.Distinct-remove st.running_zome_calls call h.running_distinct)
      (omega (
        arith,
        h.count,
        Distinct.length-remove st.running_zome_calls call h.running_distinct held,
        Distinct.length-remove front call (Distinct.Distinct-take max_zome_calls calls h.distinct)
            runs,
      ))
      (λ c back. ground (
        arith,
        Set.contains-remove front call c,
        Distinct.parts_apart max_zome_calls calls c h.distinct,
        contains-take_one (drop max_zome_calls calls) c,
      ))

clear-Schedules :
    (call : ℕ) (st : NucleusState) (calls : Set)
    → Schedules st calls
    → Set.contains calls call ≡ false
    → Schedules (reduce_clear_zome_function_call call st) calls
unfolding reduce_clear_zome_function_call
clear-Schedules call st calls h gone =
    let absent : Set.contains st.running_zome_calls call ≡ false =
      h.running call ∙ not_in_front max_zome_calls calls call gone in
    let same = Distinct.remove_absent st.running_zome_calls call absent in
    let absent' : Set.contains st.queued_zome_calls call ≡ false =
      ap (λ (xs : Set). Set.contains xs call) h.queued
      ∙ not_in_back max_zome_calls calls call gone in
    record {
      distinct = h.distinct;
      queued = filter_absent st.queued_zome_calls call absent' ∙ h.queued;
      running = λ c. ap (λ (xs : Set). Set.contains xs c) same ∙ h.running c;
      running_distinct = subst Distinct (sym same) h.running_distinct;
      count = ap length same ∙ h.count;
    }

-- The other fields do not matter.
Schedules-same :
    (st st' : NucleusState) (calls : Set)
    → st'.queued_zome_calls ≡ st.queued_zome_calls
    → st'.running_zome_calls ≡ st.running_zome_calls
    → Schedules st calls
    → Schedules st' calls
Schedules-same st st' calls q r h = record {
  distinct = h.distinct;
  queued = q ∙ h.queued;
  running = λ c. ap (λ (s : Set). Set.contains s c) r ∙ h.running c;
  running_distinct = subst Distinct (sym r) h.running_distinct;
  count = ap length r ∙ h.count;
}

-- Every allowed action keeps the state scheduling the list.
reduce-Schedules :
    (a : Action) (st : NucleusState) (calls : Set)
    → Schedules st calls
    → Allowed a calls
    → Schedules (reduce a st) (unfinished a calls)
unfolding reduce reduce_initialize_chain reduce_return_initialization_result
    reduce_trace_invoke_hdk_function reduce_trace_return_hdk_function
reduce-Schedules (clear_zome_function_call call) st calls h ok = clear-Schedules call st calls h ok
reduce-Schedules (return_zome_function_result call result) st calls h ok =
    return-Schedules call result st calls h ok
reduce-Schedules (queue_zome_function_call call) st calls h ok = queue-Schedules call st calls h ok
reduce-Schedules (return_initialization_result result) st calls h ok =
    Schedules-same st _ calls (ground arith) (ground arith) h
reduce-Schedules (initialize_chain dna) st calls h ok =
    Schedules-same st _ calls (ground arith) (ground arith) h
reduce-Schedules (trace_invoke_hdk_function zome_call hdk_call) st calls h ok =
    Schedules-same st _ calls (ground arith) (ground arith) h
reduce-Schedules (trace_return_hdk_function zome_call hdk_call result) st calls h ok =
    Schedules-same st _ calls (ground arith) (ground arith) h
reduce-Schedules other st calls h ok = h

run-Schedules :
    (actions : List Action) (st : NucleusState) (calls : Set)
    → Schedules st calls
    → AllAllowed actions calls
    → Schedules (run actions st) (unfinished_after actions calls)
unfolding run
run-Schedules [] st calls h ok = h
run-Schedules (a ∷ actions) st calls h ok =
    run-Schedules actions (reduce a st) (unfinished a calls) (reduce-Schedules a st calls h (ok.0))
      (ok.1)

-- Whatever allowed actions a new nucleus gets, it refines the list of the unfinished calls in the
-- order in which they came: the first ten of the list run, each once, and the others are queued in
-- its order. Allowed is to queue a call once, to return a call that runs, and to clear one that is
-- finished.
pub run_refines :
    (actions : List Action)
    → AllAllowed actions []
    → Schedules (run actions new) (unfinished_after actions [])
unfolding new
run_refines actions ok =
    run-Schedules actions new []
      (record {
        distinct = tt;
        queued = refl;
        running = λ c. refl;
        running_distinct = tt;
        count = refl;
      })
      ok
