-- ===== src/Sim2h/Server/Delivery/Grouping.antt =====
-- The loop of `HandleFetchEntryResult` in crates/sim2h/src/lib.rs that sorts the aspects by the agents
-- who need them.
use rust_holochain.Base.{
  ℕ, ◌≡◌, refl, sym, ap, subst, ◌∙◌, inl, inr, Bool, true, false, Option, none, some, List, [], ◌∷◌,
  ◌++◌, ◌||◌, arith, ◌==◌, ==_iff, Bool-cases, if◌then◌else◌,
}
use rust_holochain.Base.Map
use rust_holochain.Base.Map.{Map, Unique}
use rust_holochain.Base.Set
use rust_holochain.Base.Set.{Set}
use rust_holochain.Base.Distinct.{Distinct, Distinct-insert}
use rust_holochain.Sim2h.Sharding.{Lib3h}
use rust_holochain.Sim2h.Space
use rust_holochain.Sim2h.Space.{Space, not_holding}
use rust_holochain.Sim2h.Store.{Store}
use rust_holochain.Sim2h.Server.Wire.{Lib3hToClient, EntryAspectData}
use rust_holochain.Sim2h.Server.Handlers.{
  get_agents_that_need_aspect, push_for, push_for_all, group_by_agent,
}

-- The aspects of the answer that the agent needs, in their order, each as a request to store it.
abbrev pub needed_by :
    Lib3h → Store → (space entry agent : ℕ) → List EntryAspectData → List Lib3hToClient
needed_by lib state space entry agent [] = []
needed_by lib state space entry agent (aspect ∷ aspects) =
    let rest = needed_by lib state space entry agent aspects in
    if Set.contains (get_agents_that_need_aspect lib state space entry aspect.aspect_address) agent
    then Lib3hToClient.handle_store_entry_aspect space agent entry aspect ∷ rest
    else rest

-- What a map of lists holds when nothing is entered without a message.
abbrev pub pushed : List Lib3hToClient → Option (List Lib3hToClient)
pushed [] = none
pushed (m ∷ ms) = some (m ∷ ms)

append_assoc : {A : Type 0} (xs ys zs : List A) → (xs ++ ys) ++ zs ≡ xs ++ (ys ++ zs)
append_assoc [] ys zs = refl
append_assoc (x ∷ xs) ys zs = ap (λ t. x ∷ t) (append_assoc xs ys zs)

pub append_empty : {A : Type 0} (xs : List A) → xs ++ [] ≡ xs
append_empty [] = refl
append_empty (x ∷ xs) = ap (λ t. x ∷ t) (append_empty xs)

abbrev pub push_to : List Lib3hToClient → Lib3hToClient → List Lib3hToClient
push_to ms m = elim (pushed ms) [ none ↦ m ∷ [] | some ms' ↦ ms' ++ (m ∷ []) ]

push_to_lem :
    (ms : List Lib3hToClient) (m : Lib3hToClient) → some (push_to ms m) ≡ pushed (ms ++ (m ∷ []))
push_to_lem [] m = refl
push_to_lem (x ∷ ms) m = refl

get-push_for_self :
    (a : ℕ) (m : Lib3hToClient) (to_agent : Map (List Lib3hToClient)) (ms : List Lib3hToClient)
    → Map.get a to_agent ≡ pushed ms
    → Map.get a (push_for a m to_agent) ≡ pushed (ms ++ (m ∷ []))
unfolding push_for
get-push_for_self a m to_agent ms h =
    Map.get-insert_self a _ to_agent
    ∙ ap (λ o. some (elim o [ none ↦ m ∷ [] | some ms' ↦ ms' ++ (m ∷ []) ])) h
    ∙ push_to_lem ms m

else_of : {A : Type 0} (c : Bool) (x y : A) → c ≡ false → (if c then x else y) ≡ y
else_of true x y h = absurd (ground arith)
else_of false x y h = refl

get-push_for_other :
    (b : ℕ) (m : Lib3hToClient) (to_agent : Map (List Lib3hToClient)) (a : ℕ)
    → b == a ≡ false
    → Map.get a (push_for b m to_agent) ≡ Map.get a to_agent
unfolding push_for
get-push_for_other b m to_agent a h =
    Map.get-insert b _ to_agent a ∙ else_of (b == a) _ (Map.get a to_agent) h

module _ (space entry : ℕ) (aspect : EntryAspectData) (a : ℕ) where
  abbrev pub request : ℕ → Lib3hToClient
  request agent = Lib3hToClient.handle_store_entry_aspect space agent entry aspect

  abbrev pub one_if : Bool → List Lib3hToClient
  one_if b = if b then request a ∷ [] else []

  get-push_for_all :
      (agents : Set) (to_agent : Map (List Lib3hToClient)) (ms : List Lib3hToClient)
      → Distinct agents
      → Map.get a to_agent ≡ pushed ms
      → Map.get a (push_for_all space entry aspect agents to_agent)
        ≡ pushed (ms ++ one_if (Set.contains agents a))
  unfolding push_for_all
  get-push_for_all [] to_agent ms d h = h ∙ ap pushed (sym (append_empty ms))
  get-push_for_all (b ∷ agents) to_agent ms (new, d) h = elim (Bool-cases (b == a)) [
    | inl same ↦
        let b≡a = (==_iff b a).0 same in
        let pushed_here =
          subst (λ c. Map.get a (push_for c (request c) to_agent) ≡ pushed (ms ++ (request a ∷ [])))
            (sym b≡a) (get-push_for_self a (request a) to_agent ms h) in
        let once : Set.contains agents a ≡ false =
          subst (λ c. Set.contains agents c ≡ false) b≡a new in
        get-push_for_all agents (push_for b (request b) to_agent) (ms ++ (request a ∷ [])) d
          pushed_here
        ∙ ap (λ c. pushed ((ms ++ (request a ∷ [])) ++ one_if c)) once
        ∙ ap pushed (append_empty (ms ++ (request a ∷ [])))
        ∙ ap (λ c. pushed (ms ++ one_if (c || Set.contains agents a))) (sym same)
    | inr other ↦
        get-push_for_all agents (push_for b (request b) to_agent) ms d
          (get-push_for_other b (request b) to_agent a other ∙ h)
        ∙ ap (λ c. pushed (ms ++ one_if (c || Set.contains agents a))) (sym other)
  ]

  cons_if :
      (b : Bool) (rest : List Lib3hToClient)
      → one_if b ++ rest ≡ (if b then request a ∷ rest else rest)
  cons_if true rest = refl
  cons_if false rest = refl

  Unique-push_for_all :
      (agents : Set) (to_agent : Map (List Lib3hToClient))
      → Unique to_agent
      → Unique (push_for_all space entry aspect agents to_agent)
  unfolding push_for_all push_for
  Unique-push_for_all [] to_agent u = u
  Unique-push_for_all (b ∷ agents) to_agent u =
      Unique-push_for_all agents _ (Map.Unique-insert b _ to_agent u)

not_holding-Distinct : (holding agents : Set) → Distinct (not_holding holding agents)
unfolding not_holding
not_holding-Distinct holding [] = tt
not_holding-Distinct holding (b ∷ agents) = ground (
  arith,
  not_holding-Distinct holding agents,
  Distinct-insert (not_holding holding agents) b (not_holding-Distinct holding agents),
)

need-Distinct :
    (lib : Lib3h) (state : Store) (space entry aspect : ℕ)
    → Distinct (get_agents_that_need_aspect lib state space entry aspect)
unfolding get_agents_that_need_aspect Space.get_agents_that_need_aspect
need-Distinct lib state space entry aspect =
    elim (Map.get space state.spaces)
      as (λ o.
        Distinct
          (elim o [ none ↦ [] | some s ↦ Space.get_agents_that_need_aspect lib s entry aspect ])) [
            | none ↦ tt
            | some s ↦
                elim (Map.get entry s.entry_to_all_aspects)
                  as (λ o. Distinct (elim o [
                    | none ↦ []
                    | some e ↦ elim (Map.get aspect e.aspects) [
                      | none ↦ []
                      | some holding ↦
                          not_holding holding (Space.get_agents_that_should_hold_entry lib s entry)
                    ]
                  ])) [
                    | none ↦ tt
                    | some e ↦
                        elim (Map.get aspect e.aspects)
                          as (λ o. Distinct (elim o [
                            | none ↦ []
                            | some holding ↦
                                not_holding holding
                                  (Space.get_agents_that_should_hold_entry lib s entry)
                          ])) [
                            | none ↦ tt
                            | some holding ↦
                                not_holding-Distinct holding
                                  (Space.get_agents_that_should_hold_entry lib s entry)
                          ]
                  ]
          ]

module _ (lib : Lib3h) (state : Store) (space entry a : ℕ) where
  pub get-group_by_agent :
      (aspects : List EntryAspectData) (to_agent : Map (List Lib3hToClient))
      (ms : List Lib3hToClient)
      → Map.get a to_agent ≡ pushed ms
      → Map.get a (group_by_agent lib state space entry aspects to_agent)
        ≡ pushed (ms ++ needed_by lib state space entry a aspects)
  unfolding group_by_agent
  get-group_by_agent [] to_agent ms h = h ∙ ap pushed (sym (append_empty ms))
  get-group_by_agent (aspect ∷ aspects) to_agent ms h =
      let need = get_agents_that_need_aspect lib state space entry aspect.aspect_address in
      let rest = needed_by lib state space entry a aspects in
      get-group_by_agent aspects (push_for_all space entry aspect need to_agent)
        (ms ++ one_if space entry aspect a (Set.contains need a))
        (get-push_for_all space entry aspect a need to_agent ms
          (need-Distinct lib state space entry aspect.aspect_address) h)
      ∙ ap pushed (
          append_assoc ms (one_if space entry aspect a (Set.contains need a)) rest
          ∙ ap (λ t. ms ++ t) (cons_if space entry aspect a (Set.contains need a) rest))

  pub Unique-group_by_agent :
      (aspects : List EntryAspectData) (to_agent : Map (List Lib3hToClient))
      → Unique to_agent
      → Unique (group_by_agent lib state space entry aspects to_agent)
  unfolding group_by_agent
  Unique-group_by_agent [] to_agent u = u
  Unique-group_by_agent (aspect ∷ aspects) to_agent u =
      Unique-group_by_agent aspects _ (Unique-push_for_all space entry aspect a _ to_agent u)
