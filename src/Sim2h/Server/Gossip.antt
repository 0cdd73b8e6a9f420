-- ===== src/Sim2h/Server/Gossip.antt =====
-- The way of a gossip list from the frame to the store: `spawn_handle_message_list_data` of
-- crates/sim2h/src/lib.rs, and the task of the store that takes its mutations.
use rust_holochain.Base.{
  ℕ, ◌≤◌, ◌≡◌, refl, sym, ap, ◌∙◌, Bool, true, false, none, some, List, [], ◌∷◌, ◌&&◌, ◌||◌, arith,
  ◌==◌, ==_iff, if◌then◌else◌,
}
use rust_holochain.Base.Map
use rust_holochain.Base.Map.{Map}
use rust_holochain.Base.Set
use rust_holochain.Sim2h.Sharding.{Moment, Lib3h, IsRng}
use rust_holochain.Sim2h.Space
use rust_holochain.Sim2h.Space.{Space}
use rust_holochain.Sim2h.Space.Connect.{is_held_by}
use rust_holochain.Sim2h.Space.Holding.{agent_holds_aspects_total}
use rust_holochain.Sim2h.Store.{
  Store, AolEntry, Response, get_space_mut, put_space, mutate, run, at,
}
use rust_holochain.Sim2h.Store.Coherent.{IsStore, get_space_mut-IsSpace}
use rust_holochain.Sim2h.Store.Runs.{mutate-IsStore}
use rust_holochain.Sim2h.Store.Task.{IsStore-at}
use rust_holochain.Sim2h.Server.Wire.{EntryListData}
use rust_holochain.Sim2h.Server.Effects.{Effect, sent, mutation, closed}
use rust_holochain.Sim2h.Server.Handlers.{hold_listed, handle_message_list_data}

-- The messages to the store among the effects, handled at one moment.
abbrev pub log_of : Moment → List Effect → List (Moment × AolEntry)
log_of moment [] = []
log_of moment (mutation e ∷ es) = (moment, e) ∷ log_of moment es
log_of moment (sent _ _ _ ∷ es) = log_of moment es
log_of moment (closed _ ∷ es) = log_of moment es

abbrev pub held : Store → (space entry aspect agent : ℕ) → Bool
held st space entry aspect agent = elim (Map.get space st.spaces) [
  | none ↦ false
  | some s ↦ is_held_by s entry aspect agent
]

-- The list names the aspect under the entry.
abbrev pub listed : (entry aspect : ℕ) → Map (List ℕ) → Bool
listed entry aspect [] = false
listed entry aspect ((e, aspects) ∷ rest) =
    ((e == entry) && Set.contains aspects aspect) || listed entry aspect rest

held-get_space_mut :
    (st : Store) (space e x b : ℕ) → held st space e x b ≡ is_held_by (get_space_mut space st) e x b
unfolding get_space_mut is_held_by Space.new
held-get_space_mut st space e x b = ground arith

module _ (lib : Lib3h) (moment : Moment) (rng : IsRng (at lib moment)) (space signer : ℕ) where
  hold_once :
      (e : ℕ) (aspects : List ℕ) (st : Store)
      → 4 ≤ st.gossip_interval
      → IsStore lib st
      → (st' : Store) × (r : Response) × (mutate
            (at lib moment)
            (AolEntry.agent_holds_aspects 0 space signer e aspects)
            st
          ≡ some (st', r))
        × IsStore lib st'
        × (st'.gossip_interval ≡ st.gossip_interval)
        × ((f x b : ℕ)
            → held st' space f x b
              ≡ (held st space f x b || ((e == f) && (Set.contains aspects x && (signer == b)))))
  unfolding mutate
  hold_once e aspects st i h =
      let h' = (IsStore-at lib moment st).0 h in
      let s = get_space_mut space st in
      let (t, done, holds, _, _) =
        agent_holds_aspects_total (at lib moment) signer e aspects s
          (get_space_mut-IsSpace (at lib moment) space st h').coherent in
      let (st', r, mutated, valid, same) =
        mutate-IsStore (at lib moment) (AolEntry.agent_holds_aspects 0 space signer e aspects) st
          rng i h' in
      let is_put : st' ≡ put_space space st t = ground arith in
      (
        st',
        r,
        mutated,
        (IsStore-at lib moment st').1 valid,
        same,
        λ f x b.
            ap (λ st''. held st'' space f x b) is_put
            ∙ ap (λ o. elim o [ none ↦ false | some s' ↦ is_held_by s' f x b ])
                (Map.get-insert_self space t st.spaces)
            ∙ holds f x b
            ∙ ap (λ o. o || ((e == f) && (Set.contains aspects x && (signer == b))))
                (sym (held-get_space_mut st space f x b)),
      )

  hold_all :
      (m : Map (List ℕ)) (st : Store)
      → 4 ≤ st.gossip_interval
      → IsStore lib st
      → (st' : Store) × (run lib (log_of moment (hold_listed space signer m)) st ≡ some st')
        × IsStore lib st'
        × ((f x b : ℕ)
            → held st' space f x b ≡ (held st space f x b || (listed f x m && (signer == b))))
  unfolding hold_listed run
  hold_all [] st i h = (st, refl, h, λ f x b. ground arith)
  hold_all ((e, []) ∷ rest) st i h =
      let (st', ran, valid, holds) = hold_all rest st i h in
      (st', ran, valid, λ f x b. ground (arith, holds f x b))
  hold_all ((e, a ∷ aspects) ∷ rest) st i h =
      let (st', r, done, valid, same, holds) = hold_once e (a ∷ aspects) st i h in
      let (end, ran, valid', holds') = hold_all rest st' (omega (arith, same, i)) valid in
      (end, rw (done, run) ran, valid', λ f x b. ground (arith, holds f x b, holds' f x b))

  -- A gossip list by an agent who speaks for himself and for his own space: the store handles all
  -- that comes of it without a panic and stays in order, and afterwards the agent is a holder, in
  -- this space, of exactly the listed aspects besides what it held, and nobody else's holdings
  -- change. This is so in a store in order, with a gossip interval of at least four milliseconds and
  -- draws as rand documents them.
  pub handle_message_list_data_lem :
      (d : EntryListData) (st : Store)
      → signer ≡ d.provider_agent_id
      → d.space_address ≡ space
      → 4 ≤ st.gossip_interval
      → IsStore lib st
      → (st' : Store) × (run lib (log_of moment (handle_message_list_data signer space d)) st
          ≡ some st')
        × IsStore lib st'
        × ((f x b : ℕ)
            → held st' space f x b
              ≡ (held st space f x b || (listed f x d.address_map && (signer == b))))
  unfolding handle_message_list_data
  handle_message_list_data_lem d st own here i h =
      let passed : ((signer == d.provider_agent_id) && (d.space_address == space)) ≡ true =
        ground (
          arith,
          (==_iff signer d.provider_agent_id).1 own,
          (==_iff d.space_address space).1 here,
        ) in
      let (st', ran, valid, holds) = hold_all d.address_map st i h in
      (
        st',
        ap
              (λ c.
                run lib (log_of moment (if c then hold_listed space signer d.address_map else []))
                  st)
              passed
            ∙ ran,
        valid,
        holds,
      )
