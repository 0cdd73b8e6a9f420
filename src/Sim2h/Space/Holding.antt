-- ===== src/Sim2h/Space/Holding.antt =====
-- `Space::agent_holds_aspects` of crates/sim2h/src/sim2h_im_state.rs: who is recorded as a holder.
use rust_holochain.Base.{
  ℕ, ◌≡◌, refl, sym, subst, ap, ◌∙◌, inl, inr, Bool, false, ◌||◌, ◌&&◌, Option, none, some, List,
  [], ◌∷◌, arith, ◌==◌, ==_iff, Option-cases, Bool-cases,
}
use rust_holochain.Base.Map
use rust_holochain.Base.Map.{Map, holds}
use rust_holochain.Base.Set
use rust_holochain.Base.Set.{Set}
use rust_holochain.Sim2h.Sharding.{Lib3h, entry_location}
use rust_holochain.Sim2h.Space.{
  Space, EntryInfo, Holding, or_default, get_mono_agent_id, priv_check_insert_entry_hash,
  priv_check_insert_aspect, check_insert_aspects, add_holder, agent_holds_aspects,
}
use rust_holochain.Sim2h.Space.Coherent.{IsCoherent, get_mono_agent_id_lem}
use rust_holochain.Sim2h.Space.Connect.{holds_aspect, is_held_by}

holds-or_default :
    (o : Option Set) (a : ℕ)
    → holds (λ holding. Set.contains holding a) o ≡ Set.contains (or_default o) a
holds-or_default none a = refl
holds-or_default (some s) a = refl

contains-add_holder :
    (agent : ℕ) (aspects : List ℕ) (h : Holding) (x b : ℕ)
    → Set.contains (or_default (Map.get x (add_holder agent aspects h))) b
      ≡ (Set.contains (or_default (Map.get x h)) b || (Set.contains aspects x && (agent == b)))
unfolding add_holder
contains-add_holder agent [] h x b = ground arith
contains-add_holder agent (y ∷ aspects) h x b =
    let held = Set.insert (or_default (Map.get y h)) agent in
    ground (
      arith,
      contains-add_holder agent aspects (Map.insert y held h) x b,
      Map.get-insert y held h x,
      Set.contains-insert (or_default (Map.get y h)) agent b,
    )

-- Entering aspects into `all_aspects` changes nothing else.
check_insert_aspects-same :
    (aspects : List ℕ) (s : Space)
    → ((check_insert_aspects aspects s).entry_to_all_aspects ≡ s.entry_to_all_aspects)
      × ((check_insert_aspects aspects s).connections ≡ s.connections)
      × ((check_insert_aspects aspects s).gossip_interval ≡ s.gossip_interval)
unfolding check_insert_aspects priv_check_insert_aspect
check_insert_aspects-same [] s = (refl, refl, refl)
check_insert_aspects-same (a ∷ aspects) s =
    let ih = check_insert_aspects-same aspects (priv_check_insert_aspect a s) in
    (ground (arith, ih.0), ground (arith, ih.1), ground (arith, ih.2))

module _ (lib : Lib3h) where
  abbrev fresh_entry : ℕ → EntryInfo
  fresh_entry e = record { entry_hash = e; entry_loc = entry_location lib e; aspects = [] }

  -- The entry is known afterwards: as it was, or without aspects.
  insert_entry_cases :
      (e : ℕ) (s : Space)
      → (i : EntryInfo) × (Map.get e (priv_check_insert_entry_hash lib e s).entry_to_all_aspects
          ≡ some i)
        × ((x b : ℕ)
            → Set.contains (or_default (Map.get x i.aspects)) b
              ≡ holds (holds_aspect x b) (Map.get e s.entry_to_all_aspects))
        × ((j : ℕ)
            → (e == j) ≡ false
            → Map.get j (priv_check_insert_entry_hash lib e s).entry_to_all_aspects
              ≡ Map.get j s.entry_to_all_aspects)
        × ((priv_check_insert_entry_hash lib e s).connections ≡ s.connections)
        × ((priv_check_insert_entry_hash lib e s).gossip_interval ≡ s.gossip_interval)
  unfolding priv_check_insert_entry_hash
  insert_entry_cases e s = elim (Option-cases (Map.get e s.entry_to_all_aspects)) [
    | inl missing ↦ (
      fresh_entry e,
      rw (missing, priv_check_insert_entry_hash)
          (Map.get-insert_self e (fresh_entry e) s.entry_to_all_aspects),
      λ x b. rw missing,
      λ j ne.
          rw (missing, priv_check_insert_entry_hash)
            (rw (Map.get-insert e (fresh_entry e) s.entry_to_all_aspects j, ne)),
      ground arith,
      ground arith,
    )
    | inr (i, found) ↦ (
      i,
      ground arith,
      λ x b. rw found (sym (holds-or_default (Map.get x i.aspects) b)),
      λ j ne. ground arith,
      ground arith,
      ground arith,
    )
  ]

  after_insert :
      (s : Space) (i i' : EntryInfo) (e : ℕ) (m : Map EntryInfo) (f x b : ℕ) (new : Bool)
      → holds (holds_aspect x b) (some i')
        ≡ (holds (holds_aspect x b) (Map.get e s.entry_to_all_aspects) || new)
      → ((e == f) ≡ false → Map.get f m ≡ Map.get f s.entry_to_all_aspects)
      → holds (holds_aspect x b) (Map.get f (Map.insert e i' m))
        ≡ (is_held_by s f x b || ((e == f) && new))
  unfolding is_held_by
  after_insert s i i' e m f x b new own other = elim (Bool-cases (e == f)) [
    | inl hit ↦
        let e≡f = (==_iff e f).0 hit in
        rw (Map.get-insert e i' m f, hit)
          (subst
            (λ n.
              holds (holds_aspect x b) (some i')
              ≡ (holds (holds_aspect x b) (Map.get n s.entry_to_all_aspects) || new))
            e≡f own)
    | inr miss ↦ rw (Map.get-insert e i' m f, miss, other miss) (ground arith)
  ]

  -- In a coherent space the record never fails. Afterwards the agent is a holder of exactly the
  -- given aspects of the entry besides what it held, nobody else's holdings change, and neither do
  -- the connections and the interval. This is so whether or not the agent is connected.
  pub agent_holds_aspects_total :
      (agent e : ℕ) (aspects : List ℕ) (s : Space)
      → IsCoherent lib s
      → (t : Space) × (agent_holds_aspects lib agent e aspects s ≡ some t)
        × ((f x b : ℕ)
            → is_held_by t f x b
              ≡ (is_held_by s f x b || ((e == f) && (Set.contains aspects x && (agent == b)))))
        × (t.connections ≡ s.connections)
        × (t.gossip_interval ≡ s.gossip_interval)
  unfolding agent_holds_aspects is_held_by
  agent_holds_aspects_total agent e aspects s h =
      let s' = check_insert_aspects aspects (priv_check_insert_entry_hash lib e s) in
      let (i, known, held, others, cons, interval) = insert_entry_cases e s in
      let (entries', cons', interval') =
        check_insert_aspects-same aspects (priv_check_insert_entry_hash lib e s) in
      let found : Map.get e s'.entry_to_all_aspects ≡ some i = rw entries' known in
      let own = get_mono_agent_id_lem lib s agent h.keyed in
      let i' : EntryInfo = record i {
        aspects = add_holder (get_mono_agent_id s agent) aspects i.aspects;
      } in
      (
        record s' { entry_to_all_aspects = Map.insert e i' s'.entry_to_all_aspects },
        ground arith,
        λ f x b.
            after_insert s i i' e s'.entry_to_all_aspects f x b
              (Set.contains aspects x && (agent == b))
              (subst
                (λ a.
                  holds (holds_aspect x b)
                    (some (record i { aspects = add_holder a aspects i.aspects }))
                  ≡ (holds (holds_aspect x b) (Map.get e s.entry_to_all_aspects)
                      || (Set.contains aspects x && (agent == b))))
                (sym own)
                (holds-or_default (Map.get x (add_holder agent aspects i.aspects)) b
                  ∙ contains-add_holder agent aspects i.aspects x b
                  ∙ ap (λ p. p || (Set.contains aspects x && (agent == b))) (held x b)))
              (λ ne. ap (Map.get f) entries' ∙ others f ne),
        cons' ∙ cons,
        interval' ∙ interval,
      )
