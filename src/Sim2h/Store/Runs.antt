-- ===== src/Sim2h/Store/Runs.antt =====
-- `Store::mutate` of crates/sim2h/src/sim2h_im_state.rs: single messages.
use rust_holochain.Base.{
  ℕ, ◌≤◌, ◌≡◌, refl, sym, subst, ◌∙◌, inl, inr, Bool, ◌||◌, ◌&&◌, none, some, [], ◌∷◌, arith, ◌==◌,
  ==_iff, Option-cases, Bool-cases,
}
use rust_holochain.Base.Map
use rust_holochain.Base.Map.{Map, Unique, holds}
use rust_holochain.Base.Set
use rust_holochain.Base.Set.{Set}
use rust_holochain.Sim2h.Sharding.{Lib3h, IsRng}
use rust_holochain.Sim2h.Space.{Space, or_default}
use rust_holochain.Sim2h.Space.Coherent
use rust_holochain.Sim2h.Space.Coherent.{IsCoherent, IsEntry, Entries, Backed, Keyed}
use rust_holochain.Sim2h.Space.Rounds.{check_gossip_round, check_gossip-interval, due_now}
use rust_holochain.Sim2h.Space.Holding.{agent_holds_aspects_total}
use rust_holochain.Sim2h.Store.{
  Store, AolEntry, Response, CheckGossipData, get_space_mut, put_space, add_agent, add_agents,
  drop_uri, check_drop_spaces, drop_uri_everywhere, is_unused, clear_disconnected, check_spaces,
  mutate,
}
use rust_holochain.Sim2h.Store.Coherent.{
  IsSpace, Spaces, IsStore, get_space_mut-IsSpace, put_space-IsStore, check_insert_connection_total,
  drop_connection_inner-IsSpace,
}

contains-add_agents :
    (k : ℕ) (due : Set) (d : CheckGossipData) (j a : ℕ)
    → Set.contains (or_default (Map.get j (add_agents k due d))) a
      ≡ (Set.contains (or_default (Map.get j d)) a || ((k == j) && Set.contains due a))
unfolding add_agents add_agent
contains-add_agents k [] d j a = ground arith
contains-add_agents k (x ∷ due) d j a =
    let rest = add_agents k due d in
    let held = or_default (Map.get k rest) in
    ground (
      arith,
      contains-add_agents k due d j a,
      contains-add_agents k due d k a,
      Map.get-insert k (Set.insert held x) rest j,
      Set.contains-insert held x a,
    )

module _ (lib : Lib3h) where
  drop_uri-IsSpace :
      (uri interval : ℕ) (s : Space)
      → IsSpace lib interval s
      → IsSpace lib interval (drop_uri uri s)
  unfolding drop_uri
  drop_uri-IsSpace uri interval s h = elim (Option-cases (Map.get uri s.uri_to_connection)) [
    | inl e ↦ rw (e, drop_uri) h
    | inr (agent, e) ↦ rw (e, drop_uri) (drop_connection_inner-IsSpace lib agent interval s h)
  ]

  map-Spaces :
      (f : Space → Space) (interval : ℕ) (m : Map Space)
      → ((s : Space) → IsSpace lib interval s → IsSpace lib interval (f s))
      → Spaces lib interval m
      → Spaces lib interval (Map.map_values (λ _ s. f s) m)
  map-Spaces f interval m keeps h k t e =
      let (s, found, same) = Map.map_values-eq-some (λ _ s. f s) m k e in
      subst (IsSpace lib interval) (sym same) (keeps s (h k s found))

  drop_uri_everywhere-IsStore :
      (uri : ℕ) (st : Store) → IsStore lib st → IsStore lib (drop_uri_everywhere uri st)
  unfolding drop_uri_everywhere check_drop_spaces
  drop_uri_everywhere-IsStore uri st h =
      let mapped = Map.map_values (λ _ s. drop_uri uri s) st.spaces in
      let unique = Map.Unique-map_values (λ _ s. drop_uri uri s) st.spaces h.unique in
      record {
        unique = Map.Unique-remove_where (λ _ s. is_unused s) mapped unique;
        spaces = λ k s e.
            map-Spaces (drop_uri uri) st.gossip_interval st.spaces
              (drop_uri-IsSpace uri st.gossip_interval) h.spaces k s
              (Map.remove_where-eq-some (λ _ s. is_unused s) mapped k unique e).0;
      }

  clear_disconnected-IsSpace :
      (interval : ℕ) (s : Space)
      → IsSpace lib interval s
      → IsSpace lib interval (clear_disconnected s)
  clear_disconnected-IsSpace interval s h = record {
    coherent = record {
      connections_unique = h.coherent.connections_unique;
      entries_unique = h.coherent.entries_unique;
      keyed = h.coherent.keyed;
      backed = h.coherent.backed;
      entries = h.coherent.entries;
    };
    same_interval = h.same_interval;
  }

  Spaces-tail :
      (k : ℕ) (s : Space) (m : Map Space) (interval : ℕ)
      → Map.get k m ≡ none
      → Spaces lib interval ((k, s) ∷ m)
      → Spaces lib interval m
  Spaces-tail k s m interval u h j t e = h j t (ground arith)

  -- The agents of a space whose deadline is over.
  abbrev pub due_in : ℕ → Space → Bool
  due_in agent s = holds (due_now lib) (Map.get agent s.connections)

  check_spaces_total :
      (interval : ℕ) (m : Map Space)
      → IsRng lib
      → 2 ≤ interval
      → Unique m
      → Spaces lib interval m
      → (m' : Map Space) × (d : CheckGossipData) × (check_spaces lib m ≡ some (m', d))
        × Unique m'
        × Spaces lib interval m'
        × ((k : ℕ) → Map.get k m ≡ none → Map.get k m' ≡ none)
        × ((k a : ℕ) → Set.contains (or_default (Map.get k d)) a ≡ holds (due_in a) (Map.get k m))
  unfolding check_spaces
  check_spaces_total interval [] rng i u h = ([], [], refl, tt, h, λ k e. e, λ k a. refl)
  check_spaces_total interval ((k, s) ∷ m) rng i u h =
      let (m', d, checked, unique, valid, absent, said) =
        check_spaces_total interval m rng i u.1 (Spaces-tail k s m interval u.0 h) in
      let own = h k s (ground (arith, ==_iff k k)) in
      let (t, due, round, coherent, who, later) =
        check_gossip_round lib s rng own.coherent (omega (arith, own.same_interval)) in
      (
        (k, t) ∷ m',
        add_agents k due d,
        ground arith,
        (absent k u.0, unique),
        λ j v e. elim (Bool-cases (k == j)) [
          | inl hit ↦
              let same : t ≡ v = ground arith in
              subst (IsSpace lib interval) same (record {
                coherent = coherent;
                same_interval = check_gossip-interval lib s t due round ∙ own.same_interval;
              })
          | inr miss ↦ valid j v (ground arith)
        ],
        λ j e. elim (Bool-cases (k == j)) [
          | inl hit ↦ absurd (ground arith)
          | inr miss ↦ ground (arith, absent j)
        ],
        λ j a. elim (Bool-cases (k == j)) [
          | inl hit ↦
              let k≡j = (==_iff k j).0 hit in
              let gone : Map.get j m ≡ none = subst (λ n. Map.get n m ≡ none) k≡j u.0 in
              ground (arith, contains-add_agents k due d j a, said j a, who a)
          | inr miss ↦ ground (arith, contains-add_agents k due d j a, said j a)
        ],
      )

  -- With a gossip interval of at least four milliseconds, and draws as rand documents them, a
  -- message to a store in order never panics: it is answered, and leaves the store in order with
  -- the same interval.
  pub mutate-IsStore :
      (e : AolEntry) (st : Store)
      → IsRng lib
      → 4 ≤ st.gossip_interval
      → IsStore lib st
      → (st' : Store) × (r : Response) × (mutate lib e st ≡ some (st', r))
        × IsStore lib st'
        × (st'.gossip_interval ≡ st.gossip_interval)
  unfolding mutate
  mutate-IsStore (AolEntry.new_connection _ k agent uri) st rng i h =
      let s = get_space_mut k st in
      let (t, done, valid) =
        check_insert_connection_total lib agent uri st.gossip_interval s rng i
          (get_space_mut-IsSpace lib k st h) in
      (
        put_space k st t,
        Response.complete,
        ground arith,
        put_space-IsStore lib k st t h valid,
        refl,
      )
  mutate-IsStore (AolEntry.drop_connection_by_uri _ uri) st rng i h = (
    drop_uri_everywhere uri st,
    Response.complete,
    refl,
    drop_uri_everywhere-IsStore uri st h,
    unfold drop_uri_everywhere check_drop_spaces in refl,
  )
  mutate-IsStore (AolEntry.agent_holds_aspects _ k agent entry aspects) st rng i h =
      let s = get_space_mut k st in
      let own = get_space_mut-IsSpace lib k st h in
      let (t, done, held, cons, interval) =
        agent_holds_aspects_total lib agent entry aspects s own.coherent in
      let valid : IsSpace lib st.gossip_interval t = record {
        coherent =
            Coherent.agent_holds_aspects-IsCoherent lib agent entry aspects s t own.coherent done;
        same_interval = interval ∙ own.same_interval;
      } in
      (
        put_space k st t,
        Response.complete,
        ground arith,
        put_space-IsStore lib k st t h valid,
        refl,
      )
  mutate-IsStore (AolEntry.check_gossip _) st rng i h =
      let (m, d, checked, unique, valid, absent, said) =
        check_spaces_total st.gossip_interval st.spaces rng (omega arith) h.unique h.spaces in
      (
        record st { spaces = m },
        Response.gossip_data d,
        ground arith,
        record { unique = unique; spaces = valid },
        refl,
      )
  mutate-IsStore (AolEntry.check_disconnected _) st rng i h = (
    record st { spaces = Map.map_values (λ _ s. clear_disconnected s) st.spaces },
    Response.disconnected _,
    refl,
    record {
      unique = Map.Unique-map_values (λ _ s. clear_disconnected s) st.spaces h.unique;
      spaces =
          map-Spaces clear_disconnected st.gossip_interval st.spaces
            (clear_disconnected-IsSpace st.gossip_interval) h.spaces;
    },
    refl,
  )

  -- With a gossip interval of at least two milliseconds, and draws as rand documents them, a
  -- gossip check of a store in order succeeds and reports, for each space, exactly the agents
  -- connected there whose deadline is over.
  pub check_gossip_data :
      (idx : ℕ) (st : Store)
      → IsRng lib
      → 2 ≤ st.gossip_interval
      → IsStore lib st
      → (st' : Store) × (d : CheckGossipData) × (mutate lib (AolEntry.check_gossip idx) st
          ≡ some (st', Response.gossip_data d))
        × ((k a : ℕ)
            → Set.contains (or_default (Map.get k d)) a ≡ holds (due_in a) (Map.get k st.spaces))
  unfolding mutate
  check_gossip_data idx st rng i h =
      let (m, d, checked, unique, valid, absent, said) =
        check_spaces_total st.gossip_interval st.spaces rng i h.unique h.spaces in
      (record st { spaces = m }, d, ground arith, said)
