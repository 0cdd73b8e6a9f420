-- ===== src/Sim2h/Store/Coherent.antt =====
-- The invariant of the `Store` of crates/sim2h/src/sim2h_im_state.rs under its mutations.
use rust_holochain.Base.{
  ℕ, ◌+◌, ◌/◌, ◌≤◌, ◌≡◌, ◌≢◌, refl, subst, ◌∙◌, inl, inr, some, arith, Option-cases,
}
use rust_holochain.Base.Map
use rust_holochain.Base.Map.{Map, Unique, holds}
use rust_holochain.Sim2h.Sharding.{Lib3h, IsRng}
use rust_holochain.Sim2h.Space
use rust_holochain.Sim2h.Space.{Space, ConnectionState, EntryInfo, or_default, clear_holding}
use rust_holochain.Sim2h.Space.Coherent
use rust_holochain.Sim2h.Space.Coherent.{IsCoherent, IsEntry, Entries, Backed, Keyed}
use rust_holochain.Sim2h.Store.{Store, new, get_space_mut, put_space, drop_connection_inner}

-- A coherent space with the gossip interval of its store.
pub record IsSpace (lib : Lib3h) (interval : ℕ) (s : Space) : Type 0 where
  pub coherent : IsCoherent lib s
  pub same_interval : s.gossip_interval ≡ interval

abbrev pub Spaces : Lib3h → ℕ → Map Space → Type 0
Spaces lib interval m = (k : ℕ) (s : Space) → Map.get k m ≡ some s → IsSpace lib interval s

pub record IsStore (lib : Lib3h) (st : Store) : Type 0 where
  pub unique : Unique st.spaces
  pub spaces : Spaces lib st.gossip_interval st.spaces

module _ (lib : Lib3h) where
  pub new-IsStore : (redundancy interval : ℕ) → IsStore lib (new redundancy interval)
  unfolding new
  new-IsStore redundancy interval = record { unique = tt; spaces = λ k s e. absurd (ground arith) }

  pub get_space_mut-IsSpace :
      (k : ℕ) (st : Store) → IsStore lib st → IsSpace lib st.gossip_interval (get_space_mut k st)
  unfolding get_space_mut Space.new
  get_space_mut-IsSpace k st h = elim (Option-cases (Map.get k st.spaces)) [
    | inl e ↦
        rw (e, get_space_mut)
          (record {
            coherent = Coherent.new-IsCoherent lib st.redundancy st.gossip_interval;
            same_interval = refl;
          })
    | inr (s, e) ↦ rw (e, get_space_mut) (h.spaces k s e)
  ]

  pub put_space-IsStore :
      (k : ℕ) (st : Store) (s : Space)
      → IsStore lib st
      → IsSpace lib st.gossip_interval s
      → IsStore lib (put_space k st s)
  put_space-IsStore k st s h valid = record {
    unique = Map.Unique-insert k s st.spaces h.unique;
    spaces = λ j t e. elim (Map.insert-eq-some k s st.spaces j e) [
      | inl (same, here) ↦ subst (IsSpace lib st.gossip_interval) here valid
      | inr (other, found) ↦ h.spaces j t found
    ];
  }

  connect-interval :
      (con : ConnectionState) (s : Space)
      → (Space.connect lib con s).gossip_interval ≡ s.gossip_interval
  unfolding Space.connect Space.replace_connection clear_holding
  connect-interval con s = ground arith

  pub check_insert_connection_total :
      (agent uri interval : ℕ) (s : Space)
      → IsRng lib
      → 4 ≤ interval
      → IsSpace lib interval s
      → (t : Space) × (Space.check_insert_connection lib agent uri s ≡ some t)
        × IsSpace lib interval t
  unfolding Space.check_insert_connection
  check_insert_connection_total agent uri interval s rng i h =
      let own = Coherent.get_mono_agent_id_lem lib s agent h.coherent.keyed in
      elim (Option-cases (lib.calc_location_for_id agent)) [
        | inl failed ↦ (s, ground arith, h)
        | inr (loc, located) ↦
            let (v, drawn, low, high) =
              rng.in_range agent 10 (s.gossip_interval / 4 + 10) (omega (arith, h.same_interval)) in
            let con : ConnectionState = record {
              agent_id = agent;
              agent_loc = loc;
              uri = uri;
              next_gossip_check = lib.now + v;
            } in
            (
              Space.connect lib con s,
              ground arith,
              record {
                coherent = Coherent.connect-IsCoherent lib con s h.coherent;
                same_interval = connect-interval con s ∙ h.same_interval;
              },
            )
      ]

  pub drop_connection_inner-IsSpace :
      (agent interval : ℕ) (s : Space)
      → IsSpace lib interval s
      → IsSpace lib interval (drop_connection_inner agent s)
  unfolding drop_connection_inner
  drop_connection_inner-IsSpace agent interval s h =
      let cleared = Coherent.clear_holding-IsCoherent lib agent s h.coherent in
      elim (Option-cases (Map.get agent (clear_holding agent s).connections)) [
        | inl e ↦
            rw (e, drop_connection_inner)
              (record {
                coherent = cleared;
                same_interval = kept_interval agent s ∙ h.same_interval;
              })
        | inr (c, e) ↦
            rw (e, drop_connection_inner)
              (record {
                coherent = record {
                  connections_unique = Map.Unique-remove agent _ cleared.connections_unique;
                  entries_unique = cleared.entries_unique;
                  keyed = λ a d g. cleared.keyed a d (Map.remove-eq-some agent _ a g).1;
                  backed = λ u a g.
                      let (old, other) =
                        Coherent.kept_occupied lib agent c _ _ cleared.backed e u a g in
                      let (d, found, its) = cleared.backed u a old in
                      (d, still_there agent a d _ other found, its);
                  entries = cleared.entries;
                };
                same_interval = kept_interval agent s ∙ h.same_interval;
              })
      ]
    where
      kept_interval :
          (agent : ℕ) (s : Space) → (clear_holding agent s).gossip_interval ≡ s.gossip_interval
      kept_interval agent s = unfold clear_holding in refl

      still_there :
          (agent a : ℕ) (d : ConnectionState) (m : Map ConnectionState)
          → a ≢ agent
          → Map.get a m ≡ some d
          → Map.get a (Map.remove agent m) ≡ some d
      still_there agent a d m other found = ground (arith, Map.get-remove agent m a)
