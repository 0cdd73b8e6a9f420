-- ===== src/Sim2h/Space/Connect.antt =====
-- `Space::check_insert_connection` of crates/sim2h/src/sim2h_im_state.rs: what an agent that joins
-- finds.
use mathlib.Core.Path.{fun_ext}
use native.Mathlib.Decide.{dec_lt}
use rust_holochain.Base.{
  ℕ, ◌+◌, ◌/◌, ◌≤◌, ◌<◌, ◌≡◌, ◌≢◌, refl, ap, ◌∙◌, ◌↔◌, inl, inr, Bool, not, ◌&&◌, Option, none,
  some, [], ◌∷◌, ◌++◌, arith, ◌==◌, Option-cases,
}
use rust_holochain.Base.Map
use rust_holochain.Base.Map.{Map}
use rust_holochain.Base.Set
use rust_holochain.Base.Set.{Set}
use rust_holochain.Sim2h.Sharding.{Lib3h, IsRng}
use rust_holochain.Sim2h.Space.{
  Space, ConnectionState, EntryInfo, check_insert_connection, replace_connection, connect,
  clear_holding, forget_holder, forget_in_entry,
}
use rust_holochain.Sim2h.Space.Coherent.{
  IsCoherent, get_mono_agent_id_lem, check_insert_connection-IsCoherent,
}

-- Whether the space has the agent among the holders of an aspect of an entry.
abbrev pub holds_aspect : ℕ → ℕ → EntryInfo → Bool
holds_aspect aspect agent i =
    Map.holds (λ holding. Set.contains holding agent) (Map.get aspect i.aspects)

unfoldable pub is_held_by : Space → ℕ → ℕ → ℕ → Bool
is_held_by s entry aspect agent =
    Map.holds (holds_aspect aspect agent) (Map.get entry s.entry_to_all_aspects)

holds_and :
    {V : Type 0} (b : Bool) (p : V → Bool) (o : Option V)
    → Map.holds (λ v. b && p v) o ≡ (b && Map.holds p o)
holds_and b p none = ground arith
holds_and b p (some v) = refl

holds_aspect-forget :
    (agent aspect b k : ℕ) (i : EntryInfo)
    → holds_aspect aspect b (forget_in_entry agent k i)
      ≡ (not (agent == b) && holds_aspect aspect b i)
holds_aspect-forget agent aspect b k i =
    Map.holds-map_values (λ holding. Set.contains holding b) (forget_holder agent) i.aspects aspect
    ∙ ap (λ (p : Set → Bool). Map.holds p (Map.get aspect i.aspects))
        (fun_ext (λ holding. Set.contains-remove holding agent b))
    ∙ holds_and _ _ (Map.get aspect i.aspects)

-- After `clear_holding` the agent holds nothing, and the others hold what they held.
pub is_held_by-clear_holding :
    (agent : ℕ) (s : Space) (entry aspect b : ℕ)
    → is_held_by (clear_holding agent s) entry aspect b
      ≡ (not (agent == b) && is_held_by s entry aspect b)
unfolding is_held_by clear_holding
is_held_by-clear_holding agent s entry aspect b =
    Map.holds-map_values (holds_aspect aspect b) (forget_in_entry agent) s.entry_to_all_aspects
      entry
    ∙ ap (λ (p : EntryInfo → Bool). Map.holds p (Map.get entry s.entry_to_all_aspects))
        (fun_ext (holds_aspect-forget agent aspect b entry))
    ∙ holds_and _ _ (Map.get entry s.entry_to_all_aspects)

module _ (lib : Lib3h) where
  -- For an agent whose location can be computed, in a coherent space and with draws as rand
  -- documents them, a join fails exactly with an interval below four milliseconds.
  pub check_insert_connection_panics :
      (agent uri loc : ℕ) (s : Space)
      → IsRng lib
      → IsCoherent lib s
      → lib.calc_location_for_id agent ≡ some loc
      → (check_insert_connection lib agent uri s ≡ none) ↔ (s.gossip_interval < 4)
  unfolding check_insert_connection
  check_insert_connection_panics agent uri loc s rng h located =
      let same = get_mono_agent_id_lem lib s agent h.keyed in
      (
        λ e. elim (dec_lt s.gossip_interval 4) [
          | yes p ↦ p
          | no p ↦
              let (v, drawn, low, high) =
                rng.in_range agent 10 (s.gossip_interval / 4 + 10) (omega arith) in
              absurd (ground arith)
        ],
        λ p.
            let empty = rng.empty_range agent 10 (s.gossip_interval / 4 + 10) (omega arith) in
            ground arith,
      )

  connected_as :
      (agent uri loc : ℕ) (s t : Space)
      → IsCoherent lib s
      → lib.calc_location_for_id agent ≡ some loc
      → check_insert_connection lib agent uri s ≡ some t
      → (v : ℕ) × (lib.gen_range agent 10 (s.gossip_interval / 4 + 10) ≡ some v)
        × (t
            ≡ connect lib
                (record {
                  agent_id = agent;
                  agent_loc = loc;
                  uri = uri;
                  next_gossip_check = lib.now + v;
                })
                s)
  unfolding check_insert_connection
  connected_as agent uri loc s t h located e =
      let same = get_mono_agent_id_lem lib s agent h.keyed in
      elim (Option-cases (lib.gen_range agent 10 (s.gossip_interval / 4 + 10))) [
        | inl empty ↦ absurd (ground arith)
        | inr (v, drawn) ↦ (v, drawn, ground arith)
      ]

  replace_connection-connections :
      (con : ConnectionState) (s : Space)
      → ((replace_connection lib con s).connections ≡ Map.insert con.agent_id con s.connections)
        × ((replace_connection lib con s).entry_to_all_aspects ≡ s.entry_to_all_aspects)
  unfolding replace_connection
  replace_connection-connections con s = (ground arith, ground arith)

  connect-mapped :
      (con : ConnectionState) (s : Space)
      → Map.get con.uri (connect lib con s).uri_to_connection ≡ some con.agent_id
  unfolding connect clear_holding
  connect-mapped con s = Map.get-insert_self con.uri con.agent_id _

  connect-connections :
      (con : ConnectionState) (s : Space)
      → (connect lib con s).connections ≡ Map.insert con.agent_id con s.connections
  unfolding connect clear_holding
  connect-connections con s = (replace_connection-connections con s).0

  is_held_by-connect :
      (con : ConnectionState) (s : Space) (entry aspect b : ℕ)
      → is_held_by (connect lib con s) entry aspect b
        ≡ (not (con.agent_id == b) && is_held_by s entry aspect b)
  unfolding connect is_held_by
  is_held_by-connect con s entry aspect b =
      is_held_by-clear_holding con.agent_id _ entry aspect b
      ∙ ap
          (λ (m : Map EntryInfo).
            not (con.agent_id == b) && Map.holds (holds_aspect aspect b) (Map.get entry m))
          (replace_connection-connections con s).1

  rng_range :
      (agent : ℕ) (s : Space)
      → IsRng lib
      → (v : ℕ) → lib.gen_range agent 10 (s.gossip_interval / 4 + 10) ≡ some v
      → (w : ℕ) × (v ≡ w) × (10 ≤ w) × (w < s.gossip_interval / 4 + 10)
  rng_range agent s rng v drawn = elim (dec_lt 10 (s.gossip_interval / 4 + 10)) [
    | yes p ↦
        let (w, drawn', low, high) = rng.in_range agent 10 (s.gossip_interval / 4 + 10) p in
        (w, ground arith, low, high)
    | no p ↦
        let empty = rng.empty_range agent 10 (s.gossip_interval / 4 + 10) (omega arith) in
        absurd (ground arith)
  ]

  -- When an agent whose location can be computed joins a coherent space, with draws as rand
  -- documents them, and the join does not fail: the space stays coherent, the agent is connected
  -- at the given uri with a deadline at least ten milliseconds away, the other connections stay,
  -- the uri leads to the agent, the agent is a holder of nothing and everybody else holds what he
  -- held.
  pub check_insert_connection_joins :
      (agent uri loc : ℕ) (s t : Space)
      → IsRng lib
      → IsCoherent lib s
      → lib.calc_location_for_id agent ≡ some loc
      → check_insert_connection lib agent uri s ≡ some t
      → IsCoherent lib t
        × ((deadline : ℕ) × (lib.now + 10 ≤ deadline)
            × (Map.get agent t.connections
                ≡ some (record {
                  agent_id = agent;
                  agent_loc = loc;
                  uri = uri;
                  next_gossip_check = deadline;
                })))
        × ((b : ℕ) → agent ≢ b → Map.get b t.connections ≡ Map.get b s.connections)
        × (Map.get uri t.uri_to_connection ≡ some agent)
        × ((entry aspect b : ℕ)
            → is_held_by t entry aspect b ≡ (not (agent == b) && is_held_by s entry aspect b))
  check_insert_connection_joins agent uri loc s t rng h located e =
      let (v, drawn, same) = connected_as agent uri loc s t h located e in
      let (w, drawn', low, high) = rng_range agent s rng v drawn in
      let con : ConnectionState = record {
        agent_id = agent;
        agent_loc = loc;
        uri = uri;
        next_gossip_check = lib.now + v;
      } in
      (
        check_insert_connection-IsCoherent lib agent uri s t h e,
        (
          lib.now + v,
          omega arith,
          rw (same, connect-connections con s) (Map.get-insert_self agent con s.connections),
        ),
        λ b other.
            rw (same, connect-connections con s)
              (ground (arith, Map.get-insert agent con s.connections b)),
        rw same (connect-mapped con s),
        λ entry aspect b. rw same (is_held_by-connect con s entry aspect b),
      )

  -- When an agent whose location can be computed joins a coherent space again, at the uri it
  -- already has, and the join does not fail, this uri is both mapped to the agent and at the end
  -- of the list of uris to disconnect.
  pub rejoin_disconnects_itself :
      (agent uri loc : ℕ) (s t : Space) (old : ConnectionState)
      → IsCoherent lib s
      → lib.calc_location_for_id agent ≡ some loc
      → Map.get agent s.connections ≡ some old
      → old.uri ≡ uri
      → check_insert_connection lib agent uri s ≡ some t
      → (Map.get uri t.uri_to_connection ≡ some agent)
        × (t.disconnect_uri ≡ s.disconnect_uri ++ (uri ∷ []))
  unfolding connect replace_connection clear_holding
  rejoin_disconnects_itself agent uri loc s t old h located found at e =
      let (v, drawn, same) = connected_as agent uri loc s t h located e in
      let con : ConnectionState = record {
        agent_id = agent;
        agent_loc = loc;
        uri = uri;
        next_gossip_check = lib.now + v;
      } in
      (
        rw same (Map.get-insert_self uri agent _),
        rw same (rw (found, replace_connection) (ap (λ u. s.disconnect_uri ++ (u ∷ [])) at)),
      )
