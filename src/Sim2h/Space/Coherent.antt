-- ===== src/Sim2h/Space/Coherent.antt =====
-- The invariant of a `Space` of crates/sim2h/src/sim2h_im_state.rs, and that its operations keep it.
use rust_holochain.Base.{
  ℕ, ◌+◌, ◌/◌, ◌≡◌, ◌≢◌, refl, sym, subst, inl, inr, none, some, List, [], ◌∷◌, arith, Option-cases,
}
use rust_holochain.Base.Map
use rust_holochain.Base.Map.{Map, Unique}
use rust_holochain.Base.Set
use rust_holochain.Base.Set.{Set}
use rust_holochain.Sim2h.Sharding.{Lib3h, entry_location}
use rust_holochain.Sim2h.Space.{
  Space, ConnectionState, EntryInfo, Holding, new, clear_holding, get_mono_agent_id,
  replace_connection, connect, check_insert_connection, priv_check_insert_entry_hash,
  priv_check_insert_aspect, check_insert_aspects, add_holder, agent_holds_aspects,
}

-- Each connection stands under its own agent.
abbrev pub Keyed : Map ConnectionState → Type 0
Keyed m = (a : ℕ) (c : ConnectionState) → Map.get a m ≡ some c → c.agent_id ≡ a

-- A uri that is mapped belongs to a connection with this uri.
abbrev pub Backed : Map ConnectionState → Map ℕ → Type 0
Backed connections uris =
    (u a : ℕ)
    → Map.get u uris ≡ some a
    → (c : ConnectionState) × (Map.get a connections ≡ some c) × (c.uri ≡ u)

-- Each entry stands under its hash, with the cached location of this hash and distinct aspects.
pub record IsEntry (lib : Lib3h) (e : ℕ) (i : EntryInfo) : Type 0 where
  pub hash : i.entry_hash ≡ e
  pub loc : i.entry_loc ≡ entry_location lib e
  pub aspects : Unique i.aspects

abbrev pub Entries : Lib3h → Map EntryInfo → Type 0
Entries lib m = (e : ℕ) (i : EntryInfo) → Map.get e m ≡ some i → IsEntry lib e i

pub record IsCoherent (lib : Lib3h) (s : Space) : Type 0 where
  pub connections_unique : Unique s.connections
  pub entries_unique : Unique s.entry_to_all_aspects
  pub keyed : Keyed s.connections
  pub backed : Backed s.connections s.uri_to_connection
  pub entries : Entries lib s.entry_to_all_aspects

module _ (lib : Lib3h) where
  pub new-IsCoherent : (redundancy interval : ℕ) → IsCoherent lib (new redundancy interval)
  unfolding new
  new-IsCoherent redundancy interval = record {
    connections_unique = tt;
    entries_unique = tt;
    keyed = λ a c h. cc;
    backed = λ u a h. absurd (ground arith);
    entries = λ e i h. absurd (ground arith);
  }

  forgotten-IsEntry :
      (agent e : ℕ) (i : EntryInfo)
      → IsEntry lib e i
      → IsEntry lib e
          (record i { aspects = Map.map_values (λ _ holding. Set.remove holding agent) i.aspects })
  forgotten-IsEntry agent e i h = record {
    hash = h.hash;
    loc = h.loc;
    aspects = Map.Unique-map_values _ i.aspects h.aspects;
  }

  pub clear_holding-IsCoherent :
      (agent : ℕ) (s : Space) → IsCoherent lib s → IsCoherent lib (clear_holding agent s)
  unfolding clear_holding
  clear_holding-IsCoherent agent s h = record {
    connections_unique = h.connections_unique;
    entries_unique = Map.Unique-map_values _ s.entry_to_all_aspects h.entries_unique;
    keyed = h.keyed;
    backed = h.backed;
    entries = λ e i g.
        let (j, found, same) = Map.map_values-eq-some _ s.entry_to_all_aspects e g in
        subst (IsEntry lib e) (sym same) (forgotten-IsEntry agent e j (h.entries e j found));
  }

  pub get_mono_agent_id_lem :
      (s : Space) (agent : ℕ) → Keyed s.connections → get_mono_agent_id s agent ≡ agent
  unfolding get_mono_agent_id
  get_mono_agent_id_lem s agent keyed = elim (Option-cases (Map.get agent s.connections)) [
    | inl e ↦ rw (e, get_mono_agent_id)
    | inr (c, e) ↦ rw (e, get_mono_agent_id) (keyed agent c e)
  ]

  insert-Keyed :
      (con : ConnectionState) (m : Map ConnectionState)
      → Keyed m
      → Keyed (Map.insert con.agent_id con m)
  insert-Keyed con m h a c g = elim (Map.insert-eq-some con.agent_id con m a g) [
    | inl (k, e) ↦ cc
    | inr (k, e) ↦ h a c e
  ]

  -- The uris stay backed when an agent's connection is replaced, its old uri removed and its new
  -- one entered.
  connect-Backed :
      (con : ConnectionState) (m : Map ConnectionState) (uris uris' : Map ℕ)
      → Backed m uris
      → ((u a : ℕ) → Map.get u uris' ≡ some a → (Map.get u uris ≡ some a) × (a ≢ con.agent_id))
      → Backed (Map.insert con.agent_id con m) (Map.insert con.uri con.agent_id uris')
  connect-Backed con m uris uris' h kept u a g =
      elim (Map.insert-eq-some con.uri con.agent_id uris' u g) [
        | inl (k, e) ↦ (con, ground (arith, Map.get-insert con.agent_id con m a), k)
        | inr (k, e) ↦
            let (old, other) = kept u a e in
            let (c, found, same) = h u a old in
            (c, ground (arith, Map.get-insert con.agent_id con m a), same)
      ]

  -- A mapped uri belongs to no agent without a connection, and to an agent only if it is its own.
  kept_vacant :
      (agent : ℕ) (m : Map ConnectionState) (uris : Map ℕ)
      → Backed m uris
      → Map.get agent m ≡ none
      → (u a : ℕ) → Map.get u uris ≡ some a
      → (Map.get u uris ≡ some a) × (a ≢ agent)
  kept_vacant agent m uris h e u a g = let (c, found, same) = h u a g in (g, λ p. ground arith)

  pub kept_occupied :
      (agent : ℕ) (old : ConnectionState) (m : Map ConnectionState) (uris : Map ℕ)
      → Backed m uris
      → Map.get agent m ≡ some old
      → (u a : ℕ) → Map.get u (Map.remove old.uri uris) ≡ some a
      → (Map.get u uris ≡ some a) × (a ≢ agent)
  kept_occupied agent old m uris h e u a g =
      let (other, kept) = Map.remove-eq-some old.uri uris u g in
      let (c, found, same) = h u a kept in (kept, λ p. ground arith)

  pub connect-IsCoherent :
      (con : ConnectionState) (s : Space) → IsCoherent lib s → IsCoherent lib (connect lib con s)
  unfolding connect
  connect-IsCoherent con s h =
      clear_holding-IsCoherent con.agent_id _
        (elim (Option-cases (Map.get con.agent_id s.connections)) [
          | inl e ↦
              rw (e, replace_connection)
                (record {
                  connections_unique = Map.Unique-insert _ _ s.connections h.connections_unique;
                  entries_unique = h.entries_unique;
                  keyed = insert-Keyed con s.connections h.keyed;
                  backed =
                      connect-Backed con s.connections s.uri_to_connection s.uri_to_connection
                        h.backed
                        (kept_vacant con.agent_id s.connections s.uri_to_connection h.backed e);
                  entries = h.entries;
                })
          | inr (old, e) ↦
              rw (e, replace_connection)
                (record {
                  connections_unique = Map.Unique-insert _ _ s.connections h.connections_unique;
                  entries_unique = h.entries_unique;
                  keyed = insert-Keyed con s.connections h.keyed;
                  backed =
                      connect-Backed con s.connections s.uri_to_connection _ h.backed (
                        kept_occupied con.agent_id old s.connections s.uri_to_connection h.backed
                          e);
                  entries = h.entries;
                })
        ])

  pub check_insert_connection-IsCoherent :
      (agent uri : ℕ) (s t : Space)
      → IsCoherent lib s
      → check_insert_connection lib agent uri s ≡ some t
      → IsCoherent lib t
  unfolding check_insert_connection
  check_insert_connection-IsCoherent agent uri s t h e =
      elim (Option-cases (lib.calc_location_for_id (get_mono_agent_id s agent))) [
        | inl failed ↦ subst (IsCoherent lib) (ground arith) h
        | inr (loc, located) ↦
            elim (Option-cases
              (lib.gen_range (get_mono_agent_id s agent) 10 (s.gossip_interval / 4 + 10))) [
                | inl empty ↦ absurd (ground arith)
                | inr (to_add, drawn) ↦ subst (IsCoherent lib) (ground arith) (
                    connect-IsCoherent
                      (record {
                        agent_id = get_mono_agent_id s agent;
                        agent_loc = loc;
                        uri = uri;
                        next_gossip_check = lib.now + to_add;
                      })
                      s h)
              ]
      ]

  insert-Entries :
      (e : ℕ) (i : EntryInfo) (m : Map EntryInfo)
      → Entries lib m
      → IsEntry lib e i
      → Entries lib (Map.insert e i m)
  insert-Entries e i m h valid j w g = elim (Map.insert-eq-some e i m j g) [
    | inl (k, same) ↦ subst (λ n. IsEntry lib n w) k (subst (IsEntry lib e) same valid)
    | inr (k, found) ↦ h j w found
  ]

  pub priv_check_insert_entry_hash-IsCoherent :
      (e : ℕ) (s : Space) → IsCoherent lib s → IsCoherent lib (priv_check_insert_entry_hash lib e s)
  unfolding priv_check_insert_entry_hash
  priv_check_insert_entry_hash-IsCoherent e s h =
      elim (Option-cases (Map.get e s.entry_to_all_aspects)) [
        | inl missing ↦
            rw (missing, priv_check_insert_entry_hash)
              (record {
                connections_unique = h.connections_unique;
                entries_unique = Map.Unique-insert _ _ s.entry_to_all_aspects h.entries_unique;
                keyed = h.keyed;
                backed = h.backed;
                entries =
                    insert-Entries e _ s.entry_to_all_aspects h.entries
                      (record { hash = refl; loc = refl; aspects = tt });
              })
        | inr (i, found) ↦ rw (found, priv_check_insert_entry_hash) h
      ]

  check_insert_aspects-IsCoherent :
      (aspects : List ℕ) (s : Space)
      → IsCoherent lib s
      → IsCoherent lib (check_insert_aspects aspects s)
  unfolding check_insert_aspects priv_check_insert_aspect
  check_insert_aspects-IsCoherent [] s h = h
  check_insert_aspects-IsCoherent (a ∷ aspects) s h =
      check_insert_aspects-IsCoherent aspects _ (elim (Option-cases (Map.get a s.all_aspects)) [
        | inl missing ↦
            rw (missing, priv_check_insert_aspect)
              (record {
                connections_unique = h.connections_unique;
                entries_unique = h.entries_unique;
                keyed = h.keyed;
                backed = h.backed;
                entries = h.entries;
              })
        | inr (i, found) ↦ rw (found, priv_check_insert_aspect) h
      ])

  add_holder-Unique :
      (agent : ℕ) (aspects : List ℕ) (m : Holding) → Unique m → Unique (add_holder agent aspects m)
  unfolding add_holder
  add_holder-Unique agent [] m u = u
  add_holder-Unique agent (a ∷ aspects) m u =
      add_holder-Unique agent aspects _ (Map.Unique-insert a _ m u)

  add_holders-IsCoherent :
      (agent e : ℕ) (aspects : List ℕ) (s : Space) (i : EntryInfo)
      → IsCoherent lib s
      → Map.get e s.entry_to_all_aspects ≡ some i
      → IsCoherent lib (record s {
        entry_to_all_aspects =
            Map.insert e
              (record i { aspects = add_holder agent aspects i.aspects })
              s.entry_to_all_aspects;
      })
  add_holders-IsCoherent agent e aspects s i h found = record {
    connections_unique = h.connections_unique;
    entries_unique = Map.Unique-insert _ _ s.entry_to_all_aspects h.entries_unique;
    keyed = h.keyed;
    backed = h.backed;
    entries =
        let valid = h.entries e i found in
        insert-Entries e _ s.entry_to_all_aspects h.entries (record {
          hash = valid.hash;
          loc = valid.loc;
          aspects = add_holder-Unique agent aspects i.aspects valid.aspects;
        });
  }

  pub agent_holds_aspects-IsCoherent :
      (agent e : ℕ) (aspects : List ℕ) (s t : Space)
      → IsCoherent lib s
      → agent_holds_aspects lib agent e aspects s ≡ some t
      → IsCoherent lib t
  unfolding agent_holds_aspects
  agent_holds_aspects-IsCoherent agent e aspects s t h eq =
      let s' = check_insert_aspects aspects (priv_check_insert_entry_hash lib e s) in
      let h' =
        check_insert_aspects-IsCoherent aspects (priv_check_insert_entry_hash lib e s)
          (priv_check_insert_entry_hash-IsCoherent e s h) in
      elim (Option-cases (Map.get e s'.entry_to_all_aspects)) [
        | inl missing ↦ absurd (ground arith)
        | inr (i, found) ↦
            subst (IsCoherent lib) (ground arith)
              (add_holders-IsCoherent (get_mono_agent_id s agent) e aspects s' i h' found)
      ]
