-- ===== src/Sim2h/Space/Rounds.antt =====
-- A round of gossip, `Space::check_gossip`, and the random delays of
-- crates/sim2h/src/sim2h_im_state.rs.
use rust_holochain.Base.{
  ℕ, ◌+◌, ◌*◌, ◌/◌, ◌≤◌, ◌≡◌, refl, sym, subst, ◌∙◌, ◌⊎◌, inl, inr, Bool, true, false, not, Option,
  none, some, [], ◌∷◌, arith, ◌==◌, ==_iff, Option-cases, Bool-cases,
}
use rust_holochain.Base.Map
use rust_holochain.Base.Map.{Map, Unique, holds}
use rust_holochain.Base.Set
use rust_holochain.Base.Set.{Set}
use rust_holochain.Sim2h.Sharding.{Lib3h, IsRng}
use rust_holochain.Sim2h.Space.{
  Space, ConnectionState, still_pending, check_connections, check_gossip,
}
use rust_holochain.Sim2h.Space.Coherent.{IsCoherent, Keyed}

-- Two optional connections of one agent at one uri, at most the deadline differing.
abbrev pub SameConnection : Option ConnectionState → Option ConnectionState → Type 0
SameConnection none none = Unit
SameConnection none (some d) = ⊥
SameConnection (some c) none = ⊥
SameConnection (some c) (some d) =
    (c.agent_id ≡ d.agent_id) × (c.agent_loc ≡ d.agent_loc) × (c.uri ≡ d.uri)

SameConnection-refl : (o : Option ConnectionState) → SameConnection o o
SameConnection-refl none = tt
SameConnection-refl (some c) = (refl, refl, refl)

module _ (lib : Lib3h) where
  abbrev pub due_now : ConnectionState → Bool
  due_now con = not (still_pending lib con.next_gossip_check)

  -- One connection of the loop: it is pending and stays, or it gets a new deadline.
  step_cases :
      (interval k : ℕ) (con : ConnectionState) (rest : Map ConnectionState)
      {m' : Map ConnectionState} {due : Set}
      → check_connections lib interval ((k, con) ∷ rest) ≡ some (m', due)
      → (rest' : Map ConnectionState) × (due' : Set) × (check_connections lib interval rest
          ≡ some (rest', due'))
        × (((due_now con ≡ false) × (m' ≡ (k, con) ∷ rest') × (due ≡ due'))
            ⊎ ((due_now con ≡ true)
                × ((v : ℕ) × (lib.gen_range con.agent_id (interval * 3 / 4) (interval * 5 / 4)
                      ≡ some v)
                    × (m' ≡ (k, record con { next_gossip_check = lib.now + v }) ∷ rest'))
                × (due ≡ Set.insert due' con.agent_id)))
  unfolding check_connections
  step_cases interval k con rest h = elim (Option-cases (check_connections lib interval rest)) [
    | inl e ↦ absurd (ground arith)
    | inr ((rest', due'), e) ↦ (
      rest',
      due',
      e,
      elim (Bool-cases (still_pending lib con.next_gossip_check)) [
        | inl p ↦ inl (ground arith, ground arith, ground arith)
        | inr p ↦
            elim (Option-cases (lib.gen_range con.agent_id (interval * 3 / 4) (interval * 5 / 4))) [
              | inl q ↦ absurd (ground arith)
              | inr (v, q) ↦ inr (ground arith, (v, q, ground arith), ground arith)
            ]
      ],
    )
  ]

  Keyed-head :
      (k : ℕ) (con : ConnectionState) (m : Map ConnectionState)
      → Keyed ((k, con) ∷ m)
      → con.agent_id ≡ k
  Keyed-head k con m h = h k con (ground (arith, ==_iff k k))

  Keyed-tail :
      (k : ℕ) (con : ConnectionState) (m : Map ConnectionState)
      → Keyed ((k, con) ∷ m)
      → Map.get k m ≡ none
      → Keyed m
  Keyed-tail k con m h u a c g = h a c (ground arith)

  check_connections-SameConnection :
      (interval : ℕ) (m m' : Map ConnectionState) (due : Set) (a : ℕ)
      → check_connections lib interval m ≡ some (m', due)
      → SameConnection (Map.get a m) (Map.get a m')
  unfolding check_connections
  check_connections-SameConnection interval [] m' due a h = ground arith
  check_connections-SameConnection interval ((k, con) ∷ m) m' due a h =
      let (rest, due', e, cases) = step_cases interval k con m h in
      let ih = check_connections-SameConnection interval m rest due' a e in
      elim cases [
        | inl (p, same, q) ↦ elim (Bool-cases (k == a)) [
          | inl hit ↦ rw (same, hit) (refl, refl, refl)
          | inr miss ↦ rw (same, miss) ih
        ]
        | inr (p, (v, drawn, same), q) ↦ elim (Bool-cases (k == a)) [
          | inl hit ↦ rw (same, hit) (refl, refl, refl)
          | inr miss ↦ rw (same, miss) ih
        ]
      ]

  same_none :
      (o : Option ConnectionState)
      → o ≡ none
      → (p : Option ConnectionState) → SameConnection o p
      → p ≡ none
  same_none none e none h = refl
  same_none none e (some d) h = absurd h
  same_none (some c) e p h = absurd (ground arith)

  check_connections-Unique :
      (interval : ℕ) (m m' : Map ConnectionState) (due : Set)
      → Unique m
      → check_connections lib interval m ≡ some (m', due)
      → Unique m'
  unfolding check_connections
  check_connections-Unique interval [] m' due u h =
      let e : m' ≡ [] = ground arith in subst Unique (sym e) tt
  check_connections-Unique interval ((k, con) ∷ m) m' due u h =
      let (rest, due', e, cases) = step_cases interval k con m h in
      let ih = check_connections-Unique interval m rest due' u.1 e in
      let fresh = same_none _ u.0 _ (check_connections-SameConnection interval m rest due' k e) in
      elim cases [
        | inl (p, same, q) ↦ subst Unique (sym same) (fresh, ih)
        | inr (p, (v, drawn, same), q) ↦ subst Unique (sym same) (fresh, ih)
      ]

  -- The agents that a round reports are those whose deadline is over.
  check_connections-due :
      (interval : ℕ) (m m' : Map ConnectionState) (due : Set) (a : ℕ)
      → Unique m
      → Keyed m
      → check_connections lib interval m ≡ some (m', due)
      → Set.contains due a ≡ holds due_now (Map.get a m)
  unfolding check_connections
  check_connections-due interval [] m' due a u keyed h = ground arith
  check_connections-due interval ((k, con) ∷ m) m' due a u keyed h =
      let (rest, due', e, cases) = step_cases interval k con m h in
      let ih = check_connections-due interval m rest due' a u.1 (Keyed-tail k con m keyed u.0) e in
      let own = Keyed-head k con m keyed in
      elim cases [
        | inl (p, same, q) ↦ elim (Bool-cases (k == a)) [
          | inl hit ↦
              let k≡a = (==_iff k a).0 hit in
              let gone : Map.get a m ≡ none = subst (λ n. Map.get n m ≡ none) k≡a u.0 in
              rw (hit, q, ih, gone) (sym p)
          | inr miss ↦ rw (miss, q, ih)
        ]
        | inr (p, (v, drawn, same), q) ↦ elim (Bool-cases (k == a)) [
          | inl hit ↦ rw (hit, q, Set.contains-insert due' con.agent_id a, own, hit) (sym p)
          | inr miss ↦ rw (q, Set.contains-insert due' con.agent_id a, own, miss) ih
        ]
      ]

  -- Every connection has a deadline in the future after a round.
  check_connections-pending :
      (interval : ℕ) (m m' : Map ConnectionState) (due : Set) (a : ℕ)
      → IsRng lib
      → 2 ≤ interval
      → check_connections lib interval m ≡ some (m', due)
      → holds due_now (Map.get a m') ≡ false
  unfolding check_connections
  check_connections-pending interval [] m' due a rng i h = ground arith
  check_connections-pending interval ((k, con) ∷ m) m' due a rng i h =
      let (rest, due', e, cases) = step_cases interval k con m h in
      let ih = check_connections-pending interval m rest due' a rng i e in
      elim cases [
        | inl (p, same, q) ↦ elim (Bool-cases (k == a)) [
          | inl hit ↦ rw (same, hit) p
          | inr miss ↦ rw (same, miss) ih
        ]
        | inr (p, (v, drawn, same), q) ↦ elim (Bool-cases (k == a)) [
          | inl hit ↦
              let (w, drawn', low, high) =
                rng.in_range con.agent_id (interval * 3 / 4) (interval * 5 / 4) (omega arith) in
              let v≡w : v ≡ w = ground arith in rw (same, hit) (ground arith)
          | inr miss ↦ rw (same, miss) ih
        ]
      ]

  check_connections_total :
      (interval : ℕ) (m : Map ConnectionState)
      → IsRng lib
      → 1 ≤ interval
      → (m' : Map ConnectionState) × (due : Set) × (check_connections lib interval m
          ≡ some (m', due))
  unfolding check_connections
  check_connections_total interval [] rng i = ([], [], refl)
  check_connections_total interval ((k, con) ∷ m) rng i =
      let (m', due, e) = check_connections_total interval m rng i in
      elim (Bool-cases (still_pending lib con.next_gossip_check)) [
        | inl p ↦ ((k, con) ∷ m', due, ground arith)
        | inr p ↦
            let (v, drawn, low, high) =
              rng.in_range con.agent_id (interval * 3 / 4) (interval * 5 / 4) (omega arith) in
            (
              (k, record con { next_gossip_check = lib.now + v }) ∷ m',
              Set.insert due con.agent_id,
              ground arith,
            )
      ]

  check_gossip_cases :
      (s t : Space) (due : Set)
      → check_gossip lib s ≡ some (t, due)
      → (m : Map ConnectionState) × (check_connections lib s.gossip_interval s.connections
          ≡ some (m, due))
        × (t ≡ record s { connections = m })
  unfolding check_gossip
  check_gossip_cases s t due h =
      elim (Option-cases (check_connections lib s.gossip_interval s.connections)) [
        | inl e ↦ absurd (ground arith)
        | inr ((m, due'), e) ↦ (m, ground arith, ground arith)
      ]

  same_some :
      {o p : Option ConnectionState} {c : ConnectionState}
      → SameConnection o p
      → p ≡ some c
      → (d : ConnectionState) × (o ≡ some d) × (d.agent_id ≡ c.agent_id) × (d.uri ≡ c.uri)
  same_some {o = none} {p = none} s e = absurd (ground arith)
  same_some {o = none} {p = some d} s e = absurd s
  same_some {o = some d} {p = none} s e = absurd s
  same_some {o = some d} {p = some d'} s e = (d, refl, ground arith, ground arith)

  same_some' :
      {o p : Option ConnectionState} {c : ConnectionState}
      → SameConnection o p
      → o ≡ some c
      → (d : ConnectionState) × (p ≡ some d) × (d.agent_id ≡ c.agent_id) × (d.uri ≡ c.uri)
  same_some' {o = none} {p = none} s e = absurd (ground arith)
  same_some' {o = none} {p = some d} s e = absurd s
  same_some' {o = some d} {p = none} s e = absurd s
  same_some' {o = some d} {p = some d'} s e = (d', refl, ground arith, ground arith)

  pub check_gossip-IsCoherent :
      (s t : Space) (due : Set)
      → IsCoherent lib s
      → check_gossip lib s ≡ some (t, due)
      → IsCoherent lib t
  check_gossip-IsCoherent s t due h e =
      let (m, checked, same) = check_gossip_cases s t due e in
      let lookup = λ (a : ℕ).
        check_connections-SameConnection s.gossip_interval s.connections m due a checked in
      subst (IsCoherent lib) (sym same) (record {
        connections_unique =
            check_connections-Unique s.gossip_interval s.connections m due h.connections_unique
              checked;
        entries_unique = h.entries_unique;
        keyed =
            λ a c g. let (d, found, id, at) = same_some (lookup a) g in sym id ∙ h.keyed a d found;
        backed = λ u a g.
            let (c, found, at) = h.backed u a g in
            let (d, now, id, at') = same_some' (lookup a) found in (d, now, at' ∙ at);
        entries = h.entries;
      })

  pub check_gossip-interval :
      (s t : Space) (due : Set)
      → check_gossip lib s ≡ some (t, due)
      → t.gossip_interval ≡ s.gossip_interval
  check_gossip-interval s t due e = let (m, checked, same) = check_gossip_cases s t due e in rw same

  -- In a coherent space with an interval of at least two milliseconds, and with draws as rand
  -- documents them, a round of gossip does not panic. It keeps the space coherent, reports exactly
  -- the connected agents whose deadline is over, and leaves no agent that a second round at the
  -- same instant would report.
  pub check_gossip_round :
      (s : Space)
      → IsRng lib
      → IsCoherent lib s
      → 2 ≤ s.gossip_interval
      → (t : Space) × (due : Set) × (check_gossip lib s ≡ some (t, due))
        × IsCoherent lib t
        × ((a : ℕ) → Set.contains due a ≡ holds due_now (Map.get a s.connections))
        × ((a : ℕ) → holds due_now (Map.get a t.connections) ≡ false)
  unfolding check_gossip
  check_gossip_round s rng h i =
      let (m, due, e) = check_connections_total s.gossip_interval s.connections rng (omega arith) in
      let done : check_gossip lib s ≡ some (record s { connections = m }, due) = ground arith in
      (
        record s { connections = m },
        due,
        done,
        check_gossip-IsCoherent s _ due h done,
        λ a.
            check_connections-due s.gossip_interval s.connections m due a h.connections_unique
              h.keyed e,
        λ a. check_connections-pending s.gossip_interval s.connections m due a rng i e,
      )
