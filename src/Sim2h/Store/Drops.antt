-- ===== src/Sim2h/Store/Drops.antt =====
-- `Store::drop_connection_by_uri` of crates/sim2h/src/sim2h_im_state.rs.
use rust_holochain.Base.{
  ℕ, ◌≡◌, refl, sym, ◌∙◌, ◌⊎◌, inl, inr, true, false, [], ◌∷◌, is_some, Bool-cases, not, ◌&&◌, none,
  some, arith, ◌==◌, ==_iff, if◌then◌else◌,
}
use rust_holochain.Base.Map
use rust_holochain.Base.Map.{Map, Unique, holds}
use rust_holochain.Base.Set
use rust_holochain.Base.Set.{Set}
use rust_holochain.Sim2h.Sharding.{Lib3h}
use rust_holochain.Sim2h.Space.{Space, ConnectionState, clear_holding}
use rust_holochain.Sim2h.Space.Coherent.{IsCoherent}
use rust_holochain.Sim2h.Space.Connect.{is_held_by, is_held_by-clear_holding}
use rust_holochain.Sim2h.Store.{
  Store, drop_connection_inner, drop_uri, check_drop_spaces, drop_uri_everywhere, is_unused,
}
use rust_holochain.Sim2h.Store.Coherent.{IsStore}

module _ (lib : Lib3h) where
  clear_holding-same :
      (agent : ℕ) (s : Space)
      → ((clear_holding agent s).connections ≡ s.connections)
        × ((clear_holding agent s).uri_to_connection ≡ s.uri_to_connection)
  unfolding clear_holding
  clear_holding-same agent s = (refl, refl)

  -- The space that loses its uri: what is known of a coherent one.
  drop_inner_lem :
      (agent : ℕ) (s : Space) (con : ConnectionState)
      → Map.get agent s.connections ≡ some con
      → ((drop_connection_inner agent s).connections ≡ Map.remove agent s.connections)
        × ((drop_connection_inner agent s).uri_to_connection
            ≡ Map.remove con.uri s.uri_to_connection)
        × ((drop_connection_inner agent s).entry_to_all_aspects
            ≡ (clear_holding agent s).entry_to_all_aspects)
  unfolding drop_connection_inner clear_holding
  drop_inner_lem agent s con e = (ground arith, ground arith, ground arith)

  -- A space without the connection that a uri leads to.
  abbrev pub IsDropped : ℕ → ℕ → Space → Space → Type 0
  IsDropped uri agent s t =
      ((b : ℕ) → Map.get b t.connections ≡ (if agent == b then none else Map.get b s.connections))
      × ((u : ℕ)
          → Map.get u t.uri_to_connection
            ≡ (if uri == u then none else Map.get u s.uri_to_connection))
      × ((entry aspect b : ℕ)
          → is_held_by t entry aspect b ≡ (not (agent == b) && is_held_by s entry aspect b))

  -- In a coherent space where a uri leads to an agent, dropping the uri removes exactly this
  -- agent's connection, unmaps exactly this uri, and takes the agent out of every holder set.
  pub drop_uri_lem :
      (uri agent : ℕ) (s : Space)
      → IsCoherent lib s
      → Map.get uri s.uri_to_connection ≡ some agent
      → IsDropped uri agent s (drop_uri uri s)
  unfolding drop_uri is_held_by
  drop_uri_lem uri agent s h e =
      let (con, found, at) = h.backed uri agent e in
      let (cons, uris, entries) = drop_inner_lem agent s con found in
      (
        λ b. rw (e, drop_uri) (rw cons (Map.get-remove agent s.connections b)),
        λ u. rw (e, drop_uri) (rw (uris, at) (Map.get-remove uri s.uri_to_connection u)),
        λ entry aspect b.
            rw (e, drop_uri) (rw entries (is_held_by-clear_holding agent s entry aspect b)),
      )

  untouched : (uri : ℕ) (s : Space) → Map.get uri s.uri_to_connection ≡ none → drop_uri uri s ≡ s
  unfolding drop_uri
  untouched uri s e = rw (e, drop_uri)

  some_member : (xs : Set) → Set.is_empty xs ≡ false → (a : ℕ) × (Set.contains xs a ≡ true)
  unfolding Set.is_empty
  some_member [] h = absurd (ground arith)
  some_member (x ∷ xs) h = (x, ground (arith, ==_iff x x))

  -- Whether a space has a connection, by its agents.
  unused-cases :
      (s : Space)
      → ((is_unused s ≡ true) × ((a : ℕ) → Map.get a s.connections ≡ none))
        ⊎ ((is_unused s ≡ false) × ((a : ℕ) × (is_some (Map.get a s.connections) ≡ true)))
  unused-cases s = elim (Bool-cases (is_unused s)) [
    | inl e ↦ inl (
      e,
      λ a. ground (
        arith,
        Set.is_empty-contains (Map.keys s.connections) a e,
        Map.contains-keys s.connections a,
      ),
    )
    | inr e ↦
        let (a, there) = some_member (Map.keys s.connections) e in
        inr (e, (a, sym (Map.contains-keys s.connections a) ∙ there))
  ]

  -- When a uri is dropped from a store in order, no space is made, and of each space there is this is
  -- left: itself if the uri leads to no agent in it; else itself without this agent's connection, with
  -- the uri unmapped and the agent out of every holder set, the other connections, uris and holders as
  -- they were. What is left of it stays in the store if some agent has a connection in it, and is
  -- dropped if none has.
  pub drop_uri_everywhere_lem :
      (uri : ℕ) (st : Store)
      → IsStore lib st
      → ((k : ℕ)
          → Map.get k st.spaces ≡ none
          → Map.get k (drop_uri_everywhere uri st).spaces ≡ none)
        × ((k : ℕ) (s : Space)
            → Map.get k st.spaces ≡ some s
            → (t : Space) × (Map.get uri s.uri_to_connection ≡ none → t ≡ s)
              × ((agent : ℕ)
                  → Map.get uri s.uri_to_connection ≡ some agent
                  → IsDropped uri agent s t)
              × ((((a : ℕ) → Map.get a t.connections ≡ none)
                    × (Map.get k (drop_uri_everywhere uri st).spaces ≡ none))
                  ⊎ (((a : ℕ) × (is_some (Map.get a t.connections) ≡ true))
                      × (Map.get k (drop_uri_everywhere uri st).spaces ≡ some t))))
  unfolding drop_uri_everywhere check_drop_spaces
  drop_uri_everywhere_lem uri st h =
      let dropped = λ (k : ℕ) (s : Space). drop_uri uri s in
      let unused = λ (k : ℕ) (s : Space). is_unused s in
      let mapped = Map.map_values dropped st.spaces in
      let unique = Map.Unique-map_values dropped st.spaces h.unique in
      (
        λ k e. ground (
          arith,
          Map.get-remove_where unused mapped k unique,
          Map.get-map_values dropped st.spaces k,
        ),
        λ k s found. (
          drop_uri uri s,
          λ missing. untouched uri s missing,
          λ agent leads. drop_uri_lem uri agent s (h.spaces k s found).coherent leads,
          elim (unused-cases (drop_uri uri s)) [
            | inl (e, empty) ↦ inl (
              empty,
              ground (
                arith,
                Map.get-remove_where unused mapped k unique,
                Map.get-map_values dropped st.spaces k,
              ),
            )
            | inr (e, used) ↦ inr (
              used,
              ground (
                arith,
                Map.get-remove_where unused mapped k unique,
                Map.get-map_values dropped st.spaces k,
              ),
            )
          ],
        ),
      )
