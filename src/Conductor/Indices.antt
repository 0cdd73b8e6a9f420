-- ===== src/Conductor/Indices.antt =====
-- The two maps and the edges that instance_ids_sorted_by_bridge_dependencies of
-- crates/conductor_lib/src/config.rs builds, for instances of different names: the index of an instance
-- is its place, and the edges are the bridges renamed.
use rust_holochain.Base.{
  ℕ, suc, ◌+◌, ◌≡◌, refl, ap, true, false, none, some, List, [], ◌∷◌, ◌&&◌, ◌⊎◌, inl, inr, map,
  ◌==◌, ==_iff, if◌then◌else◌, arith, Bool-cases, ◌∙◌,
}
use rust_holochain.Base.Map
use rust_holochain.Base.Map.{Map, get, get-insert, get-insert_self}
use rust_holochain.Base.Set.{contains}
use rust_holochain.Base.Distinct.{Distinct}
use rust_holochain.Conductor.Config.{Bridge}
use rust_holochain.Conductor.Sorting.{
  Edges, found, missing, position, linked, index_map, reverse_map, edges_from, add_edge, names,
}
use rust_holochain.Conductor.Positions.{IsNew}

-- The bridges as pairs of instances, and such pairs renamed.
abbrev pub links : List Bridge → List (ℕ × ℕ)
links [] = []
links (b ∷ bs) = (b.caller_id, b.callee_id) ∷ links bs

abbrev pub renamed : (ℕ → ℕ) → List (ℕ × ℕ) → List (ℕ × ℕ)
renamed f [] = []
renamed f ((a, b) ∷ es) = (f a, f b) ∷ renamed f es

abbrev pub IsIndex : List ℕ → Map ℕ → Type 0
IsIndex ids index = (k : ℕ) → get k index ≡ (if contains ids k then some (position ids k) else none)

get-index_map :
    (n : ℕ) (ids : List ℕ) (m : Map ℕ) (k : ℕ)
    → Distinct ids
    → get k (index_map n ids m) ≡ (if contains ids k then some (n + position ids k) else get k m)
unfolding index_map
get-index_map n [] m k d = refl
get-index_map n (id ∷ ids) m k d = ground (
  arith,
  get-index_map (suc n) ids (Map.insert id n m) k d.1,
  get-insert id n m k,
  ==_iff id k,
  d.0,
)

pub index_map-IsIndex : (ids : List ℕ) → Distinct ids → IsIndex ids (index_map 0 ids [])
index_map-IsIndex ids d k = ground (arith, get-index_map 0 ids [] k d)

-- The entry of an instance in the second map stands, since no other instance has its index.
abbrev pub Names : (ℕ → ℕ) → List ℕ → Map ℕ → Map ℕ → Type 0
Names f ids m reverse_index =
    (k : ℕ)
    → IsNew f k ids
    → (contains ids k ≡ true) ⊎ (get (f k) m ≡ some k)
    → get (f k) reverse_index ≡ some k

pub reverse_map_lem :
    (f : ℕ → ℕ) (index : Map ℕ) (ids : List ℕ) (m : Map ℕ)
    → ((k : ℕ) → contains ids k ≡ true → get k index ≡ some (f k))
    → (r : Map ℕ) × (reverse_map index ids m ≡ some r) × Names f ids m r
unfolding reverse_map
reverse_map_lem f index [] m known =
    (m, refl, λ k new at. elim at [ inl h ↦ absurd (ground arith) | inr h ↦ h ])
reverse_map_lem f index (id ∷ ids) m known =
    let (r, made, holds) =
      reverse_map_lem f index ids (Map.insert (f id) id m) (λ k h. known k (ground arith)) in
    (
      r,
      rw (known id (ground arith), reverse_map) made,
      λ k new at.
          let rest : IsNew f k ids = λ x h e. new x (ground arith) e in
          let same : f id ≡ f k → id ≡ k = new id (ground arith) in holds k rest (entry same at),
    )
  where
    entry :
        {k : ℕ}
        → (f id ≡ f k → id ≡ k)
        → (contains (id ∷ ids) k ≡ true) ⊎ (get (f k) m ≡ some k)
        → (contains ids k ≡ true) ⊎ (get (f k) (Map.insert (f id) id m) ≡ some k)
    entry {k} same at = elim (Bool-cases (f id == f k)) [
      | inl e ↦
          let eq : id ≡ k = same ((==_iff (f id) (f k)).0 e) in
          inr (get-insert (f id) id m (f k) ∙ rw e (ap some eq))
      | inr e ↦ elim at [
        | inl h ↦ inl (ground (arith, ==_iff id k, ==_iff (f id) (f k), λ (p : id ≡ k). ap f p))
        | inr h ↦ inr (get-insert (f id) id m (f k) ∙ rw e h)
      ]
    ]

pub names_lem :
    (g : ℕ → ℕ) (r : Map ℕ) (nodes : List ℕ)
    → ((i : ℕ) → contains nodes i ≡ true → get i r ≡ some (g i))
    → names r nodes ≡ some (map g nodes)
unfolding names
names_lem g r [] known = refl
names_lem g r (i ∷ is) known =
    ground (arith, known i (ground arith), names_lem g r is (λ j h. known j (ground arith)))

-- What the loop over the bridges finds.
abbrev pub IsEdges : List ℕ → List Bridge → Edges → Type 0
IsEdges ids bs (found es) =
    (es ≡ renamed (position ids) (links bs))
    × ((a b : ℕ) → linked (links bs) a b ≡ true → (contains ids a && contains ids b) ≡ true)
IsEdges ids bs (missing a b) =
    (linked (links bs) a b ≡ true) × ((contains ids a && contains ids b) ≡ false)

edge-IsEdges :
    (ids : List ℕ) (b : Bridge) (bs : List Bridge) (rest : Edges)
    → (contains ids b.caller_id && contains ids b.callee_id) ≡ true
    → IsEdges ids bs rest
    → IsEdges ids (b ∷ bs) (add_edge (position ids b.caller_id) (position ids b.callee_id) rest)
edge-IsEdges ids b bs (found es) known (same, all) = (
  ap (◌∷◌ (position ids b.caller_id, position ids b.callee_id)) same,
  λ x y h. ground (arith, ==_iff b.caller_id x, ==_iff b.callee_id y, all x y),
)
edge-IsEdges ids b bs (missing x y) known h = ground arith

pub edges_from-IsEdges :
    (ids : List ℕ) (index : Map ℕ) (bs : List Bridge)
    → IsIndex ids index
    → IsEdges ids bs (edges_from index bs)
unfolding edges_from
edges_from-IsEdges ids index [] known = (refl, λ a b h. cc)
edges_from-IsEdges ids index (b ∷ bs) known =
    let rest = edges_from index bs in
    let ih : IsEdges ids bs rest = edges_from-IsEdges ids index bs known in
    elim (Bool-cases (contains ids b.caller_id)) [
      | inl e ↦ elim (Bool-cases (contains ids b.callee_id)) [
        | inl e' ↦
            rw (known b.caller_id, known b.callee_id, e, e')
              (edge-IsEdges ids b bs rest (ground arith) ih)
        | inr e' ↦ rw (known b.caller_id, known b.callee_id, e, e') (ground arith)
      ]
      | inr e ↦ rw (known b.caller_id, e) (ground arith)
    ]
