-- ===== src/Conductor/Order.antt =====
-- What instance_ids_sorted_by_bridge_dependencies of crates/conductor_lib/src/config.rs returns: an
-- order of the instances, or which of its two errors.
use mathlib.Core.List.{reverse}
use rust_holochain.Base.{
  ℕ, ◌<◌, ◌≡◌, ap, sym, true, false, Option, none, some, List, [], ◌∷◌, ◌&&◌, inl, map, ==_iff,
  arith, length, ◌∙◌,
}
use rust_holochain.Base.Map.{Map, get}
use rust_holochain.Base.Set.{contains}
use rust_holochain.Base.Distinct.{Distinct}
use rust_holochain.Conductor.Config.{Configuration, Bridge, instance_ids}
use rust_holochain.Conductor.Sorting.{
  Sorted, sorted, not_found, cyclic, panicked, Edges, found, missing, Reach, IsOrder, IsToposort,
  Sorts, InRange, position, linked, index_map, reverse_map, edges_from, names, named, sort_nodes,
  instance_ids_sorted_by_bridge_dependencies,
}
use rust_holochain.Conductor.Positions.{
  contains-reverse, Distinct-reverse, position-reverse, position-lt-length, position-map,
  position-nth, nth-position, contains-nth, nth, IsNew,
}
use rust_holochain.Conductor.Indices.{
  links, renamed, IsIndex, IsEdges, index_map-IsIndex, reverse_map_lem, names_lem,
  edges_from-IsEdges,
}
use rust_holochain.Conductor.Paths.{
  linked-renamed, Known, renamed-linked, position-inj, Reach-renamed_cycle,
}

-- Every instance once, and the callee of each bridge before its caller.
pub record CalleesFirst (ids : List ℕ) (bridges : List Bridge) (out : List ℕ) : Type 0 where
  pub distinct : Distinct out
  pub members : (id : ℕ) → contains out id ≡ contains ids id
  pub callees :
      (caller callee : ℕ)
      → linked (links bridges) caller callee ≡ true
      → position out callee < position out caller

abbrev pub IsSorting : List ℕ → List Bridge → Sorted → Type 0
IsSorting ids bridges (sorted out) = CalleesFirst ids bridges out
IsSorting ids bridges (not_found caller callee) =
    (linked (links bridges) caller callee ≡ true)
    × ((contains ids caller && contains ids callee) ≡ false)
IsSorting ids bridges cyclic = (id : ℕ) × Reach (links bridges) id id
IsSorting ids bridges panicked = ⊥

-- A name stands in the list of names exactly where its index stands in the list of indices.
contains-map-nth :
    (ids : List ℕ) (l : List ℕ) (k : ℕ)
    → Distinct ids
    → ((i : ℕ) → contains l i ≡ true → i < length ids)
    → contains (map (nth ids) l) k ≡ (contains ids k && contains l (position ids k))
contains-map-nth ids [] k d small = ground arith
contains-map-nth ids (i ∷ is) k d small = ground (
  arith,
  contains-map-nth ids is k d (λ j h. small j (ground arith)),
  ==_iff (nth ids i) k,
  ==_iff i (position ids k),
  position-nth ids i d (small i (ground arith)),
  contains-nth ids i (small i (ground arith)),
  nth-position ids k,
  λ (p : nth ids i ≡ k). ap (position ids) p,
  λ (p : nth ids i ≡ k). ap (contains ids) p,
  λ (p : i ≡ position ids k). ap (nth ids) p,
)

Distinct-map-nth :
    (ids : List ℕ) (l : List ℕ)
    → Distinct ids
    → ((i : ℕ) → contains l i ≡ true → i < length ids)
    → Distinct l
    → Distinct (map (nth ids) l)
Distinct-map-nth ids [] d small dl = tt
Distinct-map-nth ids (i ∷ is) d small dl =
    let rest : (j : ℕ) → contains is j ≡ true → j < length ids = λ j h. small j (ground arith) in
    (
      ground (
        arith,
        contains-map-nth ids is (nth ids i) d rest,
        position-nth ids i d (small i (ground arith)),
        dl.0,
        ap (contains is) (position-nth ids i d (small i (ground arith))),
      ),
      Distinct-map-nth ids is d rest dl.1,
    )

-- The names of the nodes from last to first are the instances, callees first.
order-CalleesFirst :
    (ids : List ℕ) (bs : List Bridge) (nodes : List ℕ)
    → Distinct ids
    → Known ids bs
    → IsOrder (length ids) (renamed (position ids) (links bs)) nodes
    → CalleesFirst ids bs (map (nth ids) (reverse nodes))
order-CalleesFirst ids bs nodes d known order =
    let l = reverse nodes in
    let small : (i : ℕ) → contains l i ≡ true → i < length ids =
      λ i h. ground (arith, contains-reverse nodes i, order.nodes i) in
    let dl : Distinct l = Distinct-reverse nodes order.distinct in
    record {
      distinct = Distinct-map-nth ids l d small dl;
      members = λ k. ground (
        arith,
        contains-map-nth ids l k d small,
        contains-reverse nodes (position ids k),
        order.nodes (position ids k),
        position-lt-length ids k,
      );
      callees = λ a b h.
          let both = known a b h in
          let at_a : position (map (nth ids) l) a ≡ position l (position ids a) =
            ap (position (map (nth ids) l)) (sym (nth-position ids a (ground arith)))
            ∙ position-map (nth ids) l (position ids a) (new ids l d small a (ground arith)) in
          let at_b : position (map (nth ids) l) b ≡ position l (position ids b) =
            ap (position (map (nth ids) l)) (sym (nth-position ids b (ground arith)))
            ∙ position-map (nth ids) l (position ids b) (new ids l d small b (ground arith)) in
          let turned =
            position-reverse nodes (position ids a) (position ids b) order.distinct
              (ground (arith, order.nodes (position ids a), position-lt-length ids a))
              (ground (arith, order.nodes (position ids b), position-lt-length ids b))
              (order.forward (position ids a) (position ids b)
                (renamed-linked (position ids) (links bs) a b h)) in
          omega (arith, at_a, at_b, turned);
    }
  where
    new :
        (ids l : List ℕ)
        → Distinct ids
        → ((i : ℕ) → contains l i ≡ true → i < length ids)
        → (a : ℕ) → contains ids a ≡ true
        → IsNew (nth ids) (position ids a) l
    new ids l d small a h i at e =
        sym (position-nth ids i d (small i at)) ∙ ap (position ids) (e ∙ nth-position ids a h)

-- Where every end of a bridge is known, petgraph is given edges between nodes.
renamed-InRange :
    (ids : List ℕ) (bs : List Bridge)
    → Known ids bs
    → InRange (length ids) (renamed (position ids) (links bs))
renamed-InRange ids bs known x y h =
    let (a, b, l, p, q) = linked-renamed (position ids) (links bs) x y h in
    let both = known a b l in ground (arith, position-lt-length ids a, position-lt-length ids b)

module _ (toposort : ℕ → List (ℕ × ℕ) → Option (List ℕ)) (ids : List ℕ) (d : Distinct ids)
    (bs : List Bridge)
    (sound : let es = renamed (position ids) (links bs) in Sorts toposort (length ids) es) where
  sort_nodes-IsSorting :
      (index r : Map ℕ)
      → IsIndex ids index
      → ((i : ℕ) → i < length ids → get i r ≡ some (nth ids i))
      → IsSorting ids bs (sort_nodes toposort bs (length ids) index r)
  unfolding sort_nodes
  sort_nodes-IsSorting index r known entries =
      by_edges (edges_from index bs) (edges_from-IsEdges ids index bs known)
    where
      by_order :
          (result : Option (List ℕ))
          → Known ids bs
          → IsToposort (length ids) (renamed (position ids) (links bs)) result
          → IsSorting ids bs
              (elim result [ none ↦ cyclic | some nodes ↦ named (names r (reverse nodes)) ])
      by_order none all (x, cycle) = Reach-renamed_cycle ids bs all x cycle
      by_order (some nodes) all order =
          let found_names =
            names_lem (nth ids) r (reverse nodes)
              (λ i h. entries i (ground (arith, contains-reverse nodes i, order.nodes i))) in
          rw found_names (order-CalleesFirst ids bs nodes d all order)

      by_edges :
          (edges : Edges)
          → IsEdges ids bs edges
          → IsSorting ids bs (elim edges [
            | missing caller callee ↦ not_found caller callee
            | found es ↦ elim (toposort (length ids) es) [
              | none ↦ cyclic
              | some nodes ↦ named (names r (reverse nodes))
            ]
          ])
      by_edges (missing a b) h = h
      by_edges (found es) (same, all) = rw same (
          by_order (toposort (length ids) (renamed (position ids) (links bs))) all
            (sound (renamed-InRange ids bs all)))

  sorted-IsSorting : IsSorting ids bs (elim (reverse_map (index_map 0 ids []) ids []) [
    | none ↦ panicked
    | some r ↦ sort_nodes toposort bs (length ids) (index_map 0 ids []) r
  ])
  sorted-IsSorting =
      let index = index_map 0 ids [] in
      let known = index_map-IsIndex ids d in
      let (r, made, entries) =
        reverse_map_lem (position ids) index ids [] (λ k h. ground (arith, known k)) in
      rw made (
        sort_nodes-IsSorting index r known (λ i h.
          let here = contains-nth ids i h in
          let entry =
            entries (nth ids i) (λ x at e. position-inj ids x (nth ids i) at here e) (inl here) in
          ap (λ j. get j r) (sym (position-nth ids i d h)) ∙ entry))

-- For instances of different names, and where the sort of petgraph does what its documentation says if
-- all ends of the bridges are instances, the sort never panics, and it returns what its doc comment says:
-- every instance once with the callee of each bridge before its caller; or the error that a bridge
-- has an unknown end, and names one; or the error of a cycle, and the bridges have one.
pub instance_ids_sorted_by_bridge_dependencies_lem :
    (toposort : ℕ → List (ℕ × ℕ) → Option (List ℕ)) (c : Configuration)
    → Distinct (instance_ids c)
    → (let ids = instance_ids c in
        let es = renamed (position ids) (links c.bridges) in Sorts toposort (length ids) es)
    → IsSorting (instance_ids c) c.bridges (instance_ids_sorted_by_bridge_dependencies toposort c)
unfolding instance_ids_sorted_by_bridge_dependencies
instance_ids_sorted_by_bridge_dependencies_lem toposort c d sound =
    sorted-IsSorting toposort (instance_ids c) d c.bridges sound
