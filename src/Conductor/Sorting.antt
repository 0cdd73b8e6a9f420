-- ===== src/Conductor/Sorting.antt =====
-- Configuration::instance_ids_sorted_by_bridge_dependencies of crates/conductor_lib/src/config.rs. The
-- graph's nodes are numbered in the order in which they are added. `toposort` of the crate petgraph is
-- a parameter: it takes the number of nodes and the edges, and `IsToposort` is what its documentation
-- says of the result.
use rust_holochain.Base.{
  ℕ, suc, ◌<◌, ◌≡◌, Bool, true, false, Option, none, some, List, [], ◌∷◌, ◌==◌, ltb, if◌then◌else◌,
  length, ◌&&◌, ◌||◌,
}
use mathlib.Core.List.{reverse}
use rust_holochain.Base.Map
use rust_holochain.Base.Map.{Map, get}
use rust_holochain.Base.Set.{contains}
use rust_holochain.Base.Distinct.{Distinct}
use rust_holochain.Conductor.Config.{Configuration, Bridge, instance_ids}

-- The place of an identifier in a list.
abbrev pub position : List ℕ → ℕ → ℕ
position [] a = 0
position (x ∷ xs) a = if x == a then 0 else suc (position xs a)

abbrev pub linked : List (ℕ × ℕ) → ℕ → ℕ → Bool
linked [] a b = false
linked ((x, y) ∷ es) a b = ((x == a) && (y == b)) || linked es a b

-- A path along the edges.
pub data Reach (edges : List (ℕ × ℕ)) : ℕ → ℕ → Type 0 where
  edge : {a b : ℕ} → linked edges a b ≡ true → Reach edges a b
  join : {a b c : ℕ} → Reach edges a b → Reach edges b c → Reach edges a c

-- An order of the nodes 0 to n - 1 in which each edge goes forward.
pub record IsOrder (n : ℕ) (edges : List (ℕ × ℕ)) (out : List ℕ) : Type 0 where
  pub distinct : Distinct out
  pub nodes : (a : ℕ) → contains out a ≡ ltb a n
  pub forward : (a b : ℕ) → linked edges a b ≡ true → position out a < position out b

-- What petgraph::algo::toposort says: an order, or the error that the graph has a cycle.
abbrev pub IsToposort : ℕ → List (ℕ × ℕ) → Option (List ℕ) → Type 0
IsToposort n edges none = (a : ℕ) × Reach edges a a
IsToposort n edges (some out) = IsOrder n edges out

-- Both ends of every edge are nodes of the graph.
abbrev pub InRange : ℕ → List (ℕ × ℕ) → Type 0
InRange n edges = (a b : ℕ) → linked edges a b ≡ true → (ltb a n && ltb b n) ≡ true

-- The documentation at one graph: it says nothing of edges between other things than nodes.
abbrev pub Sorts : (ℕ → List (ℕ × ℕ) → Option (List ℕ)) → ℕ → List (ℕ × ℕ) → Type 0
Sorts toposort n edges = InRange n edges → IsToposort n edges (toposort n edges)

pub data Sorted : Type 0 where
  sorted : List ℕ → Sorted
  not_found : ℕ → ℕ → Sorted
  cyclic : Sorted
  panicked : Sorted

-- `graph.add_node` gives the next index; a later instance of the same name replaces the entry.
unfoldable pub index_map : ℕ → List ℕ → Map ℕ → Map ℕ
index_map n [] m = m
index_map n (id ∷ ids) m = index_map (suc n) ids (Map.insert id n m)

-- `none` is the panic of `index_map.get(..).unwrap()`.
unfoldable pub reverse_map : Map ℕ → List ℕ → Map ℕ → Option (Map ℕ)
reverse_map index [] m = some m
reverse_map index (id ∷ ids) m = elim (get id index) [
  | none ↦ none
  | some i ↦ reverse_map index ids (Map.insert i id m)
]

pub data Edges : Type 0 where
  found : List (ℕ × ℕ) → Edges
  missing : ℕ → ℕ → Edges

abbrev pub add_edge : ℕ → ℕ → Edges → Edges
add_edge a b (found es) = found ((a, b) ∷ es)
add_edge a b (missing caller callee) = missing caller callee

-- The ends of a bridge are looked up; the first bridge with an unknown end is the error.
abbrev pub edge_of : Bridge → Option ℕ → Option ℕ → Edges → Edges
edge_of b none end rest = missing b.caller_id b.callee_id
edge_of b (some start) none rest = missing b.caller_id b.callee_id
edge_of b (some start) (some end) rest = add_edge start end rest

unfoldable pub edges_from : Map ℕ → List Bridge → Edges
edges_from index [] = found []
edges_from index (b ∷ bs) =
    edge_of b (get b.caller_id index) (get b.callee_id index) (edges_from index bs)

-- `none` is the panic of `reverse_map.get(node_index).unwrap()`.
unfoldable pub names : Map ℕ → List ℕ → Option (List ℕ)
names reverse [] = some []
names reverse (i ∷ is) = elim (get i reverse) [
  | none ↦ none
  | some id ↦ elim (names reverse is) [ none ↦ none | some ids ↦ some (id ∷ ids) ]
]

abbrev pub named : Option (List ℕ) → Sorted
named none = panicked
named (some ids) = sorted ids

module _ (toposort : ℕ → List (ℕ × ℕ) → Option (List ℕ)) where
  -- The part after the two maps: the edges, the sort, the reversal, the names.
  unfoldable pub sort_nodes : List Bridge → ℕ → Map ℕ → Map ℕ → Sorted
  unfolding edges_from names
  sort_nodes bridges n index reverse_index = elim (edges_from index bridges) [
    | missing caller callee ↦ not_found caller callee
    | found es ↦ elim (toposort n es) [
      | none ↦ cyclic
      | some nodes ↦ named (names reverse_index (reverse nodes))
    ]
  ]

  unfoldable pub instance_ids_sorted_by_bridge_dependencies : Configuration → Sorted
  unfolding instance_ids index_map reverse_map sort_nodes
  instance_ids_sorted_by_bridge_dependencies c =
      let ids = instance_ids c in
      let index = index_map 0 ids [] in
      elim (reverse_map index ids []) [
        | none ↦ panicked
        | some reverse_index ↦ sort_nodes c.bridges (length ids) index reverse_index
      ]
