-- ===== src/Net/AspectMap.antt =====
-- `AspectMap` of crates/net/src/aspect_map.rs: the aspects that a node holds, by entry.
use rust_holochain.Base.{
  ℕ, ◌≡◌, refl, Bool, false, not, ◌||◌, ◌&&◌, Option, none, some, List, [], ◌∷◌, ◌++◌, arith, ◌==◌,
  if◌then◌else◌,
}
use rust_holochain.Base.Map
use rust_holochain.Base.Map.{Map, Unique, holds}
use rust_holochain.Base.Set
use rust_holochain.Base.Set.{Set}
use rust_holochain.CoreTypes.{ok, err, Hashing, EntryAspect}
use rust_holochain.CoreTypes.Aspect.{aspect_entry_address}

abbrev pub AspectMap : Type 0
AspectMap = Map Set

-- `unwrap_or(&HashSet::new())`, and `or_insert_with(HashSet::new)`.
abbrev pub or_empty : Option Set → Set
or_empty none = []
or_empty (some s) = s

-- Whether an aspect is filed under an entry.
abbrev pub contains_at : AspectMap → ℕ → ℕ → Bool
contains_at m entry aspect = Set.contains (or_empty (Map.get entry m)) aspect

unfoldable pub add_at : AspectMap → ℕ → ℕ → AspectMap
add_at m entry aspect = Map.insert entry (Set.insert (or_empty (Map.get entry m)) aspect) m

-- `none` is the panic of `expect`, where the aspect names no entry.
unfoldable pub contains : Hashing → AspectMap → EntryAspect → Option Bool
contains hash m aspect = elim (aspect_entry_address hash aspect) [
  | err _ ↦ none
  | ok entry ↦ some (contains_at m entry (hash.aspect_address aspect))
]

unfoldable pub add : Hashing → AspectMap → EntryAspect → Option AspectMap
unfolding add_at
add hash m aspect = elim (aspect_entry_address hash aspect) [
  | err _ ↦ none
  | ok entry ↦ some (add_at m entry (hash.aspect_address aspect))
]

-- `HashSet<(EntryHash, AspectHash)>::from(&AspectMap)`; the pairs stand in a list.
unfoldable pub pairs_of : ℕ → Set → List (ℕ × ℕ)
pairs_of entry [] = []
pairs_of entry (a ∷ aspects) = (entry, a) ∷ pairs_of entry aspects

unfoldable pub to_pairs : AspectMap → List (ℕ × ℕ)
unfolding pairs_of
to_pairs [] = []
to_pairs ((entry, aspects) ∷ m) = pairs_of entry aspects ++ to_pairs m

abbrev pub has_pair : List (ℕ × ℕ) → ℕ → ℕ → Bool
has_pair [] e a = false
has_pair ((f, b) ∷ ps) e a = ((f == e) && (b == a)) || has_pair ps e a

unfoldable pub difference : List (ℕ × ℕ) → List (ℕ × ℕ) → List (ℕ × ℕ)
difference [] qs = []
difference ((e, a) ∷ ps) qs =
    if has_pair qs e a then difference ps qs else (e, a) ∷ difference ps qs

-- `AspectMap::from(&HashSet<(EntryHash, AspectHash)>)`.
unfoldable pub from_pairs : List (ℕ × ℕ) → AspectMap
unfolding add_at
from_pairs [] = []
from_pairs ((e, a) ∷ ps) = add_at (from_pairs ps) e a

unfoldable pub diff : AspectMap → AspectMap → AspectMap
diff m other = from_pairs (difference (to_pairs m) (to_pairs other))

-- The loop of `merge` over the keys of both maps.
unfoldable pub merge_keys : List ℕ → AspectMap → AspectMap → AspectMap
merge_keys [] m n = []
merge_keys (k ∷ ks) m n =
    Map.insert k (Set.union (or_empty (Map.get k m)) (or_empty (Map.get k n))) (merge_keys ks m n)

unfoldable pub merge : AspectMap → AspectMap → AspectMap
merge m n = merge_keys (Map.keys m ++ Map.keys n) m n

pub contains_at-add_at :
    (m : AspectMap) (e a f b : ℕ)
    → contains_at (add_at m e a) f b ≡ (contains_at m f b || ((e == f) && (a == b)))
unfolding add_at
contains_at-add_at m e a f b =
    let held = or_empty (Map.get e m) in
    ground (arith, Map.get-insert e (Set.insert held a) m f, Set.contains-insert held a b)

contains_at-from_pairs :
    (ps : List (ℕ × ℕ)) (e a : ℕ) → contains_at (from_pairs ps) e a ≡ has_pair ps e a
unfolding from_pairs
contains_at-from_pairs [] e a = refl
contains_at-from_pairs ((f, b) ∷ ps) e a =
    ground (arith, contains_at-add_at (from_pairs ps) f b e a, contains_at-from_pairs ps e a)

has_pair-difference :
    (ps qs : List (ℕ × ℕ)) (e a : ℕ)
    → has_pair (difference ps qs) e a ≡ (has_pair ps e a && not (has_pair qs e a))
unfolding difference
has_pair-difference [] qs e a = refl
has_pair-difference ((f, b) ∷ ps) qs e a = ground (arith, has_pair-difference ps qs e a)

has_pair-append :
    (ps qs : List (ℕ × ℕ)) (e a : ℕ)
    → has_pair (ps ++ qs) e a ≡ (has_pair ps e a || has_pair qs e a)
has_pair-append [] qs e a = refl
has_pair-append ((f, b) ∷ ps) qs e a = ground (arith, has_pair-append ps qs e a)

has_pair-pairs_of :
    (f : ℕ) (s : Set) (e a : ℕ) → has_pair (pairs_of f s) e a ≡ ((f == e) && Set.contains s a)
unfolding pairs_of
has_pair-pairs_of f [] e a = ground arith
has_pair-pairs_of f (b ∷ s) e a = ground (arith, has_pair-pairs_of f s e a)

has_pair-to_pairs :
    (m : AspectMap) (e a : ℕ) → Unique m → has_pair (to_pairs m) e a ≡ contains_at m e a
unfolding to_pairs
has_pair-to_pairs [] e a u = refl
has_pair-to_pairs ((f, s) ∷ m) e a u = ground (
  arith,
  has_pair-append (pairs_of f s) (to_pairs m) e a,
  has_pair-pairs_of f s e a,
  has_pair-to_pairs m e a u.1,
  has_pair-to_pairs m f a u.1,
)

-- The difference of two maps whose keys are distinct has exactly the aspects of entries that are
-- in the first map and not in the second.
pub contains_at-diff :
    (m other : AspectMap) (e a : ℕ)
    → Unique m
    → Unique other
    → contains_at (diff m other) e a ≡ (contains_at m e a && not (contains_at other e a))
unfolding diff
contains_at-diff m other e a u v = ground (
  arith,
  contains_at-from_pairs (difference (to_pairs m) (to_pairs other)) e a,
  has_pair-difference (to_pairs m) (to_pairs other) e a,
  has_pair-to_pairs m e a u,
  has_pair-to_pairs other e a v,
)

contains_at-merge_keys :
    (ks : List ℕ) (m n : AspectMap) (e a : ℕ)
    → contains_at (merge_keys ks m n) e a
      ≡ (Set.contains ks e && (contains_at m e a || contains_at n e a))
unfolding merge_keys
contains_at-merge_keys [] m n e a = refl
contains_at-merge_keys (k ∷ ks) m n e a =
    let both = Set.union (or_empty (Map.get k m)) (or_empty (Map.get k n)) in
    ground (
      arith,
      Map.get-insert k both (merge_keys ks m n) e,
      Set.contains-union (or_empty (Map.get k m)) (or_empty (Map.get k n)) a,
      contains_at-merge_keys ks m n e a,
    )

contains-append :
    (s t : List ℕ) (a : ℕ) → Set.contains (s ++ t) a ≡ (Set.contains s a || Set.contains t a)
contains-append [] t a = refl
contains-append (x ∷ s) t a = ground (arith, contains-append s t a)

-- The merge of two maps has exactly the aspects of entries that are in one of them.
pub contains_at-merge :
    (m n : AspectMap) (e a : ℕ)
    → contains_at (merge m n) e a ≡ (contains_at m e a || contains_at n e a)
unfolding merge
contains_at-merge m n e a = ground (
  arith,
  contains_at-merge_keys (Map.keys m ++ Map.keys n) m n e a,
  contains-append (Map.keys m) (Map.keys n) e,
  Map.contains-keys m e,
  Map.contains-keys n e,
)
