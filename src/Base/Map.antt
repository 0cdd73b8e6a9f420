-- ===== src/Base/Map.antt =====
-- A finite map from identifiers: `im::HashMap` and `std::collections::HashMap`, as an association
-- list. The order of iteration is not specified by the crates; `Unique` says that a key stands
-- at most once, which every operation keeps.
use Prim.Native.Nat.{ℕ}
use mathlib.Core.Path.{◌≡◌, refl, ap}
use mathlib.Core.Logic.{◌≢◌, ◌⊎◌, inl, inr}
use mathlib.Core.Bool.{Bool, false}
use mathlib.Core.Option.{Option, none, some}
use mathlib.Core.List.{List, [], ◌∷◌}
use native.Mathlib.Omega.{arith}
use rust_holochain.Base.Tests.{◌==◌, ==_iff, Option-cases, Bool-cases, if◌then◌else◌, is_some}
use rust_holochain.Base.Set.{Set, contains}

abbrev pub Map {ℓ} : Type ℓ → Type ℓ
Map V = List (ℕ × V)

module _ {ℓ} {V : Type ℓ} where
  abbrev pub get : ℕ → Map V → Option V
  get k [] = none
  get k ((j, v) ∷ m) = if j == k then some v else get k m

  unfoldable pub insert : ℕ → V → Map V → Map V
  insert k v [] = (k, v) ∷ []
  insert k v ((j, w) ∷ m) = if j == k then (k, v) ∷ m else (j, w) ∷ insert k v m

  unfoldable pub remove : ℕ → Map V → Map V
  remove k [] = []
  remove k ((j, w) ∷ m) = if j == k then remove k m else (j, w) ∷ remove k m

  unfoldable pub keys : Map V → Set
  keys [] = []
  keys ((k, v) ∷ m) = k ∷ keys m

  -- `for v in map.iter_mut()`
  unfoldable pub map_values : (ℕ → V → V) → Map V → Map V
  map_values f [] = []
  map_values f ((k, v) ∷ m) = (k, f k v) ∷ map_values f m

  -- The keys whose value passes a test: a loop over the map that collects into a set.
  unfoldable pub keys_where : (ℕ → V → Bool) → Map V → Set
  keys_where p [] = []
  keys_where p ((k, v) ∷ m) = if p k v then k ∷ keys_where p m else keys_where p m

  -- The map without the entries that pass a test.
  unfoldable pub remove_where : (ℕ → V → Bool) → Map V → Map V
  remove_where p [] = []
  remove_where p ((k, v) ∷ m) = if p k v then remove_where p m else (k, v) ∷ remove_where p m

  abbrev pub Unique : Map V → Type ℓ
  Unique [] = Unit
  Unique ((k, v) ∷ m) = (get k m ≡ none) × Unique m

  abbrev pub holds : (V → Bool) → Option V → Bool
  holds p none = false
  holds p (some v) = p v

module _ {ℓ} {V : Type ℓ} where
  pub get-insert :
      (k : ℕ) (v : V) (m : Map V) (j : ℕ)
      → get j (insert k v m) ≡ (if k == j then some v else get j m)
  unfolding insert
  get-insert k v [] j = refl
  get-insert k v ((i, w) ∷ m) j = ground (arith, get-insert k v m j)

  pub get-insert_self : (k : ℕ) (v : V) (m : Map V) → get k (insert k v m) ≡ some v
  get-insert_self k v m = ground (arith, get-insert k v m k)

  pub get-remove :
      (k : ℕ) (m : Map V) (j : ℕ) → get j (remove k m) ≡ (if k == j then none else get j m)
  unfolding remove
  get-remove k [] j = ground arith
  get-remove k ((i, w) ∷ m) j = ground (arith, get-remove k m j)

  pub get-map_values :
      (f : ℕ → V → V) (m : Map V) (j : ℕ)
      → get j (map_values f m) ≡ elim (get j m) [ none ↦ none | some v ↦ some (f j v) ]
  unfolding map_values
  get-map_values f [] j = refl
  get-map_values f ((i, w) ∷ m) j = ground (arith, get-map_values f m j)

  pub contains-keys : (m : Map V) (j : ℕ) → contains (keys m) j ≡ is_some (get j m)
  unfolding keys
  contains-keys [] j = refl
  contains-keys ((i, w) ∷ m) j = ground (arith, contains-keys m j)

  contains-keys_where-none :
      (p : ℕ → V → Bool) (m : Map V) (j : ℕ) → get j m ≡ none → contains (keys_where p m) j ≡ false
  unfolding keys_where
  contains-keys_where-none p [] j h = refl
  contains-keys_where-none p ((i, w) ∷ m) j h = ground (arith, contains-keys_where-none p m j)

  pub contains-keys_where :
      (p : ℕ → V → Bool) (m : Map V) (j : ℕ)
      → Unique m
      → contains (keys_where p m) j ≡ holds (p j) (get j m)
  unfolding keys_where
  contains-keys_where p [] j u = refl
  contains-keys_where p ((i, w) ∷ m) j u =
      ground (arith, contains-keys_where p m j u.1, contains-keys_where-none p m i u.0)

  get-remove_where-none :
      (p : ℕ → V → Bool) (m : Map V) (j : ℕ) → get j m ≡ none → get j (remove_where p m) ≡ none
  unfolding remove_where
  get-remove_where-none p [] j h = refl
  get-remove_where-none p ((i, w) ∷ m) j h = ground (arith, get-remove_where-none p m j)

  -- An entry stays exactly when it does not pass the test.
  pub get-remove_where :
      (p : ℕ → V → Bool) (m : Map V) (j : ℕ)
      → Unique m
      → get j (remove_where p m)
        ≡ elim (get j m) [ none ↦ none | some v ↦ if p j v then none else some v ]
  unfolding remove_where
  get-remove_where p [] j u = refl
  get-remove_where p ((i, w) ∷ m) j u =
      ground (arith, get-remove_where p m j u.1, get-remove_where-none p m i u.0)

  pub Unique-insert : (k : ℕ) (v : V) (m : Map V) → Unique m → Unique (insert k v m)
  unfolding insert
  Unique-insert k v [] u = (refl, tt)
  Unique-insert k v ((i, w) ∷ m) u = ground (arith, Unique-insert k v m u.1, get-insert k v m i)

  pub Unique-remove : (k : ℕ) (m : Map V) → Unique m → Unique (remove k m)
  unfolding remove
  Unique-remove k [] u = tt
  Unique-remove k ((i, w) ∷ m) u = ground (arith, Unique-remove k m u.1, get-remove k m i)

  pub Unique-map_values : (f : ℕ → V → V) (m : Map V) → Unique m → Unique (map_values f m)
  unfolding map_values
  Unique-map_values f [] u = tt
  Unique-map_values f ((i, w) ∷ m) u =
      ground (arith, Unique-map_values f m u.1, get-map_values f m i)

  pub Unique-remove_where : (p : ℕ → V → Bool) (m : Map V) → Unique m → Unique (remove_where p m)
  unfolding remove_where
  Unique-remove_where p [] u = tt
  Unique-remove_where p ((i, w) ∷ m) u =
      ground (arith, Unique-remove_where p m u.1, get-remove_where-none p m i u.0)

-- What a successful lookup says of the map before the operation.
module _ {ℓ} {V : Type ℓ} where
  pub insert-eq-some :
      (k : ℕ) (v : V) (m : Map V) (j : ℕ) {w : V}
      → get j (insert k v m) ≡ some w
      → ((k ≡ j) × (v ≡ w)) ⊎ ((k ≢ j) × (get j m ≡ some w))
  insert-eq-some k v m j h = elim (Bool-cases (k == j)) [
    | inl e ↦ inl ((==_iff k j).0 e, ground (arith, get-insert k v m j))
    | inr e ↦ inr (λ p. absurd (ground arith), ground (arith, get-insert k v m j))
  ]

  pub remove-eq-some :
      (k : ℕ) (m : Map V) (j : ℕ) {w : V}
      → get j (remove k m) ≡ some w
      → (k ≢ j) × (get j m ≡ some w)
  remove-eq-some k m j h = ground (arith, get-remove k m j)

  pub map_values-eq-some :
      (f : ℕ → V → V) (m : Map V) (j : ℕ) {w : V}
      → get j (map_values f m) ≡ some w
      → (v : V) × (get j m ≡ some v) × (w ≡ f j v)
  map_values-eq-some f m j h = elim (Option-cases (get j m)) [
    | inl e ↦ absurd (ground (arith, get-map_values f m j))
    | inr (v, e) ↦ (v, e, ground (arith, get-map_values f m j))
  ]

  pub holds-map_values :
      (p : V → Bool) (f : ℕ → V → V) (m : Map V) (j : ℕ)
      → holds p (get j (map_values f m)) ≡ holds (λ v. p (f j v)) (get j m)
  unfolding map_values
  holds-map_values p f [] j = refl
  holds-map_values p f ((i, w) ∷ m) j = elim (Bool-cases (i == j)) [
    | inl e ↦ rw e (ap (λ n. p (f n w)) ((==_iff i j).0 e))
    | inr e ↦ rw e (holds-map_values p f m j)
  ]

  pub remove_where-eq-some :
      (p : ℕ → V → Bool) (m : Map V) (j : ℕ) {w : V}
      → Unique m
      → get j (remove_where p m) ≡ some w
      → (get j m ≡ some w) × (p j w ≡ false)
  remove_where-eq-some p m j u h = elim (Option-cases (get j m)) [
    | inl e ↦ absurd (ground (arith, get-remove_where p m j u))
    | inr (v, e) ↦
        (ground (arith, get-remove_where p m j u), ground (arith, get-remove_where p m j u))
  ]
