-- ===== src/Base/Set.antt =====
-- A finite set of identifiers: `im::HashSet`. The order of the list is not specified by the
-- crate; `contains` is what a client can observe.
use Prim.Native.Nat.{ℕ}
use mathlib.Core.Path.{◌≡◌, refl}
use mathlib.Core.Bool.{Bool, true, false, ◌&&◌, ◌||◌, not}
use mathlib.Core.List.{List, [], ◌∷◌}
use native.Mathlib.Omega.{arith}
use rust_holochain.Base.Tests.{◌==◌, ==_iff, if◌then◌else◌}

abbrev pub Set : Type 0
Set = List ℕ

abbrev pub contains : Set → ℕ → Bool
contains [] a = false
contains (x ∷ xs) a = (x == a) || contains xs a

unfoldable pub insert : Set → ℕ → Set
insert s a = if contains s a then s else a ∷ s

unfoldable pub remove : Set → ℕ → Set
remove [] a = []
remove (x ∷ xs) a = if x == a then remove xs a else x ∷ remove xs a

unfoldable pub intersection : Set → Set → Set
intersection [] t = []
intersection (x ∷ xs) t = if contains t x then x ∷ intersection xs t else intersection xs t

unfoldable pub union : Set → Set → Set
unfolding insert
union [] t = t
union (x ∷ xs) t = insert (union xs t) x

unfoldable pub is_empty : Set → Bool
is_empty [] = true
is_empty (x ∷ xs) = false

pub contains-insert : (s : Set) (a b : ℕ) → contains (insert s a) b ≡ ((a == b) || contains s b)
unfolding insert
contains-insert s a b = ground (arith, ==_iff a b)

pub contains-remove : (s : Set) (a b : ℕ) → contains (remove s a) b ≡ (not (a == b) && contains s b)
unfolding remove
contains-remove [] a b = ground arith
contains-remove (x ∷ xs) a b = ground (arith, contains-remove xs a b)

pub contains-intersection :
    (s t : Set) (a : ℕ) → contains (intersection s t) a ≡ (contains s a && contains t a)
unfolding intersection
contains-intersection [] t a = refl
contains-intersection (x ∷ xs) t a = ground (arith, contains-intersection xs t a)

pub contains-union : (s t : Set) (a : ℕ) → contains (union s t) a ≡ (contains s a || contains t a)
unfolding union
contains-union [] t a = refl
contains-union (x ∷ xs) t a =
    ground (arith, contains-union xs t a, contains-insert (union xs t) x a)

pub is_empty-contains : (s : Set) (a : ℕ) → is_empty s ≡ true → contains s a ≡ false
unfolding is_empty
is_empty-contains [] a h = refl
is_empty-contains (x ∷ xs) a h = ground arith
