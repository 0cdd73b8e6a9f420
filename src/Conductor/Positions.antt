-- ===== src/Conductor/Positions.antt =====
-- The places of identifiers in a list: appended, reversed and renamed.
use Prim.Native.Nat.{zero}
use mathlib.Core.List.{reverse, reverse-append}
use rust_holochain.Base.{
  ℕ, suc, ◌+◌, ◌<◌, ◌≡◌, refl, true, List, [], ◌∷◌, ◌++◌, map, ◌==◌, ==_iff, if◌then◌else◌, length,
  length-append, arith, Bool-cases, inl, inr, ==_self, ◌∙◌,
}
use rust_holochain.Base.Set.{contains}
use rust_holochain.Base.Distinct.{Distinct, contains-append, Distinct-append_one}
use rust_holochain.Conductor.Sorting.{position}

pub reverse-cons : (x : ℕ) (xs : List ℕ) → reverse (x ∷ xs) ≡ reverse xs ++ x ∷ []
reverse-cons x xs = reverse-append (x ∷ []) xs

pub contains-reverse : (xs : List ℕ) (a : ℕ) → contains (reverse xs) a ≡ contains xs a
contains-reverse [] a = refl
contains-reverse (x ∷ xs) a =
    rw (reverse-cons x xs, contains-append (reverse xs) (x ∷ []) a, contains-reverse xs a)
      (ground arith)

pub length-reverse : (xs : List ℕ) → length (reverse xs) ≡ length xs
length-reverse [] = refl
length-reverse (x ∷ xs) =
    rw (reverse-cons x xs) (omega (arith, length-append (reverse xs) (x ∷ []), length-reverse xs))

pub Distinct-reverse : (xs : List ℕ) → Distinct xs → Distinct (reverse xs)
Distinct-reverse [] d = tt
Distinct-reverse (x ∷ xs) d =
    rw (reverse-cons x xs)
      (Distinct-append_one (reverse xs) x (Distinct-reverse xs d.1) (contains-reverse xs x ∙ d.0))

pub position-lt-length : (xs : List ℕ) (a : ℕ) → contains xs a ≡ true → position xs a < length xs
position-lt-length [] a h = absurd (ground arith)
position-lt-length (x ∷ xs) a h = ground (arith, position-lt-length xs a)

pub position-append :
    (xs ys : List ℕ) (a : ℕ)
    → position (xs ++ ys) a ≡ (if contains xs a then position xs a else length xs + position ys a)
position-append [] ys a = omega arith
position-append (x ∷ xs) ys a = ground (arith, position-append xs ys a)

-- Reversing a list turns the order of two of its elements round.
pub position-reverse :
    (xs : List ℕ) (a b : ℕ)
    → Distinct xs
    → contains xs a ≡ true
    → contains xs b ≡ true
    → position xs a < position xs b
    → position (reverse xs) b < position (reverse xs) a
position-reverse [] a b d ha hb h = absurd (ground arith)
position-reverse (x ∷ xs) a b d ha hb h = rw (reverse-cons x xs) (
    ground (
      arith,
      position-append (reverse xs) (x ∷ []) a,
      position-append (reverse xs) (x ∷ []) b,
      contains-reverse xs a,
      contains-reverse xs b,
      position-lt-length (reverse xs) b,
      position-reverse xs a b d.1,
      ==_iff x a,
      ==_iff x b,
      d.0,
    ))

-- The element at a place; out of range it is not used.
abbrev pub nth : List ℕ → ℕ → ℕ
nth [] i = 0
nth (x ∷ xs) zero = x
nth (x ∷ xs) (suc i) = nth xs i

pub nth-position : (xs : List ℕ) (a : ℕ) → contains xs a ≡ true → nth xs (position xs a) ≡ a
nth-position [] a h = absurd (ground arith)
nth-position (x ∷ xs) a h = elim (Bool-cases (x == a)) [
  | inl e ↦ rw e ((==_iff x a).0 e)
  | inr e ↦ rw e (nth-position xs a (ground arith))
]

pub contains-nth : (xs : List ℕ) (i : ℕ) → i < length xs → contains xs (nth xs i) ≡ true
contains-nth [] i h = absurd (omega arith)
contains-nth (x ∷ xs) zero h = ground arith
contains-nth (x ∷ xs) (suc i) h = ground (arith, contains-nth xs i (omega arith))

pub position-nth : (xs : List ℕ) (i : ℕ) → Distinct xs → i < length xs → position xs (nth xs i) ≡ i
position-nth [] i d h = absurd (omega arith)
position-nth (x ∷ xs) zero d h = ground arith
position-nth (x ∷ xs) (suc i) d h = ground (
  arith,
  position-nth xs i d.1 (omega arith),
  contains-nth xs i (omega arith),
  ==_iff x (nth xs i),
  d.0,
)

-- A renaming that takes no other element of the list to the image of `a`.
abbrev pub IsNew : (ℕ → ℕ) → ℕ → List ℕ → Type 0
IsNew f a xs = (x : ℕ) → contains xs x ≡ true → f x ≡ f a → x ≡ a

pub position-map :
    (f : ℕ → ℕ) (xs : List ℕ) (a : ℕ) → IsNew f a xs → position (map f xs) (f a) ≡ position xs a
position-map f [] a new = refl
position-map f (x ∷ xs) a new =
    let ih = position-map f xs a (λ y h. new y (ground arith)) in
    let same : f x ≡ f a → x ≡ a = new x (ground arith) in
    elim (Bool-cases (x == a)) [
      | inl e ↦ rw (e, (==_iff x a).0 e, ==_self (f a)) refl
      | inr e ↦ ground (arith, ==_iff (f x) (f a), ==_iff x a, same, ih)
    ]
