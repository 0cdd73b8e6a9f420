-- ===== src/Base/Distinct.antt =====
-- Sets and lists in which each identifier stands once: how long they are, and their front and back.
use Prim.Native.Nat.{ℕ, zero, suc, ◌≤◌}
use mathlib.Core.Path.{◌≡◌, refl, ap}
use mathlib.Core.Logic.{inl, inr}
use mathlib.Core.Bool.{true, false, ◌||◌}
use mathlib.Core.List.{List, [], ◌∷◌, ◌++◌}
use native.Mathlib.Omega.{arith}
use rust_holochain.Base.Tests.{Bool-cases, ◌==◌, ==_iff}
use rust_holochain.Base.Lists.{length, take, drop}
use rust_holochain.Base.Set.{Set, contains, insert, remove, contains-remove}

abbrev pub Distinct : Set → Type 0
Distinct [] = Unit
Distinct (x ∷ xs) = (contains xs x ≡ false) × Distinct xs

pub contains-append : (s t : Set) (a : ℕ) → contains (s ++ t) a ≡ (contains s a || contains t a)
contains-append [] t a = refl
contains-append (x ∷ s) t a = ground (arith, contains-append s t a)

pub remove_absent : (s : Set) (a : ℕ) → contains s a ≡ false → remove s a ≡ s
unfolding remove
remove_absent [] a h = refl
remove_absent (x ∷ xs) a h = ground (arith, remove_absent xs a)

pub Distinct-insert : (s : Set) (a : ℕ) → Distinct s → Distinct (insert s a)
unfolding insert
Distinct-insert s a d = ground arith

pub Distinct-remove : (s : Set) (a : ℕ) → Distinct s → Distinct (remove s a)
unfolding remove
Distinct-remove [] a d = d
Distinct-remove (x ∷ xs) a d = ground (arith, Distinct-remove xs a d.1, contains-remove xs a x)

pub Distinct-append_one :
    (s : Set) (a : ℕ) → Distinct s → contains s a ≡ false → Distinct (s ++ (a ∷ []))
Distinct-append_one [] a d h = (refl, tt)
Distinct-append_one (x ∷ xs) a d h = (
  ground (arith, contains-append xs (a ∷ []) x, d.0),
  Distinct-append_one xs a d.1 (ground arith),
)

pub length-insert_new :
    (s : Set) (a : ℕ) → contains s a ≡ false → length (insert s a) ≡ suc (length s)
unfolding insert
length-insert_new s a h = ground arith

pub length-remove :
    (s : Set) (a : ℕ) → Distinct s → contains s a ≡ true → suc (length (remove s a)) ≡ length s
unfolding remove
length-remove [] a d h = absurd (ground arith)
length-remove (x ∷ xs) a d h =
    ground (arith, length-remove xs a d.1, remove_absent xs a, ==_iff x a)

pub take_all : {A : Type 0} (n : ℕ) (xs : List A) → length xs ≤ n → take n xs ≡ xs
take_all zero [] h = refl
take_all zero (x ∷ xs) h = absurd (omega (arith, h))
take_all (suc n) [] h = refl
take_all (suc n) (x ∷ xs) h = ap (◌∷◌ x) (take_all n xs (omega (arith, h)))

pub drop_all : {A : Type 0} (n : ℕ) (xs : List A) → length xs ≤ n → drop n xs ≡ []
drop_all zero [] h = refl
drop_all zero (x ∷ xs) h = absurd (omega (arith, h))
drop_all (suc n) [] h = refl
drop_all (suc n) (x ∷ xs) h = drop_all n xs (omega (arith, h))

pub take-append :
    {A : Type 0} (n : ℕ) (xs ys : List A) → n ≤ length xs → take n (xs ++ ys) ≡ take n xs
take-append zero xs ys h = refl
take-append (suc n) [] ys h = absurd (omega (arith, h))
take-append (suc n) (x ∷ xs) ys h = ap (◌∷◌ x) (take-append n xs ys (omega (arith, h)))

pub drop-append :
    {A : Type 0} (n : ℕ) (xs ys : List A) → n ≤ length xs → drop n (xs ++ ys) ≡ drop n xs ++ ys
drop-append zero xs ys h = refl
drop-append (suc n) [] ys h = absurd (omega (arith, h))
drop-append (suc n) (x ∷ xs) ys h = drop-append n xs ys (omega (arith, h))

-- The front of a list one longer, and the back one shorter.
take-suc : (n : ℕ) (xs : Set) → take (suc n) xs ≡ take n xs ++ take 1 (drop n xs)
take-suc zero [] = refl
take-suc zero (x ∷ xs) = refl
take-suc (suc n) [] = refl
take-suc (suc n) (x ∷ xs) = ap (◌∷◌ x) (take-suc n xs)

drop-suc : (n : ℕ) (xs : Set) → drop (suc n) xs ≡ drop 1 (drop n xs)
drop-suc zero xs = refl
drop-suc (suc n) [] = refl
drop-suc (suc n) (x ∷ xs) = drop-suc n xs

pub contains_split :
    (n : ℕ) (xs : Set) (a : ℕ) → contains xs a ≡ (contains (take n xs) a || contains (drop n xs) a)
contains_split zero xs a = refl
contains_split (suc n) [] a = refl
contains_split (suc n) (x ∷ xs) a = ground (arith, contains_split n xs a)

-- Taking an identifier out of the front lets the first of the back move up.
pub take-remove :
    (n : ℕ) (xs : Set) (a : ℕ)
    → Distinct xs
    → contains (take n xs) a ≡ true
    → take n (remove xs a) ≡ remove (take n xs) a ++ take 1 (drop n xs)
unfolding remove
take-remove zero xs a d h = absurd (ground arith)
take-remove (suc n) [] a d h = absurd (ground arith)
take-remove (suc n) (x ∷ xs) a d h = elim (Bool-cases (x == a)) [
  | inl hit ↦
      let gone : contains xs a ≡ false = ground (arith, d.0, ==_iff x a) in
      let front : contains (take n xs) a ≡ false = ground (arith, contains_split n xs a) in
      rw (hit, remove_absent xs a gone, remove_absent (take n xs) a front) (take-suc n xs)
  | inr miss ↦ rw miss (ap (◌∷◌ x) (take-remove n xs a d.1 (ground arith)))
]

pub drop-remove :
    (n : ℕ) (xs : Set) (a : ℕ)
    → Distinct xs
    → contains (take n xs) a ≡ true
    → drop n (remove xs a) ≡ drop 1 (drop n xs)
unfolding remove
drop-remove zero xs a d h = absurd (ground arith)
drop-remove (suc n) [] a d h = absurd (ground arith)
drop-remove (suc n) (x ∷ xs) a d h = elim (Bool-cases (x == a)) [
  | inl hit ↦
      let gone : contains xs a ≡ false = ground (arith, d.0, ==_iff x a) in
      rw (hit, remove_absent xs a gone) (drop-suc n xs)
  | inr miss ↦ rw miss (drop-remove n xs a d.1 (ground arith))
]

pub parts_apart :
    (n : ℕ) (xs : Set) (a : ℕ)
    → Distinct xs
    → contains (drop n xs) a ≡ true
    → contains (take n xs) a ≡ false
parts_apart zero xs a d h = refl
parts_apart (suc n) [] a d h = refl
parts_apart (suc n) (x ∷ xs) a d h =
    ground (arith, parts_apart n xs a d.1 h, contains_split n xs a, ==_iff x a)

pub Distinct-take : (n : ℕ) (xs : Set) → Distinct xs → Distinct (take n xs)
Distinct-take zero xs d = tt
Distinct-take (suc n) [] d = tt
Distinct-take (suc n) (x ∷ xs) d =
    (ground (arith, d.0, contains_split n xs x), Distinct-take n xs d.1)
