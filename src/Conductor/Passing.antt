-- ===== src/Conductor/Passing.antt =====
-- When a check of crates/conductor_lib/src/config.rs passes: rules for the ways in which the checks are
-- put together, and the lookups and duplicate tests that they use.
use rust_holochain.Base.{
  ℕ, ◌≡◌, refl, Bool, true, false, Option, none, some, List, [], ◌∷◌, ◌⊎◌, ◌↔◌, inl, inr, map, ◌==◌,
  arith, Bool-cases, any, all, is_some, All,
}
use rust_holochain.Base.Set.{Set, contains}
use rust_holochain.Base.Distinct.{Distinct}
use rust_holochain.Conductor.Config.{find}
use rust_holochain.Conductor.Checks.{
  Checked, passed, failed, ConfigError, Kind, ensure, for_each, ok_or, ◌>>◌, dupes, no_dupes,
  detect_dupes, all_new,
}

-- A predicate of some element.
abbrev pub Any {ℓ} : {A : Type ℓ} → (A → Type 0) → List A → Type 0
Any P [] = ⊥
Any P (x ∷ xs) = P x ⊎ Any P xs

-- The value is there and has the property.
abbrev pub Found {ℓ} : {A : Type ℓ} → Option A → (A → Type 0) → Type 0
Found none P = ⊥
Found (some x) P = P x

pub >>_iff : (a b : Checked) → ((a >> b) ≡ passed) ↔ ((a ≡ passed) × (b ≡ passed))
>>_iff passed b = (λ h. (refl, h), λ h. h.1)
>>_iff (failed e) b = (λ h. cc, λ h. cc h.0)

pub ensure_iff : (b : Bool) (e : ConfigError) → (ensure b e ≡ passed) ↔ (b ≡ true)
ensure_iff true e = (λ h. refl, λ h. refl)
ensure_iff false e = (λ h. cc, λ h. cc)

module _ {A : Type 0} where
  pub for_each_iff :
      (check : A → Checked) (P : A → Type 0)
      → ((x : A) → (check x ≡ passed) ↔ P x)
      → (xs : List A) → (for_each check xs ≡ passed) ↔ All P xs
  for_each_iff check P each [] = (λ h. tt, λ h. refl)
  for_each_iff check P each (x ∷ xs) =
      let split = >>_iff (check x) (for_each check xs) in
      let rest = for_each_iff check P each xs in
      (
        λ h. ((each x).0 (split.0 h).0, rest.0 (split.0 h).1),
        λ h. split.1 ((each x).1 h.0, rest.1 h.1),
      )

  pub ok_or_iff :
      (e : ConfigError) (k : A → Checked) (P : A → Type 0)
      → ((x : A) → (k x ≡ passed) ↔ P x)
      → (o : Option A) → (ok_or o e k ≡ passed) ↔ Found o P
  ok_or_iff e k P each none = (λ h. cc, λ h. absurd h)
  ok_or_iff e k P each (some x) = each x

  pub any_iff :
      (p : A → Bool) (P : A → Type 0)
      → ((x : A) → (p x ≡ true) ↔ P x)
      → (xs : List A) → (any p xs ≡ true) ↔ Any P xs
  any_iff p P each [] = (λ h. cc, λ h. absurd h)
  any_iff p P each (x ∷ xs) =
      let rest = any_iff p P each xs in
      (
        λ h. elim (Bool-cases (p x)) [
          | inl e ↦ inl ((each x).0 e)
          | inr e ↦ inr (rest.0 (ground arith))
        ],
        λ h. elim h [
          | inl y ↦ let e = (each x).1 y in ground arith
          | inr y ↦ let e = rest.1 y in ground arith
        ],
      )

  pub all_iff :
      (p : A → Bool) (P : A → Type 0)
      → ((x : A) → (p x ≡ true) ↔ P x)
      → (xs : List A) → (all p xs ≡ true) ↔ All P xs
  all_iff p P each [] = (λ h. tt, λ h. refl)
  all_iff p P each (x ∷ xs) =
      let rest = all_iff p P each xs in
      (
        λ h. ((each x).0 (ground arith), rest.0 (ground arith)),
        λ h. let e = (each x).1 h.0 in let e' = rest.1 h.1 in ground arith,
      )

  -- A lookup by identifier finds something exactly when the identifier stands in the list.
  pub is_some-find :
      (key : A → ℕ) (xs : List A) (k : ℕ)
      → is_some (find (λ x. key x == k) xs) ≡ contains (map key xs) k
  is_some-find key [] k = refl
  is_some-find key (x ∷ xs) k = ground (arith, is_some-find key xs k)

  pub Found-is_some : (P : A → Type 0) (o : Option A) → Found o P → is_some o ≡ true
  Found-is_some P none h = absurd h
  Found-is_some P (some x) h = refl

-- No item stands twice, and none is in the set already.
abbrev Fresh : Set → List ℕ → Type 0
Fresh seen [] = Unit
Fresh seen (x ∷ xs) = (contains seen x ≡ false) × Fresh (x ∷ seen) xs

Fresh-iff :
    (seen xs : List ℕ) → Fresh seen xs ↔ (Distinct xs × All (λ x. contains seen x ≡ false) xs)
Fresh-iff seen [] = (λ h. (tt, tt), λ h. tt)
Fresh-iff seen (x ∷ xs) =
    let rest = Fresh-iff (x ∷ seen) xs in
    (
      λ h.
          let (d, all_new) = rest.0 h.1 in
          ((absent seen x xs all_new, d), (h.0, weaker seen x xs all_new)),
      λ h. (h.1.0, rest.1 (h.0.1, stronger seen x xs h.0.0 h.1.1)),
    )
  where
    absent :
        (seen : Set) (x : ℕ) (xs : List ℕ)
        → All (λ y. contains (x ∷ seen) y ≡ false) xs
        → contains xs x ≡ false
    absent seen x [] h = refl
    absent seen x (y ∷ ys) h = ground (arith, absent seen x ys h.1, h.0)

    weaker :
        (seen : Set) (x : ℕ) (xs : List ℕ)
        → All (λ y. contains (x ∷ seen) y ≡ false) xs
        → All (λ y. contains seen y ≡ false) xs
    weaker seen x [] h = tt
    weaker seen x (y ∷ ys) h = (ground (arith, h.0), weaker seen x ys h.1)

    stronger :
        (seen : Set) (x : ℕ) (xs : List ℕ)
        → contains xs x ≡ false
        → All (λ y. contains seen y ≡ false) xs
        → All (λ y. contains (x ∷ seen) y ≡ false) xs
    stronger seen x [] a h = tt
    stronger seen x (y ∷ ys) a h = (ground (arith, h.0), stronger seen x ys (ground arith) h.1)

Fresh-empty_iff : (xs : List ℕ) → Fresh [] xs ↔ Distinct xs
Fresh-empty_iff xs = (λ h. ((Fresh-iff [] xs).0 h).0, λ d. (Fresh-iff [] xs).1 (d, nothing xs))
  where
    nothing : (xs : List ℕ) → All (λ x. contains [] x ≡ false) xs
    nothing [] = tt
    nothing (x ∷ xs) = (refl, nothing xs)

dupes_iff : (seen xs : List ℕ) → (dupes seen xs ≡ []) ↔ Fresh seen xs
unfolding dupes
dupes_iff seen [] = (λ h. tt, λ h. refl)
dupes_iff seen (x ∷ xs) =
    let rest = dupes_iff (x ∷ seen) xs in
    elim (Bool-cases (contains seen x)) [
      | inl e ↦ rw e (λ h. cc, λ h. cc (h.0))
      | inr e ↦ rw e (λ h. (refl, rest.0 h), λ h. rest.1 h.1)
    ]

pub detect_dupes_iff : (kind : Kind) (xs : List ℕ) → (detect_dupes kind xs ≡ passed) ↔ Distinct xs
unfolding detect_dupes
detect_dupes_iff kind xs = (
  λ h. (Fresh-empty_iff xs).0 ((dupes_iff [] xs).0 (none_found (dupes [] xs) h)),
  λ d. rw ((dupes_iff [] xs).1 ((Fresh-empty_iff xs).1 d)) refl,
)
  where
    none_found : (l : List ℕ) → no_dupes kind l ≡ passed → l ≡ []
    none_found [] h = refl
    none_found (x ∷ l) h = cc

all_new_iff : (seen xs : List ℕ) → (all_new seen xs ≡ true) ↔ Fresh seen xs
unfolding all_new
all_new_iff seen [] = (λ h. tt, λ h. refl)
all_new_iff seen (x ∷ xs) =
    let rest = all_new_iff (x ∷ seen) xs in
    elim (Bool-cases (contains seen x)) [
      | inl e ↦ rw e (λ h. cc, λ h. cc (h.0))
      | inr e ↦ rw e (λ h. (refl, rest.0 h), λ h. rest.1 h.1)
    ]

-- The short-circuiting test of the storage paths passes exactly when no path stands twice.
pub all_new_empty_iff : (xs : List ℕ) → (all_new [] xs ≡ true) ↔ Distinct xs
all_new_empty_iff xs = (
  λ h. (Fresh-empty_iff xs).0 ((all_new_iff [] xs).0 h),
  λ d. (all_new_iff [] xs).1 ((Fresh-empty_iff xs).1 d),
)
