-- ===== src/Conductor/Without.antt =====
-- The lists of a configuration without an instance, for `save_remove_instance` of
-- crates/conductor_lib/src/config.rs: what they keep of the lists with it.
use rust_holochain.Base.{
  ℕ, ◌≡◌, ◌≢◌, refl, ap, Bool, true, false, Option, none, some, List, [], ◌∷◌, ◌&&◌, not, map, ◌==◌,
  ==_iff, arith, Bool-cases, inl, inr, All, filter,
}
use rust_holochain.Base.Set.{contains}
use rust_holochain.Base.Distinct.{Distinct}
use rust_holochain.Conductor.Config.{
  Configuration, InstanceConfiguration, InterfaceConfiguration, InstanceReferenceConfiguration,
  StorageConfiguration, DpkiConfiguration, Bridge, memory, file, pickle, lmdb, find,
  without_reference,
}
use rust_holochain.Conductor.Checks.{storage_paths, add_storage_path}

abbrev pub DpkiDiffers : ℕ → Option DpkiConfiguration → Type 0
DpkiDiffers id none = Unit
DpkiDiffers id (some dpki) = dpki.instance_id ≢ id

-- No bridge and no dpki speaks of the instance.
abbrev pub IsUnused : ℕ → Configuration → Type 0
IsUnused id c =
    All (λ (b : Bridge). (b.caller_id ≢ id) × (b.callee_id ≢ id)) c.bridges × DpkiDiffers id c.dpki

abbrev pub other_than : ℕ → InstanceConfiguration → Bool
other_than id i = not (i.id == id)

pub ids_without :
    (id : ℕ) (xs : List InstanceConfiguration) (k : ℕ)
    → contains (map (λ (i : InstanceConfiguration). i.id) (filter (other_than id) xs)) k
      ≡ (contains (map (λ (i : InstanceConfiguration). i.id) xs) k && not (k == id))
ids_without id [] k = refl
ids_without id (x ∷ xs) k = elim (Bool-cases (x.id == id)) [
  | inl e ↦ rw e (ground (arith, ids_without id xs k, ==_iff x.id k, ==_iff x.id id, ==_iff k id))
  | inr e ↦ rw e (ground (arith, ids_without id xs k, ==_iff x.id k, ==_iff x.id id, ==_iff k id))
]

pub Distinct-without :
    (id : ℕ) (xs : List InstanceConfiguration)
    → Distinct (map (λ (i : InstanceConfiguration). i.id) xs)
    → Distinct (map (λ (i : InstanceConfiguration). i.id) (filter (other_than id) xs))
Distinct-without id [] d = tt
Distinct-without id (x ∷ xs) d = elim (Bool-cases (x.id == id)) [
  | inl e ↦ rw e (Distinct-without id xs d.1)
  | inr e ↦ rw e (ground (arith, ids_without id xs x.id, d.0), Distinct-without id xs d.1)
]

paths_without :
    (id : ℕ) (xs : List InstanceConfiguration) (k : ℕ)
    → contains (storage_paths xs) k ≡ false
    → contains (storage_paths (filter (other_than id) xs)) k ≡ false
unfolding storage_paths
paths_without id [] k h = refl
paths_without id (x ∷ xs) k h = elim (Bool-cases (x.id == id)) [
  | inl e ↦ rw e (paths_without id xs k (dropped x.storage (storage_paths xs) k h))
  | inr e ↦ rw e (kept x.storage (storage_paths xs) _ k h (paths_without id xs k))
]
  where
    dropped :
        (s : StorageConfiguration) (l : List ℕ) (k : ℕ)
        → contains (add_storage_path s l) k ≡ false
        → contains l k ≡ false
    dropped memory l k h = h
    dropped (file p) l k h = ground arith
    dropped (pickle p) l k h = ground arith
    dropped (lmdb p m) l k h = ground arith

    kept :
        (s : StorageConfiguration) (l l' : List ℕ) (k : ℕ)
        → contains (add_storage_path s l) k ≡ false
        → (contains l k ≡ false → contains l' k ≡ false)
        → contains (add_storage_path s l') k ≡ false
    kept memory l l' k h f = f h
    kept (file p) l l' k h f = ground (arith, f)
    kept (pickle p) l l' k h f = ground (arith, f)
    kept (lmdb p m) l l' k h f = ground (arith, f)

pub storages_without :
    (id : ℕ) (xs : List InstanceConfiguration)
    → Distinct (storage_paths xs)
    → Distinct (storage_paths (filter (other_than id) xs))
unfolding storage_paths
storages_without id [] d = tt
storages_without id (x ∷ xs) d = elim (Bool-cases (x.id == id)) [
  | inl e ↦ rw e (storages_without id xs (dropped x.storage (storage_paths xs) d))
  | inr e ↦
      rw e (kept x.storage (storage_paths xs) _ d (storages_without id xs) (paths_without id xs))
]
  where
    dropped : (s : StorageConfiguration) (l : List ℕ) → Distinct (add_storage_path s l) → Distinct l
    dropped memory l d = d
    dropped (file p) l d = d.1
    dropped (pickle p) l d = d.1
    dropped (lmdb p m) l d = d.1

    kept :
        (s : StorageConfiguration) (l l' : List ℕ)
        → Distinct (add_storage_path s l)
        → (Distinct l → Distinct l')
        → ((k : ℕ) → contains l k ≡ false → contains l' k ≡ false)
        → Distinct (add_storage_path s l')
    kept memory l l' d f g = f d
    kept (file p) l l' d f g = (g p d.0, f d.1)
    kept (pickle p) l l' d f g = (g p d.0, f d.1)
    kept (lmdb p m) l l' d f g = (g p d.0, f d.1)

pub All-filter :
    {A : Type 0} (P : A → Type 0) (p : A → Bool) (xs : List A) → All P xs → All P (filter p xs)
All-filter P p [] h = tt
All-filter P p (x ∷ xs) h = elim (Bool-cases (p x)) [
  | inl e ↦ rw e (h.0, All-filter P p xs h.1)
  | inr e ↦ rw e (All-filter P p xs h.1)
]

pub find_without :
    (id : ℕ) (xs : List InstanceConfiguration) (k : ℕ)
    → k ≢ id
    → find (λ (i : InstanceConfiguration). i.id == k) (filter (other_than id) xs)
      ≡ find (λ (i : InstanceConfiguration). i.id == k) xs
find_without id [] k h = refl
find_without id (x ∷ xs) k h = elim (Bool-cases (x.id == id)) [
  | inl e ↦
      let miss : (x.id == k) ≡ false = ground (arith, ==_iff x.id k, ==_iff x.id id, h) in
      rw (e, miss) (find_without id xs k h)
  | inr e ↦ elim (Bool-cases (x.id == k)) [
    | inl e' ↦ rw (e, e') refl
    | inr e' ↦ rw (e, e') (find_without id xs k h)
  ]
]

-- The interfaces without their references to the instance.
pub interface_ids_without :
    (id : ℕ) (xs : List InterfaceConfiguration)
    → map (λ (i : InterfaceConfiguration). i.id) (map (without_reference id) xs)
      ≡ map (λ (i : InterfaceConfiguration). i.id) xs
unfolding without_reference
interface_ids_without id [] = refl
interface_ids_without id (x ∷ xs) = ap (◌∷◌ x.id) (interface_ids_without id xs)

pub references_without :
    (id : ℕ) (ids ids' : List ℕ)
    → ((k : ℕ) → contains ids' k ≡ (contains ids k && not (k == id)))
    → (rs : List InstanceReferenceConfiguration)
    → All (λ (r : InstanceReferenceConfiguration). contains ids r.id ≡ true) rs
    → All
        (λ (r : InstanceReferenceConfiguration). contains ids' r.id ≡ true)
        (filter (λ (r : InstanceReferenceConfiguration). not (r.id == id)) rs)
references_without id ids ids' same [] h = tt
references_without id ids ids' same (r ∷ rs) h = elim (Bool-cases (r.id == id)) [
  | inl e ↦ rw e (references_without id ids ids' same rs h.1)
  | inr e ↦ rw e (ground (arith, same r.id, h.0), references_without id ids ids' same rs h.1)
]
