-- ===== src/Conductor/Updates.antt =====
-- The two updates that instantiating makes, of crates/conductor_lib/src/config.rs: an agent's public
-- address and a DNA's hash are read by no check.
use rust_holochain.Base.{
  ℕ, ◌≡◌, refl, ap, Option, none, some, List, [], ◌∷◌, map, ◌==◌, if◌then◌else◌, Bool-cases, inl,
  inr, All, ◌∙◌,
}
use rust_holochain.Base.Set.{contains}
use rust_holochain.Conductor.Dna.{Dna}
use rust_holochain.Conductor.Config.{
  Configuration, AgentConfiguration, DnaConfiguration, find, dna_by_id, instance_by_id,
  instance_ids,
}
use rust_holochain.Conductor.Sorting.{instance_ids_sorted_by_bridge_dependencies}
use rust_holochain.Conductor.Consistency.{check_consistency}
use rust_holochain.Conductor.Passing.{Found, >>_iff}
use rust_holochain.Conductor.Validity.{IsRunnable, IsMet, Runs}
use rust_holochain.Conductor.Equivalence.{unsorted, unsorted_iff}
use rust_holochain.Conductor.State.{Host}
use rust_holochain.Conductor.Instances.{update_agent_address_by_id, update_dna_hash_by_id, set_hash}
use rust_holochain.Conductor.Soundness.{Passes}

-- A list of predicates that follow one another.
pub All-imp :
    {A : Type 0} (P Q : A → Type 0) (xs : List A) → ((x : A) → P x → Q x) → All P xs → All Q xs
All-imp P Q [] f h = tt
All-imp P Q (x ∷ xs) f h = (f x h.0, All-imp P Q xs f h.1)

pub Found-imp :
    {A : Type 0} (P Q : A → Type 0) (o : Option A) → ((x : A) → P x → Q x) → Found o P → Found o Q
Found-imp P Q none f h = h
Found-imp P Q (some x) f h = f x h

ids_of_updated :
    (id address : ℕ) (xs : List AgentConfiguration)
    → map
        (λ (a : AgentConfiguration). a.id)
        (map
          (λ (a : AgentConfiguration).
            if a.id == id then record a { public_address = address } else a)
          xs)
      ≡ map (λ (a : AgentConfiguration). a.id) xs
ids_of_updated id address [] = refl
ids_of_updated id address (a ∷ xs) = elim (Bool-cases (a.id == id)) [
  | inl e ↦ rw e (ap (◌∷◌ a.id) (ids_of_updated id address xs))
  | inr e ↦ rw e (ap (◌∷◌ a.id) (ids_of_updated id address xs))
]

ids_of_hashed :
    (id hash : ℕ) (xs : List DnaConfiguration)
    → map (λ (d : DnaConfiguration). d.id) (set_hash id hash xs)
      ≡ map (λ (d : DnaConfiguration). d.id) xs
unfolding set_hash
ids_of_hashed id hash [] = refl
ids_of_hashed id hash (d ∷ xs) = elim (Bool-cases (d.id == id)) [
  | inl e ↦ rw e refl
  | inr e ↦ rw e (ap (◌∷◌ d.id) (ids_of_hashed id hash xs))
]

-- A lookup after the update finds a DNA of the same file.
Found-hashed :
    (id hash k : ℕ) (xs : List DnaConfiguration) (R : ℕ → Type 0)
    → Found (find (λ (d : DnaConfiguration). d.id == k) xs) (λ d. R d.file)
    → Found (find (λ (d : DnaConfiguration). d.id == k) (set_hash id hash xs)) (λ d. R d.file)
unfolding set_hash
Found-hashed id hash k [] R h = h
Found-hashed id hash k (d ∷ xs) R h = elim (Bool-cases (d.id == id)) [
  | inl e ↦ elim (Bool-cases (d.id == k)) [
    | inl e' ↦ let h' = rw e' at h in rw (e, e') h'
    | inr e' ↦ let h' = rw e' at h in rw (e, e') h'
  ]
  | inr e ↦ elim (Bool-cases (d.id == k)) [
    | inl e' ↦ let h' = rw e' at h in rw (e, e') h'
    | inr e' ↦ let h' = rw e' at h in rw (e, e') (Found-hashed id hash k xs R h')
  ]
]

pub update_agent_address_by_id-Passes :
    (host : Host) (id address : ℕ) (c : Configuration)
    → Passes host c
    → Passes host (update_agent_address_by_id id address c)
unfolding check_consistency unsorted update_agent_address_by_id dna_by_id instance_by_id
    instance_ids instance_ids_sorted_by_bridge_dependencies
update_agent_address_by_id-Passes host id address c h =
    let c' = update_agent_address_by_id id address c in
    let (h', last) = (>>_iff _ _).0 h in
    let (((((((((a, d), i), s), f), r), n), m), u), k) =
      (unsorted_iff host.load host.address_of host.toposort c).0 h' in
    let same = ids_of_updated id address c.agents in
    let runnable : All (IsRunnable host.load c') c.instances =
      All-imp (IsRunnable host.load c) (IsRunnable host.load c') c.instances
        (λ x q. (ap (λ l. contains l x.agent) same ∙ q.0, q.1)) r in
    (>>_iff _ _).1 (
      (unsorted_iff host.load host.address_of host.toposort c').1
          (((((((((rw same a, d), i), s), f), runnable), n), m), u), k),
      last,
    )

pub update_dna_hash_by_id-Passes :
    (host : Host) (id hash : ℕ) (c : Configuration)
    → Passes host c
    → Passes host (update_dna_hash_by_id id hash c)
unfolding check_consistency unsorted update_dna_hash_by_id dna_by_id instance_by_id instance_ids
    instance_ids_sorted_by_bridge_dependencies
update_dna_hash_by_id-Passes host id hash c h =
    let c' = update_dna_hash_by_id id hash c in
    let (h', last) = (>>_iff _ _).0 h in
    let (((((((((a, d), i), s), f), r), n), m), u), k) =
      (unsorted_iff host.load host.address_of host.toposort c).0 h' in
    let runs = Runs-hashed host id hash c in
    let runnable : All (IsRunnable host.load c') c.instances =
      All-imp (IsRunnable host.load c) (IsRunnable host.load c') c.instances
        (λ x q. (q.0, Found-hashed id hash x.dna c.dnas (λ file. Found (host.load file) _) q.1))
        r in
    let met : All (IsMet host.load host.address_of c') c.bridges =
      All-imp (IsMet host.load host.address_of c) (IsMet host.load host.address_of c') c.bridges
        (λ b q. runs b.caller_id _ _ (λ caller q'. runs b.callee_id _ _ (λ callee q''. q'') q') q)
        m in
    (>>_iff _ _).1 (
      (unsorted_iff host.load host.address_of host.toposort c').1
          (((((((((a, rw (ids_of_hashed id hash c.dnas) d), i), s), f), runnable), n), met), u), k),
      last,
    )
  where
    Runs-hashed :
        (host : Host) (id hash : ℕ) (c : Configuration) (at : ℕ) (P Q : Dna → Type 0)
        → ((dna : Dna) → P dna → Q dna)
        → Runs host.load host.address_of c at P
        → Runs host.load host.address_of (update_dna_hash_by_id id hash c) at Q
    Runs-hashed host id hash c at P Q f h =
        Found-imp _ _ (instance_by_id c at)
          (λ i q.
            Found-hashed id hash i.dna c.dnas (λ file. Found (host.load file) Q)
              (Found-imp _ _ (dna_by_id c i.dna) (λ d. Found-imp P Q (host.load d.file) f) q))
          h
