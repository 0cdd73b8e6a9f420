-- ===== src/Conductor/Validity.antt =====
-- What Configuration::check_consistency of crates/conductor_lib/src/config.rs is to establish, said
-- without its loops: unique identifiers and storage paths, references that resolve, bridges that the DNAs
-- at both ends agree with, and no cycle of bridges.
use rust_holochain.Base.{
  ℕ, ◌≡◌, true, Option, none, some, List, [], ◌∷◌, ◌++◌, map, ◌==◌, filter, All,
}
use rust_holochain.Base.Set.{contains}
use rust_holochain.Base.Distinct.{Distinct}
use rust_holochain.Conductor.Dna
use rust_holochain.Conductor.Dna.{
  Dna, Zome, Trait, TraitFns, FnDeclaration, BridgeReference, BridgePresence, required, optional,
  declaration_eq, is_required, address, trait,
}
use rust_holochain.Conductor.Config.{
  Configuration, AgentConfiguration, DnaConfiguration, InstanceConfiguration,
  InterfaceConfiguration, InstanceReferenceConfiguration, UiBundleConfiguration,
  UiInterfaceConfiguration, DpkiConfiguration, Bridge, dna_by_id, instance_by_id, instance_ids,
}
use rust_holochain.Conductor.Sorting.{Reach}
use rust_holochain.Conductor.Checks.{storage_paths}
use rust_holochain.Conductor.Indices.{links}
use rust_holochain.Conductor.Passing.{Any, Found}

abbrev pub agent_ids : Configuration → List ℕ
agent_ids c = map (λ (a : AgentConfiguration). a.id) c.agents

abbrev pub dna_ids : Configuration → List ℕ
dna_ids c = map (λ (d : DnaConfiguration). d.id) c.dnas

abbrev pub interface_ids : Configuration → List ℕ
interface_ids c = map (λ (i : InterfaceConfiguration). i.id) c.interfaces

abbrev pub ui_bundle_ids : Configuration → List ℕ
ui_bundle_ids c = map (λ (b : UiBundleConfiguration). b.id) c.ui_bundles

-- A required bridge of the DNA has a configured bridge of its handle.
abbrev pub HasRequired : Configuration → Dna.Bridge → Type 0
HasRequired c definition =
    definition.presence ≡ required → Any (λ (b : Bridge). b.handle ≡ definition.handle) c.bridges

abbrev pub HasRequiredBridges : Configuration → Dna → Type 0
HasRequiredBridges c dna = All (λ (z : ℕ × Zome). All (HasRequired c) z.1.bridges) dna.zomes

-- One of the callee's zomes has a trait of the name that lists every function, and declares each
-- function with the signature expected.
abbrev pub Implements : ℕ × Trait → Zome → ℕ × TraitFns → Type 0
Implements expected zome offered =
    (offered.0 ≡ expected.0)
    × All (λ (f : FnDeclaration). contains offered.1.functions f.name ≡ true) expected.1.functions
    × All (λ (f : FnDeclaration). Any (λ g. declaration_eq g f ≡ true) zome.fn_declarations)
        expected.1.functions

abbrev pub HasTrait : Dna → ℕ × Trait → Type 0
HasTrait dna expected = Any (λ (z : ℕ × Zome). Any (Implements expected z.1) z.1.traits) dna.zomes

-- The bridges that a DNA defines for a handle, in the order of its zomes, and the last of them.
abbrev pub definitions : ℕ → List (ℕ × Zome) → List Dna.Bridge
definitions handle [] = []
definitions handle ((name, z) ∷ zs) =
    filter (λ (d : Dna.Bridge). d.handle == handle) z.bridges ++ definitions handle zs

abbrev pub last : List Dna.Bridge → Option Dna.Bridge
last [] = none
last (d ∷ []) = some d
last (d ∷ e ∷ ds) = last (e ∷ ds)

module _ (load : ℕ → Option Dna) (address_of : Dna → ℕ) where
  -- The DNA that an instance of the configuration runs, with a property.
  abbrev pub Runs : Configuration → ℕ → (Dna → Type 0) → Type 0
  Runs c id P =
      Found (instance_by_id c id) λ i. Found (dna_by_id c i.dna) λ d. Found (load d.file) P

  abbrev pub Accepts : Dna → BridgeReference → Type 0
  Accepts callee (address dna_address) = dna_address ≡ address_of callee
  Accepts callee (trait traits) = All (HasTrait callee) traits

  abbrev pub IsMet : Configuration → Bridge → Type 0
  IsMet c b = Runs c b.caller_id λ caller. Runs c b.callee_id λ callee.
      Found (last (definitions b.handle caller.zomes))
        λ definition. Accepts callee definition.reference

abbrev pub IsRunnable : (ℕ → Option Dna) → Configuration → InstanceConfiguration → Type 0
IsRunnable load c i =
    (contains (agent_ids c) i.agent ≡ true)
    × Found (dna_by_id c i.dna) (λ d. Found (load d.file) (HasRequiredBridges c))

-- The instances that an interface serves are there.
abbrev pub References : Configuration → InterfaceConfiguration → Type 0
References c f =
    All (λ (r : InstanceReferenceConfiguration). contains (instance_ids c) r.id ≡ true) f.instances

abbrev pub IsInterface : Configuration → Option ℕ → Type 0
IsInterface c none = Unit
IsInterface c (some interface) = contains (interface_ids c) interface ≡ true

abbrev pub IsServed : Configuration → UiInterfaceConfiguration → Type 0
IsServed c ui = (contains (ui_bundle_ids c) ui.bundle ≡ true) × IsInterface c ui.dna_interface

abbrev pub DpkiIsInstance : Configuration → Option DpkiConfiguration → Type 0
DpkiIsInstance c none = Unit
DpkiIsInstance c (some dpki) = contains (instance_ids c) dpki.instance_id ≡ true

pub record IsConsistent (load : ℕ → Option Dna) (address_of : Dna → ℕ) (c : Configuration)
    : Type 0 where
  pub agents_distinct : Distinct (agent_ids c)
  pub dnas_distinct : Distinct (dna_ids c)
  pub instances_distinct : Distinct (instance_ids c)
  pub storages_distinct : Distinct (storage_paths c.instances)
  pub interfaces_distinct : Distinct (interface_ids c)
  pub runnable : All (IsRunnable load c) c.instances
  pub referenced : All (References c) c.interfaces
  pub met : All (IsMet load address_of c) c.bridges
  pub served : All (IsServed c) c.ui_interfaces
  pub dpki_found : DpkiIsInstance c c.dpki
  pub acyclic : (id : ℕ) → ¬ Reach (links c.bridges) id id
