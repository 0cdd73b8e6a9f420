-- ===== src/Conductor/Requirements.antt =====
-- What a bridge asks of the DNAs at its ends: the loop over an instance's required bridges in
-- Configuration::check_consistency and Configuration::check_bridge_requirements of
-- crates/conductor_lib/src/config.rs. `load` is the DNA loader that the conductor is given and `address`
-- the hash of a DNA.
use rust_holochain.Base.{
  ℕ, Bool, Option, none, some, List, [], ◌∷◌, ◌&&◌, ◌==◌, if◌then◌else◌, any, all,
}
use rust_holochain.Base.Set.{contains}
use rust_holochain.Conductor.Dna
use rust_holochain.Conductor.Dna.{
  Dna, Zome, Trait, TraitFns, BridgeReference, declaration_eq, is_required, address, trait,
}
use rust_holochain.Conductor.Config.{Configuration, Bridge, dna_by_id, instance_by_id}
use rust_holochain.Conductor.Checks.{
  Checked, passed, ensure, for_each, ok_or, dna_not_found, could_not_load, required_bridge_missing,
  instance_not_found_in_bridge, no_bridge_definition, wrong_callee_address, trait_not_implemented,
}

-- A required bridge needs a configured bridge of its handle.
unfoldable pub check_required : Configuration → ℕ → Dna.Bridge → Checked
check_required c id bridge =
    if is_required bridge.presence
    then ensure (any (λ b. b.handle == bridge.handle) c.bridges)
        (required_bridge_missing bridge.handle id)
    else passed

unfoldable pub check_required_bridges : Configuration → ℕ → Dna → Checked
unfolding check_required
check_required_bridges c id dna =
    for_each (λ z. for_each (check_required c id) z.1.bridges) dna.zomes

-- One zome against one trait, and the loops of the traits over the callee's zomes.
unfoldable pub implements : ℕ × Trait → Zome → ℕ × TraitFns → Bool
implements (expected_trait_name, expected_trait) zome (zome_trait_name, zome_trait_functions) =
    let has_all_fns_exported =
      all (λ f. contains zome_trait_functions.functions f.name) expected_trait.functions in
    let has_matching_signatures =
      all (λ f. any (λ g. declaration_eq g f) zome.fn_declarations) expected_trait.functions in
    (zome_trait_name == expected_trait_name) && has_all_fns_exported && has_matching_signatures

unfoldable pub check_trait : ℕ → ℕ → Dna → ℕ × Trait → Checked
unfolding implements
check_trait handle caller callee_dna (name, expected) =
    ensure (any (λ z. any (implements (name, expected) z.1) z.1.traits) callee_dna.zomes)
      (trait_not_implemented handle caller name expected.functions)

-- The last definition of the handle, in the order of the zomes.
unfoldable pub last_definition : ℕ → List Dna.Bridge → Option Dna.Bridge → Option Dna.Bridge
last_definition handle [] found = found
last_definition handle (d ∷ ds) found =
    last_definition handle ds (if d.handle == handle then some d else found)

unfoldable pub bridge_definition : ℕ → List (ℕ × Zome) → Option Dna.Bridge → Option Dna.Bridge
unfolding last_definition
bridge_definition handle [] found = found
bridge_definition handle ((name, zome) ∷ zomes) found =
    bridge_definition handle zomes (last_definition handle zome.bridges found)

module _ (load : ℕ → Option Dna) (address_of : Dna → ℕ) where
  -- The DNA of an instance, by its configuration.
  unfoldable pub with_dna : Configuration → ℕ → (ℕ → ℕ → Dna → Checked) → Checked
  with_dna c id k = ok_or (instance_by_id c id) (instance_not_found_in_bridge id) λ i.
      ok_or (dna_by_id c i.dna) (dna_not_found i.dna i.id)
        λ d. ok_or (load d.file) (could_not_load d.file) λ dna. k i.id d.file dna

  unfoldable pub check_reference : Bridge → ℕ → Dna → Dna.Bridge → BridgeReference → Checked
  unfolding check_trait
  check_reference b callee callee_dna definition (address dna_address) =
      ensure (dna_address == address_of callee_dna) (
        wrong_callee_address definition.handle b.caller_id dna_address callee
          (address_of callee_dna))
  check_reference b callee callee_dna definition (trait traits) =
      for_each (check_trait definition.handle b.caller_id callee_dna) traits

  unfoldable pub check_bridge_requirements : Configuration → Bridge → Checked
  unfolding with_dna check_reference bridge_definition
  check_bridge_requirements c b = with_dna c b.caller_id λ caller caller_file caller_dna.
      with_dna c b.callee_id λ callee callee_file callee_dna.
        ok_or (bridge_definition b.handle caller_dna.zomes none)
          (no_bridge_definition b.handle b.caller_id)
          λ definition. check_reference b callee callee_dna definition definition.reference
