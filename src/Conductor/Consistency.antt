-- ===== src/Conductor/Consistency.antt =====
-- Configuration::check_consistency of crates/conductor_lib/src/config.rs, in the order of the source, on
-- a Unix system. `load` is the DNA loader, `address_of` the hash of a DNA and `toposort` the function of
-- petgraph.
use rust_holochain.Base.{ℕ, Option, none, some, List, map, is_some}
use rust_holochain.Conductor.Dna.{Dna}
use rust_holochain.Conductor.Config.{
  Configuration, AgentConfiguration, DnaConfiguration, InstanceConfiguration,
  InterfaceConfiguration, InstanceReferenceConfiguration, UiInterfaceConfiguration,
  DpkiConfiguration, agent_by_id, dna_by_id, instance_by_id, interface_by_id, ui_bundle_by_id,
  instance_ids,
}
use rust_holochain.Conductor.Sorting.{
  Sorted, sorted, not_found, cyclic, instance_ids_sorted_by_bridge_dependencies,
}
use rust_holochain.Conductor.Checks.{
  Checked, passed, failed, agents, dnas, instances, interfaces, detect_dupes,
  check_instances_storage, ensure, for_each, ok_or, ◌>>◌, agent_not_found, dna_not_found,
  could_not_load, instance_not_found_in_interface, ui_bundle_not_found, dna_interface_not_found,
  instance_not_found_in_dpki, bridge_instance_not_found, cyclic_dependency, panicked,
}
use rust_holochain.Conductor.Requirements.{check_required_bridges, check_bridge_requirements}

unfoldable pub check_reference_of_interface :
    Configuration → InstanceReferenceConfiguration → Checked
check_reference_of_interface c r =
    ensure (is_some (instance_by_id c r.id)) (instance_not_found_in_interface r.id)

unfoldable pub check_interface : Configuration → InterfaceConfiguration → Checked
unfolding check_reference_of_interface
check_interface c interface = for_each (check_reference_of_interface c) interface.instances

unfoldable pub check_dna_interface : Configuration → ℕ → Option ℕ → Checked
check_dna_interface c ui none = passed
check_dna_interface c ui (some interface) =
    ensure (is_some (interface_by_id c interface)) (dna_interface_not_found interface ui)

unfoldable pub check_ui_interface : Configuration → UiInterfaceConfiguration → Checked
unfolding check_dna_interface
check_ui_interface c ui =
    ensure (is_some (ui_bundle_by_id c ui.bundle)) (ui_bundle_not_found ui.bundle ui.id)
    >> check_dna_interface c ui.id ui.dna_interface

unfoldable pub check_dpki : Configuration → Option DpkiConfiguration → Checked
check_dpki c none = passed
check_dpki c (some dpki) =
    ensure (is_some (instance_by_id c dpki.instance_id))
      (instance_not_found_in_dpki dpki.instance_id)

-- The `?` on the result of the sort.
abbrev pub check_sorted : Sorted → Checked
check_sorted (sorted ids) = passed
check_sorted (not_found caller callee) = failed (bridge_instance_not_found caller callee)
check_sorted cyclic = failed cyclic_dependency
check_sorted Sorted.panicked = failed panicked

-- One instance: its agent, its DNA, the loaded DNA's required bridges.
unfoldable pub check_instance : (ℕ → Option Dna) → Configuration → InstanceConfiguration → Checked
check_instance load c i =
    ensure (is_some (agent_by_id c i.agent)) (agent_not_found i.agent i.id)
    >> ok_or (dna_by_id c i.dna) (dna_not_found i.dna i.id)
        λ d. ok_or (load d.file) (could_not_load d.file) λ dna. check_required_bridges c i.id dna

unfoldable pub check_consistency :
    (ℕ → Option Dna) → (Dna → ℕ) → (ℕ → List (ℕ × ℕ) → Option (List ℕ)) → Configuration → Checked
unfolding detect_dupes check_instances_storage check_instance check_interface check_ui_interface
    check_dpki
check_consistency load address_of toposort c =
    detect_dupes agents (map (λ (a : AgentConfiguration). a.id) c.agents)
    >> detect_dupes dnas (map (λ (d : DnaConfiguration). d.id) c.dnas)
    >> detect_dupes instances (instance_ids c)
    >> check_instances_storage c
    >> detect_dupes interfaces (map (λ (i : InterfaceConfiguration). i.id) c.interfaces)
    >> for_each (check_instance load c) c.instances
    >> for_each (check_interface c) c.interfaces
    >> for_each (check_bridge_requirements load address_of c) c.bridges
    >> for_each (check_ui_interface c) c.ui_interfaces
    >> check_dpki c c.dpki
    >> check_sorted (instance_ids_sorted_by_bridge_dependencies toposort c)
