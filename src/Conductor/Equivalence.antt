-- ===== src/Conductor/Equivalence.antt =====
-- Configuration::check_consistency of crates/conductor_lib/src/config.rs against the description in
-- Conductor.Validity.
use rust_holochain.Base.{ℕ, ◌≡◌, Option, List, ◌↔◌, All, length}
use rust_holochain.Base.Distinct.{Distinct}
use rust_holochain.Conductor.Dna.{Dna}
use rust_holochain.Conductor.Config.{Configuration, instance_ids}
use rust_holochain.Conductor.Sorting.{
  Reach, Sorts, position, instance_ids_sorted_by_bridge_dependencies,
}
use rust_holochain.Conductor.Checks.{
  passed, Checked, agents, dnas, instances, interfaces, detect_dupes, for_each, ◌>>◌,
  check_instances_storage, storage_paths,
}
use rust_holochain.Conductor.Requirements.{check_bridge_requirements}
use rust_holochain.Conductor.Consistency.{
  check_interface, check_ui_interface, check_dpki, check_sorted, check_instance, check_consistency,
}
use rust_holochain.Conductor.Indices.{links, renamed}
use rust_holochain.Conductor.Order.{instance_ids_sorted_by_bridge_dependencies_lem}
use rust_holochain.Conductor.Passing.{>>_iff, for_each_iff, detect_dupes_iff}
use rust_holochain.Conductor.Validity.{
  agent_ids, dna_ids, interface_ids, IsRunnable, IsMet, IsServed, References, DpkiIsInstance,
  IsConsistent,
}
use rust_holochain.Conductor.Bridging.{check_bridge_requirements_iff}
use rust_holochain.Conductor.Parts.{
  both_iff, check_instances_storage_iff, check_instance_iff, check_interface_iff,
  check_ui_interface_iff, check_dpki_iff, check_sorted_iff, met-Known,
}

module _ (load : ℕ → Option Dna) (address_of : Dna → ℕ)
    (toposort : ℕ → List (ℕ × ℕ) → Option (List ℕ)) (c : Configuration) where
  -- Everything but the sort.
  unfoldable pub unsorted : Checked
  unsorted =
      detect_dupes agents (agent_ids c)
      >> detect_dupes dnas (dna_ids c)
      >> detect_dupes instances (instance_ids c)
      >> check_instances_storage c
      >> detect_dupes interfaces (interface_ids c)
      >> for_each (check_instance load c) c.instances
      >> for_each (check_interface c) c.interfaces
      >> for_each (check_bridge_requirements load address_of c) c.bridges
      >> for_each (check_ui_interface c) c.ui_interfaces
      >> check_dpki c c.dpki

  pub unsorted_iff : (unsorted ≡ passed) ↔ (
      ((((((((Distinct (agent_ids c) × Distinct (dna_ids c)) × Distinct (instance_ids c))
                  × Distinct (storage_paths c.instances))
                × Distinct (interface_ids c))
              × All (IsRunnable load c) c.instances)
            × All (References c) c.interfaces)
          × All (IsMet load address_of c) c.bridges)
        × All (IsServed c) c.ui_interfaces)
      × DpkiIsInstance c c.dpki)
  unfolding unsorted
  unsorted_iff =
      both_iff
        (both_iff
          (both_iff
            (both_iff
              (both_iff
                (both_iff
                  (both_iff
                    (both_iff
                      (both_iff (detect_dupes_iff agents (agent_ids c))
                        (detect_dupes_iff dnas (dna_ids c)))
                      (detect_dupes_iff instances (instance_ids c)))
                    (check_instances_storage_iff c))
                  (detect_dupes_iff interfaces (interface_ids c)))
                (for_each_iff _ _ (check_instance_iff load c) c.instances))
              (for_each_iff _ _ (check_interface_iff c) c.interfaces))
            (for_each_iff _ _ (check_bridge_requirements_iff load address_of c) c.bridges))
          (for_each_iff _ _ (check_ui_interface_iff c) c.ui_interfaces))
        (check_dpki_iff c c.dpki)

  sort_iff :
      (let es = renamed (position (instance_ids c)) (links c.bridges) in
        let n = length (instance_ids c) in Sorts toposort n es)
      → Distinct (instance_ids c)
      → All (IsMet load address_of c) c.bridges
      → (check_sorted (instance_ids_sorted_by_bridge_dependencies toposort c) ≡ passed)
        ↔ ((id : ℕ) → ¬ Reach (links c.bridges) id id)
  sort_iff sound d met =
      check_sorted_iff (instance_ids c) c.bridges _ (met-Known load address_of c c.bridges met)
        (instance_ids_sorted_by_bridge_dependencies_lem toposort c d sound)

-- Where the sort of petgraph does what its documentation says if all ends of the bridges are instances,
-- check_consistency passes exactly for
-- the configurations whose agents, DNAs, instances and interfaces have unique identifiers, whose instances
-- have unique storage paths, whose references resolve (an instance's agent, its DNA, which loads and whose
-- required bridges each have a configured bridge of the handle; an interface's instances; a UI
-- interface's bundle and interface; the instance of the dpki), whose bridges join instances of which
-- the caller's DNA defines the handle and the callee's DNA has the address or the traits of the last such
-- definition, and whose bridges have no cycle.
pub check_consistency-IsConsistent :
    (load : ℕ → Option Dna) (address_of : Dna → ℕ) (toposort : ℕ → List (ℕ × ℕ) → Option (List ℕ))
    (c : Configuration)
    → (let es = renamed (position (instance_ids c)) (links c.bridges) in
        let n = length (instance_ids c) in Sorts toposort n es)
    → (check_consistency load address_of toposort c ≡ passed) ↔ IsConsistent load address_of c
unfolding check_consistency unsorted
check_consistency-IsConsistent load address_of toposort c sound =
    let rest = unsorted_iff load address_of toposort c in
    (
      λ h.
          let (h', last) = (>>_iff _ _).0 h in
          let (((((((((a, d), i), s), f), r), n), m), u), k) = rest.0 h' in
          record {
            agents_distinct = a;
            dnas_distinct = d;
            instances_distinct = i;
            storages_distinct = s;
            interfaces_distinct = f;
            runnable = r;
            referenced = n;
            met = m;
            served = u;
            dpki_found = k;
            acyclic = (sort_iff load address_of toposort c sound i m).0 last;
          },
      λ v. (>>_iff _ _).1 (
        rest.1 (
          (
            (
              (
                (
                  (
                    (
                      ((v.agents_distinct, v.dnas_distinct), v.instances_distinct),
                      v.storages_distinct,
                    ),
                    v.interfaces_distinct,
                  ),
                  v.runnable,
                ),
                v.referenced,
              ),
              v.met,
            ),
            v.served,
          ),
          v.dpki_found,
        ),
        (sort_iff load address_of toposort c sound v.instances_distinct v.met).1 v.acyclic,
      ),
    )
