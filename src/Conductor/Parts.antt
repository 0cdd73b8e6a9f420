-- ===== src/Conductor/Parts.antt =====
-- When the single checks of Configuration::check_consistency of crates/conductor_lib/src/config.rs pass.
use rust_holochain.Base.{
  ℕ, ◌≡◌, refl, ap, true, Option, none, some, List, [], ◌∷◌, ◌↔◌, arith, All, map, is_some, ◌==◌,
  ==_iff, sym, ◌∙◌,
}
use rust_holochain.Base.Set.{contains}
use rust_holochain.Base.Distinct.{Distinct}
use rust_holochain.Conductor.Dna.{Dna}
use rust_holochain.Conductor.Config.{
  Configuration, AgentConfiguration, InstanceConfiguration, InterfaceConfiguration,
  UiBundleConfiguration, UiInterfaceConfiguration, DpkiConfiguration, Bridge, find, agent_by_id,
  dna_by_id, instance_by_id, interface_by_id, ui_bundle_by_id, instance_ids,
}
use rust_holochain.Conductor.Sorting.{Sorted, sorted, not_found, cyclic, Reach}
use rust_holochain.Conductor.Checks.{
  passed, Checked, ◌>>◌, check_instances_storage, duplicate_storage, storage_paths, agent_not_found,
  dna_not_found, could_not_load, instance_not_found_in_interface, ui_bundle_not_found,
  dna_interface_not_found, instance_not_found_in_dpki,
}
use rust_holochain.Conductor.Consistency.{
  check_reference_of_interface, check_interface, check_dna_interface, check_ui_interface,
  check_dpki, check_sorted, check_instance,
}
use rust_holochain.Conductor.Indices.{links}
use rust_holochain.Conductor.Paths.{Known, backward_acyclic}
use rust_holochain.Conductor.Order.{IsSorting}
use rust_holochain.Conductor.Passing.{
  Found, >>_iff, ensure_iff, for_each_iff, ok_or_iff, is_some-find, Found-is_some,
  all_new_empty_iff,
}
use rust_holochain.Conductor.Validity.{
  IsRunnable, IsMet, IsServed, IsInterface, References, DpkiIsInstance,
}
use rust_holochain.Conductor.Bridging.{trans_iff, check_required_bridges_iff}

pub both_iff :
    {a b : Checked} {P Q : Type 0}
    → (a ≡ passed) ↔ P
    → (b ≡ passed) ↔ Q
    → ((a >> b) ≡ passed) ↔ (P × Q)
both_iff {a} {b} p q = (
  λ h. let both = (>>_iff a b).0 h in (p.0 both.0, q.0 both.1),
  λ h. (>>_iff a b).1 (p.1 h.0, q.1 h.1),
)

-- A lookup that is only tested.
known_iff :
    {A : Type 0} (key : A → ℕ) (xs : List A) (k : ℕ)
    → (is_some (find (λ x. key x == k) xs) ≡ true) ↔ (contains (map key xs) k ≡ true)
known_iff key xs k = rw (is_some-find key xs k) (λ h. h, λ h. h)

pub check_instances_storage_iff :
    (c : Configuration)
    → (check_instances_storage c ≡ passed) ↔ Distinct (storage_paths c.instances)
unfolding check_instances_storage
check_instances_storage_iff c =
    trans_iff (ensure_iff _ duplicate_storage) (all_new_empty_iff (storage_paths c.instances))

pub check_instance_iff :
    (load : ℕ → Option Dna) (c : Configuration) (i : InstanceConfiguration)
    → (check_instance load c i ≡ passed) ↔ IsRunnable load c i
unfolding check_instance agent_by_id
check_instance_iff load c i =
    let first =
      trans_iff (ensure_iff _ (agent_not_found i.agent i.id))
        (known_iff (λ (a : AgentConfiguration). a.id) c.agents i.agent) in
    let second =
      ok_or_iff (dna_not_found i.dna i.id) _ _
        (λ d.
          ok_or_iff (could_not_load d.file) _ _ (λ dna. check_required_bridges_iff c i.id dna)
            (load d.file))
        (dna_by_id c i.dna) in
    both_iff first second

pub check_interface_iff :
    (c : Configuration) (f : InterfaceConfiguration)
    → (check_interface c f ≡ passed) ↔ References c f
unfolding check_interface check_reference_of_interface instance_by_id instance_ids
check_interface_iff c f =
    for_each_iff _ _
      (λ r.
        trans_iff (ensure_iff _ (instance_not_found_in_interface r.id))
          (known_iff (λ (i : InstanceConfiguration). i.id) c.instances r.id))
      f.instances

check_dna_interface_iff :
    (c : Configuration) (ui : ℕ) (o : Option ℕ)
    → (check_dna_interface c ui o ≡ passed) ↔ IsInterface c o
unfolding check_dna_interface interface_by_id
check_dna_interface_iff c ui none = (λ h. tt, λ h. refl)
check_dna_interface_iff c ui (some k) =
    trans_iff (ensure_iff _ (dna_interface_not_found k ui))
      (known_iff (λ (i : InterfaceConfiguration). i.id) c.interfaces k)

pub check_ui_interface_iff :
    (c : Configuration) (ui : UiInterfaceConfiguration)
    → (check_ui_interface c ui ≡ passed) ↔ IsServed c ui
unfolding check_ui_interface ui_bundle_by_id
check_ui_interface_iff c ui =
    both_iff
      (trans_iff (ensure_iff _ (ui_bundle_not_found ui.bundle ui.id))
        (known_iff (λ (b : UiBundleConfiguration). b.id) c.ui_bundles ui.bundle))
      (check_dna_interface_iff c ui.id ui.dna_interface)

pub check_dpki_iff :
    (c : Configuration) (o : Option DpkiConfiguration)
    → (check_dpki c o ≡ passed) ↔ DpkiIsInstance c o
unfolding check_dpki instance_by_id instance_ids
check_dpki_iff c none = (λ h. tt, λ h. refl)
check_dpki_iff c (some dpki) =
    trans_iff (ensure_iff _ (instance_not_found_in_dpki dpki.instance_id))
      (known_iff (λ (i : InstanceConfiguration). i.id) c.instances dpki.instance_id)

-- With every end known, the sort is no error exactly when the bridges have no cycle.
pub check_sorted_iff :
    (ids : List ℕ) (bs : List Bridge) (r : Sorted)
    → Known ids bs
    → IsSorting ids bs r
    → (check_sorted r ≡ passed) ↔ ((id : ℕ) → ¬ Reach (links bs) id id)
check_sorted_iff ids bs (sorted out) known order =
    (λ h. backward_acyclic (links bs) out order.callees, λ h. refl)
check_sorted_iff ids bs (not_found a b) known (there, missing) =
    absurd (ground (arith, known a b there))
check_sorted_iff ids bs cyclic known (id, cycle) = (λ h. cc, λ h. absurd (h id cycle))
check_sorted_iff ids bs Sorted.panicked known h = absurd h

pub Found-out :
    {A : Type 0} (P : A → Type 0) (Q : Type 0) (o : Option A) → ((x : A) → P x → Q) → Found o P → Q
Found-out P Q none use_it h = absurd h
Found-out P Q (some x) use_it h = use_it x h

pub Found-known :
    (c : Configuration) (id : ℕ) (P : InstanceConfiguration → Type 0)
    → Found (instance_by_id c id) P
    → contains (instance_ids c) id ≡ true
unfolding instance_ids instance_by_id
Found-known c id P h =
    sym (is_some-find (λ (i : InstanceConfiguration). i.id) c.instances id) ∙ Found-is_some P _ h

-- The ends of a bridge that is met are instances.
pub met-Known :
    (load : ℕ → Option Dna) (address_of : Dna → ℕ) (c : Configuration) (bs : List Bridge)
    → All (IsMet load address_of c) bs
    → Known (instance_ids c) bs
met-Known load address_of c [] h a b l = absurd (ground arith)
met-Known load address_of c (br ∷ bs) h a b l =
    let caller = Found-known c br.caller_id _ h.0 in
    let callee : contains (instance_ids c) br.callee_id ≡ true =
      Found-out _ _ (instance_by_id c br.caller_id)
        (λ i.
          Found-out _ _ (dna_by_id c i.dna)
            (λ d. Found-out _ _ (load d.file) (λ dna. Found-known c br.callee_id _)))
        h.0 in
    ground (
      arith,
      ==_iff br.caller_id a,
      ==_iff br.callee_id b,
      met-Known load address_of c bs h.1 a b,
      λ (e : br.caller_id ≡ a). ap (contains (instance_ids c)) e,
      λ (e : br.callee_id ≡ b). ap (contains (instance_ids c)) e,
    )
