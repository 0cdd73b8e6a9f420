-- ===== src/Conductor/Calls.antt =====
-- The admin interface as one function: the trait ConductorAdmin of
-- crates/conductor_lib/src/conductor/admin.rs, and runs of its calls.
use rust_holochain.Base.{ℕ, Bool, Option, none, some, List, [], ◌∷◌}
use rust_holochain.Conductor.Config.{InterfaceConfiguration, Bridge}
use rust_holochain.Conductor.State.{Host, Conductor, returned, raised, panicked, M, ◌>>=◌, pure}
use rust_holochain.Conductor.Installing.{
  install_dna_from_file, uninstall_dna, StorageOption, add_instance, remove_instance,
}
use rust_holochain.Conductor.Admin.{
  add_interface, remove_interface, add_instance_to_interface, remove_instance_from_interface,
  add_agent, remove_agent, add_bridge, remove_bridge,
}

pub data Call : Type 0 where
  install_dna : ℕ → ℕ → Bool → Option ℕ → Option ℕ → Option ℕ → Call
  uninstall : ℕ → Call
  new_instance : ℕ → ℕ → ℕ → Option StorageOption → Call
  drop_instance : ℕ → Call
  new_interface : InterfaceConfiguration → Call
  drop_interface : ℕ → Call
  serve_instance : ℕ → ℕ → Option ℕ → Call
  unserve_instance : ℕ → ℕ → Call
  new_agent : ℕ → ℕ → Option ℕ → Call
  drop_agent : ℕ → Call
  new_bridge : Bridge → Call
  drop_bridge : ℕ → ℕ → Call

abbrev pub silent : {A : Type 0} → M A → M (Unit {0})
silent m = m >>= λ _. pure tt

-- One call of the admin interface.
unfoldable pub call : Host → Call → M (Unit {0})
call host (install_dna path id copy hash properties uuid) =
    silent (install_dna_from_file host path id copy hash properties uuid)
call host (uninstall id) = uninstall_dna host id
call host (new_instance id dna_id agent_id storage) = add_instance host id dna_id agent_id storage
call host (drop_instance id) = remove_instance host id
call host (new_interface interface) = add_interface host interface
call host (drop_interface id) = remove_interface host id
call host (serve_instance interface_id id alias) =
    add_instance_to_interface host interface_id id alias
call host (unserve_instance interface_id id) = remove_instance_from_interface host interface_id id
call host (new_agent id name key) = silent (add_agent host id name key)
call host (drop_agent id) = remove_agent host id
call host (new_bridge b) = add_bridge host b
call host (drop_bridge caller callee) = remove_bridge host caller callee

-- The calls one after the other; an error is answered and the next call is taken. A panic poisons the
-- conductor's lock: `none`.
unfoldable pub run : Host → List Call → Conductor → Option Conductor
unfolding call
run host [] st = some st
run host (k ∷ ks) st = elim (call host k st) [
  | returned u st' ↦ run host ks st'
  | raised e st' ↦ run host ks st'
  | panicked ↦ none
]
