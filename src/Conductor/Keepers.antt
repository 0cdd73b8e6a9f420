-- ===== src/Conductor/Keepers.antt =====
-- That every function of the admin interface and each step of the boot keep the invariant of the
-- configuration: crates/conductor_lib/src/conductor/base.rs and admin.rs.
use rust_holochain.Base.{ℕ, refl, Bool, true, Option, none, some, List, [], ◌∷◌}
use rust_holochain.Conductor.Dna.{Dna}
use rust_holochain.Conductor.Config.{Configuration, DpkiConfiguration, UiInterfaceConfiguration}
use rust_holochain.Conductor.Sorting.{
  Sorted, sorted, not_found, cyclic, instance_ids_sorted_by_bridge_dependencies,
}
use rust_holochain.Conductor.State.{Host, ◌>>=◌, ◌>>◌, gets, modify}
use rust_holochain.Conductor.Instances.{
  dpki_bootstrap, instantiate_all, sorted_ids, connected_dna_interface, add_static_server,
  for_each_in,
}
use rust_holochain.Conductor.Admin.{
  add_interface, remove_interface, restart_interface, add_instance_to_interface,
  remove_instance_from_interface, new_agent_keys, agent_keys_for, add_agent, remove_agent,
  add_bridge, remove_bridge,
}
use rust_holochain.Conductor.Calls.{
  Call, install_dna, uninstall, new_instance, drop_instance, new_interface, drop_interface,
  serve_instance, unserve_instance, new_agent, drop_agent, new_bridge, drop_bridge, call,
}
use rust_holochain.Conductor.Installing.{
  check_hash, with_properties, install_dna_from_file, stop_instances, uninstall_dna, StorageOption,
  storage_of, memory_option, file_option, pickle_option, lmdb_option, unknown_option, add_instance,
  remove_instance,
}
use rust_holochain.Conductor.Soundness.{
  Keeps, Keeps-bind, Keeps-pure, Keeps-raise, Keeps-some_or, Keeps-unwrap, Keeps-guard, Keeps-gets,
  Keeps-if, Keeps-modify, Keeps-ignore, Keeps-check, Keeps-set_config,
}
use rust_holochain.Conductor.Running.{
  keeping, Keeps-commit, Keeps-stop_interface_by_id, Keeps-start_interface_by_id,
  Keeps-insert_instance, Keeps-stop_instance, Keeps-for_each_in, Keeps-build_conductor_api,
  Keeps-instantiate_from_config,
}

module _ {host : Host} where
  Keeps-check_hash : (hash : Option ℕ) (dna : Dna) → Keeps host (check_hash host hash dna)
  unfolding check_hash
  Keeps-check_hash none dna = Keeps-pure tt
  Keeps-check_hash (some hash) dna = Keeps-guard _ _

  Keeps-with_properties :
      (copy : Bool) (properties : Option ℕ) (dna : Dna)
      → Keeps host (with_properties host copy properties dna)
  unfolding with_properties
  Keeps-with_properties copy none dna = Keeps-pure dna
  Keeps-with_properties copy (some props) dna = search keeping

  Keeps-stop_instances : (ids : List ℕ) → Keeps host (stop_instances ids)
  unfolding stop_instances
  Keeps-stop_instances ids = Keeps-for_each_in _ ids (λ id. Keeps-ignore (Keeps-stop_instance id))

  Keeps-storage_of :
      (path : ℕ) (storage : Option StorageOption) → Keeps host (storage_of path storage)
  unfolding storage_of
  Keeps-storage_of path none = Keeps-pure _
  Keeps-storage_of path (some memory_option) = Keeps-pure _
  Keeps-storage_of path (some file_option) = Keeps-pure _
  Keeps-storage_of path (some pickle_option) = Keeps-pure _
  Keeps-storage_of path (some lmdb_option) = Keeps-pure _
  Keeps-storage_of path (some (unknown_option s)) = Keeps-raise _

  Keeps-add_instance :
      (id dna agent : ℕ) (storage : Option StorageOption)
      → Keeps host (add_instance host id dna agent storage)
  unfolding add_instance
  Keeps-add_instance id dna agent storage = Keeps-bind (Keeps-gets _) λ c.
      Keeps-bind (Keeps-guard _ _) λ u. Keeps-bind (Keeps-storage_of _ storage) λ s.
        Keeps-check _ λ p.
          Keeps-bind (Keeps-set_config _ p)
            λ u. search (keeping, Keeps-instantiate_from_config, Keeps-insert_instance) depth 20

  Keeps-remove_instance : (id : ℕ) → Keeps host (remove_instance host id)
  unfolding remove_instance
  Keeps-remove_instance id = Keeps-bind (Keeps-gets _) λ c. Keeps-bind (Keeps-commit _) λ u.
      Keeps-bind (Keeps-ignore (Keeps-stop_instance id))
        λ u. Keeps-modify _ (λ st. refl) (λ st. refl)

  Keeps-restart_interface : (id : ℕ) → Keeps host (restart_interface host id)
  unfolding restart_interface
  Keeps-restart_interface id =
      search (keeping, Keeps-stop_interface_by_id, Keeps-start_interface_by_id) depth 10

  Keeps-new_agent_keys :
      (id : ℕ) (dpki : Option DpkiConfiguration) → Keeps host (new_agent_keys host id dpki)
  unfolding new_agent_keys
  Keeps-new_agent_keys id none = search keeping
  Keeps-new_agent_keys id (some dpki) = search keeping depth 10

  Keeps-agent_keys_for : (id : ℕ) (key : Option ℕ) → Keeps host (agent_keys_for host id key)
  unfolding agent_keys_for
  Keeps-agent_keys_for id none = Keeps-bind (Keeps-gets _) λ c.
      Keeps-bind (Keeps-new_agent_keys id _)
        λ keys. Keeps-bind (Keeps-modify _ (λ st. refl) (λ st. refl)) λ u. Keeps-pure keys
  Keeps-agent_keys_for id (some address) = Keeps-pure _

  ruleset steps = (
    Keeps-bind, Keeps-pure, Keeps-raise, Keeps-some_or, Keeps-unwrap, Keeps-guard, Keeps-gets,
    Keeps-if, Keeps-ignore, Keeps-commit, Keeps-stop_interface_by_id, Keeps-start_interface_by_id,
    Keeps-insert_instance, Keeps-build_conductor_api, Keeps-check_hash, Keeps-with_properties,
    Keeps-stop_instances, Keeps-restart_interface, Keeps-agent_keys_for,
  )

  pub Keeps-call : (k : Call) → Keeps host (call host k)
  unfolding call install_dna_from_file uninstall_dna add_interface remove_interface
      add_instance_to_interface remove_instance_from_interface add_agent remove_agent add_bridge
      remove_bridge
  Keeps-call (install_dna path id copy hash properties uuid) = search steps depth 40
  Keeps-call (uninstall id) = search steps depth 40
  Keeps-call (new_instance id dna agent storage) = Keeps-add_instance id dna agent storage
  Keeps-call (drop_instance id) = Keeps-remove_instance id
  Keeps-call (new_interface interface) = search steps depth 40
  Keeps-call (drop_interface id) = search steps depth 40
  Keeps-call (serve_instance interface id alias) = search steps depth 40
  Keeps-call (unserve_instance interface id) = search steps depth 40
  Keeps-call (new_agent id name key) = search steps depth 40
  Keeps-call (drop_agent id) = search steps depth 40
  Keeps-call (new_bridge b) = search steps depth 40
  Keeps-call (drop_bridge caller callee) = search steps depth 40

  Keeps-dpki_bootstrap : (dpki : Option DpkiConfiguration) → Keeps host (dpki_bootstrap host dpki)
  unfolding dpki_bootstrap
  Keeps-dpki_bootstrap none = Keeps-pure tt
  Keeps-dpki_bootstrap (some dpki) =
      search (keeping, Keeps-instantiate_from_config, Keeps-insert_instance) depth 20

  Keeps-instantiate_all : (ids : List ℕ) → Keeps host (instantiate_all host ids)
  unfolding instantiate_all
  Keeps-instantiate_all [] = Keeps-pure tt
  Keeps-instantiate_all (id ∷ ids) = Keeps-bind (Keeps-gets _) λ there.
      Keeps-bind
        (Keeps-if there (Keeps-pure tt)
          (Keeps-bind (Keeps-instantiate_from_config id) (Keeps-insert_instance id)))
        λ u. Keeps-instantiate_all ids

  Keeps-sorted_ids : (r : Sorted) → Keeps host (sorted_ids r)
  unfolding sorted_ids
  Keeps-sorted_ids (sorted ids) = Keeps-pure ids
  Keeps-sorted_ids (not_found caller callee) = Keeps-raise _
  Keeps-sorted_ids cyclic = Keeps-raise _
  Keeps-sorted_ids Sorted.panicked = Keeps-unwrap none

  Keeps-connected : (c : Configuration) (o : Option ℕ) → Keeps host (connected_dna_interface c o)
  unfolding connected_dna_interface
  Keeps-connected c none = Keeps-pure tt
  Keeps-connected c (some id) = Keeps-unwrap _

  Keeps-add_static_server : (ui : UiInterfaceConfiguration) → Keeps host (add_static_server ui)
  unfolding add_static_server
  Keeps-add_static_server ui =
      Keeps-bind (Keeps-gets _)
        λ c. Keeps-bind (Keeps-some_or _ _) λ bundle. Keeps-connected c ui.dna_interface

  Keeps-static_servers :
      (uis : List UiInterfaceConfiguration) → Keeps host (for_each_in add_static_server uis)
  Keeps-static_servers uis = Keeps-for_each_in _ uis Keeps-add_static_server

  pub Keeps-booting :
      (dpki : Option DpkiConfiguration)
      → Keeps host (do
        modify (λ st. record st { p2p_config = true })
        dpki_bootstrap host dpki
        c ← gets (λ st. st.config)
        ids ← sorted_ids (instance_ids_sorted_by_bridge_dependencies host.toposort c)
        instantiate_all host ids
        booted ← gets (λ st. st.config)
        for_each_in add_static_server booted.ui_interfaces)
  Keeps-booting dpki = Keeps-bind (Keeps-modify _ (λ st. refl) (λ st. refl)) λ u.
      search
        (
          keeping, Keeps-dpki_bootstrap, Keeps-sorted_ids, Keeps-instantiate_all,
          Keeps-static_servers,
        )
        depth 20
