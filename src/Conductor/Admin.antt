-- ===== src/Conductor/Admin.antt =====
-- The functions of the admin interface on interfaces, agents and bridges: `impl ConductorAdmin for
-- Conductor` of crates/conductor_lib/src/conductor/admin.rs. Notifications, the signal multiplexer and
-- the pause between stopping and starting an interface are left out.
use rust_holochain.Base.{
  ℕ, Bool, true, Option, none, some, List, [], ◌∷◌, ◌++◌, ◌&&◌, not, map, ◌==◌, if◌then◌else◌,
  is_some, any, filter,
}
use rust_holochain.Base.Map.{get}
use rust_holochain.Base.Set
use rust_holochain.Conductor.Config.{
  Configuration, AgentConfiguration, InterfaceConfiguration, InstanceReferenceConfiguration, Bridge,
  DpkiConfiguration, interface_by_id,
}
use rust_holochain.Conductor.State.{
  Host, M, ◌>>=◌, ◌>>◌, pure, some_or, guard, ignore, gets, modify, stop_interface_by_id,
  start_interface_by_id, key_error, none_error, interface_exists, no_such_interface,
  instance_in_interface, instance_not_in_interface, agent_exists, no_such_agent, bridge_exists,
  no_such_bridge,
}
use rust_holochain.Conductor.Instances.{build_conductor_api, insert_instance}
use rust_holochain.Conductor.Installing.{commit, remove_instances, ids_where, stop_instances}

unfoldable pub add_interface : Host → InterfaceConfiguration → M (Unit {0})
unfolding commit start_interface_by_id
add_interface host interface = do
  c ← gets (λ st. st.config)
  guard (not (any (λ (i : InterfaceConfiguration). i.id == interface.id) c.interfaces))
      (interface_exists interface.id)
  commit host (record c { interfaces = c.interfaces ++ (interface ∷ []) })
  start_interface_by_id host interface.id

unfoldable pub remove_interface : Host → ℕ → M (Unit {0})
unfolding commit stop_interface_by_id
remove_interface host id = do
  c ← gets (λ st. st.config)
  guard (any (λ (i : InterfaceConfiguration). i.id == id) c.interfaces) (no_such_interface id)
  commit host (record c {
    interfaces = filter (λ (i : InterfaceConfiguration). not (i.id == id)) c.interfaces;
  })
  ignore (stop_interface_by_id host id)

abbrev pub change_interface :
    ℕ
    → (List InstanceReferenceConfiguration → List InstanceReferenceConfiguration)
    → Configuration
    → Configuration
change_interface id f c = record c {
  interfaces =
      map
        (λ (i : InterfaceConfiguration).
          if i.id == id then record i { instances = f i.instances } else i)
        c.interfaces;
}

abbrev pub mentions : ℕ → List InstanceReferenceConfiguration → Bool
mentions id = any (λ (r : InstanceReferenceConfiguration). r.id == id)

unfoldable pub restart_interface : Host → ℕ → M (Unit {0})
unfolding stop_interface_by_id start_interface_by_id
restart_interface host id = do ignore (stop_interface_by_id host id); start_interface_by_id host id

unfoldable pub add_instance_to_interface : Host → ℕ → ℕ → Option ℕ → M (Unit {0})
unfolding commit restart_interface
add_instance_to_interface host interface_id instance_id alias = do
  c ← gets (λ st. st.config)
  interface ← some_or (no_such_interface interface_id) (interface_by_id c interface_id)
  guard (not (mentions instance_id interface.instances))
      (instance_in_interface instance_id interface_id)
  let new_reference : InstanceReferenceConfiguration = record { id = instance_id; alias = alias }
  commit host (change_interface interface_id (λ rs. rs ++ (new_reference ∷ [])) c)
  restart_interface host interface_id

unfoldable pub remove_instance_from_interface : Host → ℕ → ℕ → M (Unit {0})
unfolding commit restart_interface
remove_instance_from_interface host interface_id instance_id = do
  c ← gets (λ st. st.config)
  interface ← some_or (no_such_interface interface_id) (interface_by_id c interface_id)
  guard (mentions instance_id interface.instances)
      (instance_not_in_interface instance_id interface_id)
  commit host (
      change_interface interface_id
        (filter (λ (r : InstanceReferenceConfiguration). not (r.id == instance_id))) c)
  restart_interface host interface_id

-- The key store of a new agent: by the dpki instance where there is one.
unfoldable pub new_agent_keys : Host → ℕ → Option DpkiConfiguration → M (ℕ × ℕ)
new_agent_keys host id none = some_or (key_error id) (host.new_keystore id)
new_agent_keys host id (some dpki) = do
  found ← gets (λ st. get dpki.instance_id st.instances)
  guard (is_some found) none_error
  some_or (key_error id) (host.dpki_keystore id)

-- The file and the address; with a remote key the file is "::ignored::", here 0.
unfoldable pub agent_keys_for : Host → ℕ → Option ℕ → M (ℕ × ℕ)
unfolding new_agent_keys
agent_keys_for host id (some public_address) = pure (0, public_address)
agent_keys_for host id none = do
  c ← gets (λ st. st.config)
  keys ← new_agent_keys host id c.dpki
  modify (λ st. record st { agent_keys = Set.insert st.agent_keys id })
  pure keys

abbrev pub remote_flag : Option ℕ → Option Bool
remote_flag none = none
remote_flag (some address) = some true

unfoldable pub add_agent : Host → ℕ → ℕ → Option ℕ → M ℕ
unfolding agent_keys_for commit
add_agent host id name holo_remote_key = do
  c ← gets (λ st. st.config)
  guard (not (any (λ (a : AgentConfiguration). a.id == id) c.agents)) (agent_exists id)
  keys ← agent_keys_for host id holo_remote_key
  let new_agent : AgentConfiguration = record {
    id = id;
    name = name;
    public_address = keys.1;
    keystore_file = keys.0;
    holo_remote_key = remote_flag holo_remote_key;
    test_agent = none;
  }
  commit host (record c { agents = c.agents ++ (new_agent ∷ []) })
  pure keys.1

unfoldable pub remove_agent : Host → ℕ → M (Unit {0})
unfolding commit remove_instances stop_instances
remove_agent host id = do
  c ← gets (λ st. st.config)
  guard (any (λ (a : AgentConfiguration). a.id == id) c.agents) (no_such_agent id)
  let kept : Configuration = record c {
    agents = filter (λ (a : AgentConfiguration). not (a.id == id)) c.agents;
  }
  let ids : List ℕ = ids_where (λ i. i.agent == id) kept
  commit host (remove_instances ids kept)
  stop_instances ids

abbrev pub joins : ℕ → ℕ → Bridge → Bool
joins caller callee b = (b.caller_id == caller) && (b.callee_id == callee)

-- The caller's conductor API is made anew.
unfoldable pub add_bridge : Host → Bridge → M (Unit {0})
unfolding commit build_conductor_api
add_bridge host new_bridge = do
  c ← gets (λ st. st.config)
  guard (not (any (joins new_bridge.caller_id new_bridge.callee_id) c.bridges))
      (bridge_exists new_bridge.caller_id new_bridge.callee_id)
  commit host (record c { bridges = c.bridges ++ (new_bridge ∷ []) })
  api ← build_conductor_api host new_bridge.caller_id
  found ← gets (λ st. get new_bridge.caller_id st.instances)
  caller ← some_or none_error found
  insert_instance new_bridge.caller_id (record caller { api = api })

unfoldable pub remove_bridge : Host → ℕ → ℕ → M (Unit {0})
unfolding commit
remove_bridge host caller callee = do
  c ← gets (λ st. st.config)
  guard (any (joins caller callee) c.bridges) (no_such_bridge caller callee)
  commit host (record c { bridges = filter (λ b. not (joins caller callee b)) c.bridges })
