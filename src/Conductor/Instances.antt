-- ===== src/Conductor/Instances.antt =====
-- How the conductor makes and starts its instances: build_conductor_api, instantiate_from_config,
-- start_instance, start_all_instances and boot_from_config of
-- crates/conductor_lib/src/conductor/base.rs, and the two updates of a configuration that
-- instantiating makes. The signal channels and the static servers are left out, and so are the panics on
-- a poisoned lock and on a DNA loader that is shared; what a context is built from shows only in whether it
-- can be built.
use rust_holochain.Base.{
  ℕ, Bool, true, false, Option, none, some, List, [], ◌∷◌, map, ◌==◌, ◌&&◌, if◌then◌else◌, is_some,
}
use rust_holochain.Base.Map
use rust_holochain.Base.Map.{Map, get}
use rust_holochain.Conductor.Dna
use rust_holochain.Conductor.Dna.{Dna, Zome, is_required}
use rust_holochain.Conductor.Config.{
  Configuration, AgentConfiguration, DnaConfiguration, InstanceConfiguration, DpkiConfiguration,
  UiInterfaceConfiguration, interface_by_id, ui_bundle_by_id, Bridge, find, agent_by_id, dna_by_id,
  instance_by_id, bridge_dependencies,
}
use rust_holochain.Conductor.Sorting.{
  Sorted, sorted, not_found, cyclic, instance_ids_sorted_by_bridge_dependencies,
}
use rust_holochain.Conductor.Checks.{bridge_instance_not_found, cyclic_dependency}
use rust_holochain.Conductor.State.{
  Host, Instance, returned, raised, panicked, M, ◌>>=◌, ◌>>◌, pure, raise, some_or, unwrap, guard,
  gets, modify, check, save_config, config_error, could_not_load, hash_mismatch, io, key_error,
  none_error, instance_not_in_config, instance_already_active, required_bridge_missing,
}

-- Configuration::update_agent_address_by_id
unfoldable pub update_agent_address_by_id : ℕ → ℕ → Configuration → Configuration
update_agent_address_by_id id address c = record c {
  agents =
      map
        (λ (a : AgentConfiguration).
          if a.id == id then record a { public_address = address } else a)
        c.agents;
}

-- Configuration::update_dna_hash_by_id: the first DNA of the identifier.
unfoldable pub set_hash : ℕ → ℕ → List DnaConfiguration → List DnaConfiguration
set_hash id hash [] = []
set_hash id hash (d ∷ ds) =
    if d.id == id then record d { hash = hash } ∷ ds else d ∷ set_hash id hash ds

unfoldable pub update_dna_hash_by_id : ℕ → ℕ → Configuration → Configuration
unfolding set_hash
update_dna_hash_by_id id hash c = record c { dnas = set_hash id hash c.dnas }

abbrev pub is_true : Option Bool → Bool
is_true none = false
is_true (some b) = b

-- Conductor::agent_config_to_id
unfoldable pub agent_config_to_id : Host → AgentConfiguration → M ℕ
agent_config_to_id host a =
    if is_true a.holo_remote_key
    then pure a.public_address
    else some_or (key_error a.id) (host.keybundle a.id)

-- The loop over the caller's bridges; `none` is an `expect` that fails.
unfoldable pub connect : Configuration → Map Instance → List Bridge → Map ℕ → Option (Map ℕ)
connect c instances [] api = some api
connect c instances (b ∷ bs) api =
    let rest = connect c instances bs (Map.insert b.handle b.callee_id api) in
    if is_some (instance_by_id c b.callee_id)
    then (if is_some (get b.callee_id instances) then rest else none)
    else none

unfoldable pub build_callbacks : Host → AgentConfiguration → M (Unit {0})
build_callbacks host a =
    if is_true a.holo_remote_key
    then unwrap (if host.has_service_uris then some tt else none)
    else guard (is_some (host.keybundle a.id)) (key_error a.id)

unfoldable pub build_conductor_api : Host → ℕ → M (Map ℕ)
unfolding build_callbacks connect
build_conductor_api host id = do
  c ← gets (λ st. st.config)
  i ← some_or none_error (instance_by_id c id)
  a ← some_or none_error (agent_by_id c i.agent)
  build_callbacks host a
  instances ← gets (λ st. st.instances)
  unwrap (connect c instances (bridge_dependencies c i.id) [])

-- A test agent's address is written into the configuration, which is saved.
unfoldable pub note_test_agent : Host → AgentConfiguration → ℕ → M (Unit {0})
note_test_agent host a agent_address =
    if is_true a.test_agent
    then (modify
          (λ st. record st { config = update_agent_address_by_id a.id agent_address st.config })
        >> save_config host)
    else pure tt

-- Conductor::get_p2p_config: every instance there is, a stopped one too, is asked for its network.
abbrev pub networks_up : Map Instance → Bool
networks_up [] = true
networks_up ((id, i) ∷ instances) = i.network && networks_up instances

unfoldable pub get_p2p_config : M (Unit {0})
get_p2p_config = do
  asked ← gets (λ st. st.p2p_config)
  instances ← gets (λ st. st.instances)
  if asked then unwrap (if networks_up instances then some tt else none) else pure tt

-- Conductor::build_tracer_and_reporter_for_instance
unfoldable pub build_tracer : Host → ℕ → M (Unit {0})
build_tracer host id = unwrap (if host.tracer_builds id then some tt else none)

-- Conductor::check_dna_consistency, and of the three sources.
unfoldable pub check_dna_consistency : ℕ → ℕ → M (Unit {0})
check_dna_consistency dna_hash_a dna_hash_b =
    guard (dna_hash_a == dna_hash_b) (hash_mismatch dna_hash_a dna_hash_b)

unfoldable pub check_dna_consistency_from_all_sources : ℕ → ℕ → ℕ → M (Unit {0})
unfolding check_dna_consistency
check_dna_consistency_from_all_sources from_config computed from_file = do
  check_dna_consistency from_config computed
  check_dna_consistency from_config from_file
  check_dna_consistency computed from_file

-- The DNA with the uuid of its configuration, whose hash is then written into the configuration; or
-- the test of the hashes.
unfoldable pub fix_dna : Host → DnaConfiguration → Dna → Option ℕ → M Dna
unfolding check_dna_consistency check_dna_consistency_from_all_sources
fix_dna host d dna (some uuid) = do
  let dna' : Dna = record dna { uuid = uuid }
  modify (λ st. record st { config = update_dna_hash_by_id d.id (host.address_of dna') st.config })
  save_config host
  pure dna'
fix_dna host d dna none = do
  elim (host.load d.file) [
    | none ↦ check_dna_consistency d.hash (host.address_of dna)
    | some again ↦
        check_dna_consistency_from_all_sources d.hash (host.address_of dna) (host.address_of again)
  ]
  pure dna

-- An instance is created once its network is initialized.
unfoldable pub instantiate_from_config : Host → ℕ → M Instance
unfolding agent_config_to_id note_test_agent get_p2p_config build_tracer build_conductor_api fix_dna
instantiate_from_config host id = do
  c ← gets (λ st. st.config)
  check host c
  i ← some_or (instance_not_in_config id) (instance_by_id c id)
  a ← unwrap (agent_by_id c i.agent)
  agent_address ← agent_config_to_id host a
  note_test_agent host a agent_address
  get_p2p_config
  build_tracer host i.id
  guard (host.open_storage i.storage) io
  api ← build_conductor_api host i.id
  c' ← gets (λ st. st.config)
  d ← unwrap (dna_by_id c' i.dna)
  dna ← some_or (could_not_load d.file) (host.load d.file)
  dna' ← fix_dna host d dna d.uuid
  guard (host.create_instance dna') io
  pure (record { active = false; api = api; network = true })

-- `self.instances.insert(id, instance)`
unfoldable pub insert_instance : ℕ → Instance → M (Unit {0})
insert_instance id i st = returned tt (record st { instances = Map.insert id i st.instances })

-- The bridge that is required and its callee, which has to be active.
unfoldable pub require_bridge : Dna.Bridge → M (Unit {0})
require_bridge definition =
    if is_required definition.presence
    then (do
      c ← gets (λ st. st.config)
      b ←
          some_or (required_bridge_missing definition.handle)
            (find (λ (b : Bridge). b.handle == definition.handle) c.bridges)
      instances ← gets (λ st. st.instances)
      callee ← some_or (required_bridge_missing definition.handle) (get b.callee_id instances)
      guard callee.active (required_bridge_missing definition.handle))
    else pure tt

unfoldable pub for_each_in : {A : Type 0} → (A → M (Unit {0})) → List A → M (Unit {0})
for_each_in f [] = pure tt
for_each_in f (x ∷ xs) = f x >> for_each_in f xs

-- Conductor::start_instance with Holochain::start. The DNA that the instance runs is given.
unfoldable pub start_instance : (ℕ → Option Dna) → ℕ → M (Unit {0})
unfolding require_bridge for_each_in
start_instance dna_of id = do
  found ← gets (λ st. get id st.instances)
  i ← some_or none_error found
  dna ← some_or none_error (dna_of id)
  for_each_in (λ (z : ℕ × Zome). for_each_in require_bridge z.1.bridges) dna.zomes
  guard (if i.active then false else true) (instance_already_active id)
  insert_instance id (record i { active = true })

-- Conductor::dpki_bootstrap with start_dpki_instance
unfoldable pub dpki_bootstrap : Host → Option DpkiConfiguration → M (Unit {0})
unfolding instantiate_from_config
dpki_bootstrap host none = pure tt
dpki_bootstrap host (some dpki) = do
  i ← instantiate_from_config host dpki.instance_id
  insert_instance dpki.instance_id (record i { active = true })
  guard (host.dpki_init dpki.instance_id) io

-- The instances in their order, but for those that are there.
unfoldable pub instantiate_all : Host → List ℕ → M (Unit {0})
unfolding instantiate_from_config
instantiate_all host [] = pure tt
instantiate_all host (id ∷ ids) = do
  there ← gets (λ st. is_some (get id st.instances))
  if there then pure tt else (instantiate_from_config host id >>= insert_instance id)
  instantiate_all host ids

-- `self.config.instance_ids_sorted_by_bridge_dependencies()?`
unfoldable pub sorted_ids : Sorted → M (List ℕ)
sorted_ids (sorted ids) = pure ids
sorted_ids (not_found caller callee) =
    raise (config_error (bridge_instance_not_found caller callee))
sorted_ids cyclic = raise (config_error cyclic_dependency)
sorted_ids Sorted.panicked = unwrap none

-- `self.config.interface_by_id(..).unwrap()`, for a UI interface that has one.
unfoldable pub connected_dna_interface : Configuration → Option ℕ → M (Unit {0})
connected_dna_interface c none = pure tt
connected_dna_interface c (some id) =
    unwrap (if is_some (interface_by_id c id) then some tt else none)

-- The loop over the UI interfaces, without the static servers that it makes.
unfoldable pub add_static_server : UiInterfaceConfiguration → M (Unit {0})
unfolding connected_dna_interface
add_static_server ui = do
  c ← gets (λ st. st.config)
  bundle ← some_or none_error (ui_bundle_by_id c ui.bundle)
  connected_dna_interface c ui.dna_interface

unfoldable pub boot_from_config : Host → M (Unit {0})
unfolding dpki_bootstrap instantiate_all for_each_in add_static_server
boot_from_config host = do
  c ← gets (λ st. st.config)
  check host c
  modify (λ st. record st { p2p_config = true })
  dpki_bootstrap host c.dpki
  c' ← gets (λ st. st.config)
  ids ← sorted_ids (instance_ids_sorted_by_bridge_dependencies host.toposort c')
  instantiate_all host ids
  booted ← gets (λ st. st.config)
  for_each_in add_static_server booted.ui_interfaces

-- Conductor::start_all_instances: in the order of the configuration; an instance that is active already
-- is no error.
unfoldable pub unless_active : M (Unit {0}) → M (Unit {0})
unless_active m st = elim (m st) [
  | returned a st' ↦ returned tt st'
  | raised e st' ↦ elim e [
    | instance_already_active id ↦ returned tt st'
    | other ↦ raised other st'
  ]
  | panicked ↦ panicked
]

unfoldable pub start_all_instances : (ℕ → Option Dna) → M (Unit {0})
unfolding start_instance for_each_in
start_all_instances dna_of = do
  c ← gets (λ st. st.config)
  for_each_in (λ (i : InstanceConfiguration). unless_active (start_instance dna_of i.id))
      c.instances
