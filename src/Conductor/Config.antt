-- ===== src/Conductor/Config.antt =====
-- The configuration of a conductor: the structs of crates/conductor_lib/src/config.rs and their
-- lookups by identifier. An identifier, a path, a hash, a port and an address is a number. The
-- settings that no check and no admin function reads (logger, tracing, network, signals, the services'
-- URIs, the passphrase service on Unix, the metric publisher) are left out.
use rust_holochain.Base.{
  ℕ, Bool, Option, none, some, List, [], ◌∷◌, not, map, ◌==◌, if◌then◌else◌, filter,
}

pub record AgentConfiguration : Type 0 where
  pub id : ℕ
  pub name : ℕ
  pub public_address : ℕ
  pub keystore_file : ℕ
  pub holo_remote_key : Option Bool
  pub test_agent : Option Bool

pub record DnaConfiguration : Type 0 where
  pub id : ℕ
  pub file : ℕ
  pub hash : ℕ
  pub uuid : Option ℕ

pub data StorageConfiguration : Type 0 where
  memory : StorageConfiguration
  file : ℕ → StorageConfiguration
  pickle : ℕ → StorageConfiguration
  lmdb : ℕ → Option ℕ → StorageConfiguration

pub record InstanceConfiguration : Type 0 where
  pub id : ℕ
  pub dna : ℕ
  pub agent : ℕ
  pub storage : StorageConfiguration

pub data InterfaceDriver : Type 0 where
  websocket : ℕ → InterfaceDriver
  http : ℕ → InterfaceDriver
  domain_socket : ℕ → InterfaceDriver
  custom : ℕ → InterfaceDriver

pub record InstanceReferenceConfiguration : Type 0 where
  pub id : ℕ
  pub alias : Option ℕ

pub record InterfaceConfiguration : Type 0 where
  pub id : ℕ
  pub driver : InterfaceDriver
  pub admin : Bool
  pub instances : List InstanceReferenceConfiguration
  pub choose_free_port : Option Bool

pub record Bridge : Type 0 where
  pub caller_id : ℕ
  pub callee_id : ℕ
  pub handle : ℕ

pub record UiBundleConfiguration : Type 0 where
  pub id : ℕ
  pub root_dir : ℕ
  pub hash : Option ℕ

pub record UiInterfaceConfiguration : Type 0 where
  pub id : ℕ
  pub bundle : ℕ
  pub port : ℕ
  pub dna_interface : Option ℕ
  pub reroute_to_root : Bool
  pub bind_address : ℕ

pub record DpkiConfiguration : Type 0 where
  pub instance_id : ℕ
  pub init_params : ℕ

pub record Configuration : Type 0 where
  pub agents : List AgentConfiguration
  pub dnas : List DnaConfiguration
  pub instances : List InstanceConfiguration
  pub interfaces : List InterfaceConfiguration
  pub bridges : List Bridge
  pub ui_bundles : List UiBundleConfiguration
  pub ui_interfaces : List UiInterfaceConfiguration
  pub dpki : Option DpkiConfiguration

-- Iterator::find
abbrev pub find {ℓ} : {A : Type ℓ} → (A → Bool) → List A → Option A
find p [] = none
find p (x ∷ xs) = if p x then some x else find p xs

unfoldable pub agent_by_id : Configuration → ℕ → Option AgentConfiguration
agent_by_id c id = find (λ a. a.id == id) c.agents

unfoldable pub dna_by_id : Configuration → ℕ → Option DnaConfiguration
dna_by_id c id = find (λ d. d.id == id) c.dnas

unfoldable pub instance_by_id : Configuration → ℕ → Option InstanceConfiguration
instance_by_id c id = find (λ i. i.id == id) c.instances

unfoldable pub interface_by_id : Configuration → ℕ → Option InterfaceConfiguration
interface_by_id c id = find (λ i. i.id == id) c.interfaces

unfoldable pub ui_bundle_by_id : Configuration → ℕ → Option UiBundleConfiguration
ui_bundle_by_id c id = find (λ b. b.id == id) c.ui_bundles

unfoldable pub instance_ids : Configuration → List ℕ
instance_ids c = map (λ (i : InstanceConfiguration). i.id) c.instances

unfoldable pub bridge_dependencies : Configuration → ℕ → List Bridge
bridge_dependencies c caller = filter (λ b. b.caller_id == caller) c.bridges

-- Configuration::save_remove_instance: the instance and what the interfaces say of it.
unfoldable pub without_reference : ℕ → InterfaceConfiguration → InterfaceConfiguration
without_reference id interface = record interface {
  instances = filter (λ r. not (r.id == id)) interface.instances;
}

unfoldable pub save_remove_instance : Configuration → ℕ → Configuration
unfolding without_reference
save_remove_instance c id = record c {
  instances = filter (λ i. not (i.id == id)) c.instances;
  interfaces = map (without_reference id) c.interfaces;
}
