-- ===== src/Conductor/State.antt =====
-- The conductor's state and the steps that its operations are made of: crates/conductor_lib/src/
-- conductor/base.rs. An operation is a function of the state that returns, raises an error or panics; a
-- raised error keeps the state that it found. `Host` is what the conductor reaches outside itself: the
-- DNA loader, hashes, petgraph's sort, the key store, the storage of instances and the disk.
use rust_holochain.Base.{ℕ, Bool, true, false, Option, none, some, List, if◌then◌else◌}
use rust_holochain.Base.Map
use rust_holochain.Base.Map.{Map, get}
use rust_holochain.Base.Set
use rust_holochain.Base.Set.{Set, contains}
use rust_holochain.Conductor.Dna.{Dna}
use rust_holochain.Conductor.Config.{
  Configuration, StorageConfiguration, InterfaceConfiguration, interface_by_id,
}
use rust_holochain.Conductor.Checks.{Checked, ConfigError, passed, failed}
use rust_holochain.Conductor.Consistency.{check_consistency}

-- What `write` does with the text of a configuration: it may take a part of it and say so only by the
-- count that it returns, which save_config does not look at.
pub data Write : Type 0 where
  whole_write : Write
  short_write : Write
  failed_write : Write

-- The conductor's configuration file: not there, a configuration in full, or cut short, which does not
-- load.
pub data SavedFile : Type 0 where
  no_file : SavedFile
  whole_file : Configuration → SavedFile
  cut_file : SavedFile

pub record Host : Type 0 where
  pub load : ℕ → Option Dna
  pub address_of : Dna → ℕ
  pub toposort : ℕ → List (ℕ × ℕ) → Option (List ℕ)
  -- The address of an agent's keys, where they can be loaded; whether the service URIs are set.
  pub keybundle : ℕ → Option ℕ
  pub has_service_uris : Bool
  -- Whether an instance's tracer is built (a Jaeger socket address may not parse), a storage
  -- opens, and a chain loads or starts.
  pub tracer_builds : ℕ → Bool
  pub open_storage : StorageConfiguration → Bool
  pub create_instance : Dna → Bool
  -- Whether the directory and the file of a configuration can be created, which empties the file, and
  -- what comes of serializing and writing it.
  pub can_create : Configuration → Bool
  pub write : Configuration → Write
  -- Whether an interface's server starts, and its thread takes the signal to stop.
  pub can_run : InterfaceConfiguration → Bool
  pub takes_kill : ℕ → Bool
  pub create_dir : ℕ → Bool
  pub save_dna : Dna → Option ℕ
  -- `instance_storage_dir_path().join(id)`, and `json_patch::merge` of a DNA's properties.
  pub storage_path : ℕ → ℕ
  pub merge_properties : ℕ → Dna → Dna
  -- A new key store of an agent, by its identifier: the file and the address; the same by the dpki
  -- instance, and whether that instance can be initialised.
  pub new_keystore : ℕ → Option (ℕ × ℕ)
  pub dpki_keystore : ℕ → Option (ℕ × ℕ)
  pub dpki_init : ℕ → Bool

-- An instance that runs or waits, with the bridges of its conductor API, handle to callee, and whether its
-- network is initialized.
pub record Instance : Type 0 where
  pub active : Bool
  pub api : Map ℕ
  pub network : Bool

pub record Conductor : Type 0 where
  pub config : Configuration
  pub instances : Map Instance
  pub agent_keys : Set
  pub interface_threads : Set
  pub saved : SavedFile
  -- Whether the network's configuration is made already.
  pub p2p_config : Bool

pub data Error : Type 0 where
  config_error : ConfigError → Error
  invalid_storage : ℕ → Error
  could_not_load : ℕ → Error
  hash_mismatch : ℕ → ℕ → Error
  properties_without_copy : Error
  io : Error
  key_error : ℕ → Error
  none_error : Error
  instance_not_in_config : ℕ → Error
  interface_exists : ℕ → Error
  no_such_interface : ℕ → Error
  interface_already_started : ℕ → Error
  interface_not_stopped : ℕ → Error
  instance_in_interface : ℕ → ℕ → Error
  instance_not_in_interface : ℕ → ℕ → Error
  agent_exists : ℕ → Error
  no_such_agent : ℕ → Error
  bridge_exists : ℕ → ℕ → Error
  no_such_bridge : ℕ → ℕ → Error
  instance_not_active : ℕ → Error
  instance_already_active : ℕ → Error
  required_bridge_missing : ℕ → Error

pub data Step (A : Type 0) : Type 0 where
  returned : A → Conductor → Step A
  raised : Error → Conductor → Step A
  panicked : Step A

abbrev pub M : Type 0 → Type 0
M A = Conductor → Step A

infixl 5 ◌>>=◌ ◌>>◌
unfoldable pub ◌>>=◌ : {A B : Type 0} → M A → (A → M B) → M B
◌>>=◌ m f st = elim (m st) [
  | returned a st' ↦ f a st'
  | raised e st' ↦ raised e st'
  | panicked ↦ panicked
]

abbrev pub ◌>>◌ : {B : Type 0} → M (Unit {0}) → M B → M B
m >> k = m >>= λ _. k

unfoldable pub pure : {A : Type 0} → A → M A
pure a st = returned a st

unfoldable pub raise : {A : Type 0} → Error → M A
raise e st = raised e st

-- `value.ok_or_else(|| e)?` and `value.unwrap()`.
unfoldable pub some_or : {A : Type 0} → Error → Option A → M A
some_or e none st = raised e st
some_or e (some a) st = returned a st

unfoldable pub unwrap : {A : Type 0} → Option A → M A
unwrap none st = panicked
unwrap (some a) st = returned a st

unfoldable pub guard : Bool → Error → M (Unit {0})
guard true e st = returned tt st
guard false e st = raised e st

-- `let _ = operation;`
unfoldable pub ignore : M (Unit {0}) → M (Unit {0})
ignore m st = elim (m st) [
  | returned a st' ↦ returned tt st'
  | raised e st' ↦ returned tt st'
  | panicked ↦ panicked
]

unfoldable pub gets : {A : Type 0} → (Conductor → A) → M A
gets f st = returned (f st) st

unfoldable pub modify : (Conductor → Conductor) → M (Unit {0})
modify f st = returned tt (f st)

unfoldable pub set_config : Configuration → M (Unit {0})
set_config c st = returned tt (record st { config = c })

-- `config.check_consistency(..)?`
unfoldable pub checked : Checked → M (Unit {0})
checked passed st = returned tt st
checked (failed e) st = raised (config_error e) st

abbrev pub check : Host → Configuration → M (Unit {0})
check host c = checked (check_consistency host.load host.address_of host.toposort c)

-- Conductor::save_config
unfoldable pub save_config : Host → M (Unit {0})
save_config host st =
    if host.can_create st.config
    then (elim (host.write st.config) [
      | whole_write ↦ returned tt (record st { saved = whole_file st.config })
      | short_write ↦ returned tt (record st { saved = cut_file })
      | failed_write ↦ raised io (record st { saved = cut_file })
    ])
    else raised io st

-- Conductor::stop_interface_by_id and Conductor::start_interface_by_id
unfoldable pub stop_interface_by_id : Host → ℕ → M (Unit {0})
stop_interface_by_id host id st =
    if contains st.interface_threads id
    then (if host.takes_kill id
        then returned tt (record st { interface_threads = Set.remove st.interface_threads id })
        else raised (interface_not_stopped id) st)
    else raised (no_such_interface id) st

-- A server that does not start is an `unwrap` in spawn_interface_thread.
unfoldable pub start_interface : Host → InterfaceConfiguration → M (Unit {0})
start_interface host interface st =
    if contains st.interface_threads interface.id
    then raised (interface_already_started interface.id) st
    else (if host.can_run interface
        then returned tt
            (record st { interface_threads = Set.insert st.interface_threads interface.id })
        else panicked)

unfoldable pub start_interface_by_id : Host → ℕ → M (Unit {0})
unfolding start_interface
start_interface_by_id host id = do
  interface ← gets (λ st. interface_by_id st.config id)
  interface' ← some_or (no_such_interface id) interface
  start_interface host interface'

-- Conductor::stop_instance with Holochain::stop, which shuts the network down.
unfoldable pub stop_instance : ℕ → M (Unit {0})
stop_instance id = do
  found ← gets (λ st. get id st.instances)
  instance' ← some_or none_error found
  guard instance'.active (instance_not_active id)
  modify (λ st. record st {
    instances = Map.insert id (record instance' { active = false; network = false }) st.instances;
  })
