-- ===== src/Conductor/Checks.antt =====
-- The results of the checks of crates/conductor_lib/src/config.rs, and the two that read identifiers and
-- paths only: detect_dupes and Configuration::check_instances_storage. A message is its kind with what
-- it names. `panicked` is an `unwrap` that fails.
use rust_holochain.Base.{ℕ, Bool, true, false, Option, none, some, List, [], ◌∷◌, if◌then◌else◌}
use rust_holochain.Base.Set.{Set, contains}
use rust_holochain.Conductor.Dna.{FnDeclaration}
use rust_holochain.Conductor.Config.{
  Configuration, InstanceConfiguration, StorageConfiguration, memory, file, pickle, lmdb,
}

pub data Kind : Type 0 where
  agents : Kind
  dnas : Kind
  instances : Kind
  interfaces : Kind

pub data ConfigError : Type 0 where
  duplicate_ids : Kind → List ℕ → ConfigError
  duplicate_storage : ConfigError
  agent_not_found : ℕ → ℕ → ConfigError
  dna_not_found : ℕ → ℕ → ConfigError
  could_not_load : ℕ → ConfigError
  required_bridge_missing : ℕ → ℕ → ConfigError
  instance_not_found_in_interface : ℕ → ConfigError
  instance_not_found_in_bridge : ℕ → ConfigError
  no_bridge_definition : ℕ → ℕ → ConfigError
  wrong_callee_address : ℕ → ℕ → ℕ → ℕ → ℕ → ConfigError
  trait_not_implemented : ℕ → ℕ → ℕ → List FnDeclaration → ConfigError
  ui_bundle_not_found : ℕ → ℕ → ConfigError
  dna_interface_not_found : ℕ → ℕ → ConfigError
  instance_not_found_in_dpki : ℕ → ConfigError
  bridge_instance_not_found : ℕ → ℕ → ConfigError
  cyclic_dependency : ConfigError
  panicked : ConfigError

pub data Checked : Type 0 where
  passed : Checked
  failed : ConfigError → Checked

-- `check?; rest`
infixl 5 ◌>>◌
abbrev pub ◌>>◌ : Checked → Checked → Checked
passed >> k = k
failed e >> k = failed e

-- `test.ok_or_else(|| e)?`
abbrev pub ensure : Bool → ConfigError → Checked
ensure true e = passed
ensure false e = failed e

module _ {ℓ} {A : Type ℓ} where
  abbrev pub for_each : (A → Checked) → List A → Checked
  for_each check [] = passed
  for_each check (x ∷ xs) = check x >> for_each check xs

  -- `value.ok_or_else(|| e)?`, with what follows.
  abbrev pub ok_or : Option A → ConfigError → (A → Checked) → Checked
  ok_or none e k = failed e
  ok_or (some x) e k = k x

-- The items that are in the set already.
unfoldable pub dupes : Set → List ℕ → List ℕ
dupes seen [] = []
dupes seen (x ∷ xs) = if contains seen x then x ∷ dupes seen xs else dupes (x ∷ seen) xs

abbrev pub no_dupes : Kind → List ℕ → Checked
no_dupes kind [] = passed
no_dupes kind (x ∷ xs) = failed (duplicate_ids kind (x ∷ xs))

unfoldable pub detect_dupes : Kind → List ℕ → Checked
unfolding dupes
detect_dupes kind items = no_dupes kind (dupes [] items)

unfoldable pub add_storage_path : StorageConfiguration → List ℕ → List ℕ
add_storage_path memory rest = rest
add_storage_path (file path) rest = path ∷ rest
add_storage_path (pickle path) rest = path ∷ rest
add_storage_path (lmdb path initial_mmap_bytes) rest = path ∷ rest

unfoldable pub storage_paths : List InstanceConfiguration → List ℕ
unfolding add_storage_path
storage_paths [] = []
storage_paths (i ∷ is) = add_storage_path i.storage (storage_paths is)

-- `storage_paths.iter().all(|&x| path_set.insert(x))`
unfoldable pub all_new : Set → List ℕ → Bool
all_new path_set [] = true
all_new path_set (x ∷ xs) =
    let rest = all_new (x ∷ path_set) xs in if contains path_set x then false else rest

unfoldable pub check_instances_storage : Configuration → Checked
unfolding storage_paths all_new
check_instances_storage c = ensure (all_new [] (storage_paths c.instances)) duplicate_storage
