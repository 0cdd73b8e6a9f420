-- ===== src/Conductor/Installing.antt =====
-- The functions of the admin interface that install and remove DNAs and instances, of
-- crates/conductor_lib/src/conductor/admin.rs, and the steps by which all of its functions change the
-- configuration. Each one edits a copy, checks it, takes it over, saves it, and then brings what runs up
-- to date. Notifications and the signal multiplexer are left out.
use rust_holochain.Base.{
  ℕ, Bool, Option, none, some, List, [], ◌∷◌, ◌++◌, not, map, ◌==◌, if◌then◌else◌, filter,
}
use rust_holochain.Base.Map
use rust_holochain.Base.Map.{Map, get}
use rust_holochain.Conductor.Dna.{Dna}
use rust_holochain.Conductor.Config.{
  Configuration, DnaConfiguration, InstanceConfiguration, StorageConfiguration, memory, file,
  pickle, lmdb, save_remove_instance,
}
use rust_holochain.Conductor.State.{
  Host, M, ◌>>=◌, ◌>>◌, pure, raise, some_or, guard, ignore, gets, modify, set_config, check,
  save_config, stop_instance, invalid_storage, could_not_load, hash_mismatch,
  properties_without_copy, io,
}
use rust_holochain.Conductor.Instances.{instantiate_from_config, insert_instance, for_each_in}

-- `new_config.check_consistency(..)?; self.config = new_config; self.save_config()?`
unfoldable pub commit : Host → Configuration → M (Unit {0})
unfolding save_config
commit host c = do check host c; set_config c; save_config host

unfoldable pub check_hash : Host → Option ℕ → Dna → M (Unit {0})
check_hash host none dna = pure tt
check_hash host (some provided_hash) dna =
    guard (host.address_of dna == provided_hash) (hash_mismatch provided_hash (host.address_of dna))

unfoldable pub with_properties : Host → Bool → Option ℕ → Dna → M Dna
with_properties host copy none dna = pure dna
with_properties host copy (some props) dna =
    if copy then pure (host.merge_properties props dna) else raise properties_without_copy

abbrev pub with_uuid : Option ℕ → Dna → Dna
with_uuid none dna = dna
with_uuid (some uuid) dna = record dna { uuid = uuid }

unfoldable pub install_dna_from_file : Host → ℕ → ℕ → Bool → Option ℕ → Option ℕ → Option ℕ → M ℕ
unfolding check_hash with_properties commit
install_dna_from_file host path id copy expected_hash properties uuid = do
  dna ← some_or (could_not_load path) (host.load path)
  check_hash host expected_hash dna
  merged ← with_properties host copy properties dna
  let dna' : Dna = with_uuid uuid merged
  config_path ← some_or io (if copy then host.save_dna dna' else some path)
  c ← gets (λ st. st.config)
  let new_dna : DnaConfiguration = record {
    id = id;
    file = config_path;
    hash = host.address_of dna';
    uuid = uuid;
  }
  commit host (record c { dnas = c.dnas ++ (new_dna ∷ []) })
  pure (host.address_of dna')

-- `for id in instance_ids { new_config = new_config.save_remove_instance(id) }`
unfoldable pub remove_instances : List ℕ → Configuration → Configuration
remove_instances [] c = c
remove_instances (id ∷ ids) c = remove_instances ids (save_remove_instance c id)

abbrev pub ids_where : (InstanceConfiguration → Bool) → Configuration → List ℕ
ids_where p c = map (λ (i : InstanceConfiguration). i.id) (filter p c.instances)

-- An instance that does not stop is only reported.
unfoldable pub stop_instances : List ℕ → M (Unit {0})
unfolding for_each_in stop_instance
stop_instances ids = for_each_in (λ id. ignore (stop_instance id)) ids

unfoldable pub uninstall_dna : Host → ℕ → M (Unit {0})
unfolding commit remove_instances stop_instances
uninstall_dna host id = do
  c ← gets (λ st. st.config)
  let kept : Configuration = record c {
    dnas = filter (λ (d : DnaConfiguration). not (d.id == id)) c.dnas;
  }
  let ids : List ℕ = ids_where (λ i. i.dna == id) kept
  commit host (remove_instances ids kept)
  stop_instances ids

-- The names of the storage option: "memory", "file", "pickle", "lmdb" or another text.
pub data StorageOption : Type 0 where
  memory_option : StorageOption
  file_option : StorageOption
  pickle_option : StorageOption
  lmdb_option : StorageOption
  unknown_option : ℕ → StorageOption

unfoldable pub storage_of : ℕ → Option StorageOption → M StorageConfiguration
storage_of path none = pure (lmdb path none)
storage_of path (some memory_option) = pure memory
storage_of path (some file_option) = pure (file path)
storage_of path (some pickle_option) = pure (pickle path)
storage_of path (some lmdb_option) = pure (lmdb path none)
storage_of path (some (unknown_option s)) = raise (invalid_storage s)

unfoldable pub add_instance : Host → ℕ → ℕ → ℕ → Option StorageOption → M (Unit {0})
unfolding storage_of instantiate_from_config save_config
add_instance host id dna_id agent_id storage = do
  c ← gets (λ st. st.config)
  let path : ℕ = host.storage_path id
  guard (host.create_dir path) io
  storage_config ← storage_of path storage
  let new_instance : InstanceConfiguration = record {
    id = id;
    dna = dna_id;
    agent = agent_id;
    storage = storage_config;
  }
  let new_config : Configuration = record c { instances = c.instances ++ (new_instance ∷ []) }
  check host new_config
  set_config new_config
  i ← instantiate_from_config host id
  insert_instance id i
  save_config host

unfoldable pub remove_instance : Host → ℕ → M (Unit {0})
unfolding commit stop_instance
remove_instance host id = do
  c ← gets (λ st. st.config)
  commit host (save_remove_instance c id)
  ignore (stop_instance id)
  modify (λ st. record st { instances = Map.remove id st.instances })
