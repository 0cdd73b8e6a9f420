-- ===== src/Conductor/Tests.antt =====
-- The conductor's theorems at a configuration of two instances with a bridge that the caller's DNA requires
-- by a trait of the callee's, and runs of the functions.
use rust_holochain.Base.{
  ℕ, suc, ◌≡◌, refl, Bool, true, false, Option, none, some, List, [], ◌∷◌, ◌&&◌, ◌||◌, ◌↔◌, not,
  ◌==◌, ==_iff, if◌then◌else◌, arith, filter, is_some,
}
use Prim.Native.Nat.{zero}
use rust_holochain.Base.Map
use rust_holochain.Base.Map.{get}
use rust_holochain.Base.Set
use rust_holochain.Base.Set.{contains}
use rust_holochain.Conductor.Dna
use rust_holochain.Conductor.Dna.{Dna, Zome, Trait, TraitFns, FnDeclaration, required, trait}
use rust_holochain.Conductor.Config
use rust_holochain.Conductor.Config.{
  Configuration, AgentConfiguration, DnaConfiguration, InstanceConfiguration,
  InterfaceConfiguration, Bridge, DpkiConfiguration, memory, file, websocket, instance_ids,
  save_remove_instance,
}
use rust_holochain.Conductor.Sorting.{
  IsOrder, sorted, not_found, instance_ids_sorted_by_bridge_dependencies,
}
use rust_holochain.Conductor.Requirements.{check_required_bridges, check_bridge_requirements}
use rust_holochain.Conductor.Checks.{passed, failed, instance_not_found_in_bridge}
use rust_holochain.Conductor.Consistency.{check_consistency}
use rust_holochain.Conductor.Order.{IsSorting, instance_ids_sorted_by_bridge_dependencies_lem}
use rust_holochain.Conductor.Validity.{IsConsistent}
use rust_holochain.Conductor.Equivalence.{check_consistency-IsConsistent}
use rust_holochain.Conductor.Removal.{save_remove_instance-IsConsistent}
use rust_holochain.Conductor.Without.{IsUnused}
use rust_holochain.Conductor.State.{
  Host, Conductor, Step, returned, raised, panicked, whole_write, no_file,
}
use rust_holochain.Conductor.Instances.{boot_from_config}
use rust_holochain.Conductor.Calls.{Call, new_agent, drop_bridge, drop_instance, new_instance}
use rust_holochain.Conductor.Installing.{memory_option}
use rust_holochain.Conductor.Ending.{Ends}
use rust_holochain.Conductor.Bootstrap.{boot_from_config_lem}

-- A sort by taking away, round after round, the first node that no remaining edge enters.
abbrev enters : ℕ → List ℕ → List (ℕ × ℕ) → Bool
enters a left [] = false
enters a left ((x, y) ∷ es) = ((y == a) && contains left x) || enters a left es

abbrev free : List ℕ → List (ℕ × ℕ) → List ℕ → Option ℕ
free left es [] = none
free left es (a ∷ rest) = if enters a left es then free left es rest else some a

abbrev rounds : ℕ → List ℕ → List (ℕ × ℕ) → Option (List ℕ)
rounds zero left es = some []
rounds (suc n) left es = elim (free left es left) [
  | none ↦ none
  | some a ↦ elim (rounds n (filter (λ b. not (b == a)) left) es) [
    | none ↦ none
    | some out ↦ some (a ∷ out)
  ]
]

abbrev below : ℕ → List ℕ → List ℕ
below zero l = l
below (suc n) l = below n (n ∷ l)

abbrev sort : ℕ → List (ℕ × ℕ) → Option (List ℕ)
sort n es = rounds n (below n []) es

abbrev post : FnDeclaration
post = record { name = 30; inputs = []; outputs = [] }

abbrev definition : Dna.Bridge
definition = record {
  presence = required;
  handle = 7;
  reference = trait ((5, record { functions = post ∷ [] }) ∷ []);
}

abbrev client : Dna
client = record {
  uuid = 1;
  zomes = (0, record { traits = []; fn_declarations = []; bridges = definition ∷ [] }) ∷ [];
}

abbrev server : Dna
server = record {
  uuid = 2;
  zomes =
      (
        0,
        record {
          traits = (5, record { functions = 30 ∷ [] }) ∷ [];
          fn_declarations = post ∷ [];
          bridges = [];
        },
      )
      ∷ [];
}

abbrev dna_files : ℕ → Option Dna
dna_files path = if path == 100 then some client else if path == 101 then some server else none

abbrev uuid_of : Dna → ℕ
uuid_of dna = dna.uuid

abbrev alice : AgentConfiguration
alice = record {
  id = 20;
  name = 0;
  public_address = 3;
  keystore_file = 0;
  holo_remote_key = none;
  test_agent = some true;
}

abbrev two_instances : Configuration
two_instances = record {
  agents = alice ∷ [];
  dnas =
      record { id = 10; file = 100; hash = 1; uuid = none }
      ∷ record { id = 11; file = 101; hash = 0; uuid = some 2 }
      ∷ [];
  instances =
      record { id = 1; dna = 10; agent = 20; storage = memory }
      ∷ record { id = 2; dna = 11; agent = 20; storage = file 50 }
      ∷ [];
  interfaces =
      record {
        id = 40;
        driver = websocket 8080;
        admin = true;
        instances = record { id = 1; alias = none } ∷ [];
        choose_free_port = none;
      }
      ∷ [];
  bridges = record { caller_id = 1; callee_id = 2; handle = 7 } ∷ [];
  ui_bundles = [];
  ui_interfaces = [];
  dpki = none;
}

two_instances_sort : IsOrder 2 ((0, 1) ∷ []) (0 ∷ 1 ∷ [])
two_instances_sort = record {
  distinct = (refl, (refl, tt));
  nodes = λ a. ground arith;
  forward = λ a b h. ground (arith, ==_iff 0 a, ==_iff 1 b);
}

instance_ids_sorted_by_bridge_dependencies_lem_example :
    IsSorting
      (instance_ids two_instances)
      two_instances.bridges
      (instance_ids_sorted_by_bridge_dependencies sort two_instances)
unfolding instance_ids
instance_ids_sorted_by_bridge_dependencies_lem_example =
    instance_ids_sorted_by_bridge_dependencies_lem sort two_instances (refl, (refl, tt))
      (λ r. two_instances_sort)

check_consistency-IsConsistent_example :
    (check_consistency dna_files uuid_of sort two_instances ≡ passed)
    ↔ IsConsistent dna_files uuid_of two_instances
unfolding instance_ids
check_consistency-IsConsistent_example =
    check_consistency-IsConsistent dna_files uuid_of sort two_instances (λ r. two_instances_sort)

sorted_run : instance_ids_sorted_by_bridge_dependencies sort two_instances ≡ sorted (2 ∷ 1 ∷ [])
unfolding instance_ids_sorted_by_bridge_dependencies Map.insert
sorted_run = refl

-- A bridge whose caller is no instance is an error before petgraph is called.
unknown_caller_run :
    instance_ids_sorted_by_bridge_dependencies sort
      (record two_instances { bridges = record { caller_id = 9; callee_id = 2; handle = 7 } ∷ [] })
    ≡ not_found 9 2
unfolding instance_ids_sorted_by_bridge_dependencies Map.insert
unknown_caller_run = refl

consistency_run : check_consistency dna_files uuid_of sort two_instances ≡ passed
unfolding check_consistency Config.agent_by_id Config.dna_by_id check_required_bridges
    Config.instance_by_id check_bridge_requirements Dna.declaration_eq
    instance_ids_sorted_by_bridge_dependencies Map.insert
consistency_run = refl

-- The bridge still speaks of the instance that was removed.
removal_run :
    check_consistency dna_files uuid_of sort (save_remove_instance two_instances 2)
    ≡ failed (instance_not_found_in_bridge 2)
unfolding check_consistency save_remove_instance Config.agent_by_id Config.dna_by_id
    check_required_bridges Config.instance_by_id check_bridge_requirements
    instance_ids_sorted_by_bridge_dependencies Map.insert
removal_run = refl

two_instances-IsConsistent : IsConsistent dna_files uuid_of two_instances
unfolding instance_ids
two_instances-IsConsistent =
    (check_consistency-IsConsistent dna_files uuid_of sort two_instances
        (λ r. two_instances_sort)).0
      consistency_run

save_remove_instance-IsConsistent_example :
    IsConsistent dna_files uuid_of (save_remove_instance two_instances 2) ↔ IsUnused 2 two_instances
save_remove_instance-IsConsistent_example =
    save_remove_instance-IsConsistent dna_files uuid_of two_instances 2 two_instances-IsConsistent

abbrev host : Host
host = record {
  load = dna_files;
  address_of = uuid_of;
  toposort = sort;
  keybundle = λ id. some 9;
  has_service_uris = true;
  open_storage = λ storage. true;
  tracer_builds = λ id. true;
  create_instance = λ dna. true;
  can_create = λ c. true;
  write = λ c. whole_write;
  can_run = λ interface. true;
  takes_kill = λ id. true;
  create_dir = λ path. true;
  save_dna = λ dna. none;
  storage_path = λ id. id;
  merge_properties = λ props dna. dna;
  new_keystore = λ id. some (60, 61);
  dpki_keystore = λ id. none;
  dpki_init = λ id. true;
}

abbrev stopped : Conductor
stopped = record {
  config = two_instances;
  instances = [];
  agent_keys = [];
  interface_threads = [];
  saved = no_file;
  p2p_config = false;
}

boot_from_config_lem_example :
    Ends
      (λ u st'.
        (id : ℕ)
        → contains (instance_ids stopped.config) id ≡ true
        → is_some (get id st'.instances) ≡ true)
      (boot_from_config host stopped)
unfolding instance_ids
boot_from_config_lem_example =
    boot_from_config_lem host stopped refl (λ id. refl) refl refl (λ r. two_instances_sort)

abbrev reached : Step (Unit {0}) → Conductor
reached (returned u st) = st
reached (raised e st) = st
reached panicked = stopped

abbrev reached_by : Option Conductor → Conductor
reached_by none = stopped
reached_by (some st) = st

-- Removing the bridge, and the callee, is refused; an agent and an instance are added, and the instance
-- is removed again.
abbrev calls : List Call
calls =
    drop_bridge 1 2
    ∷ drop_instance 2
    ∷ new_agent 21 0 none
    ∷ new_instance 3 11 21 (some memory_option)
    ∷ drop_instance 3
    ∷ []

abbrev booted : Conductor
booted = reached (boot_from_config host stopped)
