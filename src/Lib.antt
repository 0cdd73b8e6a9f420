-- ===== src/Lib.antt =====
-- Verification of the Rust core of Holochain: the switchboard server sim2h, the state of a node's
-- DHT shard and nucleus, the source chain of an agent, the memory that a zome shares with it, and the
-- conductor that runs instances of applications together.
--
-- The program. Nodes commit entries to their own source chain (crates/core/src/agent) and publish
-- aspects of them. The server sim2h (crates/sim2h) knows who is connected and who holds which
-- aspect, decides who should hold an entry, and tells the agents what they miss. A node that is
-- told to hold an aspect queues it for validation, and writes it to its shard when it is valid
-- (crates/core/src/dht). The nucleus of a node (crates/core/src/nucleus) queues the calls of zome
-- functions, which get their arguments and give their results through WASM memory
-- (crates/wasm_utils/src/memory). The conductor (crates/conductor_lib) holds the configuration of the
-- instances of a machine: which agent runs which DNA, and the bridges by which one instance calls
-- another. It checks the configuration, makes the instances in an order that respects the bridges, and
-- changes it through its admin interface.
--
-- Files and code:
--   Base and its children: lists, sets, maps and tests on native numbers. `Base.Map` and
--     `Base.Set` stand for the maps and sets of the crate im and of std; `Unique` says that a key
--     stands once.
--   Sim2h.Sharding: crates/sim2h/src/naive_sharding.rs, and `should_store`.
--   Sim2h.Space, Sim2h.Store: `Space` and `Store` of crates/sim2h/src/sim2h_im_state.rs, function
--     by function. `AolEntry` is the message type, `mutate` handles one message, and `run` is the
--     task that handles them in order. Their children hold the invariants (Coherent), what the
--     queries answer (Gossip, Query), the rounds of gossip (Rounds), joining (Connect), leaving
--     (Drops), holding (Holding), single messages (Runs) and the whole task (Task).
--   Sim2h.Server: the message handlers of crates/sim2h/src/lib.rs (Handlers) as lists of effects
--     (Effects), on the messages of Server.Wire (crates/sim2h/src/wire_message.rs), and which message
--     goes to which handler; Server.Payload is the way from a
--     frame to a message, with its signature (Signatures, crates/sim2h/src/crypto.rs), and
--     Server.Resync the periodic search for missing aspects. Confinement, Delivery and Gossip say
--     what messages can bring about, who is sent what, and what reaches the store.
--   CoreTypes: entries, headers, links and aspects of crates/core_types.
--   Net.AspectMap: crates/net/src/aspect_map.rs.
--   Dht.Pending: crates/core/src/dht/pending_validations.rs, with the dependencies of
--     crates/core/src/entry/validation_dependencies.rs.
--   Dht.Store: `DhtStore` of crates/core/src/dht/dht_store.rs, its two queues (Queues), the
--     choice of what runs next (Next, Schedule), with the delays of crates/core/src/instance.rs.
--   Dht.Persistence: the storages, and the metadata of crates/core_types/src/eav and
--     crates/core_types/src/crud_status.rs.
--   Dht.Inner, Dht.Reducers: crates/core/src/dht/dht_inner_reducers.rs and dht_reducers.rs;
--     children for holding (Hold), pruning (Prune) and the queues under all actions (Once).
--   Agent.Chain: the iterators and the query of crates/core/src/agent/chain_store.rs, and chains
--     that are linked as they should be (Linked).
--   Agent.State: crates/core/src/agent/state.rs, with the commit (Commit), the lookup of an
--     entry's header (Recent).
--   Nucleus: crates/core/src/nucleus/state.rs and its reducers, with the zome calls that run
--     (Scheduling) and the records of HDK calls (Tracing).
--   Network: the tables of crates/core/src/network/state.rs (State) and their reducers (Reducers), with
--     the life of a query (Answers).
--   Wasm.Bits: crates/core_types/src/bits_n_pieces.rs.
--   Wasm.Encoding: crates/core_types/src/error/ribosome_error.rs, and what survives it (RoundTrip).
--   Wasm.Memory: allocations and the stack of crates/wasm_utils/src/memory (Stack), and the strings
--     that are written to it and read from it (Strings).
--   Conductor.Dna, Conductor.Config: what is read of a DNA (crates/core_types/src/dna), and the structs and
--     lookups of crates/conductor_lib/src/config.rs.
--   Conductor.Checks, Requirements, Consistency: `check_consistency` of that file, with what a bridge
--     asks of the DNAs at its ends. Validity says without loops what it is to establish, Passing,
--     Bridging and Parts when its parts pass, and Equivalence compares the two. Without and Removal are
--     about `save_remove_instance`, Updates about the updates that no check reads.
--   Conductor.Sorting: `instance_ids_sorted_by_bridge_dependencies`, with its proof in Positions,
--     Indices, Paths and Order.
--   Conductor.State, Instances: the state and the operations of
--     crates/conductor_lib/src/conductor/base.rs as a monad over the state. Ending, Booting, Boot,
--     Progress, Servers and Bootstrap follow the boot.
--   Conductor.Installing, Admin, Calls: crates/conductor_lib/src/conductor/admin.rs. Soundness, Running,
--     Keepers and Invariant follow the configuration through its calls.
--   The Tests modules apply the theorems to concrete data.
--
-- Conventions. A text, an address or an identifier that is only compared is a number, and so is a
-- payload that nobody looks into. Times and durations are milliseconds. A shared reference that
-- compares as its content (`MonoRef`) is its content. A panic is `none`, or `panics` where a type
-- has it. The text of an error is left out. The counter of the mutations in sim2h (`con_incr`,
-- `aol_idx`) only numbers them.
--
-- Tasks. A handler of the server reads the store each time one of its tasks starts, and other tasks
-- may change it in between: the n-th read of a message is `views n`, and no two reads need agree. The
-- effects of a handler are listed in the order in which the code issues them; what holds of each
-- effect holds for every interleaving of tasks.
--
-- Parameters. `Lib3h` is what sim2h takes from lib3h, rand and the clock: locations, the distance
-- on the ring, the width of a shard (a quotient of floating-point numbers in the code), and the
-- draws; a `Moment` is the clock and the draws, one for each agent and range, while the store handles
-- one message. `Codec` is serde, base64 and sodium, for the payloads of messages. `IsRng` and `IsShuffle`
-- are what rand documents. `Persistence` is the pair of storages of
-- the crate holochain_persistence, which all clones of a state share: the storage is explicit state
-- that is passed on, a failed write may change it, and nothing is rolled back. `IsCas`
-- is what the commit of the source chain relies on: its content storage finds what was added under its
-- address, and an addition, also one that fails, hides nothing that has another address; of a
-- failure the crate does not document this. `Hashing` gives addresses. `Host` is the signing of the
-- conductor and the clock; in the conductor, `Conductor.State.Host` is what it reaches outside itself: the
-- DNA loader and hashes, the key store, the storages, the disk, and `toposort` of the crate petgraph,
-- of which `Sorts` is the documentation, for edges between nodes of the graph. A write to the disk may
-- fail or be short, and then leaves a cut file. What the host answers does not change while the
-- conductor runs. `Names` is the crate globset and the parsing of type names.
--
-- Fuel. The iterators of the source chain run on fuel, as nothing in the code bounds the chain that
-- a storage holds; one more than the length of a linked chain is enough. They are run as lazily as
-- in the code, so a panic behind the last header that is taken does not happen here either. The
-- search for the end of a string in WASM memory runs on fuel, as the code bounds it by nothing, and
-- the loop over the server's incoming events on the code's own bound of 100.
--
-- Not modelled: the sockets and the connection manager of the server, the clone of the store that
-- readers get, threads, the run of zome functions in WASM, serialisation, the reducers of the network
-- slice that only publish, respond, start or stop, the JSON-RPC handlers, UI bundles, static servers, signals
-- and logging of the conductor, and the tools and bindings around the core. get_links and get_headers of the DHT
-- store are left out too.
pub mod Base
pub mod Sim2h
pub mod CoreTypes
pub mod Net
pub mod Dht
pub mod Agent
pub mod Nucleus
pub mod Network
pub mod Wasm
pub mod Conductor
