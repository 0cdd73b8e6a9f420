-- ===== src/Conductor.antt =====
-- The conductor: crates/conductor_lib/src, the process that holds the configuration of a set of
-- instances, checks it, starts its instances in an order that respects their bridges, and changes it
-- by the functions of its admin interface.
pub mod Dna
pub mod Config
pub mod Sorting
pub mod Positions
pub mod Indices
pub mod Paths
pub mod Order
pub mod Checks
pub mod Requirements
pub mod Consistency
pub mod Passing
pub mod Validity
pub mod Bridging
pub mod Parts
pub mod Equivalence
pub mod Servers
pub mod State
pub mod Instances
pub mod Installing
pub mod Admin
pub mod Calls
pub mod Soundness
pub mod Updates
pub mod Without
pub mod Removal
pub mod Running
pub mod Keepers
pub mod Invariant
pub mod Ending
pub mod Booting
pub mod Boot
pub mod Progress
pub mod Bootstrap
mod Tests
