-- ===== src/Conductor/Invariant.antt =====
-- The invariant of the conductor's configuration across the boot and any sequence of calls of the admin
-- interface: crates/conductor_lib/src/conductor/base.rs and admin.rs.
use rust_holochain.Base.{Option, none, some}
use rust_holochain.Conductor.State.{Host, Conductor}
use rust_holochain.Conductor.Soundness.{IsSound}

-- The last state of a run, where there is one.
abbrev AllSound : Host → Option Conductor → Type 0
AllSound host none = Unit
AllSound host (some st) = IsSound host st
