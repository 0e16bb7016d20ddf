-- ===== src/Tests.antt =====
-- The theorems at concrete inputs, and the definitions on runs of the program.
pub mod Text
pub mod Packets
pub mod Tagged
pub mod Hosts
pub mod Waits
pub mod Runs
pub mod Wires
pub mod Commands
pub mod Roots
pub mod Handles
pub mod Systems
pub mod Targets
pub mod Heard
pub mod Mains
