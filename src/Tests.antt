-- ===== src/Tests.antt =====
-- The theorems at concrete inputs, and runs of the definitions.
pub mod Samples
pub mod Machines
pub mod Registers
pub mod Queues
pub mod Cycles
pub mod Serial
pub mod Users
pub mod Steps
pub mod Tables
pub mod Sessions
pub mod Texts
