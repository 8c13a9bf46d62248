-- ===== src/Exec.antt =====
-- src/execution.c: what one cycle of a state machine does. `Context` is the state that an instruction
-- can reach; each handler takes it and returns the new one.
pub mod Context
pub mod Flow
pub mod Shift
pub mod Data
pub mod Run
pub mod Branch
pub mod Transfer
pub mod Signal
pub mod Delay
pub mod Frame
pub mod Written
pub mod Kept
pub mod Total
pub mod Pins
