-- ===== src/Exec/Context.antt =====
-- What an instruction of a state machine reads and writes: its state machine, the GPIO lines, the IRQ
-- flags, the table of labels, and the instruction itself. The instruction lies in the memory of the
-- PIO, or in the field `exec_instruction` of its state machine, where a decode overwrites it.
use simpio.Base.{ℕ, ℤ, Bool, List}
use simpio.Instruction.{Instruction}
use simpio.Hardware.{Sm, Gpio}

pub record Context : Type 0 where
  pub sm : Sm
  pub program_instruction : Instruction
  pub gpios : List Gpio
  pub irq_flags : List Bool
  pub label_locations : List ℕ
  pub next_instruction_location : ℤ

-- Where the pointer `instruction` of a handler points.
pub data Place : Type 0 where
  in_program in_exec : Place

abbrev pub at_place : Place → Context → Instruction
at_place in_program c = c.program_instruction
at_place in_exec c = c.sm.exec_instruction

abbrev pub put_at : Place → Instruction → Context → Context
put_at in_program i c = record c { program_instruction = i }
put_at in_exec i c = record c { sm = record c.sm { exec_instruction = i } }

-- A handler's result: whether the instruction completed, and the state that it leaves.
abbrev pub Outcome : Type 0
Outcome = Bool × Context
