-- ===== src/Hardware.antt =====
-- inc/hardware.h and src/hardware.c: the state of the simulated hardware and its accessors.
pub mod Lines
use simpio.Base.{ℕ, ℤ, pos, negsuc, Bool, List, ◌+◌, ◌-◌, ◌%◌, ◌^◌, ltb, if◌then◌else◌}
use simpio.Fifo.{Fifo}
use simpio.Instruction.{Instruction, UserInstruction}

abbrev pub num_gpios : ℕ
num_gpios = 32

abbrev pub num_irq_flags : ℕ
num_irq_flags = 8

pub record Gpio : Type 0 where
  pub value : Bool
  -- `true` is output.
  pub pindir : Bool

-- `sm_t`, but for the name of its program and the pointer to its PIO, whose number is `pio_num`.
pub record Sm : Type 0 where
  pub pc : ℤ
  pub fifo : Fifo
  pub scratch_x : ℕ
  pub scratch_y : ℕ
  pub osr : ℕ
  pub isr : ℕ
  pub first_pc : ℤ
  pub pin_condition : ℕ
  pub set_pins_base : ℕ
  pub set_pins_num : ℕ
  pub out_pins_base : ℕ
  pub out_pins_num : ℕ
  pub in_pins_base : ℕ
  pub side_set_pins_base : ℕ
  pub side_set_pins_num : ℕ
  pub side_set_pins_optional : Bool
  pub side_set_pindirs : Bool
  pub autopush : Bool
  pub autopull : Bool
  pub side_set_count : ℕ
  pub shift_in_count : ℕ
  pub shift_out_count : ℕ
  pub shiftctl_pull_thresh : ℤ
  pub shiftctl_push_thresh : ℤ
  pub shiftctl_out_shiftdir : Bool
  pub shiftctl_in_shiftdir : Bool
  pub wrap : ℤ
  pub wrap_target : ℤ
  pub clock_tick : ℕ
  pub pc_temp : ℕ
  pub shift_out_resume_count : ℕ
  pub shift_in_resume_count : ℕ
  pub exec_machine_instruction : ℕ
  pub exec_instruction : Instruction
  pub pio_num : ℕ
  pub this_num : ℕ
  pub osr_empty : Bool
  pub isr_full : Bool

-- Conversions between C's integer types.
abbrev pub u8 : ℕ → ℕ
u8 x = x % 2 ^ 8

abbrev pub u8_of_int : ℤ → ℕ
u8_of_int (pos n) = u8 n
u8_of_int (negsuc n) = 255 - u8 n

abbrev pub int_of_u32 : ℕ → ℤ
int_of_u32 x = if ltb x (2 ^ 31) then pos x else negsuc (2 ^ 32 - x - 1)

abbrev pub u32_of_int : ℤ → ℕ
u32_of_int (pos n) = n % 2 ^ 32
u32_of_int (negsuc n) = 2 ^ 32 - 1 - n % 2 ^ 32
