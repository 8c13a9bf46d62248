-- ===== src/System.antt =====
-- The state that the modules of the program share: the arrays of src/hardware.c, the variables of
-- src/instruction.c, the devices, and the static variables of src/execution.c. A pointer into an
-- array is its index.
pub mod Configure
pub mod Reset
pub mod Configured
pub mod Defaults
pub mod Entries
pub mod Table
pub mod Added
pub mod Breakpoints
pub mod Toggled
pub mod Turns
pub mod Fair
pub mod Live
pub mod Retry
pub mod Search
pub mod Interrupt
pub mod Step
pub mod RunAll
pub mod Frame
pub mod Kept
pub mod Total
pub mod Handlers
use simpio.Base.{
  ℕ, ℤ, zero, suc, pos, negsuc, pos_part, Bool, true, false, List, [], ◌∷◌, get_or, Option,
}
use simpio.Fifo.{Fifo}
use simpio.Instruction.{Instruction, UserInstruction}
use simpio.Instruction.Variables.{Variable}
use simpio.Hardware.{Sm, Gpio}
use simpio.User.{UserProcessor}
use simpio.Keypad.{Keypad}
use simpio.Undefined.{Undefined}
use simpio.Flash.{SpifState, SpifPins}

abbrev pub num_pios : ℕ
num_pios = 2

-- The number of state machines of a PIO.
abbrev pub num_sms : ℕ
num_sms = 4

abbrev pub num_user_processors : ℕ
num_user_processors = 2

abbrev pub num_ih_processors : ℕ
num_ih_processors = 2

abbrev pub num_instructions : ℕ
num_instructions = 132

-- `hardware_irq_t`; `on` is its field `set`.
pub record Irq : Type 0 where
  pub enabled : Bool
  pub on : Bool
  pub flag : ℕ

pub record Pio : Type 0 where
  pub irqs : List Irq
  pub instructions : List Instruction
  pub next_instruction_location : ℤ
  pub this_num : ℕ

-- `ih_processor_t`: the fields of a user processor, and one more.
pub record IhProcessor : Type 0 where
  pub processor : UserProcessor
  pub enabled : Bool

-- `hardware_irq_flag_t` but for its field `set`: the fields `set` of all flags are a list of their own.
pub record IrqFlag : Type 0 where
  pub mapped_to_irq : Bool
  pub pio : ℕ
  pub ih : ℕ

-- `define_t`.
pub record Define : Type 0 where
  pub symbol : List ℕ
  pub value : ℕ
  pub defined : Bool

pub data UserInstructionContext : Type 0 where
  up_context ih_context : UserInstructionContext

pub data ExecContext : Type 0 where
  exec_normal exec_interrupt exec_idle : ExecContext

-- Whose turn it was: the static pointer and the static enumerator of a search.
pub record Turn : Type 0 where
  pub current : Option ℕ
  pub e : ℕ

-- Where a static `instruction` or `user_instruction` points: its array and its index there.
abbrev pub Pointer : Type 0
Pointer = ℕ × ℕ

pub data DeviceHandler : Type 0 where
  handle_keypad handle_spi_flash : DeviceHandler

pub record HardwareDevice : Type 0 where
  pub handler : Option DeviceHandler
  pub enabled : Bool

pub record System : Type 0 where
  pub pios : List Pio
  pub sms : List Sm
  pub user_processors : List UserProcessor
  pub ih_processors : List IhProcessor
  pub flags_set : List Bool
  pub irq_flags : List IrqFlag
  pub gpios : List Gpio
  pub variables : List Variable
  pub label_locations : List ℕ
  pub exited : Bool
  -- The static `current_` variables of src/hardware.c, which are -1 before any of them is set.
  pub current_pio : ℤ
  pub current_sm : ℤ
  pub current_up : ℤ
  pub current_ih : ℤ
  pub user_context : UserInstructionContext
  -- The static variables of src/instruction.c.
  pub current_definition : ℕ
  pub current_label : ℕ
  pub definitions : List Define
  pub labels : List (List ℕ)
  pub prev_instruction_was_label : Bool
  pub last_device : ℤ
  -- `current_program_name`, and the names in the state machines.
  pub program_name : List ℕ
  pub program_names : List (List ℕ)
  pub devices : List HardwareDevice
  pub keypad : Keypad
  pub spif : SpifState
  pub spif_pins : SpifPins
  pub storage : List ℕ
  pub exec_context : ExecContext
  pub sm_turn : Turn
  pub user_turn : Turn
  pub instruction : Option Pointer
  pub user_instruction : Option Pointer
  pub last_line : ℤ
  pub try_user_first : Bool

-- What the program reads where C defines nothing: outside an array, and in a variable that is not set
-- (`value` of the instructions that read a FIFO, and a local pointer to a user instruction). `fronts` is
-- what stands in front of the FIFO buffers of a snapshot and of a state machine, by its number.
pub record Outside : Type 0 where
  pub undefined : Undefined
  pub unset_value : ℕ
  pub unset_pointer : Option Pointer
  pub sm : Sm
  pub pio : Pio
  pub instruction : Instruction
  pub user_instruction : UserInstruction
  pub user_processor : UserProcessor
  pub ih_processor : IhProcessor
  pub fronts : System → ℕ → ℕ × ℕ

module _ (o : Outside) where
  abbrev pub pio_at : System → ℕ → Pio
  pio_at s i = get_or s.pios i o.pio

  abbrev pub sm_at : System → ℕ → Sm
  sm_at s i = get_or s.sms i o.sm

  abbrev pub up_at : System → ℕ → UserProcessor
  up_at s i = get_or s.user_processors i o.user_processor

  abbrev pub ih_at : System → ℕ → IhProcessor
  ih_at s i = get_or s.ih_processors i o.ih_processor

  abbrev pub instruction_at : System → Pointer → Instruction
  instruction_at s (p, i) = get_or (pio_at s p).instructions i o.instruction

  abbrev pub user_instruction_at : UserProcessor → ℕ → UserInstruction
  user_instruction_at up i = get_or up.instructions i o.user_instruction
