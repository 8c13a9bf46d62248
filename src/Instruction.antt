-- ===== src/Instruction.antt =====
-- inc/instruction.h: the decoded instructions of state machines and of user processors, with the
-- defaults of src/instruction.c. A pointer to a state machine or a PIO is its index.
pub mod Codes
pub mod Variables
pub mod Text
use simpio.Base.{ℕ, ℤ, negsuc, Bool, false, List, [], Option, none}

abbrev pub no_location : ℕ
no_location = 255

pub data InstructionType : Type 0 where
  jmp_instruction wait_instruction nop_instruction in_instruction out_instruction : InstructionType
  push_instruction pull_instruction mov_instruction set_instruction irq_instruction :
      InstructionType
  empty_instruction : InstructionType

pub data UserInstructionType : Type 0 where
  read_instruction write_instruction user_print_instruction pin_instruction : UserInstructionType
  data_instruction repeat_instruction exit_instruction : UserInstructionType
  empty_user_instruction : UserInstructionType

pub data Condition : Type 0 where
  always x_zero y_zero x_decrement y_decrement x_not_equal_y : Condition
  pin_condition not_osre unset_condition : Condition

pub data WaitSource : Type 0 where
  gpio_source pin_source irq_source reserved_wait_source unset_wait_source : WaitSource

pub data Source : Type 0 where
  pins_source x_source y_source null_source isr_source osr_source : Source
  status_source reserved_source unset_source : Source

pub data Destination : Type 0 where
  pins_destination x_destination y_destination reserved_destination : Destination
  exec_destination pc_destination isr_destination osr_destination : Destination
  pindirs_destination null_destination unset_destination : Destination

pub data Operation : Type 0 where
  no_operation invert bit_reverse clear_operation set_operation : Operation
  wait_operation nowait_operation reserved_operation unset_operation : Operation

pub data DataOperation : Type 0 where
  data_write data_read data_readln data_print data_clear data_set : DataOperation
  no_data_operation : DataOperation

pub record Instruction : Type 0 where
  pub instruction_type : InstructionType
  pub side_set_value : ℤ
  pub delay : ℕ
  pub executing_sm : ℕ
  pub pio : ℕ
  pub executing_sm_num : ℕ
  pub condition : Condition
  pub polarity : Bool
  pub wait_source : WaitSource
  pub source : Source
  pub destination : Destination
  pub if_full : Bool
  pub if_empty : Bool
  pub block : Bool
  pub operation : Operation
  pub index_or_value : ℕ
  pub bit_count : ℕ
  pub write_value : ℕ
  pub clear : Bool
  pub wait : Bool
  pub is_relative : Bool
  pub already_set_waiting : Bool
  pub address : ℤ
  pub in_delay_state : Bool
  pub delay_left : ℕ
  pub jmp_pc : ℕ
  pub location : ℕ
  pub line : ℕ
  pub is_breakpoint : Bool
  pub label : List ℕ
  pub not_completed : Bool
  pub jmp_pc_set : Bool

pub record UserInstruction : Type 0 where
  pub instruction_type : UserInstructionType
  pub data_operation_type : DataOperation
  pub executing_up : ℕ
  pub executing_sm : ℕ
  pub data_ptr : Option (List ℕ)
  pub data_index : ℕ
  pub data_indexing : Bool
  pub max_read_index : ℤ
  pub value : ℕ
  pub pin : ℤ
  pub set_high : Bool
  pub delay : ℕ
  pub delay_left : ℤ
  pub in_delay_state : Bool
  pub delay_completed : Bool
  pub not_completed : Bool
  pub line : ℕ
  pub is_breakpoint : Bool
  pub address : ℤ
  pub var_name : List ℕ
  pub continue_user : Bool

-- `instruction_reset`: only the state of an execution.
unfoldable pub reset : Instruction → Instruction
reset i = record i { in_delay_state = false; delay_left = 0; not_completed = false }

-- `instruction_set_defaults`.
unfoldable pub set_defaults : Instruction → Instruction
unfolding reset
set_defaults i = reset record i {
  instruction_type = empty_instruction;
  side_set_value = negsuc 0;
  delay = 0;
  condition = unset_condition;
  polarity = false;
  wait_source = unset_wait_source;
  source = unset_source;
  destination = unset_destination;
  if_full = false;
  if_empty = false;
  block = false;
  operation = unset_operation;
  index_or_value = 0;
  bit_count = 0;
  location = no_location;
  address = negsuc 0;
  is_breakpoint = false;
  write_value = 0;
  jmp_pc_set = false;
}

-- `instruction_user_reset`.
unfoldable pub user_reset : UserInstruction → UserInstruction
user_reset i = record i {
  data_index = 0;
  data_indexing = false;
  delay_left = negsuc 0;
  delay_completed = false;
  in_delay_state = false;
  not_completed = false;
}

-- `instruction_set_user_defaults`.
unfoldable pub set_user_defaults : UserInstruction → UserInstruction
unfolding user_reset
set_user_defaults i = user_reset record i {
  instruction_type = empty_user_instruction;
  data_operation_type = no_data_operation;
  data_ptr = none;
  max_read_index = negsuc 0;
  pin = negsuc 0;
  delay = 0;
  is_breakpoint = false;
  var_name = [];
  continue_user = false;
}
