-- ===== src/Tests/Machines.antt =====
-- A whole program: two PIOs, eight state machines with empty FIFOs, two user processors and two
-- interrupt handlers.
use simpio.Base.{
  refl, All, All-replicate, ℕ, suc, pos, negsuc, true, false, [], ◌∷◌, replicate, none,
}
use simpio.Changed.Same.{InBuffer}
use simpio.Fifo.{init, bidi}
use simpio.Instruction.{
  Instruction, UserInstruction, nop_instruction, empty_user_instruction, write_instruction,
  no_data_operation,
}
use simpio.Hardware.{Sm}
use simpio.Hardware.Lines.{no_gpio}
use simpio.Instruction.Variables.{no_variable}
use simpio.Keypad.{Keypad}
use simpio.Flash.{SpifState, spif_idle, spif_mode_0, waiting_on_clk_high, to_response}
use simpio.User.{UserProcessor}
use simpio.System.{System, Outside, Pio, IhProcessor, Turn, exec_normal, up_context}
use simpio.Tests.Samples.{some_undefined, raw_fifo, plain_instruction, sample_sm}

abbrev pub plain_user_instruction : UserInstruction
plain_user_instruction = record {
  instruction_type = empty_user_instruction;
  data_operation_type = no_data_operation;
  executing_up = 0;
  executing_sm = 0;
  data_ptr = none;
  data_index = 0;
  data_indexing = false;
  max_read_index = negsuc 0;
  value = 7;
  pin = negsuc 0;
  set_high = false;
  delay = 0;
  delay_left = negsuc 0;
  in_delay_state = false;
  delay_completed = false;
  not_completed = false;
  line = 4;
  is_breakpoint = false;
  address = pos 0;
  var_name = [];
  continue_user = false;
}

abbrev pub sample_up : UserProcessor
sample_up = record {
  instructions =
      record plain_user_instruction { instruction_type = write_instruction }
      ∷ plain_user_instruction
      ∷ [];
  next_instruction_location = pos 1;
  pc = pos 0;
  this_num = 0;
  up_data = 0 ∷ 0 ∷ [];
}

abbrev pub sample_ih : IhProcessor
sample_ih = record { processor = record sample_up { pc = pos 1 }; enabled = false }

abbrev pub nop_at : ℕ → Instruction
nop_at line = record plain_instruction { instruction_type = nop_instruction; line = line }

abbrev pub sample_pio : Pio
sample_pio = record {
  irqs = replicate 2 (record { enabled = false; on = false; flag = 0 });
  instructions = nop_at 1 ∷ nop_at 2 ∷ plain_instruction ∷ plain_instruction ∷ [];
  next_instruction_location = pos 2;
  this_num = 0;
}

abbrev pub empty_sm : Sm
empty_sm = sample_sm (init raw_fifo bidi)

abbrev pub sample_turn : Turn
sample_turn = record { current = none; e = 0 }

abbrev pub sample_spif : SpifState
sample_spif = record {
  state = spif_idle;
  mode = spif_mode_0;
  shift_state = waiting_on_clk_high;
  cmd = 0;
  prev_cmd = 0;
  addr1 = 0;
  addr2 = 0;
  addr3 = 0;
  status_register_1 = 0;
  addr = 0;
  response_byte = 0;
  program_byte = 0;
  shift_count = 0;
  num_bytes = 0;
  bytes_responded = 0;
  bytes_received = 0;
  byte_index = 0;
  delay = 0;
  data_ptr = to_response;
  last_clk = false;
  busy = false;
  write_enable_latch = false;
}

abbrev pub sample_keypad : Keypad
sample_keypad = record {
  row_pins = 0 ∷ 1 ∷ 2 ∷ 3 ∷ [];
  col_pins = 4 ∷ 5 ∷ 6 ∷ 7 ∷ [];
  keypress_row = negsuc 0;
  keypress_col = negsuc 0;
}

abbrev pub sample_system : System
sample_system = record {
  pios = sample_pio ∷ sample_pio ∷ [];
  sms = replicate 8 empty_sm;
  user_processors = sample_up ∷ sample_up ∷ [];
  ih_processors = sample_ih ∷ sample_ih ∷ [];
  flags_set = replicate 8 false;
  irq_flags = replicate 8 (record { mapped_to_irq = false; pio = 0; ih = 0 });
  gpios = replicate 32 no_gpio;
  variables = replicate 10 no_variable;
  label_locations = replicate 4 255;
  exited = false;
  current_pio = pos 0;
  current_sm = pos 0;
  current_up = pos 0;
  current_ih = pos 0;
  user_context = up_context;
  current_definition = 0;
  current_label = 0;
  definitions = [];
  labels = replicate 4 [];
  prev_instruction_was_label = false;
  last_device = negsuc 0;
  program_name = [];
  program_names = replicate 8 [];
  devices = replicate 5 (record { handler = none; enabled = false });
  keypad = sample_keypad;
  spif = sample_spif;
  spif_pins = record { spif_clk = 8; spif_tx = 9; spif_rx = 10; spif_cs = 11 };
  storage = [];
  exec_context = exec_normal;
  sm_turn = sample_turn;
  user_turn = sample_turn;
  instruction = none;
  user_instruction = none;
  last_line = pos 0;
  try_user_first = true;
}

abbrev pub sample_outside : Outside
sample_outside = record {
  undefined = some_undefined;
  unset_value = 0;
  unset_pointer = none;
  sm = empty_sm;
  pio = sample_pio;
  instruction = plain_instruction;
  user_instruction = plain_user_instruction;
  user_processor = sample_up;
  ih_processor = sample_ih;
  fronts = λ s i. (i, suc i);
}

pub sample-InBuffer : All InBuffer sample_system.sms
unfolding init
sample-InBuffer = All-replicate InBuffer 8 empty_sm (refl, refl, refl)
