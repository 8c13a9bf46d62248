-- ===== src/Tests/Samples.antt =====
-- A state machine with an empty FIFO, the instructions that it runs, and its surroundings.
use simpio.Base.{pos, negsuc, true, false, [], replicate, refl}
use simpio.Undefined.{Undefined}
use simpio.Fifo.{Fifo, bidi, fifo_empty, init}
use simpio.Fifo.Holds.{Holds, init-Holds, no_values}
use simpio.Instruction.{
  Instruction, empty_instruction, unset_condition, unset_wait_source, unset_source,
  unset_destination, unset_operation,
}
use simpio.Hardware.{Sm}
use simpio.Hardware.Lines.{no_gpio}
use simpio.Exec.Context.{Context}

abbrev pub some_undefined : Undefined
some_undefined = record {
  wide_left = λ x n. x;
  wide_right = λ x n. x;
  decode_result = true;
  wait_completed = false;
  mov_value = 0;
  set_pin = 0;
  address_result = λ x. x;
}

abbrev pub raw_fifo : Fifo
raw_fifo = record {
  buffer = replicate 8 0;
  mode = bidi;
  rx_state = fifo_empty;
  tx_state = fifo_empty;
  status = 0;
  execctrl_status_sel = false;
  n = pos 0;
  rx_bottom = pos 0;
  rx_top = pos 0;
  tx_bottom = pos 0;
  tx_top = pos 0;
}

pub new_fifo-Holds : Holds (init raw_fifo bidi) (no_values bidi)
new_fifo-Holds = init-Holds raw_fifo bidi refl

abbrev pub plain_instruction : Instruction
plain_instruction = record {
  instruction_type = empty_instruction;
  side_set_value = negsuc 0;
  delay = 0;
  executing_sm = 0;
  pio = 0;
  executing_sm_num = 0;
  condition = unset_condition;
  polarity = false;
  wait_source = unset_wait_source;
  source = unset_source;
  destination = unset_destination;
  if_full = false;
  if_empty = false;
  block = true;
  operation = unset_operation;
  index_or_value = 0;
  bit_count = 0;
  write_value = 0;
  clear = false;
  wait = false;
  is_relative = false;
  already_set_waiting = false;
  address = pos 0;
  in_delay_state = false;
  delay_left = 0;
  jmp_pc = 0;
  location = 255;
  line = 1;
  is_breakpoint = false;
  label = [];
  not_completed = false;
  jmp_pc_set = false;
}

abbrev pub sample_sm : Fifo → Sm
sample_sm fifo = record {
  pc = pos 0;
  fifo = fifo;
  scratch_x = 3;
  scratch_y = 0;
  osr = 0;
  isr = 7;
  first_pc = pos 0;
  pin_condition = 0;
  set_pins_base = 2;
  set_pins_num = 3;
  out_pins_base = 0;
  out_pins_num = 1;
  in_pins_base = 0;
  side_set_pins_base = 5;
  side_set_pins_num = 1;
  side_set_pins_optional = true;
  side_set_pindirs = false;
  autopush = false;
  autopull = false;
  side_set_count = 1;
  shift_in_count = 0;
  shift_out_count = 0;
  shiftctl_pull_thresh = pos 32;
  shiftctl_push_thresh = pos 32;
  shiftctl_out_shiftdir = true;
  shiftctl_in_shiftdir = true;
  wrap = pos 3;
  wrap_target = pos 0;
  clock_tick = 0;
  pc_temp = 0;
  shift_out_resume_count = 0;
  shift_in_resume_count = 0;
  exec_machine_instruction = 0;
  exec_instruction = plain_instruction;
  pio_num = 0;
  this_num = 0;
  osr_empty = true;
  isr_full = false;
}

abbrev pub sample_context : Instruction → Sm → Context
sample_context i sm = record {
  sm = sm;
  program_instruction = i;
  gpios = replicate 32 no_gpio;
  irq_flags = replicate 8 false;
  label_locations = [];
  next_instruction_location = pos 4;
}
