-- ===== src/Decode.antt =====
-- `exec_instruction_decode` of src/execution.c: a 16-bit machine instruction becomes the decoded
-- instruction that a state machine keeps for EXEC.
pub mod Fields
pub mod Machine
pub mod Assembled
use simpio.Base.{ℕ, ℤ, pos, negsuc, ◌+◌, ◌-◌, ◌*◌, ◌%◌, Bool, true, false, ◌==◌, if◌then◌else◌}
use simpio.Bits.{instruction_field}
use simpio.Hardware.{Sm, u8}
use simpio.Undefined.{Undefined}
use simpio.Instruction.{
  Instruction, InstructionType, jmp_instruction, wait_instruction, in_instruction, out_instruction,
  push_instruction, pull_instruction, mov_instruction, set_instruction, irq_instruction, Condition,
  always, x_zero, y_zero, x_decrement, y_decrement, x_not_equal_y, pin_condition, not_osre,
  unset_condition, WaitSource, gpio_source, pin_source, irq_source, reserved_wait_source,
  unset_wait_source, Source, pins_source, x_source, y_source, null_source, isr_source, osr_source,
  status_source, reserved_source, unset_source, Destination, pins_destination, x_destination,
  y_destination, reserved_destination, exec_destination, pc_destination, isr_destination,
  osr_destination, pindirs_destination, null_destination, unset_destination, Operation,
  no_operation,
}
use simpio.Instruction.Codes.{
  jmp_condition, wait_source_of, in_source, out_destination, mov_destination, mov_source,
  mov_operation, set_destination_of,
}

module _ (u : Undefined) (mi : ℕ) where
  -- A field of one bit, stored in a `bool`.
  unfoldable pub flag : ℕ → Bool
  flag n = if instruction_field u mi n n == 0 then false else true

  -- The switch on the instruction's type: one function for each case.
  unfoldable pub decode_jmp : Instruction → Instruction
  decode_jmp i = record i {
    instruction_type = jmp_instruction;
    side_set_value = negsuc 0;
    jmp_pc_set = true;
    condition = jmp_condition (instruction_field u mi 5 7);
    jmp_pc = u8 (instruction_field u mi 0 4 + 255);
  }

  unfoldable pub decode_wait : Instruction → Instruction
  unfolding flag
  decode_wait i = record i {
    instruction_type = wait_instruction;
    polarity = flag 7;
    index_or_value = instruction_field u mi 0 4;
    wait_source = wait_source_of (instruction_field u mi 5 6);
  }

  unfoldable pub decode_in : Instruction → Instruction
  decode_in i = record i {
    instruction_type = in_instruction;
    bit_count = instruction_field u mi 0 4;
    source = in_source (instruction_field u mi 5 7);
  }

  unfoldable pub decode_out : Instruction → Instruction
  decode_out i = record i {
    instruction_type = out_instruction;
    bit_count = instruction_field u mi 0 4;
    destination = out_destination (instruction_field u mi 5 7);
  }

  unfoldable pub decode_push_pull : Instruction → Instruction
  unfolding flag
  decode_push_pull i =
      if instruction_field u mi 7 7 == 0
      then record i { block = flag 5; instruction_type = push_instruction; if_full = flag 6 }
      else record i { block = flag 5; instruction_type = pull_instruction; if_empty = flag 6 }

  unfoldable pub decode_mov : Instruction → Instruction
  decode_mov i = mov_operation (instruction_field u mi 3 4) record i {
    instruction_type = mov_instruction;
    destination = mov_destination (instruction_field u mi 5 7);
    source = mov_source (instruction_field u mi 0 2);
  }

  unfoldable pub decode_irq : Instruction → Instruction
  unfolding flag
  decode_irq i = record i {
    instruction_type = irq_instruction;
    index_or_value = instruction_field u mi 0 4;
    wait = flag 5;
    clear = flag 6;
  }

  unfoldable pub decode_set : Instruction → Instruction
  decode_set i = record i {
    instruction_type = set_instruction;
    index_or_value = instruction_field u mi 0 4;
    destination = set_destination_of (instruction_field u mi 5 7);
  }

  unfoldable pub decode_type : ℕ → Instruction → Instruction
  unfolding decode_jmp decode_wait decode_in decode_out decode_push_pull decode_mov decode_irq
      decode_set
  decode_type instruction_type i =
      if instruction_type == 0
      then decode_jmp i
      else if instruction_type == 1
      then decode_wait i
      else if instruction_type == 2
      then decode_in i
      else if instruction_type == 3
      then decode_out i
      else if instruction_type == 4
      then decode_push_pull i
      else if instruction_type == 5
      then decode_mov i
      else if instruction_type == 6
      then decode_irq i
      else if instruction_type == 7
      then decode_set i
      else i

-- `exec_instruction_decode`, but for its result, which no statement sets. `side_set_count` is at most
-- 5, so `12 - side_set_count` does not go below 0.
unfoldable pub exec_instruction_decode : Undefined → Sm → Sm
exec_instruction_decode u sm =
    let mi = sm.exec_machine_instruction in
    record sm {
      exec_instruction =
          decode_type u mi (instruction_field u mi 13 15) record sm.exec_instruction {
            delay = u8 (instruction_field u mi 8 (12 - sm.side_set_count));
            side_set_value = pos (instruction_field u mi (12 - sm.side_set_count + 1) 12);
            executing_sm = sm.pio_num * 4 + sm.this_num;
            pio = sm.pio_num;
            executing_sm_num = sm.this_num;
          };
    }
