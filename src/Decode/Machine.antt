-- ===== src/Decode/Machine.antt =====
-- The machine instructions of all types by their fields, and what the decoder makes of the fields.
use simpio.Base.{ℕ, negsuc, ◌+◌, ◌*◌, ◌<◌, Bool, true, bit}
use simpio.Hardware.{u8}
use simpio.Instruction.{
  Instruction, jmp_instruction, wait_instruction, in_instruction, out_instruction, push_instruction,
  pull_instruction, mov_instruction, set_instruction, irq_instruction,
}
use simpio.Instruction.Codes.{
  jmp_condition, wait_source_of, in_source, out_destination, mov_destination, mov_source,
  mov_operation, set_destination_of,
}

-- A machine instruction by its fields.
pub data Machine : Type 0 where
  jmp : (condition address : ℕ) → Machine
  wait : (polarity : Bool) (source index : ℕ) → Machine
  in_from : (source count : ℕ) → Machine
  out_to : (destination count : ℕ) → Machine
  push_rx : (if_full block : Bool) → Machine
  pull_tx : (if_empty block : Bool) → Machine
  mov : (destination operation source : ℕ) → Machine
  irq : (clear waits : Bool) (index : ℕ) → Machine
  set_to : (destination value : ℕ) → Machine

-- The number of the type, the operand of three bits and that of five.
abbrev pub op_of : Machine → ℕ
op_of (jmp c t) = 0
op_of (wait p s i) = 1
op_of (in_from s n) = 2
op_of (out_to d n) = 3
op_of (push_rx f b) = 4
op_of (pull_tx e b) = 4
op_of (mov d o s) = 5
op_of (irq c w i) = 6
op_of (set_to d v) = 7

abbrev pub high_of : Machine → ℕ
high_of (jmp c t) = c
high_of (wait p s i) = 4 * bit p + s
high_of (in_from s n) = s
high_of (out_to d n) = d
high_of (push_rx f b) = 2 * bit f + bit b
high_of (pull_tx e b) = 4 + 2 * bit e + bit b
high_of (mov d o s) = d
high_of (irq c w i) = 2 * bit c + bit w
high_of (set_to d v) = d

abbrev pub low_of : Machine → ℕ
low_of (jmp c t) = t
low_of (wait p s i) = i
low_of (in_from s n) = n
low_of (out_to d n) = n
low_of (push_rx f b) = 0
low_of (pull_tx e b) = 0
low_of (mov d o s) = 8 * o + s
low_of (irq c w i) = i
low_of (set_to d v) = v

-- Each field fits into its bits.
abbrev pub Fits : Machine → Type 0
Fits (jmp c t) = (c < 8) × (t < 32)
Fits (wait p s i) = (s < 4) × (i < 32)
Fits (in_from s n) = (s < 8) × (n < 32)
Fits (out_to d n) = (d < 8) × (n < 32)
Fits (push_rx f b) = Unit
Fits (pull_tx e b) = Unit
Fits (mov d o s) = (d < 8) × (o < 4) × (s < 8)
Fits (irq c w i) = i < 32
Fits (set_to d v) = (d < 8) × (v < 32)

-- What the decoded instruction has of each field.
unfoldable pub meaning : Machine → Instruction → Instruction
meaning (jmp c t) i = record i {
  instruction_type = jmp_instruction;
  side_set_value = negsuc 0;
  jmp_pc_set = true;
  condition = jmp_condition c;
  jmp_pc = u8 (t + 255);
}
meaning (wait p s n) i = record i {
  instruction_type = wait_instruction;
  polarity = p;
  index_or_value = n;
  wait_source = wait_source_of s;
}
meaning (in_from s n) i = record i {
  instruction_type = in_instruction;
  bit_count = n;
  source = in_source s;
}
meaning (out_to d n) i = record i {
  instruction_type = out_instruction;
  bit_count = n;
  destination = out_destination d;
}
meaning (push_rx f b) i = record i { instruction_type = push_instruction; if_full = f; block = b }
meaning (pull_tx e b) i = record i { instruction_type = pull_instruction; if_empty = e; block = b }
meaning (mov d o s) i = mov_operation o record i {
  instruction_type = mov_instruction;
  destination = mov_destination d;
  source = mov_source s;
}
meaning (irq c w n) i = record i {
  instruction_type = irq_instruction;
  index_or_value = n;
  wait = w;
  clear = c;
}
meaning (set_to d v) i = record i {
  instruction_type = set_instruction;
  index_or_value = v;
  destination = set_destination_of d;
}
