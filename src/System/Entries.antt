-- ===== src/System/Entries.antt =====
-- What src/instruction.c copies into the memories, and its tables of definitions and labels.
use simpio.Base.{
  ℕ, zero, suc, ◌+◌, ◌-◌, ◌==◌, ℤ, pos, negsuc, Bool, true, false, ◌&&◌, Option, none, some,
  if◌then◌else◌, List, [], ◌∷◌, set,
}
use simpio.Instruction.{Instruction, UserInstruction, InstructionType, jmp_instruction, no_location}
use simpio.Instruction.Variables.{symbol_max, same_name, truncated}
use simpio.Hardware.{u8_of_int}
use simpio.System.{System, Define}
use simpio.System.Configure.{}

abbrev pub num_user_instructions : ℕ
num_user_instructions = 32

-- The text that `snprintf(to, SYMBOL_MAX, "%s", s)` leaves.
abbrev pub symbol : List ℕ → List ℕ
symbol s = truncated (symbol_max - 1) s

-- What `instruction_add` copies into the memory of the PIO, up to the address.
unfoldable pub filled : Instruction → Instruction → Instruction
filled old i = record old {
  line = i.line;
  instruction_type = i.instruction_type;
  side_set_value = i.side_set_value;
  delay = i.delay;
  condition = i.condition;
  polarity = i.polarity;
  wait_source = i.wait_source;
  source = i.source;
  destination = i.destination;
  if_full = i.if_full;
  if_empty = i.if_empty;
  block = i.block;
  already_set_waiting = false;
  operation = i.operation;
  index_or_value = i.index_or_value;
  bit_count = i.bit_count;
  write_value = i.write_value;
  location = i.location;
  is_relative = i.is_relative;
  label = symbol i.label;
}

-- What `instruction_user_add` copies into the memory of a processor or of an interrupt handler.
unfoldable pub user_filled : UserInstruction → UserInstruction → UserInstruction
user_filled old i = record old {
  line = i.line;
  instruction_type = i.instruction_type;
  data_operation_type = i.data_operation_type;
  data_ptr = i.data_ptr;
  value = i.value;
  pin = i.pin;
  set_high = i.set_high;
  delay = i.delay;
  continue_user = i.continue_user;
  delay_left = negsuc 0;
  in_delay_state = false;
  var_name = symbol i.var_name;
}

-- `instruction_add_define`: a value is a `uint8_t`.
unfoldable pub instruction_add_define : List ℕ → ℤ → System → System
instruction_add_define name v s = record s {
  definitions =
      set s.definitions s.current_definition
        (record { symbol = symbol name; value = u8_of_int v; defined = true });
  current_definition = s.current_definition + 1;
}

-- The loops of `instruction_find_definition` and `instruction_find_label`, with `count` entries left.
pub find_definition_in : List ℕ → ℕ → List Define → Option ℤ
find_definition_in name zero ds = none
find_definition_in name (suc count) [] = none
find_definition_in name (suc count) (d ∷ ds) =
    let rest = find_definition_in name count ds in
    if same_name symbol_max name d.symbol then some (pos d.value) else rest

unfoldable pub instruction_find_definition : List ℕ → ℤ → System → ℤ
instruction_find_definition name value_if_not_found s =
    elim (find_definition_in name s.current_definition s.definitions) [
      | some v ↦ v
      | none ↦ value_if_not_found
    ]

unfoldable pub find_label_in : List ℕ → ℕ → ℕ → List (List ℕ) → ℕ
find_label_in l i zero ls = no_location
find_label_in l i (suc count) [] = no_location
find_label_in l i (suc count) (x ∷ xs) =
    let rest = find_label_in l (i + 1) count xs in if same_name symbol_max l x then i else rest

unfoldable pub instruction_find_label : List ℕ → System → ℕ
instruction_find_label l s = find_label_in l 0 s.current_label s.labels

-- `instruction_fix_forward_labels` on the instructions of a PIO: the line of the first that cannot be
-- fixed, and the instructions.
unfoldable pub fix_in : System → ℕ → List Instruction → Option ℕ × List Instruction
fix_in s zero is = (none, is)
fix_in s (suc count) [] = (none, [])
fix_in s (suc count) (i ∷ is) =
    let (failed, rest) = fix_in s count is in
    let found = instruction_find_label i.label s in
    if is_forward i
    then (if found == no_location
        then (some i.line, i ∷ is)
        else (failed, record i { location = found } ∷ rest))
    else (failed, i ∷ rest)
  where
    is_jmp : InstructionType → Bool
    is_jmp jmp_instruction = true
    is_jmp _ = false

    is_forward : Instruction → Bool
    is_forward i = is_jmp i.instruction_type && i.location == no_location
