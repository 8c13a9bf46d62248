-- ===== src/Decode/Assembled.antt =====
-- `exec_instruction_decode` on the machine instructions of all types.
use simpio.Base.{ℕ, pos, ◌+◌, ◌*◌}
use simpio.Undefined.{Undefined}
use simpio.Hardware.{Sm}
use simpio.Instruction.{Instruction}
use simpio.Decode.Machine.{Machine}

-- The instruction that the fields of the operands are decoded into.
abbrev pub timed : Sm → ℕ → ℕ → Instruction
timed sm delay side = record sm.exec_instruction {
  delay = delay;
  side_set_value = pos side;
  executing_sm = sm.pio_num * 4 + sm.this_num;
  pio = sm.pio_num;
  executing_sm_num = sm.this_num;
}
