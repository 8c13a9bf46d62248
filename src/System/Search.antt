-- ===== src/System/Search.antt =====
-- `next_instruction`, `next_user_instruction` and the helpers around them in src/execution.c, on the
-- state of the whole program.
use simpio.Base.{ℕ, ℤ, pos, pos_part, ltz, Bool, true, false, not, ◌&&◌, Option, none, some, set}
use simpio.Instruction.{
  InstructionType, UserInstructionType, empty_instruction, empty_user_instruction, Instruction,
  UserInstruction,
}
use simpio.Hardware.{Sm}
use simpio.User.{UserProcessor}
use simpio.System.{
  System, Outside, Pointer, pio_at, sm_at, up_at, instruction_at, user_instruction_at,
  num_user_processors,
}
use simpio.System.Turns.{all_sms, find_sm, find_user}

abbrev pub is_empty_type : InstructionType → Bool
is_empty_type empty_instruction = true
is_empty_type _ = false

abbrev is_empty_user_type : UserInstructionType → Bool
is_empty_user_type empty_user_instruction = true
is_empty_user_type _ = false

-- The instruction that the pc of a state machine, or of a user processor, points at.
abbrev pub sm_pointer : Sm → Pointer
sm_pointer sm = (sm.pio_num, pos_part sm.pc)

abbrev pub put_user_instruction : ℕ → UserInstruction → UserProcessor → UserProcessor
put_user_instruction i instruction up = record up {
  instructions = set up.instructions i instruction;
}

module _ (o : Outside) where
  abbrev pub put_instruction : Pointer → Instruction → System → System
  put_instruction (p, i) instruction s =
      let pio = pio_at o s p in
      record s {
        pios = set s.pios p (record pio { instructions = set pio.instructions i instruction });
      }

  unfoldable pub sm_runnable : System → ℕ → Bool
  sm_runnable s i =
      let sm = sm_at o s i in
      not (ltz sm.pc (pos 0))
      && not (is_empty_type (instruction_at o s (sm_pointer sm)).instruction_type)

  unfoldable pub up_runnable : System → ℕ → Bool
  up_runnable s i =
      let up = up_at o s i in
      not (ltz up.pc (pos 0))
      && not (is_empty_user_type (user_instruction_at o up (pos_part up.pc)).instruction_type)

  unfoldable pub next_instruction : System → Option Pointer × System
  next_instruction s =
      let (found, turn) = find_sm (sm_runnable s) all_sms s.sm_turn in
      let s' = record s { sm_turn = turn } in
      elim found [
        | none ↦ (none, s')
        | some i ↦
            let p = sm_pointer (sm_at o s i) in
            (some p, put_instruction p (record (instruction_at o s p) { executing_sm = i }) s')
      ]

  unfoldable pub next_user_instruction : Bool → System → Option Pointer × System
  next_user_instruction dont_switch s =
      let (found, turn) = find_user (up_runnable s) dont_switch num_user_processors s.user_turn in
      let s' = record s { user_turn = turn } in
      elim found [
        | none ↦ (none, s')
        | some i ↦
            let up = up_at o s i in
            let pc = pos_part up.pc in
            let instruction = record (user_instruction_at o up pc) { executing_up = i } in
            (
              some (i, pc),
              record s' {
                user_processors = set s.user_processors i (put_user_instruction pc instruction up);
              },
            )
      ]

  -- `try_user` and `try_sm`: the pointer at hand, or else the next one. They have found one if the
  -- pointer that they leave is not NULL.
  unfoldable pub try_user : Option Pointer → System → Option Pointer × System
  try_user at_hand s = elim at_hand [ none ↦ next_user_instruction false s | some p ↦ (some p, s) ]

  unfoldable pub try_sm : Option Pointer → System → Option Pointer × System
  try_sm at_hand s = elim at_hand [ none ↦ next_instruction s | some p ↦ (some p, s) ]

  -- `instruction->line` and `user_instruction->line`.
  abbrev pub line_of : Pointer → System → ℤ
  line_of p s = pos (instruction_at o s p).line

  abbrev pub user_line_of : Pointer → System → ℤ
  user_line_of (i, pc) s = pos (user_instruction_at o (up_at o s i) pc).line
