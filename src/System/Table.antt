-- ===== src/System/Table.antt =====
-- What src/instruction.c adds to the memories of the PIOs and of the processors, with the labels. The
-- index of a static `current_` variable is as in `Configure`.
use simpio.Base.{
  ℕ, zero, suc, ◌+◌, pos, pos_part, array_index, ◌+ℤ◌, eqz, Bool, true, false, not, ◌&&◌, none,
  some, if◌then◌else◌, List, get_or, set,
}
use simpio.Instruction.{Instruction, UserInstruction}
use simpio.Hardware.{u8_of_int}
use simpio.User.{UserProcessor, int8}
use simpio.System.{
  System, Outside, Pio, up_context, ih_context, num_instructions, pio_at, sm_at, up_at, ih_at,
  num_pios,
}
use simpio.System.Configure.{
  put_pio, put_up, this_pio, this_sm, this_up, hardware_init_current_sm_pc_if_needed,
  hardware_init_current_up_pc_if_needed,
}
use simpio.System.Entries.{num_user_instructions, symbol, filled, user_filled, fix_in}

module _ (o : Outside) where
  unfoldable pub instruction_add_label : List ℕ → System → System
  instruction_add_label l s = record s {
    labels = set s.labels s.current_label (symbol l);
    label_locations =
        set s.label_locations s.current_label
          (u8_of_int (pio_at o s (this_pio s)).next_instruction_location);
    current_label = s.current_label + 1;
    prev_instruction_was_label = true;
  }

  -- The stores of `instruction_add` into the instruction at hand, and the one that it makes into a user
  -- instruction.
  abbrev pub with_instruction : (Instruction → Instruction) → Pio → Pio
  with_instruction f p =
      let i = array_index p.next_instruction_location in
      record p { instructions = set p.instructions i (f (get_or p.instructions i o.instruction)) }

  abbrev pub with_user_instruction :
      (UserInstruction → UserInstruction) → UserProcessor → UserProcessor
  with_user_instruction f up =
      let i = array_index up.next_instruction_location in
      record up {
        instructions = set up.instructions i (f (get_or up.instructions i o.user_instruction));
      }

  abbrev pub next_location : Pio → Pio
  next_location p = record p {
    next_instruction_location = int8 (p.next_instruction_location +ℤ pos 1);
  }

  unfoldable pub add_instruction : Instruction → System → System
  add_instruction instr s =
      let p = this_pio s in
      let next = (pio_at o s p).next_instruction_location in
      let s1 =
        put_pio o p
          (with_instruction
            (λ i. record (filled i instr) { executing_sm_num = u8_of_int s.current_sm; pio = p }))
          s in
      let s2 =
        put_up o (this_up s1) (with_user_instruction (λ i. record i { executing_sm = this_sm s1 }))
          s1 in
      let s3 = hardware_init_current_sm_pc_if_needed o next s2 in
      let s4 = put_pio o p (with_instruction (λ i. record i { address = next })) s3 in
      record (put_pio o p next_location s4) { prev_instruction_was_label = false }

  unfoldable pub instruction_add : Instruction → System → Bool × System
  unfolding add_instruction
  instruction_add instr s =
      if eqz (pio_at o s (this_pio s)).next_instruction_location (pos num_instructions)
      then (false, s)
      else (true, add_instruction instr s)

  -- What the two contexts of `instruction_user_add` have in common.
  unfoldable pub with_added : UserInstruction → ℕ → UserProcessor → UserProcessor
  unfolding user_filled
  with_added instr sm up =
      let next = up.next_instruction_location in
      let up' =
        with_user_instruction
          (λ i. record (user_filled i instr) { executing_sm = sm; address = next }) up in
      record up' { next_instruction_location = int8 (next +ℤ pos 1) }

  unfoldable pub user_add_up : UserInstruction → System → Bool × System
  unfolding with_added
  user_add_up instr s =
      let next = (up_at o s (this_up s)).next_instruction_location in
      if not (eqz s.current_up (pos 0)) && not (eqz s.current_up (pos 1))
      then (false, s)
      else if eqz next (pos num_user_instructions)
      then (false, s)
      else (
        true,
        put_up o (this_up s) (with_added instr (this_sm s))
            (hardware_init_current_up_pc_if_needed o next s),
      )

  unfoldable pub user_add_ih : UserInstruction → System → Bool × System
  unfolding with_added
  user_add_ih instr s =
      let k = array_index s.current_ih in
      let ih = ih_at o s k in
      if not (eqz s.current_ih (pos 0)) && not (eqz s.current_ih (pos 1))
      then (false, s)
      else if eqz ih.processor.next_instruction_location (pos num_user_instructions)
      then (false, s)
      else (
        true,
        record s {
          ih_processors =
              set s.ih_processors k
                (record ih { processor = with_added instr (this_sm s) ih.processor });
        },
      )

  unfoldable pub instruction_user_add : UserInstruction → System → Bool × System
  unfolding user_add_up user_add_ih
  instruction_user_add instr s = elim s.user_context [
    | up_context ↦ user_add_up instr s
    | ih_context ↦ user_add_ih instr s
  ]

  -- `instruction_fix_forward_labels`, over the PIOs from `p` on: 0, or the line that it reports.
  pub fix_from : ℕ → ℕ → System → ℕ × System
  unfolding fix_in
  fix_from p zero s = (0, s)
  fix_from p (suc count) s =
      let pio = pio_at o s p in
      let (failed, is) = fix_in s (pos_part pio.next_instruction_location) pio.instructions in
      let s' = record s { pios = set s.pios p (record pio { instructions = is }) } in
      let rest = fix_from (p + 1) count s' in elim failed [ some line ↦ (line, s') | none ↦ rest ]

  unfoldable pub instruction_fix_forward_labels : System → ℕ × System
  unfolding fix_from
  instruction_fix_forward_labels s = fix_from 0 num_pios s

  -- `instruction_next_line` and `instruction_current_delay_remaining`.
  abbrev pub pc_instruction : System → Instruction
  pc_instruction s =
      get_or (pio_at o s (this_pio s)).instructions (array_index (sm_at o s (this_sm s)).pc)
        o.instruction

  unfoldable pub instruction_next_line : System → ℕ
  instruction_next_line s = (pc_instruction s).line

  unfoldable pub instruction_current_delay_remaining : System → ℕ
  instruction_current_delay_remaining s = (pc_instruction s).delay_left
