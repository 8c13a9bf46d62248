-- ===== src/System/Interrupt.antt =====
-- The interrupt handlers in src/execution.c.
use simpio.Base.{
  ℕ, ◌+◌, ℤ, pos, negsuc, pos_part, ltz, Bool, true, false, not, ◌&&◌, none, some, if◌then◌else◌,
  List, [], ◌∷◌, set,
}
use simpio.User.{UserProcessor, UserContext, exec_run_user_instruction}
use simpio.System.{
  System, Outside, IhProcessor, IrqFlag, ih_at, user_instruction_at, exec_normal, exec_interrupt,
  num_user_processors,
}
use simpio.System.Search.{
  put_user_instruction, next_instruction, try_sm, try_user, line_of, user_line_of,
}

abbrev pub put_ih : ℕ → IhProcessor → System → System
put_ih i ih s = record s { ih_processors = set s.ih_processors i ih }

abbrev pub processor_of : ℕ → UserContext → UserProcessor
processor_of pc c = put_user_instruction pc c.instruction c.up

abbrev pub after_user : UserContext → System → System
after_user c s = record s {
  sms = c.sms;
  gpios = c.gpios;
  variables = c.variables;
  exited = c.exited;
}

module _ (o : Outside) where
  unfoldable pub exec_enable_ih : ℕ → System → ℤ × System
  exec_enable_ih i s =
      let ih = ih_at o s i in
      (
        pos (user_instruction_at o ih.processor 0).line,
        put_ih i (record { processor = record ih.processor { pc = pos 0 }; enabled = true })
            (record s { exec_context = exec_interrupt }),
      )

  -- `fired_ihs`, over the flags that are left.
  unfoldable pub fired_from : List Bool → List IrqFlag → System → ℤ × System
  fired_from (on ∷ ons) (f ∷ fs) s =
      let rest = fired_from ons fs s in
      if f.mapped_to_irq && on && not (ih_at o s f.ih).enabled then exec_enable_ih f.ih s else rest
  fired_from _ _ s = (negsuc 0, s)

  unfoldable pub fired_ihs : System → ℤ × System
  fired_ihs s = fired_from s.flags_set s.irq_flags s

  -- A user instruction, and the state after it. `up` is the processor that holds the instruction.
  abbrev pub user_context : UserProcessor → ℕ → System → UserContext
  user_context up pc s = record {
    instruction = user_instruction_at o up pc;
    up = up;
    sms = s.sms;
    gpios = s.gpios;
    variables = s.variables;
    exited = s.exited;
  }

  -- `exec_find_next_instruction_after_interrupt`: its pointer to a user instruction is not set.
  unfoldable pub exec_find_next_instruction_after_interrupt : System → ℤ × System
  exec_find_next_instruction_after_interrupt s =
      let (next, s1) = next_instruction o s in
      let (found_sm, s2) = try_sm o next s1 in
      elim found_sm [
        | some p ↦ (line_of o p s2, s2)
        | none ↦
            let (found_user, s3) = try_user o o.unset_pointer s2 in
            elim found_user [ some p ↦ (user_line_of o p s3, s3) | none ↦ (negsuc 0, s3) ]
      ]

  -- The body of the loop for the handler `i`, whose pc is not negative: what its instruction reads, and
  -- what follows its execution.
  abbrev pub ih_context : ℕ → System → UserContext
  ih_context i s =
      let up = (ih_at o s i).processor in
      let pc = pos_part up.pc in
      let instruction = record (user_instruction_at o up pc) {
        executing_up = num_user_processors + i;
      } in
      user_context (put_user_instruction pc instruction up) pc s

  unfoldable pub after_ih : ℕ → UserContext → System → ℤ × System
  after_ih i c s =
      let ih = ih_at o s i in
      let up = processor_of (pos_part ih.processor.pc) c in
      let s' = after_user c s in
      if ltz up.pc up.next_instruction_location
      then (
        pos (user_instruction_at o up (pos_part up.pc)).line,
        put_ih i (record ih { processor = up }) s',
      )
      else exec_find_next_instruction_after_interrupt (
          put_ih i (record { processor = up; enabled = false })
            (record s' { exec_context = exec_normal }))

  unfoldable pub run_ih : ℕ → System → ℤ × System
  run_ih i s =
      let (_, c) = exec_run_user_instruction o.sm o.unset_value (ih_context i s) in after_ih i c s

  -- `exec_step_programs_next_interrupt_instruction`, over the handlers from `i` on.
  unfoldable pub step_ih_from : ℕ → List IhProcessor → System → ℤ × System
  step_ih_from i [] s = (negsuc 0, s)
  step_ih_from i (ih ∷ ihs) s =
      let rest = step_ih_from (i + 1) ihs s in
      if ltz ih.processor.pc (pos 0) then rest else run_ih i s

  unfoldable pub exec_step_programs_next_interrupt_instruction : System → ℤ × System
  exec_step_programs_next_interrupt_instruction s = step_ih_from 0 s.ih_processors s
