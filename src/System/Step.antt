-- ===== src/System/Step.antt =====
-- `exec_step_programs_next_instruction` in src/execution.c: a step of the whole program.
use simpio.Base.{
  ℕ, ◌+◌, ◌%◌, ◌^◌, ℤ, pos, negsuc, ltz, eqz, Bool, true, not, ◌&&◌, ◌||◌, ◌==◌, Option, none, some,
  if◌then◌else◌, List, [], ◌∷◌, set,
}
use simpio.Exec.Context.{Context, in_program}
use simpio.Exec.Run.{exec_run_instruction, ◌>>=◌}
use simpio.User.{exec_run_user_instruction}
use simpio.Keypad.{run_keypad}
use simpio.Flash.Machine.{spif_sm}
use simpio.System.{
  System, Outside, Pointer, HardwareDevice, DeviceHandler, handle_keypad, handle_spi_flash,
  exec_interrupt, exec_idle, pio_at, sm_at, up_at, instruction_at, user_instruction_at,
}
use simpio.System.Search.{
  put_instruction, next_instruction, next_user_instruction, try_sm, try_user, line_of, user_line_of,
}
use simpio.System.Interrupt.{
  user_context, processor_of, after_user, fired_ihs, exec_step_programs_next_interrupt_instruction,
}

module _ (o : Outside) where
  unfoldable pub run_device : DeviceHandler → System → System
  run_device handle_keypad s = record s { gpios = run_keypad s.keypad s.gpios }
  run_device handle_spi_flash s =
      let d =
        spif_sm o.undefined s.spif_pins
          (record { spif = s.spif; storage = s.storage; gpios = s.gpios }) in
      record s { spif = d.spif; storage = d.storage; gpios = d.gpios }

  -- `run_each_enabled_device`, over the devices that are left.
  unfoldable pub run_devices : List HardwareDevice → System → System
  run_devices [] s = s
  run_devices (d ∷ ds) s =
      run_devices ds
        (if d.enabled then elim d.handler [ none ↦ s | some handler ↦ run_device handler s ] else s)

  -- `exec_run_instruction` at a pointer, on the state of the program; at most `fuel` calls are nested.
  abbrev pub context_of : Pointer → System → Context
  context_of p s =
      let i = instruction_at o s p in
      let sm = sm_at o s i.executing_sm in
      record {
        sm = sm;
        program_instruction = i;
        gpios = s.gpios;
        irq_flags = s.flags_set;
        label_locations = s.label_locations;
        next_instruction_location = (pio_at o s sm.pio_num).next_instruction_location;
      }

  abbrev pub after_instruction : Pointer → ℕ → Context → System → System
  after_instruction p executing_sm c s =
      put_instruction o p c.program_instruction
        (record s { sms = set s.sms executing_sm c.sm; gpios = c.gpios; flags_set = c.irq_flags })

  unfoldable pub run_at : ℕ → Pointer → System → Option System
  run_at fuel p s = do
    (_, c) ← exec_run_instruction o.undefined fuel in_program (context_of p s)
    some (after_instruction p (instruction_at o s p).executing_sm c s)

  unfoldable pub tick : Pointer → System → System
  tick p s =
      let i = (instruction_at o s p).executing_sm in
      let sm = sm_at o s i in
      record s { sms = set s.sms i (record sm { clock_tick = (sm.clock_tick + 1) % 2 ^ 32 }) }

  -- `exec_run_user_instruction` at a pointer, on the state of the program.
  unfoldable pub run_user_at : Pointer → System → System
  run_user_at (i, pc) s =
      let (_, c) =
        exec_run_user_instruction o.sm o.unset_value (user_context o (up_at o s i) pc s) in
      record (after_user c s) { user_processors = set s.user_processors i (processor_of pc c) }

  -- A return of the step: the static variable `last_line` is what it returns.
  abbrev pub returns : ℤ → System → ℤ × System
  returns line s = (line, record s { last_line = line })

  -- The line of the first of the two instructions that has been found, or the last one.
  abbrev pub sm_line_first : System → ℤ
  sm_line_first s = elim s.instruction [
    | some p ↦ line_of o p s
    | none ↦ elim s.user_instruction [ some q ↦ user_line_of o q s | none ↦ s.last_line ]
  ]

  abbrev pub user_line_first : System → ℤ
  user_line_first s = elim s.user_instruction [
    | some q ↦ user_line_of o q s
    | none ↦ elim s.instruction [ some p ↦ line_of o p s | none ↦ s.last_line ]
  ]

  -- The block that executes the user instruction at `p`.
  abbrev pub continues : Pointer → System → Bool
  continues (i, pc) s =
      let instruction = user_instruction_at o (up_at o s i) pc in
      instruction.continue_user && (instruction.delay == 0 || eqz instruction.delay_left (pos 1))

  unfoldable pub next_user : Bool → System → ℤ × System
  next_user dont_switch s =
      let (next, s1) = next_user_instruction o dont_switch s in
      let (found, s2) = try_user o next s1 in
      let s' = record s2 { user_instruction = found } in
      returns (if dont_switch then user_line_first s' else sm_line_first s') s'

  unfoldable pub step_user : Pointer → System → ℤ × System
  step_user p s =
      let first = continues p s in
      let s' = run_user_at p (record s { try_user_first = first }) in
      if s'.exited then (s'.last_line, s') else next_user first s'

  -- The block that executes the instruction at `p`.
  unfoldable pub next_sm : System → ℤ × System
  next_sm s =
      let (next, s1) = next_instruction o s in
      let (line, s2) = fired_ihs o (record s1 { instruction = next }) in
      let (found, s3) = try_sm o next s2 in
      let s' = record s3 { instruction = found; last_line = negsuc 0 } in
      if not (ltz line (pos 0)) then returns line s2 else returns (user_line_first s') s'

  unfoldable pub finish_sm : Pointer → System → ℤ × System
  finish_sm p s =
      let s' = run_devices s.devices s in
      if s'.exited then (s'.last_line, s') else next_sm (tick p s')

  unfoldable pub step_sm : ℕ → Pointer → System → Option (ℤ × System)
  step_sm fuel p s = do
    s' ← run_at fuel p (record s { try_user_first = true })
    some (finish_sm p s')

  -- The conditions of the two blocks, by which of the two pointers are NULL.
  unfoldable pub step_found : ℕ → System → Option (ℤ × System)
  step_found fuel s = elim s.user_instruction [
    | none ↦ elim s.instruction [ none ↦ some (s.last_line, s) | some p ↦ step_sm fuel p s ]
    | some q ↦ elim s.instruction [
      | none ↦ some (step_user q s)
      | some p ↦ if s.try_user_first then some (step_user q s) else step_sm fuel p s
    ]
  ]

  unfoldable pub find_both : System → System
  find_both s =
      let (user, s1) = try_user o s.user_instruction s in
      let (found, s2) = try_sm o s1.instruction s1 in
      record s2 { user_instruction = user; instruction = found }

  unfoldable pub exec_step_programs_next_instruction : ℕ → System → Option (ℤ × System)
  exec_step_programs_next_instruction fuel s =
      if s.exited
      then some (s.last_line, record s { exec_context = exec_idle })
      else elim s.exec_context [
        | exec_interrupt ↦ some (exec_step_programs_next_interrupt_instruction o s)
        | _ ↦ step_found fuel (find_both s)
      ]
