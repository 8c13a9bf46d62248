-- ===== src/Session.antt =====
-- src/main.c: the commands that the user interface calls (build, step, toggle a breakpoint, run) on the
-- static variables of that file, and the line lookup of src/instruction.c that a step uses.
pub mod Options
pub mod Asked
pub mod Command
pub mod Kept
pub mod Fresh
pub mod Terminal
pub mod Quit
pub mod Timeline
pub mod Shown
pub mod Oldest
pub mod Main
pub mod Tested
pub mod Registers
pub mod Contents
use simpio.Base.{
  negsuc, ◌++◌, ◌==◌, ℕ, ℤ, pos, ltz, eqz, Bool, true, false, Option, none, some, if◌then◌else◌,
  List, [], ◌∷◌,
}
use simpio.Hardware.{u8_of_int}
use simpio.Instruction.{Instruction, UserInstruction}
use simpio.User.{UserProcessor}
use simpio.Changed.{Snapshot, Changed, hardware_snapshot, hardware_get_changed}
use simpio.Exec.Run.{◌>>=◌}
use simpio.System.{
  System, Outside, Pio, IhProcessor, num_pios, num_user_processors, num_ih_processors,
  num_instructions,
}
use simpio.System.Entries.{num_user_instructions}
use simpio.System.Breakpoints.{find_first, instruction_toggle_breakpoint}
use simpio.System.Step.{exec_step_programs_next_instruction}
use simpio.System.RunAll.{exec_first_instruction_that_will_be_executed, exec_run_all_programs}

-- `instruction_or_user_instruction_t`: what a line stands for. Its pointer is only read.
pub data InstructionOrUserInstruction : Type 0 where
  is_no_instruction : InstructionOrUserInstruction
  is_instruction : Instruction → InstructionOrUserInstruction
  is_user_instruction : UserInstruction → InstructionOrUserInstruction

abbrev pub on_line : ℕ → Instruction → Option Instruction
on_line line i = if i.line == line then some i else none

abbrev pub user_on_line : ℕ → UserInstruction → Option UserInstruction
user_on_line line i = if i.line == line then some i else none

abbrev pub pio_on_line : ℕ → Pio → Option Instruction
pio_on_line line p = find_first (on_line line) num_instructions p.instructions

abbrev pub up_on_line : ℕ → UserProcessor → Option UserInstruction
up_on_line line up = find_first (user_on_line line) num_user_instructions up.instructions

abbrev pub ih_on_line : ℕ → IhProcessor → Option UserInstruction
ih_on_line line ih = up_on_line line ih.processor

unfoldable pub instruction_for_line : ℕ → System → InstructionOrUserInstruction
instruction_for_line line s = elim (find_first (pio_on_line line) num_pios s.pios) [
  | some i ↦ is_instruction i
  | none ↦ elim (find_first (up_on_line line) num_user_processors s.user_processors) [
    | some i ↦ is_user_instruction i
    | none ↦ elim (find_first (ih_on_line line) num_ih_processors s.ih_processors) [
      | some i ↦ is_user_instruction i
      | none ↦ is_no_instruction
    ]
  ]
]

-- The lines of the status window, with the number that they show.
pub data Message : Type 0 where
  need_to_build_to_step need_to_build_for_breakpoint need_to_build_to_run : Message
  no_instructions step_done no_next_instruction running : Message
  starting_at no_previous_instruction in_delay_state blocked : ℤ → Message
  user_delaying user_blocked toggled not_toggled stopped_at : ℤ → Message

-- The static variables of src/main.c and of src/hardware_changed.c, with the program they are about.
-- `changed` is what the window of the registers shows in bold.
pub record Session : Type 0 where
  pub system : System
  pub built : Bool
  pub first_stepit : Bool
  pub prev_line : ℤ
  pub snapshot : Snapshot
  pub changed : Changed
  pub messages : List Message

abbrev pub say : Message → Session → Session
say m s = record s { messages = s.messages ++ (m ∷ []) }

abbrev pub take_snapshot : Session → Session
take_snapshot s = record s { snapshot = hardware_snapshot s.system }

-- `buildit`, from what `simpio_parse` answers (the line of the error, or 0) and leaves as the program.
unfoldable pub buildit : ℤ × System → Session → ℤ × Session
buildit (error_line, system) s =
    let s' = record s { system = system; first_stepit = true } in
    if eqz error_line (pos 0) then (negsuc 0, record s' { built = true }) else (error_line, s')

-- What a step says of the instruction before it.
unfoldable pub report_previous : Session → Session
report_previous s = elim (instruction_for_line (u8_of_int s.prev_line) s.system) [
  | is_no_instruction ↦ say (no_previous_instruction s.prev_line) s
  | is_instruction i ↦
      if i.in_delay_state
      then say (in_delay_state s.prev_line) s
      else if i.not_completed
      then say (blocked s.prev_line) s
      else s
  | is_user_instruction i ↦
      if i.in_delay_state
      then say (user_delaying s.prev_line) s
      else if i.not_completed
      then say (user_blocked s.prev_line) s
      else s
]

unfoldable pub toggleit : ℤ → Session → ℤ × Session
toggleit line s =
    let (found, system) = instruction_toggle_breakpoint (u8_of_int line) s.system in
    let s' = record s { system = system } in
    if s.built
    then (pos 1, if found then say (toggled line) s' else say (not_toggled line) s')
    else (pos 0, say need_to_build_for_breakpoint s)

module _ (o : Outside) where
  -- `update_regs`, without the calls that draw.
  unfoldable pub update_regs : Session → Session
  update_regs s = record s {
    changed = hardware_get_changed (o.fronts s.system) s.changed.irqs s.snapshot s.system;
  }

  -- The rest of `stepit`, from the line and the program that a step leads to.
  abbrev pub stepped_to : ℤ → Session → ℤ × Session
  stepped_to next_line s =
      let s' = record (update_regs s) { prev_line = next_line } in
      if ltz (pos 0) next_line then (next_line, s') else (pos 1, say no_next_instruction s')

  unfoldable pub after_step : Session → ℤ × System → ℤ × Session
  after_step s (next_line, system) =
      let s' = record s { system = system } in
      stepped_to next_line (if ltz (pos 0) next_line then report_previous s' else say step_done s')

  -- The rest of `runit`.
  unfoldable pub after_run : Session → ℤ × System → ℤ × Session
  after_run s (hit_line, system) =
      let s' = record s { system = system } in
      (hit_line, record (update_regs (say (stopped_at hit_line) s')) { prev_line = hit_line })

  -- `stepit`: the first step after a build only looks for the line that comes first.
  unfoldable pub first_step : Session → ℤ × Session
  first_step s =
      let next_line = exec_first_instruction_that_will_be_executed o s.system in
      if ltz next_line (pos 0) then (pos 1, say no_instructions s) else (
        next_line,
        record (say (starting_at next_line) (update_regs s)) { prev_line = next_line },
      )

  unfoldable pub next_step : ℕ → Session → Option (ℤ × Session)
  next_step fuel s = do
    stepped ← exec_step_programs_next_instruction o fuel s.system
    some (after_step s stepped)

  unfoldable pub stepit : ℕ → Session → Option (ℤ × Session)
  stepit fuel s =
      if s.built
      then (if s.first_stepit
          then some (first_step (record (take_snapshot s) { first_stepit = false }))
          else next_step fuel (take_snapshot s))
      else some (pos 1, say need_to_build_to_step s)

  -- `runit`, with the parameters of `exec_run_all_programs`.
  unfoldable pub run_built : (ℕ → Bool) → ℕ → ℕ → ℤ → Session → Option (ℤ × Session)
  run_built keys fuel rounds unset s = do
    stopped ← exec_run_all_programs o keys fuel rounds unset s.system
    some (after_run s stopped)

  unfoldable pub runit : (ℕ → Bool) → ℕ → ℕ → ℤ → Session → Option (ℤ × Session)
  runit keys fuel rounds unset s =
      if s.built
      then run_built keys fuel rounds unset
          (say running (record (take_snapshot s) { first_stepit = false }))
      else some (pos 1, say need_to_build_to_run (take_snapshot s))
