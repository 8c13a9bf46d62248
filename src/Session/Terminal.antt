-- ===== src/Session/Terminal.antt =====
-- The interactive mode of `main` in src/main.c: commands of one character each on the standard input.
use simpio.Base.{
  ◌++◌, ℕ, zero, suc, ◌==◌, ℤ, pos, negsuc, ltz, eqz, Bool, false, not, ◌||◌, Option, none, some,
  if◌then◌else◌, List, [], ◌∷◌, atoi,
}
use simpio.Exec.Run.{◌>>=◌}
use simpio.Hardware.{u8_of_int}
use simpio.System.{System, Outside}
use simpio.System.Breakpoints.{instruction_toggle_breakpoint, instruction_is_breakpoint}
use simpio.System.Step.{exec_step_programs_next_instruction}
use simpio.System.RunAll.{exec_first_instruction_that_will_be_executed, exec_run_all_programs}

-- What is printed: `shown` is a line that `print_line` prints.
pub data Printed : Type 0 where
  need_line_number breakpoint_set breakpoint_cleared nothing_to_execute : Printed
  starting_at no_instruction_at shown : ℤ → Printed

pub record Terminal : Type 0 where
  pub system : System
  pub input : List ℕ
  pub printed : List Printed

abbrev pub print : List Printed → Terminal → Terminal
print lines t = record t { printed = t.printed ++ lines }

-- `getchar`, with `none` for EOF.
abbrev pub getchar : List ℕ → Option ℕ
getchar [] = none
getchar (c ∷ input) = some c

abbrev pub after_getchar : List ℕ → List ℕ
after_getchar [] = []
after_getchar (c ∷ input) = input

-- `fgets` of at most `limit` characters: the line, which is empty where `fgets` returns NULL, and the
-- rest of the input.
unfoldable pub fgets : ℕ → List ℕ → List ℕ × List ℕ
fgets zero input = ([], input)
fgets (suc limit) [] = ([], [])
fgets (suc limit) (c ∷ input) =
    let (line, rest) = fgets limit input in if c == 10 then (c ∷ [], input) else (c ∷ line, rest)

abbrev pub is_key : ℕ → ℕ → Option ℕ → Bool
is_key lower upper none = false
is_key lower upper (some c) = c == lower || c == upper

abbrev pub quits : Option ℕ → Bool
quits = is_key b'q' b'Q'

unfoldable pub toggle_at : ℤ → Terminal → Terminal
toggle_at break_line t =
    let (toggled, system) = instruction_toggle_breakpoint (u8_of_int break_line) t.system in
    let t' = record t { system = system } in
    if not toggled
    then print (no_instruction_at break_line ∷ []) t'
    else if instruction_is_breakpoint (u8_of_int break_line) system
    then print (breakpoint_set ∷ shown break_line ∷ []) t'
    else print (breakpoint_cleared ∷ shown break_line ∷ []) t'

unfoldable pub break_command : Terminal → Terminal
unfolding toggle_at
break_command t =
    let (line, rest) = fgets 79 t.input in
    let t' = record t { input = rest } in
    let break_line = atoi line in
    elim line [
      | [] ↦ print (need_line_number ∷ []) t'
      | _ ∷ _ ↦
          if eqz break_line (pos 0)
          then print (need_line_number ∷ []) t'
          else toggle_at break_line t'
    ]

abbrev pub arrived : Terminal → ℤ × System → Terminal
arrived t (next_line, system) = print (shown next_line ∷ []) (record t { system = system })

module _ (o : Outside) (keys : ℕ → ℕ → Bool) (fuel rounds : ℕ) (unset : ℤ) where
  -- The body of the loop, for a character that does not end it. `count` tells the runs apart.
  unfoldable pub run_command : ℕ → Terminal → Option Terminal
  run_command count t = do
    stopped ← exec_run_all_programs o (keys count) fuel rounds unset t.system
    some (arrived t stopped)

  unfoldable pub step_command : Terminal → Option Terminal
  step_command t = do
    stepped ← exec_step_programs_next_instruction o fuel t.system
    some (arrived t stepped)

  unfoldable pub command : ℕ → Option ℕ → Terminal → Option Terminal
  command count ch t =
      if is_key b'b' b'B' ch
      then some (break_command t)
      else if is_key b'r' b'R' ch
      then run_command count t
      else step_command t

  -- The loop, from the character that has been read, for at most `count` commands.
  unfoldable pub interact : ℕ → Option ℕ → Terminal → Option Terminal
  interact zero ch t = none
  interact (suc count) ch t = if quits ch then some t else do
    t' ← command count ch t
    interact count (getchar t'.input) (record t' { input = after_getchar t'.input })

  -- The mode from its first character on: the exit code, and what has been printed.
  abbrev pub exits : ℤ → Option Terminal → Option (ℤ × Terminal)
  exits code none = none
  exits code (some t) = some (code, t)

  unfoldable pub interactive_mode : ℕ → Terminal → Option (ℤ × Terminal)
  interactive_mode count t =
      let first = record t { input = after_getchar t.input } in
      let next_line = exec_first_instruction_that_will_be_executed o t.system in
      let second = record first { input = after_getchar first.input } in
      if quits (getchar t.input)
      then some (pos 0, first)
      else if ltz next_line (pos 0)
      then some (negsuc 0, print (nothing_to_execute ∷ []) first)
      else exits (pos 0) (
          interact count (getchar first.input)
            (print (starting_at next_line ∷ shown next_line ∷ []) second))
