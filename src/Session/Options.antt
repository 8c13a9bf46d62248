-- ===== src/Session/Options.antt =====
-- `parse_options` and `main_test` of src/main.c: the command line.
use simpio.Base.{
  ℕ, ℤ, pos, negsuc, ltz, eqz, Bool, true, false, not, ◌&&◌, Option, none, some, if◌then◌else◌,
  List, [], length, get_or, ltb, atoi, has_char,
}
use simpio.Exec.Run.{◌>>=◌}
use simpio.Hardware.{u8_of_int}
use simpio.System.{System, Outside}
use simpio.System.Breakpoints.{instruction_toggle_breakpoint}
use simpio.System.RunAll.{exec_run_all_programs}

-- `options_t`; `ui_mode` is its field `ui`.
pub record Options : Type 0 where
  pub syntax : Bool
  pub test : Bool
  pub ui_mode : Bool
  pub print : Bool
  pub inter : Bool
  pub debug : Bool

abbrev pub argument : ℕ → List (List ℕ) → List ℕ
argument i argv = get_or argv i []

-- The options as the second argument gives them, where there are more than two.
unfoldable pub read_options : List (List ℕ) → Options
read_options argv =
    let optionstr = argument 1 argv in
    if ltb 2 (length argv)
    then record {
      syntax = has_char b's' optionstr;
      test = has_char b't' optionstr;
      ui_mode = has_char b'u' optionstr;
      print = has_char b'p' optionstr;
      inter = has_char b'i' optionstr;
      debug = has_char b'd' optionstr;
    }
    else record {
      syntax = false;
      test = false;
      ui_mode = true;
      print = false;
      inter = false;
      debug = false;
    }

abbrev pub needs_syntax : Bool → Options → Options
needs_syntax option o = if option && not o.syntax then record o { syntax = true } else o

abbrev pub with_syntax : Options → Options
with_syntax o =
    let o1 = needs_syntax o.print o in let o2 = needs_syntax o1.inter o1 in needs_syntax o2.test o2

-- `parse_options`: what it stores in `options`, or `none` where it exits.
unfoldable pub parse_options : List (List ℕ) → Option Options
parse_options argv =
    let asked = read_options argv in
    let has_line = ltb 3 (length argv) in
    let line = if has_line then atoi (argument 3 argv) else negsuc 0 in
    let o = with_syntax asked in
    if has_line && not (ltz (pos 0) line)
    then none
    else if o.test && o.ui_mode
    then none
    else if o.test && ltz line (pos 0)
    then none
    else some o

-- The result of `main_test` from the line that the run stopped at.
abbrev pub test_result : ℤ → ℤ → ℤ
test_result line next_line = if eqz next_line line then pos 0 else next_line

abbrev pub verdict : ℤ → ℤ × System → ℤ × System
verdict line (next_line, s) = (test_result line next_line, s)

module _ (o : Outside) (keys : ℕ → Bool) (fuel rounds : ℕ) (unset : ℤ) where
  unfoldable pub run_to : ℤ → System → Option (ℤ × System)
  run_to line s = do
    stopped ← exec_run_all_programs o keys fuel rounds unset s
    some (verdict line stopped)

  -- `main_test`: its result, which is the exit code, and the program after it.
  unfoldable pub main_test : List (List ℕ) → System → Option (ℤ × System)
  main_test argv s =
      let line = atoi (argument 3 argv) in
      let (toggled, s') = instruction_toggle_breakpoint (u8_of_int line) s in
      if not (ltz (pos 0) line)
      then some (negsuc 0, s)
      else if not toggled
      then some (negsuc 0, s')
      else run_to line s'
