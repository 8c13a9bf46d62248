-- ===== src/Session/Main.antt =====
-- `main` of src/main.c: the command line, the parser, and the three modes. What it prints of the
-- configuration is left out.
use simpio.Base.{
  ℕ, ltb, ℤ, pos, negsuc, eqz, Bool, not, ◌&&◌, ◌||◌, Option, none, some, if◌then◌else◌, List, [],
  length,
}
use simpio.System.{System, Outside}
use simpio.Session.Options.{Options, parse_options, main_test}
use simpio.Session.Terminal.{Terminal, interactive_mode}

-- What `main` finds outside: whether there is a file of that name, what `simpio_parse` answers and what
-- it and `simpio_parse_debug` make of the program, what `ui_run` leaves of it, the input, and the keys
-- of each run.
pub record World : Type 0 where
  pub found : Bool
  pub parsed : ℤ × System
  pub debugged : System
  pub ui_run : System → Option System
  pub input : List ℕ
  pub keys : ℕ → ℕ → Bool

-- An exit, with its code and the program.
abbrev pub Exit : Type 0
Exit = Option (ℤ × System)

-- The program after the block of the syntax check, or `none` where it exits with -1.
unfoldable pub check_syntax : World → Options → System → Option System
check_syntax w options s =
    if options.syntax
    then if options.debug
      then some w.debugged
      else if eqz w.parsed.0 (pos 0)
      then some w.parsed.1
      else none
    else some s

abbrev pub program_of : Option (ℤ × Terminal) → Exit
program_of none = none
program_of (some (code, t)) = some (code, t.system)

abbrev pub leave_ui : Option System → Exit
leave_ui none = none
leave_ui (some s) = some (pos 0, s)

module _ (o : Outside) (fuel rounds : ℕ) (unset : ℤ) (w : World) where
  -- The modes, in the order in which they are tested. `count` bounds the commands of the interactive one.
  unfoldable pub run_mode : ℕ → List (List ℕ) → Options → System → Exit
  run_mode count argv options s =
      if options.inter && not options.ui_mode
      then program_of (
          interactive_mode o w.keys fuel rounds unset count
            (record { system = s; input = w.input; printed = [] }))
      else if options.test
      then main_test o (w.keys 0) fuel rounds unset argv s
      else if options.ui_mode
      then leave_ui (w.ui_run s)
      else some (pos 0, s)

  unfoldable pub main : ℕ → List (List ℕ) → System → Exit
  main count argv s =
      if ltb (length argv) 2 || ltb 4 (length argv)
      then some (negsuc 0, s)
      else if not w.found
      then some (negsuc 0, s)
      else elim (parse_options argv) [
        | none ↦ some (negsuc 0, s)
        | some options ↦ elim (check_syntax w options s) [
          | none ↦ some (negsuc 0, w.parsed.1)
          | some s' ↦ run_mode count argv options s'
        ]
      ]
