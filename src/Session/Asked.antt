-- ===== src/Session/Asked.antt =====
-- Which command lines `parse_options` takes, and what the exit code of a test run says.
use simpio.Base.{
  ◌≡◌, arith, ℕ, pos, ltz, Bool, not, ◌&&◌, ◌||◌, none, some, if◌then◌else◌, List, length, ltb, ◌∙◌,
  atoi, ℤ, negsuc,
}
use simpio.Session.Options.{Options, argument, read_options, parse_options, with_syntax}

-- A line that is given is positive, and a test has a line and no user interface.
abbrev pub accepted : List (List ℕ) → Bool
accepted argv =
    let has_line = ltb 3 (length argv) in
    (not has_line || ltz (pos 0) (atoi (argument 3 argv)))
    && (not (read_options argv).test || has_line && not (read_options argv).ui_mode)

-- The options that are asked for, with the syntax check where another option needs it.
abbrev pub completed : Options → Options
completed asked = record asked { syntax = asked.syntax || asked.print || asked.inter || asked.test }

completed-with_syntax : (asked : Options) → with_syntax asked ≡ completed asked
completed-with_syntax asked = ground arith

tested : (asked : Options) → (with_syntax asked).test ≡ asked.test
tested asked = ground arith

shown : (asked : Options) → (with_syntax asked).ui_mode ≡ asked.ui_mode
shown asked = ground arith

choice :
    (has_line test ui : Bool) (line : ℤ) (o : Options)
    → let line' = if has_line then line else negsuc 0 in
      (if has_line && not (ltz (pos 0) line')
        then none
        else if test && ui
        then none
        else if test && ltz line' (pos 0)
        then none
        else some o)
      ≡ (if (not has_line || ltz (pos 0) line) && (not test || has_line && not ui)
          then some o
          else none)
choice has_line test ui line o = ground arith

-- A command line is taken exactly if a line that it gives is positive and a test has a line and no
-- user interface; the options are then those asked for, with the syntax check wherever a test, a print
-- or an interactive run needs it.
pub parse_options_lem :
    (argv : List (List ℕ))
    → parse_options argv ≡ (if accepted argv then some (completed (read_options argv)) else none)
unfolding parse_options
parse_options_lem argv =
    let asked : Options = read_options argv in
    let has_line : Bool = ltb 3 (length argv) in
    let line : ℤ = atoi (argument 3 argv) in
    choice has_line (with_syntax asked).test (with_syntax asked).ui_mode line (with_syntax asked)
    ∙ (λ i.
        if (not has_line || ltz (pos 0) line)
          && (not (tested asked i) || has_line && not (shown asked i))
        then some (completed-with_syntax asked i)
        else none)
