-- ===== src/Session/Tested.antt =====
-- What a test run of `main` does.
use simpio.Base.{
  ◌≡◌, arith, ℕ, ◌≤◌, ℤ, pos, negsuc, eqz, true, false, some, if◌then◌else◌, List, length,
}
use simpio.System.{System, Outside}
use simpio.Session.Asked.{accepted, parse_options_lem}
use simpio.Session.Options.{read_options, main_test}
use simpio.Session.Main.{World, check_syntax, run_mode, main}

-- A test of a file that is there, by a command line that is taken and asks for neither the interactive
-- mode nor the details of the parser, exits with -1 if the parser finds an error, and else with the
-- verdict of the run of the program that has been parsed, also where the syntax check is not asked for.
pub main-test :
    (o : Outside) (fuel rounds : ℕ) (unset : ℤ) (w : World) (count : ℕ) (argv : List (List ℕ))
    (s : System)
    → 2 ≤ length argv
    → length argv ≤ 4
    → w.found ≡ true
    → accepted argv ≡ true
    → (read_options argv).test ≡ true
    → (read_options argv).inter ≡ false
    → (read_options argv).debug ≡ false
    → main o fuel rounds unset w count argv s ≡ (
        if eqz w.parsed.0 (pos 0)
        then main_test o (w.keys 0) fuel rounds unset argv w.parsed.1
        else some (negsuc 0, w.parsed.1))
unfolding main check_syntax run_mode
main-test o fuel rounds unset w count argv s lo hi f a t i d =
    ground (arith, parse_options_lem argv)
