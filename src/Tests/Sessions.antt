-- ===== src/Tests/Sessions.antt =====
-- Sessions of commands on the sample program.
use simpio.Base.{
  set, if◌then◌else◌, negsuc, ◌≡◌, refl, arith, ℕ, pos, ltz, true, false, some, none, List, [], ◌∷◌,
  map, replicate, codes, has_char, atoi, digits_value,
}
use simpio.History.{Entry, History, history_init}
use simpio.History.Stored.{updates}
use simpio.System.Frame.{Valid}
use simpio.System.RunAll.{
  exec_first_instruction_that_will_be_executed, first_sm_line, first_user_line,
}
use simpio.Session.{
  Session, stepit, buildit, first_step, next_step, after_step, update_regs, report_previous,
  toggleit, instruction_for_line,
}
use simpio.System.Turns.{sm_round, find_sm, user_round, find_user}
use simpio.System.Search.{
  sm_runnable, up_runnable, next_instruction, next_user_instruction, try_user, try_sm,
}
use simpio.System.Step.{
  find_both, exec_step_programs_next_instruction, step_found, step_user, step_sm, run_user_at,
  run_at, next_user, finish_sm, next_sm, run_devices, tick,
}
use simpio.Enumerator.{enum_next}
use simpio.System.Interrupt.{fired_ihs, fired_from}
use simpio.System.Breakpoints.{instruction_toggle_breakpoint, find_first, change_first}
use simpio.Exec.Run.{run_all}
use simpio.Fifo.{write, init}
use simpio.Instruction.{user_reset}
use simpio.User.{
  exec_run_user_instruction, pre_delay, run_user_type, run_write_instruction, user_finish,
}
use simpio.Session.Asked.{parse_options_lem}
use simpio.Session.Command.{Command, build, step, toggle_line, run, perform, perform_all}
use simpio.Session.Fresh.{Fresh}
use simpio.Session.Kept.{perform_all-Valid, perform_all-unbuilt}
use simpio.Session.Main.{World, main}
use simpio.Session.Tested.{main-test}
use simpio.Session.Oldest.{show_timeline-levels}
use simpio.Session.Options.{parse_options, read_options}
use simpio.Session.Quit.{interactive_mode-NoQuit}
use simpio.Session.Terminal.{Terminal, interactive_mode, nothing_to_execute, print}
use simpio.Hardware.{Gpio}
use simpio.Hardware.Lines.{no_gpio, hardware_get_gpio}
use simpio.Session.Shown.{seen}
use simpio.Session.Timeline.{Timeline, show_timeline}
use simpio.Tests.Machines.{sample_system, sample_outside}
use simpio.Tests.Steps.{sample-Valid}

abbrev sample_argv : List (List ℕ)
sample_argv = codes "simpio" ∷ codes "td" ∷ codes "blink.pio" ∷ codes "12" ∷ []

parse_options_lem_example :
    parse_options sample_argv
    ≡ some (record {
      syntax = true;
      test = true;
      ui_mode = false;
      print = false;
      inter = false;
      debug = true;
    })
unfolding read_options has_char atoi digits_value
parse_options_lem_example = parse_options_lem sample_argv

abbrev sample_session : Session
sample_session = record {
  system = sample_system;
  built = true;
  first_stepit = true;
  prev_line = pos 0;
  snapshot = record { irqs = []; sms = []; gpios = [] };
  changed = record { irqs = []; sms = []; gpios = [] };
  messages = [];
}

abbrev unbuilt : Session
unbuilt = record sample_session { built = false }

perform_all-unbuilt_example :
    (s' : Session) × (perform_all sample_outside 1 1
        (pos 0)
        (step ∷ run (λ i. true) ∷ toggle_line (pos 2) ∷ [])
        unbuilt
      ≡ some s')
    × (s'.system ≡ sample_system)
perform_all-unbuilt_example =
    perform_all-unbuilt sample_outside 1 1 (pos 0)
      (step ∷ run (λ i. true) ∷ toggle_line (pos 2) ∷ []) unbuilt (tt, (tt, (tt, tt))) refl

abbrev sample_terminal : Terminal
sample_terminal = record { system = sample_system; input = codes "b2\nrn"; printed = [] }

interactive_mode-NoQuit_example :
    interactive_mode sample_outside (λ n i. true) 1 2 (pos 0) 9 sample_terminal ≡ (
      if ltz (exec_first_instruction_that_will_be_executed sample_outside sample_system) (pos 0)
      then some (
        negsuc 0,
        print (nothing_to_execute ∷ []) (record sample_terminal { input = codes "2\nrn" }),
      )
      else none)
interactive_mode-NoQuit_example =
    interactive_mode-NoQuit sample_outside (λ n i. true) 1 2 (pos 0) 9 sample_terminal
      (refl, (refl, (refl, (refl, (refl, tt)))))

abbrev blank_entry : Entry
blank_entry = record { values = []; clock_tick = 0 }

abbrev blank_history : History
blank_history = record {
  gpio_history = replicate 50 blank_entry;
  count = 0;
  current_index = 0;
  current_iterator = 0;
}

abbrev three_on : List Gpio
three_on = set (replicate 32 no_gpio) 3 (record no_gpio { value = true })

abbrev sample_timeline : Timeline
sample_timeline = record {
  dialog = record { gpio_set = true ∷ false ∷ []; gpio_values = 3 ∷ 0 ∷ [] };
  history = updates (([], 4) ∷ (three_on, 6) ∷ ([], 9) ∷ []) (history_init blank_history).1;
  ui_history = record { values = false ∷ false ∷ []; clock_tick = 0 };
  gpio_history_num = 0;
  num_places = 0;
  iteration_count = 0;
}

-- The line 3 is on at the second update.
show_timeline-levels_example :
    map (seen 0) (show_timeline blank_entry 2 sample_timeline) ≡ (false, 4) ∷ (true, 6) ∷ []
unfolding hardware_get_gpio
show_timeline-levels_example =
    show_timeline-levels blank_entry 2 0 3 (([], 4) ∷ (three_on, 6) ∷ []) ([], 9) blank_history
      sample_timeline (omega arith) (omega arith) refl refl refl refl (omega arith) (omega arith)
      (omega arith)

abbrev sample_commands : List Command
sample_commands = build (pos 0) sample_system ∷ step ∷ step ∷ toggle_line (pos 2) ∷ []

performed :
    (s' : Session) × (perform_all sample_outside 1 2 (pos 0) sample_commands unbuilt ≡ some s')
unfolding perform_all perform buildit stepit first_step next_step after_step update_regs
    report_previous toggleit exec_first_instruction_that_will_be_executed first_user_line
    first_sm_line exec_step_programs_next_instruction step_found step_user step_sm run_user_at
    run_at next_user finish_sm next_sm find_both try_user try_sm next_user_instruction
    next_instruction find_sm find_user sm_round user_round enum_next sm_runnable up_runnable run_all
    exec_run_user_instruction pre_delay run_user_type run_write_instruction write user_finish
    user_reset run_devices fired_ihs fired_from tick init instruction_toggle_breakpoint change_first
    instruction_for_line find_first
performed = (_, refl)

perform_all-Valid_example : Valid performed.0.system
perform_all-Valid_example =
    perform_all-Valid sample_outside 1 2 (pos 0) sample_commands unbuilt performed.0
      (sample-Valid, (tt, (tt, (tt, tt)))) sample-Valid performed.1

abbrev sample_world : World
sample_world = record {
  found = true;
  parsed = (pos 7, sample_system);
  debugged = sample_system;
  ui_run = λ s. some s;
  input = [];
  keys = λ n i. false;
}

-- A test of a file with an error on line 7.
abbrev tested_argv : List (List ℕ)
tested_argv = codes "simpio" ∷ codes "t" ∷ codes "blink.pio" ∷ codes "1" ∷ []

main-test_example :
    main sample_outside 1 3 (pos 0) sample_world 9 tested_argv sample_system
    ≡ some (negsuc 0, sample_system)
unfolding read_options has_char atoi digits_value
main-test_example =
    main-test sample_outside 1 3 (pos 0) sample_world 9 tested_argv sample_system (omega arith)
      (omega arith) refl refl refl refl refl
