-- ===== src/Tests/Steps.antt =====
-- A step of a concrete program.
use simpio.Base.{◌≡◌, refl, false, some, none, subst, All-replicate}
use simpio.Fifo.Holds.{no_values}
use simpio.Fifo.{bidi}
use simpio.Exec.Run.{is_exec}
use simpio.User.Kept.{SmInOrder}
use simpio.System.{System, Pointer, instruction_at}
use simpio.System.Frame.{Valid}
use simpio.System.Turns.{sm_round, find_sm, user_round, find_user}
use simpio.System.Search.{
  sm_runnable, up_runnable, next_instruction, next_user_instruction, try_user, try_sm,
}
use simpio.System.Step.{find_both, exec_step_programs_next_instruction}
use simpio.System.Kept.{step-Valid}
use simpio.System.Total.{Steps, step-Steps}
use simpio.Enumerator.{enum_next}
use simpio.System.RunAll.{exec_run_all_programs, run_rounds, second_step}
use simpio.System.Step.{
  step_found, step_user, step_sm, run_user_at, run_at, next_user, finish_sm, next_sm, run_devices,
  tick,
}
use simpio.System.Interrupt.{fired_ihs, fired_from}
use simpio.System.Breakpoints.{instruction_is_breakpoint, find_first}
use simpio.Exec.Run.{run_all}
use simpio.Fifo.{write, init}
use simpio.Instruction.{user_reset}
use simpio.Base.{ℤ, true, pos}
use simpio.User.{
  exec_run_user_instruction, pre_delay, run_user_type, run_write_instruction, user_finish,
}
use simpio.Tests.Samples.{new_fifo-Holds}
use simpio.Tests.Machines.{sample_system, sample_outside, empty_sm}

pub sample-Valid : Valid sample_system
sample-Valid = (All-replicate SmInOrder 8 empty_sm (no_values bidi, new_fifo-Holds), tt)

found_nop : elim (find_both sample_outside sample_system).instruction as (λ x. Type 0) [
  | none ↦ Unit
  | some p ↦
      is_exec (instruction_at sample_outside (find_both sample_outside sample_system) p).destination
      ≡ false
]
unfolding find_both try_user try_sm next_user_instruction next_instruction find_sm find_user
    sm_round user_round enum_next sm_runnable up_runnable
found_nop = refl

no_exec :
    (p : Pointer)
    → (find_both sample_outside sample_system).instruction ≡ some p
    → is_exec (instruction_at sample_outside (find_both sample_outside sample_system) p).destination
      ≡ false
no_exec p e =
    subst
      (λ x. elim x as (λ y. Type 0) [
        | none ↦ Unit
        | some q ↦
            is_exec
              (instruction_at sample_outside (find_both sample_outside sample_system) q).destination
            ≡ false
      ])
      e found_nop

step-Steps_example : Steps (exec_step_programs_next_instruction sample_outside 1 sample_system)
step-Steps_example = step-Steps sample_outside 0 sample_system no_exec

stepped : Steps (exec_step_programs_next_instruction sample_outside 1 sample_system)
stepped = step-Steps sample_outside 0 sample_system no_exec

step-Valid_example : Valid stepped.0.1
step-Valid_example =
    step-Valid sample_outside 1 sample_system stepped.0.1 stepped.0.0 sample-Valid stepped.1

-- A run of one round, two steps: a WRITE of the first user processor, then a NOP of the first state
-- machine. The key is pressed in that round.
run_returns :
    (r : ℤ × System) × (exec_run_all_programs sample_outside (λ i. true) 1 2 (pos 0) sample_system
      ≡ some r)
unfolding exec_run_all_programs run_rounds second_step exec_step_programs_next_instruction
    step_found step_user step_sm run_user_at run_at next_user finish_sm next_sm find_both try_user
    try_sm next_user_instruction next_instruction find_sm find_user sm_round user_round enum_next
    sm_runnable up_runnable run_all exec_run_user_instruction pre_delay run_user_type
    run_write_instruction write user_finish user_reset run_devices fired_ihs fired_from
    instruction_is_breakpoint find_first tick init
run_returns = (_, refl)
