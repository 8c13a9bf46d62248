-- ===== src/Tests/Cycles.antt =====
-- Delays, IRQ, JMP and the pins at a concrete state machine.
use simpio.Base.{◌≡◌, refl, arith, true, false, [], none, some}
use simpio.Base.{◌<◌}
use simpio.Hardware.Lines.{hardware_irq_flag_is_set}
use simpio.Instruction.{nop_instruction, irq_instruction, wait_operation, x_decrement}
use simpio.Exec.Context.{Context, in_program, at_place, put_at}
use simpio.Exec.Flow.{run_irq_instruction, irq_flag_num, jmp_branch}
use simpio.Exec.Run.{repeat_exec, exec_run_instruction, completed_at}
use simpio.Exec.Total.{Returns, exec_run_instruction-Returns}
use simpio.Exec.Delay.{repeat_exec-delay}
use simpio.Exec.Signal.{cleared, run_irq-wait}
use simpio.Exec.Branch.{turns, turns-x_decrement}
use simpio.Tests.Samples.{some_undefined, raw_fifo, sample_sm, sample_context, plain_instruction}

abbrev delayed_context : Context
delayed_context =
    sample_context
      (record plain_instruction {
        instruction_type = nop_instruction;
        delay = 3;
        in_delay_state = true;
        delay_left = 2;
      })
      (sample_sm raw_fifo)

repeat_exec-delay_example :
    (repeat_exec 3 (exec_run_instruction some_undefined 1 in_program) delayed_context
      ≡ some (true, completed_at in_program delayed_context))
    × (repeat_exec 2 (exec_run_instruction some_undefined 1 in_program) delayed_context ≡ none)
repeat_exec-delay_example =
    repeat_exec-delay some_undefined 0 2 in_program delayed_context refl refl

abbrev irq_context : Context
irq_context =
    sample_context
      (record plain_instruction {
        instruction_type = irq_instruction;
        operation = wait_operation;
        index_or_value = 4;
      })
      (sample_sm raw_fifo)

flag_four : irq_flag_num (at_place in_program irq_context) irq_context.sm < 8
unfolding irq_flag_num
flag_four = omega arith

run_irq-wait_example :
    let (completed, c') = run_irq_instruction in_program irq_context in
    (completed ≡ false)
    × (hardware_irq_flag_is_set c'.irq_flags
          (irq_flag_num (at_place in_program irq_context) irq_context.sm)
        ≡ true)
    × (run_irq_instruction in_program c' ≡ (false, c'))
    × (run_irq_instruction in_program (cleared in_program c') ≡ (
      true,
      put_at in_program
          (record (at_place in_program irq_context) { already_set_waiting = false })
          (cleared in_program c'),
    ))
run_irq-wait_example = run_irq-wait in_program irq_context refl refl refl flag_four

turns-x_decrement_example :
    (turns 3 [] (sample_sm raw_fifo) ≡ (true, record (sample_sm raw_fifo) { scratch_x = 0 }))
    × (jmp_branch x_decrement [] (turns 3 [] (sample_sm raw_fifo)).1
        ≡ (false, record (sample_sm raw_fifo) { scratch_x = 0xFFFFFFFF }))
turns-x_decrement_example = turns-x_decrement 3 [] (sample_sm raw_fifo) refl (omega arith)

exec_run_instruction-Returns_example :
    Returns (exec_run_instruction some_undefined 1 in_program irq_context)
exec_run_instruction-Returns_example =
    exec_run_instruction-Returns some_undefined 0 in_program irq_context refl
