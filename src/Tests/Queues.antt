-- ===== src/Tests/Queues.antt =====
-- The FIFO, and the instructions that use it.
use simpio.Base.{pos, false, ltz, ◌≡◌, ◌≢◌, refl, arith, true, List, [], ◌∷◌, if◌then◌else◌, some}
use simpio.Fifo.{Fifo, bidi, tx_only, init, push, write}
use simpio.Fifo.{set_status}
use simpio.Fifo.Spec.{Queues, rx_cap, enqueue, dequeue}
use simpio.Fifo.Holds.{Holds, no_values}
use simpio.Fifo.Refine.{push_refines, write_refines}
use simpio.Fifo.Order.{
  Op, push_value, write_value, read_value, pull_value, run, run_queues, run_refines,
}
use simpio.Fifo.Status.{Shows, after, after-Shows}
use simpio.Fifo.Snapshot.{compare-copy, compare_sound}
use simpio.Instruction.{push_instruction, pull_instruction}
use simpio.Exec.Context.{Context, in_program}
use simpio.Exec.Shift.{run_push_instruction, run_pull_instruction, push_isr}
use simpio.Exec.Run.{exec_run_instruction, completed_at, run_all}
use simpio.Exec.Transfer.{run_push-blocking, run_pull-blocking}
use simpio.Tests.Samples.{
  some_undefined, raw_fifo, new_fifo-Holds, sample_sm, sample_context, plain_instruction,
}

abbrev new_fifo : Fifo
new_fifo = init raw_fifo bidi

abbrev empty : Queues
empty = no_values bidi

-- A FIFO that has been pushed to and written to.
abbrev used_fifo : Fifo
used_fifo = (write (push new_fifo 5).1 6).1

abbrev used : Queues
used = record { mode = bidi; rx = 5 ∷ []; tx = 6 ∷ [] }

used_fifo-Holds : Holds used_fifo used
unfolding enqueue
used_fifo-Holds = (write_refines 6 (push_refines {f = new_fifo} {q = empty} 5 new_fifo-Holds).1).1

-- Five pushes, of which the last is refused, and five reads, of which the last is.
abbrev overfull : List Op
overfull =
    push_value 1
    ∷ push_value 2
    ∷ write_value 9
    ∷ push_value 3
    ∷ push_value 4
    ∷ push_value 5
    ∷ read_value
    ∷ read_value
    ∷ pull_value
    ∷ read_value
    ∷ read_value
    ∷ read_value
    ∷ []

run_refines_example : run new_fifo overfull ≡ run_queues empty overfull
run_refines_example = run_refines overfull {f = new_fifo} {q = empty} new_fifo-Holds

used_rx : ltz used_fifo.rx_bottom (pos 0) ≡ false
unfolding write push init set_status
used_rx = refl

compare_sound_example : (used.rx ≡ used.rx) × (used.tx ≡ used.tx)
compare_sound_example =
    compare_sound 1 2 {now = used_fifo} {before = used_fifo} {q = used} {q' = used} used_fifo-Holds
      used_fifo-Holds refl (compare-copy 1 2 used_fifo used_rx)

abbrev push_context : Context
push_context =
    sample_context (record plain_instruction { instruction_type = push_instruction })
      (sample_sm used_fifo)

abbrev pull_context : Context
pull_context =
    sample_context (record plain_instruction { instruction_type = pull_instruction })
      (sample_sm used_fifo)

not_tx_only : bidi ≢ tx_only
not_tx_only e = absurd (ground arith)

run_push-blocking_example :
    let (done, rx) = enqueue (rx_cap bidi) (5 ∷ []) 7 in
    let (completed, c') = run_push_instruction in_program push_context in
    (completed ≡ done)
    × (c'.sm.isr ≡ (if done then 0 else 7))
    × Holds c'.sm.fifo (record used { rx = rx })
run_push-blocking_example =
    run_push-blocking {q = used} in_program push_context used_fifo-Holds not_tx_only refl refl

run_pull-blocking_example :
    let (done, x, tx) = dequeue (6 ∷ []) 0 in
    let (completed, c') = run_pull_instruction in_program pull_context in
    (completed ≡ done) × (c'.sm.osr ≡ x) × Holds c'.sm.fifo (record used { tx = tx })
run_pull-blocking_example =
    run_pull-blocking {q = used} in_program pull_context used_fifo-Holds refl refl

abbrev pushed_context : Context
pushed_context = completed_at in_program (record push_context { sm = push_isr push_context.sm })

push_runs :
    exec_run_instruction some_undefined 1 in_program push_context ≡ some (true, pushed_context)
unfolding run_all push write init set_status
push_runs = refl

new_fifo-Shows : Shows new_fifo
unfolding init
new_fifo-Shows = (empty, new_fifo-Holds, refl)

after-Shows_example : Shows (after new_fifo overfull)
after-Shows_example = after-Shows overfull new_fifo new_fifo-Shows
