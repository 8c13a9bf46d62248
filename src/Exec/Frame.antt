-- ===== src/Exec/Frame.antt =====
-- The stages of an instruction that do not write to the FIFO.
use simpio.Base.{ℕ, ◌≡◌, refl, ◌∙◌, Bool, true, false}
use simpio.Base.{arith}
use simpio.Undefined.{Undefined}
use simpio.Instruction.{}
use simpio.Exec.Run.{}
use simpio.Instruction.{Instruction, Condition, Destination}
use simpio.Hardware.{Sm}
use simpio.Exec.Context.{Context, Place, in_program, in_exec, at_place, put_at, Outcome}
use simpio.Exec.Flow.{
  jmp_branch, run_jmp_instruction, run_irq_instruction, run_set_instruction, run_side_set,
}
use simpio.Exec.Shift.{}
use simpio.Exec.Shift.{out_store, out_shift}
use simpio.Exec.Data.{mov_store}
use simpio.Exec.Run.{
  side_and_delay, delay_cycle, finish, out_pc, assume_side_set, apply_side_set, start_delay,
  advance_pc, completed_at,
}

pub jmp_branch-fifo : (d : Condition) (c : Context) → (jmp_branch d c.gpios c.sm).1.fifo ≡ c.sm.fifo
unfolding jmp_branch
jmp_branch-fifo d c = ground arith

pub run_jmp-fifo : (p : Place) (c : Context) → (run_jmp_instruction p c).1.sm.fifo ≡ c.sm.fifo
unfolding run_jmp_instruction
run_jmp-fifo in_program c = ground (arith, jmp_branch-fifo c.program_instruction.condition c)
run_jmp-fifo in_exec c = ground (arith, jmp_branch-fifo c.sm.exec_instruction.condition c)

pub run_irq-fifo : (p : Place) (c : Context) → (run_irq_instruction p c).1.sm.fifo ≡ c.sm.fifo
unfolding run_irq_instruction
run_irq-fifo in_program c = ground arith
run_irq-fifo in_exec c = ground arith

pub run_set-fifo :
    (u : Undefined) (p : Place) (c : Context) → (run_set_instruction u p c).1.sm.fifo ≡ c.sm.fifo
unfolding run_set_instruction
run_set-fifo u in_program c = ground arith
run_set-fifo u in_exec c = ground arith

pub out_store-fifo :
    (u : Undefined) (d : Destination) (nbits bits_todo : ℕ) (c : Context)
    → (out_store u d nbits bits_todo c).sm.fifo ≡ c.sm.fifo
unfolding out_store
out_store-fifo u d nbits bits_todo c = ground arith

pub out_shift-fifo :
    (u : Undefined) (p : Place) (c : Context) → (out_shift u p c).sm.fifo ≡ c.sm.fifo
unfolding out_shift
out_shift-fifo u p c = ground (arith, out_store-fifo u (at_place p c).destination)

pub mov_store-fifo : (d : Destination) (v : ℕ) (c : Context) → (mov_store d v c).sm.fifo ≡ c.sm.fifo
unfolding mov_store
mov_store-fifo d v c = ground arith

pub assume_side_set-fifo : (p : Place) (c : Context) → (assume_side_set p c).sm.fifo ≡ c.sm.fifo
unfolding assume_side_set
assume_side_set-fifo in_program c = ground arith
assume_side_set-fifo in_exec c = ground arith

pub apply_side_set-fifo : (p : Place) (c : Context) → (apply_side_set p c).sm.fifo ≡ c.sm.fifo
unfolding apply_side_set run_side_set
apply_side_set-fifo p c = ground arith

pub start_delay-fifo :
    (p : Place) (done : Bool) (c : Context) → (start_delay p done c).1.sm.fifo ≡ c.sm.fifo
unfolding start_delay
start_delay-fifo in_program done c = ground arith
start_delay-fifo in_exec done c = ground arith

pub side_and_delay-fifo : (p : Place) (r : Outcome) → (side_and_delay p r).1.sm.fifo ≡ r.1.sm.fifo
unfolding side_and_delay
side_and_delay-fifo p r =
    start_delay-fifo p r.0 (apply_side_set p (assume_side_set p r.1))
    ∙ apply_side_set-fifo p (assume_side_set p r.1)
    ∙ assume_side_set-fifo p r.1

pub delay_cycle-fifo : (p : Place) (c : Context) → (delay_cycle p c).1.sm.fifo ≡ c.sm.fifo
unfolding delay_cycle
delay_cycle-fifo in_program c = ground arith
delay_cycle-fifo in_exec c = ground arith

pub advance_pc-fifo : (i : Instruction) (sm : Sm) → (advance_pc i sm).fifo ≡ sm.fifo
unfolding advance_pc
advance_pc-fifo i sm = ground arith

pub put_at-fifo : (p : Place) (i : Instruction) (c : Context) → (put_at p i c).sm.fifo ≡ c.sm.fifo
put_at-fifo in_program i c = refl
put_at-fifo in_exec i c = refl

pub completed_at-fifo : (p : Place) (c : Context) → (completed_at p c).sm.fifo ≡ c.sm.fifo
unfolding completed_at
completed_at-fifo p c = advance_pc-fifo _ _ ∙ put_at-fifo p _ c

pub finish-fifo : (p : Place) (r : Outcome) → (finish p r).1.sm.fifo ≡ r.1.sm.fifo
unfolding finish
finish-fifo p (true, c) = completed_at-fifo p c
finish-fifo p (false, c) = put_at-fifo p _ c

pub out_pc-fifo : (c : Context) → (out_pc c).sm.fifo ≡ c.sm.fifo
unfolding out_pc
out_pc-fifo c = ground arith
