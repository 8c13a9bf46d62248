-- ===== src/Exec/Kept.antt =====
-- The FIFO of a state machine stays in order under every instruction, decoded ones included.
use simpio.Base.{ℕ, zero, suc, ◌≡◌, refl, sym, ◌∙◌, subst, Bool, true, false}
use simpio.Base.{if◌then◌else◌, Option, none, some}
use simpio.Exec.Flow.{run_wait_instruction, run_nop_instruction, run_empty_instruction}
use simpio.Undefined.{Undefined}
use simpio.Instruction.{
  jmp_instruction, wait_instruction, nop_instruction, in_instruction, out_instruction,
  push_instruction, pull_instruction, mov_instruction, set_instruction, irq_instruction,
  empty_instruction,
}
use simpio.Decode.{exec_instruction_decode}
use simpio.Exec.Run.{
  repeat_exec, ◌>>=◌, out_move, run_out_instruction, run_mov_instruction, is_exec, is_pc, run_type,
  exec_run_instruction,
}
use simpio.Exec.Data.{mov_operate, mov_value_of}
use simpio.Bits.{u16}
use simpio.Fifo.Holds.{Holds}
use simpio.Instruction.{InstructionType}
use simpio.Hardware.{Sm}
use simpio.Exec.Context.{Context, Place, in_exec, at_place, Outcome}
use simpio.Exec.Flow.{run_jmp_instruction, run_irq_instruction, run_set_instruction}
use simpio.Exec.Shift.{in_shift, run_push_instruction, run_in_instruction}
use simpio.Exec.Shift.{run_pull_instruction, run_autopull, out_shift}
use simpio.Exec.Data.{mov_store}
use simpio.Exec.Run.{side_and_delay, delay_cycle, finish, out_pc}
use simpio.Exec.Frame.{
  run_jmp-fifo, run_irq-fifo, run_set-fifo, out_shift-fifo, mov_store-fifo, side_and_delay-fifo,
  delay_cycle-fifo, finish-fifo, out_pc-fifo,
}
use simpio.Exec.Written.{
  InOrder, still, Pushed-InOrder, Pulled-InOrder, run_push-Pushed, run_pull-Pulled,
  run_autopull-Pulled, in_shift-fifo, run_in-Pushed,
}

-- What a computation that may run out of fuel leaves in order.
abbrev Keeps : Option Outcome → Type 0
Keeps none = Unit
Keeps (some r) = InOrder r.1

abbrev Safe : (Context → Option Outcome) → Type 0
Safe f = (c : Context) → InOrder c → Keeps (f c)

repeat_exec-Safe :
    (fuel : ℕ) (again : Context → Option Outcome) → Safe again → Safe (repeat_exec fuel again)
unfolding repeat_exec
repeat_exec-Safe zero again s c h = tt
repeat_exec-Safe (suc fuel) again s c h = next (again c) (s c h) (repeat_exec-Safe fuel again s)
  where
    next :
        (r : Option Outcome)
        → Keeps r
        → Safe (repeat_exec fuel again)
        → Keeps
            (r >>= λ o. elim o.0 [ true ↦ some (true, o.1) | false ↦ repeat_exec fuel again o.1 ])
    next none k ih = tt
    next (some (true, c')) k ih = k
    next (some (false, c')) k ih = ih c' k

decoded :
    (u : Undefined) (c : Context) (sm : Sm)
    → sm.fifo ≡ c.sm.fifo
    → InOrder c
    → InOrder (record c { sm = exec_instruction_decode u sm })
unfolding exec_instruction_decode
decoded u c sm e (q, h) = (q, subst (λ g. Holds g q) (sym e) h)

out_pc_if-fifo : (t : Bool) (c : Context) → (if t then out_pc c else c).sm.fifo ≡ c.sm.fifo
out_pc_if-fifo true c = out_pc-fifo c
out_pc_if-fifo false c = refl

module _ (u : Undefined) (fuel : ℕ) (again : Context → Option Outcome) (s : Safe again)
    (p : Place) where
  -- Where OUT has a decoded instruction to run, and where it has not.
  out_end-Safe :
      (exec decoded_ok : Bool) (c : Context)
      → InOrder c
      → Keeps (
          if exec
          then (elim decoded_ok [
            | true ↦ repeat_exec fuel again (record c { sm = exec_instruction_decode u c.sm })
            | false ↦ some (false, record c { sm = exec_instruction_decode u c.sm })
          ])
          else some (true, c))
  out_end-Safe true true c k =
      repeat_exec-Safe fuel again s (record c { sm = exec_instruction_decode u c.sm })
        (decoded u c c.sm refl k)
  out_end-Safe true false c k = decoded u c c.sm refl k
  out_end-Safe false d c k = k

  out_move-Safe : Safe (out_move u fuel again p)
  unfolding out_move
  out_move-Safe c h =
      let c' = out_shift u p c in
      let destination = (at_place p c').destination in
      out_end-Safe (is_exec destination) u.decode_result
        (if is_pc destination then out_pc c' else c')
        (still c (if is_pc destination then out_pc c' else c')
          (out_pc_if-fifo (is_pc destination) c' ∙ out_shift-fifo u p c) h)

  run_out-Safe : Safe (run_out_instruction u fuel again p)
  unfolding run_out_instruction
  run_out-Safe c h =
      choose c.sm.osr_empty c.sm.autopull (run_autopull c)
        (Pulled-InOrder c (run_autopull c).1 (run_autopull-Pulled c) h)
    where
      choose :
          (osr_empty autopull : Bool) (r : Outcome)
          → InOrder r.1
          → Keeps (
              if osr_empty
              then (if autopull
                  then (if r.0 then out_move u fuel again p r.1 else some (false, r.1))
                  else some (false, c))
              else out_move u fuel again p c)
      choose true true (true, c') k = out_move-Safe c' k
      choose true true (false, c') k = k
      choose true false r k = h
      choose false a r k = out_move-Safe c h

  run_mov-Safe : Safe (run_mov_instruction u again p)
  unfolding run_mov_instruction
  run_mov-Safe c h = choose (is_exec (at_place p c).destination)
    where
      value : ℕ
      value =
          mov_operate (at_place p c).operation (mov_value_of u (at_place p c).source c.gpios c.sm)

      next : (r : Option Outcome) → Keeps r → Keeps (r >>= λ o. some (true, o.1))
      next none k = tt
      next (some r) k = k

      loaded : Sm
      loaded = record c.sm { exec_machine_instruction = u16 value }

      choose :
          (exec : Bool)
          → Keeps (
              if exec
              then (again (record c { sm = exec_instruction_decode u loaded }) >>= λ o.
                  some (true, o.1))
              else some (true, mov_store (at_place p c).destination value c))
      choose true =
          next (again (record c { sm = exec_instruction_decode u loaded }))
            (s (record c { sm = exec_instruction_decode u loaded }) (decoded u c loaded refl h))
      choose false =
          still c (mov_store (at_place p c).destination value c)
            (mov_store-fifo (at_place p c).destination value c) h

  run_type-Safe : Safe (run_type u fuel again p)
  unfolding run_type run_wait_instruction run_nop_instruction run_empty_instruction
  run_type-Safe c h = choose (at_place p c).instruction_type
    where
      choose :
          (t : InstructionType)
          → Keeps (elim t [
            | jmp_instruction ↦ some (run_jmp_instruction p c)
            | wait_instruction ↦ some (run_wait_instruction u p c)
            | nop_instruction ↦ some (run_nop_instruction c)
            | in_instruction ↦ some (run_in_instruction u p c)
            | out_instruction ↦ run_out_instruction u fuel again p c
            | push_instruction ↦ some (run_push_instruction p c)
            | pull_instruction ↦ some (run_pull_instruction p c)
            | mov_instruction ↦ run_mov_instruction u again p c
            | set_instruction ↦ some (run_set_instruction u p c)
            | irq_instruction ↦ some (run_irq_instruction p c)
            | empty_instruction ↦ some (run_empty_instruction c)
          ])
      choose jmp_instruction = still c (run_jmp_instruction p c).1 (run_jmp-fifo p c) h
      choose wait_instruction = h
      choose nop_instruction = h
      choose in_instruction =
          Pushed-InOrder (in_shift u p c) (run_in_instruction u p c).1 (run_in-Pushed u p c)
            (still c (in_shift u p c) (in_shift-fifo u p c) h)
      choose out_instruction = run_out-Safe c h
      choose push_instruction =
          Pushed-InOrder c (run_push_instruction p c).1 (run_push-Pushed p c) h
      choose pull_instruction =
          Pulled-InOrder c (run_pull_instruction p c).1 (run_pull-Pulled p c) h
      choose mov_instruction = run_mov-Safe c h
      choose set_instruction = still c (run_set_instruction u p c).1 (run_set-fifo u p c) h
      choose irq_instruction = still c (run_irq_instruction p c).1 (run_irq-fifo p c) h
      choose empty_instruction = h

exec_run-Safe : (u : Undefined) (fuel : ℕ) (p : Place) → Safe (exec_run_instruction u fuel p)
unfolding exec_run_instruction
exec_run-Safe u zero p c h = tt
exec_run-Safe u (suc fuel) p c h =
    choose (exec_run-Safe u fuel in_exec) (at_place p c).in_delay_state
  where
    finished : (r : Outcome) → InOrder r.1 → InOrder (finish p r).1
    finished r k = still r.1 (finish p r).1 (finish-fifo p r) k

    next : (r : Option Outcome) → Keeps r → Keeps (r >>= λ o. some (finish p (side_and_delay p o)))
    next none k = tt
    next (some r) k =
        finished (side_and_delay p r) (still r.1 (side_and_delay p r).1 (side_and_delay-fifo p r) k)

    choose :
        Safe (exec_run_instruction u fuel in_exec)
        → (delayed : Bool)
        → Keeps (
            if delayed
            then some (finish p (delay_cycle p c))
            else run_type u fuel (exec_run_instruction u fuel in_exec) p c >>= λ o.
                some (finish p (side_and_delay p o)))
    choose ih true =
        finished (delay_cycle p c) (still c (delay_cycle p c).1 (delay_cycle-fifo p c) h)
    choose ih false =
        next (run_type u fuel (exec_run_instruction u fuel in_exec) p c)
          (run_type-Safe u fuel (exec_run_instruction u fuel in_exec) ih p c h)

-- A call of `exec_run_instruction` that comes to an end, on any instruction, keeps the FIFO of the
-- state machine in order, whatever the undefined values are.
pub exec_run_instruction-InOrder :
    (u : Undefined) (fuel : ℕ) (p : Place) (c c' : Context) (completed : Bool)
    → InOrder c
    → exec_run_instruction u fuel p c ≡ some (completed, c')
    → InOrder c'
exec_run_instruction-InOrder u fuel p c c' completed h e =
    subst Keeps e (exec_run-Safe u fuel p c h)
