-- ===== src/Exec/Total.antt =====
-- An instruction that does not store to EXEC needs no fuel but for its own call.
use simpio.Base.{ℕ, suc, ◌≡◌, refl, ap, ◌∙◌, Bool, true, false, Option, some, if◌then◌else◌, arith}
use simpio.Undefined.{Undefined}
use simpio.Base.{sym, subst}
use simpio.Bits.{u16}
use simpio.Decode.{exec_instruction_decode}
use simpio.Exec.Data.{mov_operate, mov_value_of}
use simpio.Instruction.{
  InstructionType, Destination, jmp_instruction, wait_instruction, nop_instruction, in_instruction,
  out_instruction, push_instruction, pull_instruction, mov_instruction, set_instruction,
  irq_instruction, empty_instruction,
}
use simpio.Exec.Context.{Context, Place, in_program, in_exec, at_place, Outcome}
use simpio.Exec.Flow.{
  run_jmp_instruction, run_wait_instruction, run_nop_instruction, run_set_instruction,
  run_irq_instruction, run_empty_instruction,
}
use simpio.Exec.Shift.{
  run_push_instruction, run_pull_instruction, run_in_instruction, run_autopull, pull_osr, out_shift,
  out_store,
}
use simpio.Exec.Run.{
  exec_run_instruction, run_type, run_out_instruction, out_move, run_mov_instruction, finish,
  side_and_delay, delay_cycle, is_exec, ◌>>=◌,
}

abbrev pub Returns : Option Outcome → Type 0
Returns o = (r : Outcome) × (o ≡ some r)

-- The destination of the instruction, which no shift and no pull writes to.
out_store-destination :
    (u : Undefined) (d : Destination) (nbits bits_todo : ℕ) (p : Place) (c : Context)
    → (at_place p (out_store u d nbits bits_todo c)).destination ≡ (at_place p c).destination
unfolding out_store
out_store-destination u d nbits bits_todo in_program c = ground arith
out_store-destination u d nbits bits_todo in_exec c = ground arith

out_shift-destination :
    (u : Undefined) (p : Place) (c : Context)
    → (at_place p (out_shift u p c)).destination ≡ (at_place p c).destination
unfolding out_shift
out_shift-destination u in_program c =
    ground (arith, out_store-destination u (at_place in_program c).destination)
out_shift-destination u in_exec c = grind (arith, out_store-destination)

run_autopull-destination :
    (p : Place) (c : Context)
    → (at_place p (run_autopull c).1).destination ≡ (at_place p c).destination
unfolding run_autopull pull_osr
run_autopull-destination in_program c = ground arith
run_autopull-destination in_exec c = ground arith

module _ (u : Undefined) (fuel : ℕ) (again : Context → Option Outcome) (p : Place) where
  out_move-Returns :
      (c : Context)
      → is_exec (at_place p c).destination ≡ false
      → Returns (out_move u fuel again p c)
  unfolding out_move
  out_move-Returns c h = rw (ap is_exec (out_shift-destination u p c) ∙ h) (_, refl)

  run_out-Returns :
      (c : Context)
      → is_exec (at_place p c).destination ≡ false
      → Returns (run_out_instruction u fuel again p c)
  unfolding run_out_instruction
  run_out-Returns c h =
      choose c.sm.osr_empty c.sm.autopull (run_autopull c)
        (ap is_exec (run_autopull-destination p c) ∙ h)
    where
      choose :
          (osr_empty autopull : Bool) (r : Outcome)
          → is_exec (at_place p r.1).destination ≡ false
          → Returns (
              if osr_empty
              then (if autopull
                  then (if r.0 then out_move u fuel again p r.1 else some (false, r.1))
                  else some (false, c))
              else out_move u fuel again p c)
      choose true true (true, c') k = out_move-Returns c' k
      choose true true (false, c') k = (_, refl)
      choose true false r k = (_, refl)
      choose false a r k = out_move-Returns c h

  run_mov-Returns :
      (c : Context)
      → is_exec (at_place p c).destination ≡ false
      → Returns (run_mov_instruction u again p c)
  unfolding run_mov_instruction
  run_mov-Returns c h = rw (h) (_, refl)

  run_type-Returns :
      (c : Context)
      → is_exec (at_place p c).destination ≡ false
      → Returns (run_type u fuel again p c)
  unfolding run_type
  run_type-Returns c h = choose (at_place p c).instruction_type
    where
      choose :
          (t : InstructionType)
          → Returns (elim t [
            | jmp_instruction ↦ some (run_jmp_instruction p c)
            | wait_instruction ↦ some (run_wait_instruction u p c)
            | nop_instruction ↦ some (run_nop_instruction c)
            | in_instruction ↦ some (run_in_instruction u p c)
            | out_instruction ↦ run_out_instruction u fuel again p c
            | push_instruction ↦ some (run_push_instruction p c)
            | pull_instruction ↦ some (run_pull_instruction p c)
            | mov_instruction ↦ run_mov_instruction u again p c
            | set_instruction ↦ some (run_set_instruction u p c)
            | irq_instruction ↦ some (run_irq_instruction p c)
            | empty_instruction ↦ some (run_empty_instruction c)
          ])
      choose out_instruction = run_out-Returns c h
      choose mov_instruction = run_mov-Returns c h
      choose jmp_instruction = (_, refl)
      choose wait_instruction = (_, refl)
      choose nop_instruction = (_, refl)
      choose in_instruction = (_, refl)
      choose push_instruction = (_, refl)
      choose pull_instruction = (_, refl)
      choose set_instruction = (_, refl)
      choose irq_instruction = (_, refl)
      choose empty_instruction = (_, refl)

-- A call returns if the handler does.
call-Returns :
    (u : Undefined) (fuel : ℕ) (p : Place) (c : Context)
    → Returns (run_type u fuel (exec_run_instruction u fuel in_exec) p c)
    → Returns (exec_run_instruction u (suc fuel) p c)
unfolding exec_run_instruction
call-Returns u fuel p c = choose (at_place p c).in_delay_state
  where
    choose :
        (delayed : Bool)
        → Returns (run_type u fuel (exec_run_instruction u fuel in_exec) p c)
        → Returns (
            if delayed
            then some (finish p (delay_cycle p c))
            else run_type u fuel (exec_run_instruction u fuel in_exec) p c >>= λ o.
                some (finish p (side_and_delay p o)))
    choose true k = (_, refl)
    choose false (r, e) =
        (finish p (side_and_delay p r), ap (λ t. t >>= λ o. some (finish p (side_and_delay p o))) e)

-- With any fuel above 0, a call of `exec_run_instruction` returns, unless the destination of the
-- instruction is EXEC.
pub exec_run_instruction-Returns :
    (u : Undefined) (fuel : ℕ) (p : Place) (c : Context)
    → is_exec (at_place p c).destination ≡ false
    → Returns (exec_run_instruction u (suc fuel) p c)
exec_run_instruction-Returns u fuel p c h =
    call-Returns u fuel p c (run_type-Returns u fuel (exec_run_instruction u fuel in_exec) p c h)

-- The context in which MOV to EXEC runs what it has decoded.
abbrev pub mov_decoded : Undefined → Place → Context → Context
mov_decoded u p c =
    let i = at_place p c in
    let value = mov_operate i.operation (mov_value_of u i.source c.gpios c.sm) in
    record c {
      sm = exec_instruction_decode u (record c.sm { exec_machine_instruction = u16 value });
    }

mov_exec-Returns :
    (u : Undefined) (again : Context → Option Outcome) (p : Place) (c : Context)
    → is_exec (at_place p c).destination ≡ true
    → Returns (again (mov_decoded u p c))
    → Returns (run_mov_instruction u again p c)
unfolding run_mov_instruction
mov_exec-Returns u again p c d (r, e) = rw (d, e) (_, refl)

run_type-mov :
    (u : Undefined) (fuel : ℕ) (again : Context → Option Outcome) (p : Place) (c : Context)
    → (at_place p c).instruction_type ≡ mov_instruction
    → run_type u fuel again p c ≡ run_mov_instruction u again p c
unfolding run_type
run_type-mov u fuel again p c t = rw (run_type, t) refl

-- A call on a MOV to EXEC returns with any fuel above 1, if the instruction that it decodes has another
-- destination than EXEC.
pub exec_run_instruction-mov_exec :
    (u : Undefined) (fuel : ℕ) (p : Place) (c : Context)
    → (at_place p c).instruction_type ≡ mov_instruction
    → is_exec (at_place p c).destination ≡ true
    → is_exec (mov_decoded u p c).sm.exec_instruction.destination ≡ false
    → Returns (exec_run_instruction u (suc (suc fuel)) p c)
exec_run_instruction-mov_exec u fuel p c t d n = call-Returns u (suc fuel) p c (
    subst Returns
      (sym (run_type-mov u (suc fuel) (exec_run_instruction u (suc fuel) in_exec) p c t))
      (mov_exec-Returns u (exec_run_instruction u (suc fuel) in_exec) p c d
        (exec_run_instruction-Returns u fuel in_exec (mov_decoded u p c) n)))
