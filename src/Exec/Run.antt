-- ===== src/Exec/Run.antt =====
-- `exec_run_instruction` of src/execution.c, with OUT and MOV, which call it for the instruction that
-- EXEC decoded. A level of EXEC inside EXEC, and a round of the loop that repeats such an instruction
-- until it completes, each cost fuel; `none` means that the fuel ran out. In C the loop has no other
-- end, so an instruction that waits for something outside its state machine hangs there.
use simpio.Base.{ℕ, zero, suc, pos, ◌+◌, ◌-◌, ◌%◌, ◌^◌, ◌+ℤ◌, ltz, eqz, ltb, if◌then◌else◌}
use simpio.Base.{Bool, true, false, not, ◌&&◌, Option, none, some}
use simpio.Undefined.{Undefined}
use simpio.Bits.{u16}
use simpio.Instruction.{
  Instruction, InstructionType, Destination, jmp_instruction, wait_instruction, nop_instruction,
  in_instruction, out_instruction, push_instruction, pull_instruction, mov_instruction,
  set_instruction, irq_instruction, empty_instruction, exec_destination, pc_destination, reset,
}
use simpio.Hardware.{Sm, int_of_u32, u32_of_int}
use simpio.Decode.{exec_instruction_decode}
use simpio.Exec.Context.{Context, Place, in_exec, at_place, put_at, Outcome}
use simpio.Exec.Flow.{
  jmp_branch, run_jmp_instruction, run_wait_instruction, run_nop_instruction, run_empty_instruction,
  run_set_instruction, run_irq_instruction, run_side_set,
}
use simpio.Exec.Shift.{
  run_push_instruction, run_pull_instruction, run_in_instruction, in_shift, run_autopush,
  run_autopull, out_shift,
}
use simpio.Exec.Data.{mov_value_of, mov_operate, mov_store}

infixl 5 ◌>>=◌
abbrev pub ◌>>=◌ {ℓ κ} : {A : Type ℓ} {B : Type κ} → Option A → (A → Option B) → Option B
none >>= f = none
some a >>= f = f a

abbrev pub is_exec : Destination → Bool
is_exec exec_destination = true
is_exec _ = false

abbrev pub is_pc : Destination → Bool
is_pc pc_destination = true
is_pc _ = false

abbrev pub is_jmp : InstructionType → Bool
is_jmp jmp_instruction = true
is_jmp _ = false

abbrev pub is_out : InstructionType → Bool
is_out out_instruction = true
is_out _ = false

-- `while (!completed) completed = exec_run_instruction(&(sm->exec_instruction))`.
unfoldable pub repeat_exec : ℕ → (Context → Option Outcome) → Context → Option Outcome
repeat_exec zero again c = none
repeat_exec (suc fuel) again c = do
  (completed, c') ← again c
  elim completed [ true ↦ some (true, c') | false ↦ repeat_exec fuel again c' ]

-- The end of `run_out_instruction` for the destination PC.
unfoldable pub out_pc : Context → Context
out_pc c =
    if ltb c.sm.pc_temp (u32_of_int c.next_instruction_location)
    then record c { sm = record c.sm { pc = int_of_u32 ((c.sm.pc_temp + 2 ^ 32 - 1) % 2 ^ 32) } }
    else c

module _ (u : Undefined) where
  -- `run_out_instruction` after the automatic pull; `again` runs the decoded instruction.
  unfoldable pub out_move : ℕ → (Context → Option Outcome) → Place → Context → Option Outcome
  out_move fuel again p c =
      let c' = out_shift u p c in
      let destination = (at_place p c').destination in
      let c'' = if is_pc destination then out_pc c' else c' in
      if is_exec destination
      then (let decoded = record c'' { sm = exec_instruction_decode u c''.sm } in
          elim u.decode_result [
            | true ↦ repeat_exec fuel again decoded
            | false ↦ some (false, decoded)
          ])
      else some (true, c'')

  unfoldable pub run_out_instruction :
      ℕ → (Context → Option Outcome) → Place → Context → Option Outcome
  run_out_instruction fuel again p c =
      let (pulled, c') = run_autopull c in
      if c.sm.osr_empty
      then (if c.sm.autopull
          then (if pulled then out_move fuel again p c' else some (false, c'))
          else some (false, c))
      else out_move fuel again p c

  unfoldable pub run_mov_instruction : (Context → Option Outcome) → Place → Context → Option Outcome
  run_mov_instruction again p c =
      let i = at_place p c in
      let value = mov_operate i.operation (mov_value_of u i.source c.gpios c.sm) in
      if is_exec i.destination
      then (let loaded = record c.sm { exec_machine_instruction = u16 value } in
          do (_, c') ← again (record c { sm = exec_instruction_decode u loaded }); some (true, c'))
      else some (true, mov_store i.destination value c)

  -- The switch of `exec_run_instruction` on the type.
  unfoldable pub run_type : ℕ → (Context → Option Outcome) → Place → Context → Option Outcome
  run_type fuel again p c = elim (at_place p c).instruction_type [
    | jmp_instruction ↦ some (run_jmp_instruction p c)
    | wait_instruction ↦ some (run_wait_instruction u p c)
    | nop_instruction ↦ some (run_nop_instruction c)
    | in_instruction ↦ some (run_in_instruction u p c)
    | out_instruction ↦ run_out_instruction fuel again p c
    | push_instruction ↦ some (run_push_instruction p c)
    | pull_instruction ↦ some (run_pull_instruction p c)
    | mov_instruction ↦ run_mov_instruction again p c
    | set_instruction ↦ some (run_set_instruction u p c)
    | irq_instruction ↦ some (run_irq_instruction p c)
    | empty_instruction ↦ some (run_empty_instruction c)
  ]

-- After the switch: the error that assumes a side set of 0, the side set, the start of a delay.
unfoldable pub assume_side_set : Place → Context → Context
assume_side_set p c =
    let i = at_place p c in
    if not c.sm.side_set_pins_optional && ltz i.side_set_value (pos 0)
    then put_at p (record i { side_set_value = pos 0 }) c
    else c

unfoldable pub apply_side_set : Place → Context → Context
apply_side_set p c = if ltz (at_place p c).side_set_value (pos 0) then c else run_side_set p c

unfoldable pub start_delay : Place → Bool → Context → Outcome
start_delay p completed c =
    let i = at_place p c in
    if completed && ltb 0 i.delay
    then (false, put_at p (record i { in_delay_state = true; delay_left = i.delay - 1 }) c)
    else (completed, c)

unfoldable pub side_and_delay : Place → Outcome → Outcome
side_and_delay p r = start_delay p r.0 (apply_side_set p (assume_side_set p r.1))

-- A cycle of an instruction that is in its delay.
unfoldable pub delay_cycle : Place → Context → Outcome
delay_cycle p c =
    let i = at_place p c in
    if ltb 0 i.delay_left
    then (false, put_at p (record i { delay_left = i.delay_left - 1 }) c)
    else (true, put_at p (record i { in_delay_state = false }) c)

-- The program counter after an instruction has completed.
unfoldable pub advance_pc : Instruction → Sm → Sm
advance_pc i sm =
    if is_jmp i.instruction_type
    then record sm { pc = pos i.jmp_pc }
    else if is_out i.instruction_type && is_exec i.destination
    then sm
    else if eqz sm.pc sm.wrap
    then record sm { pc = sm.wrap_target }
    else record sm { pc = sm.pc +ℤ pos 1 }

unfoldable pub completed_at : Place → Context → Context
completed_at p c =
    let c' = put_at p (reset (at_place p c)) c in
    record c' { sm = advance_pc (at_place p c') c'.sm }

unfoldable pub finish : Place → Outcome → Outcome
finish p r =
    if r.0
    then (true, completed_at p r.1)
    else (false, put_at p (record (at_place p r.1) { not_completed = true }) r.1)

-- `exec_run_instruction`. The history of GPIO values that it updates is a component of its own.
unfoldable pub exec_run_instruction : Undefined → ℕ → Place → Context → Option Outcome
exec_run_instruction u zero p c = none
exec_run_instruction u (suc fuel) p c =
    if (at_place p c).in_delay_state then some (finish p (delay_cycle p c)) else do
      r ← run_type u fuel (exec_run_instruction u fuel in_exec) p c
      some (finish p (side_and_delay p r))

-- Every function of this component, for the tests to unfold at once.
unfoldable pub run_all : Unit {0}
unfolding exec_run_instruction run_type run_out_instruction out_move run_mov_instruction repeat_exec
    out_pc side_and_delay assume_side_set apply_side_set start_delay delay_cycle finish completed_at
    advance_pc reset run_jmp_instruction jmp_branch run_wait_instruction run_nop_instruction
    run_empty_instruction run_set_instruction run_irq_instruction run_side_set run_push_instruction
    run_pull_instruction run_in_instruction in_shift run_autopush run_autopull out_shift
    mov_value_of mov_operate mov_store exec_instruction_decode
run_all = tt
