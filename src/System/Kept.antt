-- ===== src/System/Kept.antt =====
-- A step of the whole program keeps its invariant.
use simpio.Base.{
  ℕ, ◌+◌, ◌≡◌, refl, subst, Bool, true, false, Option, none, some, List, [], ◌∷◌, if◌then◌else◌,
  All-set, pos, ℤ, ltz, not,
}
use simpio.Exec.Context.{Outcome, in_program}
use simpio.Exec.Run.{exec_run_instruction, ◌>>=◌}
use simpio.Exec.Kept.{exec_run_instruction-InOrder}
use simpio.User.{UserContext, exec_run_user_instruction}
use simpio.User.Kept.{AllInOrder, SmInOrder, exec_run_user-AllInOrder}
use simpio.System.{
  System, Outside, Pointer, IhProcessor, up_at, instruction_at, ExecContext, exec_normal,
  exec_interrupt, exec_idle,
}
use simpio.System.Search.{next_instruction, next_user_instruction, try_sm, try_user}
use simpio.System.Interrupt.{
  fired_ihs, exec_find_next_instruction_after_interrupt, run_ih, after_ih, ih_context, step_ih_from,
  exec_step_programs_next_interrupt_instruction, user_context,
}
use simpio.System.Step.{
  run_devices, run_at, tick, run_user_at, next_user, step_user, next_sm, finish_sm, step_sm,
  step_found, context_of, after_instruction, find_both, exec_step_programs_next_instruction,
  continues,
}
use simpio.System.Frame.{
  Valid, next_instruction-Valid, try_sm-Valid, next_user-Valid, try_user-Valid, fired_ihs-Valid,
  run_devices-Valid,
}

abbrev Step : Type 0
Step = ℤ × System

-- What a step leaves, if it comes to an end.
abbrev Keeps : Option Step → Type 0
Keeps none = Unit
Keeps (some r) = Valid r.1

abbrev Leaves : Option System → Type 0
Leaves none = Unit
Leaves (some s) = Valid s

either : (b : Bool) (x y : Step) → Valid x.1 → Valid y.1 → Valid (if b then x else y).1
either true x y h k = h
either false x y h k = k

chosen :
    (x : Option Pointer) (f : Pointer → Step) (d : Step)
    → ((p : Pointer) → Valid (f p).1)
    → Valid d.1
    → Valid (elim x as (λ x. Step) [ some p ↦ f p | none ↦ d ]).1
chosen none f d h k = k
chosen (some p) f d h k = h p

module _ (o : Outside) where
  after_interrupt-Valid :
      (s : System) → Valid s → Valid (exec_find_next_instruction_after_interrupt o s).1
  unfolding exec_find_next_instruction_after_interrupt
  after_interrupt-Valid s v =
      let r = next_instruction o s in
      let r1 = try_sm o r.0 r.1 in
      let r2 = try_user o o.unset_pointer r1.1 in
      let w = try_sm-Valid o r.0 r.1 (next_instruction-Valid o s v) in
      let w' = try_user-Valid o o.unset_pointer r1.1 w in
      chosen r1.0 _ _ (λ p. w) (chosen r2.0 _ _ (λ p. w') w')

  after_ih-Valid :
      (i : ℕ) (c : UserContext) (s : System)
      → AllInOrder c.sms
      → Valid s
      → Valid (after_ih o i c s).1
  unfolding after_ih
  after_ih-Valid i c s h (_, t) = either _ _ _ (h, t) (after_interrupt-Valid _ (h, t))

  run_ih-Valid : (i : ℕ) (s : System) → Valid s → Valid (run_ih o i s).1
  unfolding run_ih
  run_ih-Valid i s (h, t) =
      let r = exec_run_user_instruction o.sm o.unset_value (ih_context o i s) in
      after_ih-Valid i r.1 s (exec_run_user-AllInOrder o.sm o.unset_value (ih_context o i s) h)
        (h, t)

  step_ih-Valid :
      (i : ℕ) (ihs : List IhProcessor) (s : System) → Valid s → Valid (step_ih_from o i ihs s).1
  unfolding step_ih_from
  step_ih-Valid i [] s v = v
  step_ih-Valid i (ih ∷ ihs) s v =
      either (ltz ih.processor.pc (pos 0)) _ _ (step_ih-Valid (i + 1) ihs s v) (run_ih-Valid i s v)

  run_user-Valid : (p : Pointer) (s : System) → Valid s → Valid (run_user_at o p s)
  unfolding run_user_at
  run_user-Valid (i, pc) s (h, t) =
      (exec_run_user-AllInOrder o.sm o.unset_value (user_context o (up_at o s i) pc s) h, t)

  next_user-step : (d : Bool) (s : System) → Valid s → Valid (next_user o d s).1
  unfolding next_user
  next_user-step d s v =
      let r = next_user_instruction o d s in try_user-Valid o r.0 r.1 (next_user-Valid o d s v)

  step_user-Valid : (p : Pointer) (s : System) → Valid s → Valid (step_user o p s).1
  unfolding step_user
  step_user-Valid p s v =
      let s' = run_user_at o p (record s { try_user_first = continues o p s }) in
      let w = run_user-Valid p (record s { try_user_first = continues o p s }) v in
      either s'.exited (s'.last_line, s') (next_user o (continues o p s) s') w
        (next_user-step (continues o p s) s' w)

  tick-Valid : (p : Pointer) (s : System) → Valid s → Valid (tick o p s)
  unfolding tick
  tick-Valid p s (h, t) =
      (All-set SmInOrder s.sms (instruction_at o s p).executing_sm _ o.sm (λ k. k) h, t)

  next_sm-Valid : (s : System) → Valid s → Valid (next_sm o s).1
  unfolding next_sm
  next_sm-Valid s v =
      let r = next_instruction o s in
      let f = fired_ihs o (record r.1 { instruction = r.0 }) in
      let w = fired_ihs-Valid o (record r.1 { instruction = r.0 }) (next_instruction-Valid o s v) in
      either (not (ltz f.0 (pos 0))) _ _ w (try_sm-Valid o r.0 f.1 w)

  finish_sm-Valid : (p : Pointer) (s : System) → Valid s → Valid (finish_sm o p s).1
  unfolding finish_sm
  finish_sm-Valid p s v =
      let s' = run_devices o s.devices s in
      let w = run_devices-Valid o s.devices s v in
      either s'.exited (s'.last_line, s') (next_sm o (tick o p s')) w
        (next_sm-Valid (tick o p s') (tick-Valid p s' w))

  find_both-Valid : (s : System) → Valid s → Valid (find_both o s)
  unfolding find_both
  find_both-Valid s v =
      let r = try_user o s.user_instruction s in
      try_sm-Valid o r.1.instruction r.1 (try_user-Valid o s.user_instruction s v)

  run_at-Leaves : (fuel : ℕ) (p : Pointer) (s : System) → Valid s → Leaves (run_at o fuel p s)
  unfolding run_at
  run_at-Leaves fuel p s (h, t) =
      ran (exec_run_instruction o.undefined fuel in_program (context_of o p s)) refl
    where
      ran :
          (x : Option Outcome)
          → exec_run_instruction o.undefined fuel in_program (context_of o p s) ≡ x
          → Leaves
              (x >>= λ r. some (after_instruction o p (instruction_at o s p).executing_sm r.1 s))
      ran none e = tt
      ran (some (completed, c)) e = (
        All-set SmInOrder s.sms (instruction_at o s p).executing_sm c.sm o.sm
            (λ k.
              exec_run_instruction-InOrder o.undefined fuel in_program (context_of o p s) c
                completed k e)
            h,
        t,
      )

  step_sm-Keeps : (fuel : ℕ) (p : Pointer) (s : System) → Valid s → Keeps (step_sm o fuel p s)
  unfolding step_sm
  step_sm-Keeps fuel p s v =
      let s' = record s { try_user_first = true } in
      ran (run_at o fuel p s') (run_at-Leaves fuel p s' v)
    where
      ran : (x : Option System) → Leaves x → Keeps (x >>= λ r. some (finish_sm o p r))
      ran none k = tt
      ran (some r) k = finish_sm-Valid p r k

  step_found-Keeps : (fuel : ℕ) (s : System) → Valid s → Keeps (step_found o fuel s)
  unfolding step_found
  step_found-Keeps fuel s v = choose s.user_instruction s.instruction
    where
      at : Option Pointer → Option Pointer → System
      at u i = record s { user_instruction = u; instruction = i }

      test : (b : Bool) (x y : Option Step) → Keeps x → Keeps y → Keeps (if b then x else y)
      test true x y h k = h
      test false x y h k = k

      choose : (u i : Option Pointer) → Keeps (step_found o fuel (at u i))
      choose none none = v
      choose none (some p) = step_sm-Keeps fuel p (at none (some p)) v
      choose (some q) none = step_user-Valid q (at (some q) none) v
      choose (some q) (some p) =
          test s.try_user_first _ _ (step_user-Valid q (at (some q) (some p)) v)
            (step_sm-Keeps fuel p (at (some q) (some p)) v)

  step-Keeps :
      (fuel : ℕ) (s : System) → Valid s → Keeps (exec_step_programs_next_instruction o fuel s)
  unfolding exec_step_programs_next_instruction exec_step_programs_next_interrupt_instruction
  step-Keeps fuel s v = choose s.exited s.exec_context
    where
      at : Bool → ExecContext → System
      at b c = record s { exited = b; exec_context = c }

      choose :
          (b : Bool) (c : ExecContext) → Keeps (exec_step_programs_next_instruction o fuel (at b c))
      choose true c = v
      choose false exec_normal = step_found-Keeps fuel _ (find_both-Valid (at false exec_normal) v)
      choose false exec_interrupt = step_ih-Valid 0 s.ih_processors (at false exec_interrupt) v
      choose false exec_idle = step_found-Keeps fuel _ (find_both-Valid (at false exec_idle) v)

-- A step of the program that comes to an end keeps all FIFOs in order, and the round robin of the user
-- processors in range, whatever instructions, handlers and devices it runs.
pub step-Valid :
    (o : Outside) (fuel : ℕ) (s s' : System) (line : ℤ)
    → Valid s
    → exec_step_programs_next_instruction o fuel s ≡ some (line, s')
    → Valid s'
step-Valid o fuel s s' line v e = subst Keeps e (step-Keeps o fuel s v)
