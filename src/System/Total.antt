-- ===== src/System/Total.antt =====
-- When a step of the whole program comes to an end.
use simpio.Base.{arith, ℕ, suc, ◌≡◌, refl, Bool, true, false, Option, none, some, ℤ, if◌then◌else◌}
use simpio.Exec.Context.{Outcome, in_program}
use simpio.Exec.Run.{exec_run_instruction, is_exec, ◌>>=◌}
use simpio.Exec.Total.{Returns, exec_run_instruction-Returns}
use simpio.System.{
  System, Outside, Pointer, instruction_at, ExecContext, exec_normal, exec_interrupt, exec_idle,
}
use simpio.System.Step.{
  run_at, finish_sm, step_sm, step_found, context_of, after_instruction, find_both,
  exec_step_programs_next_instruction,
}

abbrev pub Steps : Option (ℤ × System) → Type 0
Steps r = (next : ℤ × System) × (r ≡ some next)

module _ (o : Outside) (fuel : ℕ) where
  step_sm-Steps :
      (p : Pointer) (s : System)
      → is_exec (instruction_at o s p).destination ≡ false
      → Steps (step_sm o (suc fuel) p s)
  unfolding step_sm run_at
  step_sm-Steps p s d =
      ran (exec_run_instruction o.undefined (suc fuel) in_program (context_of o p s'))
        (exec_run_instruction-Returns o.undefined fuel in_program (context_of o p s') d)
    where
      s' : System
      s' = record s { try_user_first = true }

      ran :
          (x : Option Outcome)
          → Returns x
          → Steps (
              x
              >>= (λ r. some (after_instruction o p (instruction_at o s' p).executing_sm r.1 s'))
              >>= λ s''. some (finish_sm o p s''))
      ran none (r, e) = absurd (ground arith)
      ran (some r) _ = (_, refl)

  step_found-Steps :
      (s : System)
      → ((p : Pointer)
          → s.instruction ≡ some p
          → is_exec (instruction_at o s p).destination ≡ false)
      → Steps (step_found o (suc fuel) s)
  unfolding step_found
  step_found-Steps s d = choose s.user_instruction s.instruction d
    where
      at : Option Pointer → Option Pointer → System
      at u i = record s { user_instruction = u; instruction = i }

      test : (b : Bool) (x y : Option (ℤ × System)) → Steps x → Steps y → Steps (if b then x else y)
      test true x y h k = h
      test false x y h k = k

      choose :
          (u i : Option Pointer)
          → ((p : Pointer) → i ≡ some p → is_exec (instruction_at o s p).destination ≡ false)
          → Steps (step_found o (suc fuel) (at u i))
      choose none none d = (_, refl)
      choose none (some p) d = step_sm-Steps p (at none (some p)) (d p refl)
      choose (some q) none d = (_, refl)
      choose (some q) (some p) d =
          test s.try_user_first _ _ (_, refl) (step_sm-Steps p (at (some q) (some p)) (d p refl))

  -- A step of the program returns with any fuel above 0, if the instruction of a state machine that is
  -- at hand, if any, does not store to EXEC.
  pub step-Steps :
      (s : System)
      → ((p : Pointer)
          → (find_both o s).instruction ≡ some p
          → is_exec (instruction_at o (find_both o s) p).destination ≡ false)
      → Steps (exec_step_programs_next_instruction o (suc fuel) s)
  unfolding exec_step_programs_next_instruction
  step-Steps s d =
      choose s.exited s.exec_context _ _ _ (_, refl) (_, refl) (step_found-Steps (find_both o s) d)
    where
      choose :
          (b : Bool) (c : ExecContext) (x y z : Option (ℤ × System))
          → Steps x
          → Steps y
          → Steps z
          → Steps (
              if b then x else elim c as (λ c'. Option (ℤ × System)) [ exec_interrupt ↦ y | _ ↦ z ])
      choose true c x y z h k l = h
      choose false exec_normal x y z h k l = l
      choose false exec_interrupt x y z h k l = k
      choose false exec_idle x y z h k l = l
