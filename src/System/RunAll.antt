-- ===== src/System/RunAll.antt =====
-- The run of a program up to a breakpoint or a key, and the line of the instruction that comes first,
-- in src/execution.c.
use simpio.Base.{
  ◌≡◌, refl, subst, ℕ, zero, suc, ◌+◌, ℤ, pos, negsuc, pos_part, ltz, Bool, true, false, not, ◌&&◌,
  ◌||◌, Option, none, some, List, [], ◌∷◌, if◌then◌else◌,
}
use simpio.Hardware.{Sm, u8_of_int}
use simpio.Exec.Run.{◌>>=◌}
use simpio.User.{UserProcessor, int8}
use simpio.System.{System, Outside, instruction_at, user_instruction_at}
use simpio.System.Search.{is_empty_type, sm_pointer}
use simpio.System.Breakpoints.{instruction_is_breakpoint}
use simpio.System.Step.{exec_step_programs_next_instruction}
use simpio.System.Frame.{Valid}
use simpio.System.Kept.{step-Valid}

module _ (o : Outside) where
  -- `first_instruction_line` and `first_user_instruction_line`, over the machines that are left. A line
  -- is returned as an `int8_t`.
  unfoldable pub first_sm_line : List Sm → System → ℤ
  first_sm_line [] s = negsuc 0
  first_sm_line (sm ∷ sms) s =
      let i = instruction_at o s (sm_pointer sm) in
      let rest = first_sm_line sms s in
      if not (ltz sm.pc (pos 0)) && not (is_empty_type i.instruction_type)
      then int8 (pos i.line)
      else rest

  unfoldable pub first_user_line : List UserProcessor → ℤ
  first_user_line [] = negsuc 0
  first_user_line (up ∷ ups) =
      let rest = first_user_line ups in
      if ltz up.pc (pos 0)
      then rest
      else int8 (pos (user_instruction_at o up (pos_part up.pc)).line)

  unfoldable pub exec_first_instruction_that_will_be_executed : System → ℤ
  exec_first_instruction_that_will_be_executed s =
      let first = first_user_line s.user_processors in
      if ltz first (pos 0) then first_sm_line s.sms s else first

  abbrev pub at_breakpoint : ℤ → System → Bool
  at_breakpoint line s = instruction_is_breakpoint (u8_of_int line) s

  -- The second step of a round, unless the first one has come to a breakpoint.
  unfoldable pub second_step : ℕ → ℤ × System → Option (ℤ × System)
  second_step fuel (line, s) =
      if at_breakpoint line s then some (line, s) else exec_step_programs_next_instruction o fuel s

  -- The loop of `exec_run_all_programs`. `keys` says in which rounds the key for a break is pressed; a
  -- step has the fuel `fuel`, and there are at most `rounds` rounds.
  unfoldable pub run_rounds :
      (ℕ → Bool) → ℕ → ℕ → ℕ → Bool → Bool → ℤ → System → Option (ℤ × System)
  run_rounds keys fuel zero round hit key line s = none
  run_rounds keys fuel (suc rounds) round hit key line s =
      if hit || key || s.exited then some (line, s) else do
        first ← exec_step_programs_next_instruction o fuel s
        next ← second_step fuel first
        run_rounds keys fuel rounds (round + 1) (at_breakpoint next.0 next.1) (keys round) next.0
            next.1

  -- The line of a run that does not start is not set.
  unfoldable pub exec_run_all_programs : (ℕ → Bool) → ℕ → ℕ → ℤ → System → Option (ℤ × System)
  exec_run_all_programs keys fuel rounds unset s = run_rounds keys fuel rounds 0 false false unset s

  abbrev Leaves : Option (ℤ × System) → Type 0
  Leaves none = Unit
  Leaves (some r) = Valid r.1

  step-Leaves :
      (fuel : ℕ) (s : System) → Valid s → Leaves (exec_step_programs_next_instruction o fuel s)
  step-Leaves fuel s v = choose (exec_step_programs_next_instruction o fuel s) refl
    where
      choose :
          (r : Option (ℤ × System)) → exec_step_programs_next_instruction o fuel s ≡ r → Leaves r
      choose none e = tt
      choose (some (line, s')) e = step-Valid o fuel s s' line v e

  either :
      (b : Bool) (x y : Option (ℤ × System)) → Leaves x → Leaves y → Leaves (if b then x else y)
  either true x y h k = h
  either false x y h k = k

  bind-Leaves :
      (x : Option (ℤ × System)) (f : ℤ × System → Option (ℤ × System))
      → Leaves x
      → ((r : ℤ × System) → Valid r.1 → Leaves (f r))
      → Leaves (x >>= f)
  bind-Leaves none f h k = tt
  bind-Leaves (some r) f h k = k r h

  run_rounds-Leaves :
      (keys : ℕ → Bool) (fuel rounds round : ℕ) (hit key : Bool) (line : ℤ) (s : System)
      → Valid s
      → Leaves (run_rounds keys fuel rounds round hit key line s)
  unfolding run_rounds second_step
  run_rounds-Leaves keys fuel zero round hit key line s v = tt
  run_rounds-Leaves keys fuel (suc rounds) round hit key line s v =
      either (hit || key || s.exited) _ _ v (
        bind-Leaves (exec_step_programs_next_instruction o fuel s) _ (step-Leaves fuel s v) (λ r w.
          bind-Leaves (second_step fuel r) _
            (either (at_breakpoint r.0 r.1) _ _ w (step-Leaves fuel r.1 w))
            (λ n x.
              run_rounds-Leaves keys fuel rounds (round + 1) (at_breakpoint n.0 n.1) (keys round)
                n.0 n.1 x)))

-- A run of the whole program that ends, at a breakpoint, by a key or by an EXIT, keeps all FIFOs in
-- order and the round robin of the user processors in range.
pub run_all-Valid :
    (o : Outside) (keys : ℕ → Bool) (fuel rounds : ℕ) (unset line : ℤ) (s s' : System)
    → Valid s
    → exec_run_all_programs o keys fuel rounds unset s ≡ some (line, s')
    → Valid s'
unfolding exec_run_all_programs
run_all-Valid o keys fuel rounds unset line s s' v e =
    subst (Leaves o) e (run_rounds-Leaves o keys fuel rounds 0 false false unset s v)
