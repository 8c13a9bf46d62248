-- ===== src/Exec/Delay.antt =====
-- The delay of an instruction: how many cycles it takes.
use simpio.Base.{ℕ, zero, suc, ◌≡◌, refl, ap, ◌∙◌, true, false, Option, none, some, arith}
use simpio.Undefined.{Undefined}
use simpio.Instruction.{reset}
use simpio.Exec.Context.{Context, Place, in_program, in_exec, at_place, put_at, Outcome}
use simpio.Exec.Run.{repeat_exec, delay_cycle, finish, completed_at, exec_run_instruction}

-- The context after a cycle of a delay with `k` cycles left.
abbrev waited : Place → ℕ → Context → Context
waited p k c = put_at p (record (at_place p c) { delay_left = k; not_completed = true }) c

delay_cycle_more :
    (u : Undefined) (fuel k : ℕ) (p : Place) (c : Context)
    → (at_place p c).in_delay_state ≡ true
    → (at_place p c).delay_left ≡ suc k
    → exec_run_instruction u (suc fuel) p c ≡ some (false, waited p k c)
unfolding exec_run_instruction delay_cycle finish
delay_cycle_more u fuel k in_program c d e = ground arith
delay_cycle_more u fuel k in_exec c d e = ground arith

delay_cycle_last :
    (u : Undefined) (fuel : ℕ) (p : Place) (c : Context)
    → (at_place p c).in_delay_state ≡ true
    → (at_place p c).delay_left ≡ 0
    → exec_run_instruction u (suc fuel) p c ≡ some (true, completed_at p c)
unfolding exec_run_instruction delay_cycle finish completed_at reset
delay_cycle_last u fuel in_program c d e = ground arith
delay_cycle_last u fuel in_exec c d e = ground arith

completed_at-waited :
    (p : Place) (k : ℕ) (c : Context) → completed_at p (waited p k c) ≡ completed_at p c
unfolding completed_at reset
completed_at-waited in_program k c = refl
completed_at-waited in_exec k c = refl

waited-at :
    (p : Place) (k : ℕ) (c : Context)
    → at_place p (waited p k c) ≡ record (at_place p c) { delay_left = k; not_completed = true }
waited-at in_program k c = refl
waited-at in_exec k c = refl

-- An instruction that is in its delay with `k` cycles left is completed by `k + 1` further calls, and
-- by no fewer. They leave the state that completing it at once would leave.
pub repeat_exec-delay :
    (u : Undefined) (fuel k : ℕ) (p : Place) (c : Context)
    → (at_place p c).in_delay_state ≡ true
    → (at_place p c).delay_left ≡ k
    → (repeat_exec (suc k) (exec_run_instruction u (suc fuel) p) c ≡ some (true, completed_at p c))
      × (repeat_exec k (exec_run_instruction u (suc fuel) p) c ≡ none)
unfolding repeat_exec
repeat_exec-delay u fuel zero p c d e = (ground (arith, delay_cycle_last u fuel p c d e), refl)
repeat_exec-delay u fuel (suc k) p c d e = rw (delay_cycle_more u fuel k p c d e) (
    onward (
      repeat_exec-delay u fuel k p (waited p k c) (ap (λ t. t.in_delay_state) (waited-at p k c) ∙ d)
        (ap (λ t. t.delay_left) (waited-at p k c))))
  where
    run : Context → Option Outcome
    run = exec_run_instruction u (suc fuel) p

    onward :
        (repeat_exec (suc k) run (waited p k c) ≡ some (true, completed_at p (waited p k c)))
          × (repeat_exec k run (waited p k c) ≡ none)
        → (repeat_exec (suc k) run (waited p k c) ≡ some (true, completed_at p c))
          × (repeat_exec k run (waited p k c) ≡ none)
    onward ih = (ih.0 ∙ ap (λ t. some (true, t)) (completed_at-waited p k c), ih.1)
