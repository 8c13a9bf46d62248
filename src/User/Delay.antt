-- ===== src/User/Delay.antt =====
-- The delay before a user instruction: how many calls it takes.
use simpio.Base.{ℕ, zero, suc, pos, ◌≡◌, refl, ap, ◌∙◌, true, false, arith}
use simpio.Hardware.{Sm}
use simpio.User.{
  UserContext, UserOutcome, exec_run_user_instruction, pre_delay, user_finish, run_user_type,
}

-- The instruction with `left` cycles of its delay left, and when its delay has ended.
abbrev pub waiting : ℕ → UserContext → UserContext
waiting left c = record c {
  instruction = record c.instruction {
    in_delay_state = true;
    delay_left = pos left;
    not_completed = true;
  };
}

abbrev pub ready : UserContext → UserContext
ready c = record c {
  instruction = record c.instruction {
    in_delay_state = false;
    delay_left = pos 0;
    delay_completed = true;
    not_completed = true;
  };
}

module _ (no_sm : Sm) (unset : ℕ) where
  -- Up to `n` calls, until the instruction has completed.
  pub user_repeat : ℕ → UserContext → UserOutcome
  user_repeat zero c = (false, c)
  user_repeat (suc n) c =
      let (completed, c') = exec_run_user_instruction no_sm unset c in
      elim completed [ true ↦ (true, c') | false ↦ user_repeat n c' ]

  user_repeat-suc :
      (n : ℕ) (c : UserContext) {c' : UserContext}
      → exec_run_user_instruction no_sm unset c ≡ (false, c')
      → user_repeat (suc n) c ≡ user_repeat n c'
  unfolding user_repeat
  user_repeat-suc n c e =
      ap (λ (r : UserOutcome). elim r.0 [ true ↦ (true, r.1) | false ↦ user_repeat n r.1 ]) e

  module _ (c : UserContext) (fresh : c.instruction.delay_completed ≡ false)
      (idle : c.instruction.in_delay_state ≡ false) where
    first_call :
        (n : ℕ)
        → c.instruction.delay ≡ suc n
        → exec_run_user_instruction no_sm unset c ≡ (false, waiting (suc n) c)
    unfolding exec_run_user_instruction pre_delay user_finish
    first_call n d = ground arith

    more_calls :
        (n left : ℕ)
        → c.instruction.delay ≡ suc n
        → exec_run_user_instruction no_sm unset (waiting (suc (suc left)) c)
          ≡ (false, waiting (suc left) c)
    unfolding exec_run_user_instruction pre_delay user_finish
    more_calls n left d = ground arith

    last_call :
        (n : ℕ)
        → c.instruction.delay ≡ suc n
        → exec_run_user_instruction no_sm unset (waiting 1 c)
          ≡ user_finish (run_user_type no_sm unset (ready c))
    unfolding exec_run_user_instruction pre_delay
    last_call n d = ground arith

    count :
        (n left : ℕ)
        → c.instruction.delay ≡ suc n
        → user_repeat left (waiting (suc left) c) ≡ (false, waiting 1 c)
    unfolding user_repeat
    count n zero d = refl
    count n (suc left) d = user_repeat-suc left _ (more_calls n left d) ∙ count n left d

    -- A user instruction with a delay of `n + 1` does nothing but count in its first `n + 1` calls; the
    -- next call runs it.
    pub user_repeat-delay :
        (n : ℕ)
        → c.instruction.delay ≡ suc n
        → (user_repeat (suc n) c ≡ (false, waiting 1 c))
          × (exec_run_user_instruction no_sm unset (waiting 1 c)
              ≡ user_finish (run_user_type no_sm unset (ready c)))
    user_repeat-delay n d = (user_repeat-suc n c (first_call n d) ∙ count n n d, last_call n d)
