-- ===== src/Tests/Users.antt =====
-- User instructions and their scheduling at a concrete program.
use simpio.Base.{
  Bool, All-replicate, ℕ, ◌≡◌, refl, arith, true, false, [], ◌∷◌, some, replicate, inl, ◌==◌,
  if◌then◌else◌,
}
use simpio.Fifo.{bidi}
use simpio.Fifo.Spec.{enqueue, dequeue, tx_cap}
use simpio.Fifo.Holds.{Holds, no_values}
use simpio.Instruction.{write_instruction}
use simpio.Instruction.Variables.{var_set, no_variable, var_define, var_get, var_get-var_define}
use simpio.User.{
  UserContext, sm_of, run_write_instruction, run_read_instruction, exec_run_user_instruction,
  user_finish, run_user_type,
}
use simpio.User.Delay.{user_repeat, user_repeat-delay, waiting, ready}
use simpio.User.Transfer.{run_write-queue, run_read-queue}
use simpio.System.Retry.{find_user_twice, find_user_twice_lem}
use simpio.System.Live.{picks, Picked, picks-All}
use simpio.Tests.Samples.{new_fifo-Holds}
use simpio.Tests.Machines.{plain_user_instruction, sample_up, empty_sm, sample_turn}

abbrev user_state : UserContext
user_state = record {
  instruction = record plain_user_instruction { instruction_type = write_instruction };
  up = sample_up;
  sms = empty_sm ∷ [];
  gpios = [];
  variables = replicate 2 no_variable;
  exited = false;
}

run_write-queue_example :
    let (done, tx) = enqueue (tx_cap bidi) [] 7 in
    let (completed, c') = run_write_instruction empty_sm user_state in
    (completed ≡ done) × Holds (sm_of empty_sm c').fifo (record (no_values bidi) { tx = tx })
run_write-queue_example =
    run_write-queue empty_sm user_state (omega arith) {q = no_values bidi} new_fifo-Holds
      (λ e. absurd (ground arith))

run_read-queue_example :
    let (done, value, rx) = dequeue [] 0 in
    let (completed, c') = run_read_instruction empty_sm 0 user_state in
    (completed ≡ done)
    × (c'.variables ≡ (
        if done then (var_set [] value (replicate 2 no_variable)).1 else replicate 2 no_variable))
    × Holds (sm_of empty_sm c').fifo (record (no_values bidi) { rx = rx })
run_read-queue_example =
    run_read-queue empty_sm user_state (omega arith) {q = no_values bidi} 0 new_fifo-Holds

abbrev delayed_user : UserContext
delayed_user = record user_state { instruction = record user_state.instruction { delay = 3 } }

user_repeat-delay_example :
    (user_repeat empty_sm 0 3 delayed_user ≡ (false, waiting 1 delayed_user))
    × (exec_run_user_instruction empty_sm 0 (waiting 1 delayed_user)
        ≡ user_finish (run_user_type empty_sm 0 (ready delayed_user)))
user_repeat-delay_example = user_repeat-delay empty_sm 0 delayed_user refl refl 2 refl

var_get-var_define_example :
    var_get
      (97 ∷ 98 ∷ [])
      (var_set (97 ∷ 98 ∷ []) 5 (var_define (97 ∷ 98 ∷ []) (replicate 2 no_variable)).1).1
    ≡ some 5
unfolding var_define
var_get-var_define_example =
    var_get-var_define (97 ∷ 98 ∷ []) 5 (replicate 2 no_variable) (omega arith) refl

find_user_twice_lem_example :
    (r : ℕ) × (find_user_twice (λ i. i == 0) true (record { current = some 1; e = 2 }) ≡ some r)
    × ((r == 0) ≡ true)
find_user_twice_lem_example =
    find_user_twice_lem (λ i. i == 0) true (record { current = some 1; e = 2 }) (omega arith, refl)
      (inl refl)

picks-All_example : Picked 5 (picks (replicate 8 (λ i. i == 5)) sample_turn)
picks-All_example =
    picks-All 5 (omega arith) (replicate 8 (λ i. i == 5)) sample_turn
      (All-replicate (λ (runnable : ℕ → Bool). runnable 5 ≡ true) 8 (λ i. i == 5) refl)
      (omega arith)
