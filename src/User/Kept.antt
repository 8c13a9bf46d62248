-- ===== src/User/Kept.antt =====
-- User instructions keep the FIFOs of all state machines in order.
use simpio.Base.{
  Option, none, some, ℕ, ◌+◌, ◌≡◌, sym, subst, arith, Bool, true, false, if◌then◌else◌, ◌==◌, All,
  All-set, List, eqz, pos,
}
use simpio.Fifo.{is_full, is_empty, write, read}
use simpio.Fifo.Spec.{Queues, tx_cap, enqueue, dequeue}
use simpio.Fifo.Holds.{Holds}
use simpio.Fifo.Refine.{write_refines, read_refines}
use simpio.Hardware.{Sm}
use simpio.Instruction.{
  read_instruction, write_instruction, user_print_instruction, pin_instruction, data_instruction,
  repeat_instruction, exit_instruction, empty_user_instruction, UserInstructionType, DataOperation,
  data_write, data_read, data_readln, data_print, data_clear, data_set, no_data_operation,
}
use simpio.User.{
  UserContext, UserOutcome, sm_of, put_fifo, run_write_instruction, run_read_instruction,
  run_print_instruction, run_repeat_instruction, run_exit_instruction, run_pin_instruction,
  run_data_write, run_data_read, run_data_instruction, run_user_type, user_finish, pre_delay,
  exec_run_user_instruction,
}

-- The FIFO of a state machine holds some pair of queues.
abbrev pub SmInOrder : Sm → Type 0
SmInOrder sm = (q : Queues) × Holds sm.fifo q

abbrev pub AllInOrder : List Sm → Type 0
AllInOrder sms = All SmInOrder sms

write-InOrder :
    (sm : Sm) (v : ℕ) → SmInOrder sm → SmInOrder (record sm { fifo = (write sm.fifo v).1 })
write-InOrder sm v (q, h) =
    (record q { tx = (enqueue (tx_cap q.mode) q.tx v).1 }, (write_refines v h).1)

read-InOrder :
    (sm : Sm) (unset : ℕ) → SmInOrder sm → SmInOrder (record sm { fifo = (read sm.fifo unset).2 })
read-InOrder sm unset (q, h) = (record q { rx = (dequeue q.rx unset).2 }, (read_refines unset h).2)

either :
    (b : Bool) (x y : UserOutcome)
    → AllInOrder x.1.sms
    → AllInOrder y.1.sms
    → AllInOrder (if b then x else y).1.sms
either true x y h k = h
either false x y h k = k

module _ (no_sm : Sm) (unset : ℕ) (c : UserContext) (h : AllInOrder c.sms) where
  written : (v : ℕ) → AllInOrder (put_fifo no_sm (write (sm_of no_sm c).fifo v).1 c).sms
  written v =
      All-set SmInOrder c.sms c.instruction.executing_sm
        (record (sm_of no_sm c) { fifo = (write (sm_of no_sm c).fifo v).1 }) no_sm
        (write-InOrder (sm_of no_sm c) v) h

  taken : AllInOrder (put_fifo no_sm (read (sm_of no_sm c).fifo unset).2 c).sms
  taken =
      All-set SmInOrder c.sms c.instruction.executing_sm
        (record (sm_of no_sm c) { fifo = (read (sm_of no_sm c).fifo unset).2 }) no_sm
        (read-InOrder (sm_of no_sm c) unset) h

  run_write-AllInOrder : AllInOrder (run_write_instruction no_sm c).1.sms
  unfolding run_write_instruction
  run_write-AllInOrder =
      either (is_full (sm_of no_sm c).fifo.tx_state) _ _ h (written c.instruction.value)

  run_read-AllInOrder : AllInOrder (run_read_instruction no_sm unset c).1.sms
  unfolding run_read_instruction
  run_read-AllInOrder = either (is_empty (sm_of no_sm c).fifo.rx_state) _ _ h taken

  run_pin-sms : (run_pin_instruction no_sm c).1.sms ≡ c.sms
  unfolding run_pin_instruction
  run_pin-sms = ground arith

  run_data_write-AllInOrder : AllInOrder (run_data_write no_sm c).1.sms
  unfolding run_data_write
  run_data_write-AllInOrder = either (is_full (sm_of no_sm c).fifo.tx_state) _ _ h (written _)

  run_data_read-AllInOrder :
      (stops : ℕ → Bool) → AllInOrder (run_data_read no_sm unset stops c).1.sms
  unfolding run_data_read
  run_data_read-AllInOrder stops = either (is_empty (sm_of no_sm c).fifo.rx_state) _ _ h taken

module _ (no_sm : Sm) (unset : ℕ) where
  run_data-AllInOrder :
      (c : UserContext) → AllInOrder c.sms → AllInOrder (run_data_instruction no_sm unset c).1.sms
  unfolding run_data_instruction
  run_data-AllInOrder c h = choose c.instruction.data_operation_type c.instruction.data_ptr
    where
      at : DataOperation → Option (List ℕ) → UserContext
      at d t = record c {
        instruction = record c.instruction { data_operation_type = d; data_ptr = t };
      }

      choose :
          (d : DataOperation) (t : Option (List ℕ))
          → AllInOrder (run_data_instruction no_sm unset (at d t)).1.sms
      choose data_write t = run_data_write-AllInOrder no_sm unset (at data_write t) h
      choose data_read t =
          run_data_read-AllInOrder no_sm unset (at data_read t) h
            (λ _. eqz (pos (c.instruction.data_index + 1)) c.instruction.max_read_index)
      choose data_readln t =
          run_data_read-AllInOrder no_sm unset (at data_readln t) h (λ v. v == 46)
      choose data_print t = h
      choose data_set none = h
      choose data_set (some _) = h
      choose data_clear t = h
      choose no_data_operation t = h

  run_type-AllInOrder :
      (c : UserContext) → AllInOrder c.sms → AllInOrder (run_user_type no_sm unset c).1.sms
  unfolding run_user_type run_print_instruction run_repeat_instruction run_exit_instruction
  run_type-AllInOrder c h = choose c.instruction.instruction_type
    where
      at : UserInstructionType → UserContext
      at t = record c { instruction = record c.instruction { instruction_type = t } }

      choose : (t : UserInstructionType) → AllInOrder (run_user_type no_sm unset (at t)).1.sms
      choose write_instruction = run_write-AllInOrder no_sm unset (at write_instruction) h
      choose read_instruction = run_read-AllInOrder no_sm unset (at read_instruction) h
      choose user_print_instruction = h
      choose pin_instruction =
          subst AllInOrder (sym (run_pin-sms no_sm unset (at pin_instruction) h)) h
      choose data_instruction = run_data-AllInOrder (at data_instruction) h
      choose repeat_instruction = h
      choose exit_instruction = h
      choose empty_user_instruction = h

  finish-sms : (r : UserOutcome) → (user_finish r).1.sms ≡ r.1.sms
  unfolding user_finish
  finish-sms r = ground arith

  -- A user instruction keeps the FIFO of every state machine in order.
  pub exec_run_user-AllInOrder :
      (c : UserContext)
      → AllInOrder c.sms
      → AllInOrder (exec_run_user_instruction no_sm unset c).1.sms
  unfolding exec_run_user_instruction
  exec_run_user-AllInOrder c h =
      let c' = record c { instruction = pre_delay c.instruction } in
      subst AllInOrder (sym (finish-sms _)) (
        either c'.instruction.in_delay_state (false, c') (run_user_type no_sm unset c') h
          (run_type-AllInOrder c' h))
