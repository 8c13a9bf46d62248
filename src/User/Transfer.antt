-- ===== src/User/Transfer.antt =====
-- WRITE and READ of a user processor are at the other end of the two queues of a state machine.
use simpio.Base.{ℕ, ◌<◌, ◌≡◌, ◌≢◌, refl, sym, ap, subst, Bool-cases, inl, inr, ◌==◌}
use simpio.Base.{List, [], ◌∷◌, ◌++◌, length, if◌then◌else◌, get_or-set_self}
use simpio.Fifo.{Fifo, FifoMode, rx_only, write, read}
use simpio.Fifo.Spec.{Queues, tx_cap, enqueue, dequeue}
use simpio.Fifo.Holds.{Holds}
use simpio.Fifo.Refine.{read_refines, suc-beq-zero}
use simpio.Fifo.Flags.{tx_full, rx_empty, write_accepts}
use simpio.Hardware.{Sm}
use simpio.Instruction.Variables.{var_set}
use simpio.User.{UserContext, sm_of, put_fifo, run_write_instruction, run_read_instruction}

module _ (no_sm : Sm) (c : UserContext) (known : c.instruction.executing_sm < length c.sms) where
  put_fifo-fifo : (f : Fifo) → (sm_of no_sm (put_fifo no_sm f c)).fifo ≡ f
  put_fifo-fifo f =
      ap (λ (s : Sm). s.fifo)
        (get_or-set_self c.sms c.instruction.executing_sm (record (sm_of no_sm c) { fifo = f })
          no_sm known)

  -- A WRITE, outside the mode RX_ONLY, completes exactly if the TX queue of its state machine has room,
  -- and then appends its value to that queue; otherwise the queue stays.
  pub run_write-queue :
      {q : Queues}
      → Holds (sm_of no_sm c).fifo q
      → q.mode ≢ rx_only
      → let (done, tx) = enqueue (tx_cap q.mode) q.tx c.instruction.value in
        let (completed, c') = run_write_instruction no_sm c in
        (completed ≡ done) × Holds (sm_of no_sm c').fifo (record q { tx = tx })
  unfolding enqueue run_write_instruction
  run_write-queue {q} h ne = elim (Bool-cases (length q.tx == tx_cap q.mode)) [
    | inl full ↦ rw (tx_full h ne, full) (refl, h)
    | inr room ↦
        rw (tx_full h ne, room)
          (
            refl,
            subst (λ f. Holds f (record q { tx = q.tx ++ (c.instruction.value ∷ []) }))
                (sym (put_fifo-fifo (write (sm_of no_sm c).fifo c.instruction.value).1))
                (write_accepts h c.instruction.value room),
          )
  ]

  read_cases :
      (m : FifoMode) (rx tx : List ℕ) (unset : ℕ)
      → Holds (sm_of no_sm c).fifo (record { mode = m; rx = rx; tx = tx })
      → let (done, value, rest) = dequeue rx unset in
        let (completed, c') = run_read_instruction no_sm unset c in
        (completed ≡ done)
        × (c'.variables
            ≡ (if done then (var_set c.instruction.var_name value c.variables).1 else c.variables))
        × Holds (sm_of no_sm c').fifo (record { mode = m; rx = rest; tx = tx })
  unfolding dequeue run_read_instruction
  read_cases m [] tx unset h = rw (rx_empty h) (refl, refl, h)
  read_cases m (x ∷ xs) tx unset h =
      rw (rx_empty h, suc-beq-zero (length xs))
        (
          refl,
          ap (λ (v : ℕ). (var_set c.instruction.var_name v c.variables).1) (read_refines unset h).1,
          subst (λ f. Holds f (record { mode = m; rx = xs; tx = tx }))
              (sym (put_fifo-fifo (read (sm_of no_sm c).fifo unset).2)) (read_refines unset h).2,
        )

  -- A READ completes exactly if the RX queue of its state machine holds a value. It then takes the
  -- oldest one into its variable; otherwise the queue and the variables stay.
  pub run_read-queue :
      {q : Queues} (unset : ℕ)
      → Holds (sm_of no_sm c).fifo q
      → let (done, value, rx) = dequeue q.rx unset in
        let (completed, c') = run_read_instruction no_sm unset c in
        (completed ≡ done)
        × (c'.variables
            ≡ (if done then (var_set c.instruction.var_name value c.variables).1 else c.variables))
        × Holds (sm_of no_sm c').fifo (record q { rx = rx })
  run_read-queue {q} unset h = read_cases q.mode q.rx q.tx unset h
