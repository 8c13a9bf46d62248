-- ===== src/Exec/Transfer.antt =====
-- Blocking PUSH and PULL move values between the registers of a state machine and its two queues.
use simpio.Base.{ℕ, ◌≡◌, ◌≢◌, refl, true, false, not, ◌&&◌, Bool-cases, inl, inr, ◌==◌, arith}
use simpio.Base.{List, [], ◌∷◌, length, if◌then◌else◌}
use simpio.Fifo.{FifoMode, tx_only, is_full, is_empty}
use simpio.Fifo.Spec.{Queues, rx_cap, enqueue, dequeue}
use simpio.Fifo.Refine.{suc-beq-zero}
use simpio.Fifo.Flags.{rx_full, tx_empty, push_accepts}
use simpio.Fifo.Holds.{Holds}
use simpio.Fifo.Refine.{pull_refines}
use simpio.Exec.Context.{Context, Place, at_place}
use simpio.Exec.Shift.{push_isr, pull_osr, run_push_instruction, run_pull_instruction}

push_stalls :
    (p : Place) (c : Context)
    → ((at_place p c).if_full && not c.sm.isr_full) ≡ false
    → (at_place p c).block ≡ true
    → run_push_instruction p c
      ≡ (if is_full c.sm.fifo.rx_state then (false, c) else (true, record c { sm = push_isr c.sm }))
unfolding run_push_instruction
push_stalls p c e b = ground arith

pull_stalls :
    (p : Place) (c : Context)
    → ((at_place p c).if_empty && not c.sm.osr_empty) ≡ false
    → (at_place p c).block ≡ true
    → run_pull_instruction p c ≡ (
        if is_empty c.sm.fifo.tx_state then (false, c) else (true, record c { sm = pull_osr c.sm }))
unfolding run_pull_instruction
pull_stalls p c e b = ground arith

-- Outside the mode TX_ONLY, a blocking PUSH that has no IFFULL, or whose ISR is full, completes exactly
-- if the RX queue has room. It then appends the ISR to that queue and clears it; otherwise the queue and
-- the ISR stay.
pub run_push-blocking :
    {q : Queues} (p : Place) (c : Context)
    → Holds c.sm.fifo q
    → q.mode ≢ tx_only
    → ((at_place p c).if_full && not c.sm.isr_full) ≡ false
    → (at_place p c).block ≡ true
    → let (done, rx) = enqueue (rx_cap q.mode) q.rx c.sm.isr in
      let (completed, c') = run_push_instruction p c in
      (completed ≡ done)
      × (c'.sm.isr ≡ (if done then 0 else c.sm.isr))
      × Holds c'.sm.fifo (record q { rx = rx })
unfolding enqueue push_isr
run_push-blocking {q} p c h ne e b = elim (Bool-cases (length q.rx == rx_cap q.mode)) [
  | inl full ↦ rw (push_stalls p c e b, rx_full h ne, full) (refl, refl, h)
  | inr room ↦
      rw (push_stalls p c e b, rx_full h ne, room) (refl, refl, push_accepts h c.sm.isr room)
]

pull_cases :
    (p : Place) (c : Context) (m : FifoMode) (rx tx : List ℕ)
    → Holds c.sm.fifo (record { mode = m; rx = rx; tx = tx })
    → ((at_place p c).if_empty && not c.sm.osr_empty) ≡ false
    → (at_place p c).block ≡ true
    → let (done, x, rest) = dequeue tx c.sm.osr in
      let (completed, c') = run_pull_instruction p c in
      (completed ≡ done)
      × (c'.sm.osr ≡ x)
      × Holds c'.sm.fifo (record { mode = m; rx = rx; tx = rest })
unfolding dequeue pull_osr
pull_cases p c m rx [] h e b = rw (pull_stalls p c e b, tx_empty h) (refl, refl, h)
pull_cases p c m rx (x ∷ xs) h e b =
    rw (pull_stalls p c e b, tx_empty h, suc-beq-zero (length xs))
      (refl, (pull_refines c.sm.osr h).1, (pull_refines c.sm.osr h).2)

-- A blocking PULL that has no IFEMPTY, or whose OSR is empty, completes exactly if the TX queue holds a
-- value. It then takes the oldest one into the OSR; otherwise the queue and the OSR stay.
pub run_pull-blocking :
    {q : Queues} (p : Place) (c : Context)
    → Holds c.sm.fifo q
    → ((at_place p c).if_empty && not c.sm.osr_empty) ≡ false
    → (at_place p c).block ≡ true
    → let (done, x, tx) = dequeue q.tx c.sm.osr in
      let (completed, c') = run_pull_instruction p c in
      (completed ≡ done) × (c'.sm.osr ≡ x) × Holds c'.sm.fifo (record q { tx = tx })
run_pull-blocking {q} p c h e b = pull_cases p c q.mode q.rx q.tx h e b
