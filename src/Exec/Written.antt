-- ===== src/Exec/Written.antt =====
-- The instructions that write to the FIFO: what they leave in it is in order.
use simpio.Base.{◌≡◌, refl, sym, subst, inl, inr}
use simpio.Base.{arith}
use simpio.Base.{◌⊎◌}
use simpio.Undefined.{Undefined}
use simpio.Instruction.{}
use simpio.Fifo.{push, pull}
use simpio.Fifo.Spec.{Queues, rx_cap, enqueue, dequeue}
use simpio.Exec.Run.{}
use simpio.Fifo.Holds.{Holds}
use simpio.Fifo.Refine.{push_refines, pull_refines}
use simpio.Exec.Context.{Context, Place}
use simpio.Exec.Shift.{
  push_isr, in_shift, pull_osr, run_push_instruction, run_autopush, run_in_instruction,
}
use simpio.Exec.Shift.{run_pull_instruction, run_autopull}
use simpio.Exec.Frame.{}

-- The FIFO holds some pair of queues.
abbrev pub InOrder : Context → Type 0
InOrder c = (q : Queues) × Holds c.sm.fifo q

-- A FIFO that has not been written to is still in order.
pub still : (c d : Context) → d.sm.fifo ≡ c.sm.fifo → InOrder c → InOrder d
still c d e (q, h) = (q, subst (λ g. Holds g q) (sym e) h)

-- What PUSH, PULL and their automatic forms may do to the FIFO of the state they start from.
abbrev pub Pushed : Context → Context → Type 0
Pushed c d = (d.sm.fifo ≡ c.sm.fifo) ⊎ (d.sm.fifo ≡ (push c.sm.fifo c.sm.isr).1)

abbrev pub Pulled : Context → Context → Type 0
Pulled c d = (d.sm.fifo ≡ c.sm.fifo) ⊎ (d.sm.fifo ≡ (pull c.sm.fifo c.sm.osr).2)

pub Pushed-InOrder : (c d : Context) → Pushed c d → InOrder c → InOrder d
Pushed-InOrder c d (inl e) h = still c d e h
Pushed-InOrder c d (inr e) (q, h) = (
  record q { rx = (enqueue (rx_cap q.mode) q.rx c.sm.isr).1 },
  subst (λ g. Holds g (record q { rx = (enqueue (rx_cap q.mode) q.rx c.sm.isr).1 })) (sym e)
      (push_refines c.sm.isr h).1,
)

pub Pulled-InOrder : (c d : Context) → Pulled c d → InOrder c → InOrder d
Pulled-InOrder c d (inl e) h = still c d e h
Pulled-InOrder c d (inr e) (q, h) = (
  record q { tx = (dequeue q.tx c.sm.osr).2 },
  subst (λ g. Holds g (record q { tx = (dequeue q.tx c.sm.osr).2 })) (sym e)
      (pull_refines c.sm.osr h).2,
)

pub run_push-Pushed : (p : Place) (c : Context) → Pushed c (run_push_instruction p c).1
unfolding run_push_instruction push_isr
run_push-Pushed p c = ground arith

pub run_autopush-Pushed : (c : Context) → Pushed c (run_autopush c).1
unfolding run_autopush push_isr
run_autopush-Pushed c = ground arith

pub run_pull-Pulled : (p : Place) (c : Context) → Pulled c (run_pull_instruction p c).1
unfolding run_pull_instruction pull_osr
run_pull-Pulled p c = ground arith

pub run_autopull-Pulled : (c : Context) → Pulled c (run_autopull c).1
unfolding run_autopull pull_osr
run_autopull-Pulled c = ground arith

pub in_shift-fifo : (u : Undefined) (p : Place) (c : Context) → (in_shift u p c).sm.fifo ≡ c.sm.fifo
unfolding in_shift
in_shift-fifo u p c = refl

pub run_in-Pushed :
    (u : Undefined) (p : Place) (c : Context) → Pushed (in_shift u p c) (run_in_instruction u p c).1
unfolding run_in_instruction run_autopush push_isr
run_in-Pushed u p c = ground arith
