-- ===== src/Fifo/Order.antt =====
-- A client's calls in any order: what the FIFO answers is what two bounded queues answer.
use simpio.Base.{ℕ, ◌≡◌, refl, ap₂, ap, Bool, List, [], ◌∷◌}
use simpio.Fifo.{Fifo, write, read, push, pull}
use simpio.Fifo.Spec.{Queues, rx_cap, tx_cap, enqueue, dequeue}
use simpio.Fifo.Holds.{Holds}
use simpio.Fifo.Refine.{push_refines, write_refines, read_refines, pull_refines}

pub data Op : Type 0 where
  push_value write_value : ℕ → Op
  read_value pull_value : Op

-- What a call returns: whether it was done, and what it leaves in the caller's variable, which held
-- 0.
abbrev pub Reply : Type 0
Reply = Bool × ℕ

pub run : Fifo → List Op → List Reply
run f [] = []
run f (push_value v ∷ ops) = let (done, f') = push f v in (done, 0) ∷ run f' ops
run f (write_value v ∷ ops) = let (done, f') = write f v in (done, 0) ∷ run f' ops
run f (read_value ∷ ops) = let (done, v, f') = read f 0 in (done, v) ∷ run f' ops
run f (pull_value ∷ ops) = let (done, v, f') = pull f 0 in (done, v) ∷ run f' ops

pub run_queues : Queues → List Op → List Reply
run_queues q [] = []
run_queues q (push_value v ∷ ops) =
    let (done, rx) = enqueue (rx_cap q.mode) q.rx v in
    (done, 0) ∷ run_queues (record q { rx = rx }) ops
run_queues q (write_value v ∷ ops) =
    let (done, tx) = enqueue (tx_cap q.mode) q.tx v in
    (done, 0) ∷ run_queues (record q { tx = tx }) ops
run_queues q (read_value ∷ ops) =
    let (done, v, rx) = dequeue q.rx 0 in (done, v) ∷ run_queues (record q { rx = rx }) ops
run_queues q (pull_value ∷ ops) =
    let (done, v, tx) = dequeue q.tx 0 in (done, v) ∷ run_queues (record q { tx = tx }) ops

-- From any FIFO that holds the queues `q`, every sequence of pushes, writes, reads and pulls is
-- answered as the two bounded queues answer it: refusals, values and their order.
pub run_refines : (ops : List Op) {f : Fifo} {q : Queues} → Holds f q → run f ops ≡ run_queues q ops
unfolding run run_queues
run_refines [] h = refl
run_refines (push_value v ∷ ops) h =
    ap₂ ◌∷◌ (ap (λ d. (d, 0)) (push_refines v h).0) (run_refines ops (push_refines v h).1)
run_refines (write_value v ∷ ops) h =
    ap₂ ◌∷◌ (ap (λ d. (d, 0)) (write_refines v h).0) (run_refines ops (write_refines v h).1)
run_refines (read_value ∷ ops) h =
    ap₂ ◌∷◌ (λ i. ((read_refines 0 h).0 i, (read_refines 0 h).1 i))
      (run_refines ops (read_refines 0 h).2)
run_refines (pull_value ∷ ops) h =
    ap₂ ◌∷◌ (λ i. ((pull_refines 0 h).0 i, (pull_refines 0 h).1 i))
      (run_refines ops (pull_refines 0 h).2)
