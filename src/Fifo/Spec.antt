-- ===== src/Fifo/Spec.antt =====
-- What inc/fifo.h promises: two bounded queues, oldest value first, whose capacities the mode sets.
use simpio.Base.{ℕ, ◌==◌, Bool, true, false, if◌then◌else◌, List, [], ◌∷◌, ◌++◌, length}
use simpio.Fifo.{FifoMode, bidi, tx_only, rx_only}

pub record Queues : Type 0 where
  pub mode : FifoMode
  pub rx : List ℕ
  pub tx : List ℕ

abbrev pub rx_cap : FifoMode → ℕ
rx_cap bidi = 4
rx_cap rx_only = 8
rx_cap tx_only = 0

abbrev pub tx_cap : FifoMode → ℕ
tx_cap bidi = 4
tx_cap rx_only = 0
tx_cap tx_only = 8

-- Append a value, unless the queue is at its capacity.
unfoldable pub enqueue : ℕ → List ℕ → ℕ → Bool × List ℕ
enqueue cap q v = if length q == cap then (false, q) else (true, q ++ (v ∷ []))

-- Take the oldest value; `old` is what the caller's variable held.
unfoldable pub dequeue : List ℕ → ℕ → Bool × ℕ × List ℕ
dequeue [] old = (false, old, [])
dequeue (x ∷ q) old = (true, x, q)
