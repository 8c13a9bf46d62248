-- ===== src/Fifo/Layout.antt =====
-- Every FIFO that the functions of src/fifo.c reach has one shape: the mode sets where the two
-- halves start, and two counts set the marks and the states. Each function is computed on that shape.
use simpio.Base.{ℕ, ◌+◌, ◌-◌, ◌≤◌, ◌≡◌, refl, Bool, true, false, ◌==◌, if◌then◌else◌}
use simpio.Base.{ℤ, pos, negsuc, List, arith, get_or, set}
use simpio.Fifo.{
  Fifo, FifoMode, bidi, tx_only, rx_only, FifoState, fifo_full, fifo_empty, fifo_has_data,
}
use simpio.Fifo.{init, all_ones, write, read, push, pull, set_status, shift_up}
use simpio.Fifo.Spec.{rx_cap, tx_cap}

-- Where the two halves of the buffer start.
abbrev pub rx_base : FifoMode → ℤ
rx_base tx_only = negsuc 0
rx_base _ = pos 0

abbrev pub tx_base : FifoMode → ℕ
tx_base bidi = 4
tx_base tx_only = 0
tx_base rx_only = 8

-- The state that goes with a number of values and a capacity.
abbrev pub state_of : ℕ → ℕ → FifoState
state_of count cap =
    if count == 0 then fifo_empty else if count == cap then fifo_full else fifo_has_data

-- The mark above `r` values that start at `base`.
abbrev pub mark : ℤ → ℕ → ℤ
mark (pos b) r = pos (b + r)
mark (negsuc b) r = negsuc b

unfoldable pub layout : FifoMode → List ℕ → ℕ → Bool → ℤ → ℕ → ℕ → Fifo
layout m buffer status sel n r t = record {
  buffer = buffer;
  mode = m;
  rx_state = state_of r (rx_cap m);
  tx_state = state_of t (tx_cap m);
  status = status;
  execctrl_status_sel = sel;
  n = n;
  rx_bottom = rx_base m;
  rx_top = mark (rx_base m) r;
  tx_bottom = pos (tx_base m);
  tx_top = pos (tx_base m + t);
}

abbrev pub insert : ℕ → ℕ → ℕ → List ℕ → List ℕ
insert bottom count v buffer = set (shift_up bottom count buffer) bottom v

module _ (buffer : List ℕ) (status : ℕ) (sel : Bool) (n : ℤ) (r t v : ℕ) where
  pub push-layout :
      (m : FifoMode)
      → r ≤ rx_cap m
      → push (layout m buffer status sel n r t) v ≡ (
          if r == rx_cap m
          then (false, layout m buffer status sel n r t)
          else (true, set_status (layout m (insert 0 r v buffer) status sel n (r + 1) t)))
  unfolding push layout
  push-layout bidi h = ground arith
  push-layout rx_only h = ground arith
  push-layout tx_only h = ground arith

  pub write-layout :
      (m : FifoMode)
      → t ≤ tx_cap m
      → write (layout m buffer status sel n r t) v ≡ (
          if t == tx_cap m
          then (false, layout m buffer status sel n r t)
          else (true, set_status (layout m (insert (tx_base m) t v buffer) status sel n r (t + 1))))
  unfolding write layout
  write-layout bidi h = ground arith
  write-layout rx_only h = ground arith
  write-layout tx_only h = ground arith

  pub read-layout :
      (m : FifoMode)
      → r ≤ rx_cap m
      → read (layout m buffer status sel n r t) v ≡ (
          if r == 0
          then (false, v, layout m buffer status sel n r t)
          else (true, get_or buffer (r - 1) 0, set_status (layout m buffer status sel n (r - 1) t)))
  unfolding read layout
  read-layout bidi h = ground arith
  read-layout rx_only h = ground arith
  read-layout tx_only h = ground arith

  pub pull-layout :
      (m : FifoMode)
      → t ≤ tx_cap m
      → pull (layout m buffer status sel n r t) v ≡ (
          if t == 0 then (false, v, layout m buffer status sel n r t) else (
            true,
            get_or buffer (tx_base m + (t - 1)) 0,
            set_status (layout m buffer status sel n r (t - 1)),
          ))
  unfolding pull layout
  pull-layout bidi h = ground arith
  pull-layout rx_only h = ground arith
  pull-layout tx_only h = ground arith

  -- The status register is the only field that `set_status` writes.
  pub set_status-layout :
      (m : FifoMode)
      → (s : ℕ) × (set_status (layout m buffer status sel n r t) ≡ layout m buffer s sel n r t)
  unfolding set_status layout
  set_status-layout m = (_, refl)

pub init-layout :
    (f : Fifo) (m : FifoMode) → (n : ℤ) × (init f m ≡ layout m f.buffer all_ones true n 0 0)
unfolding init layout
init-layout f bidi = (_, refl)
init-layout f tx_only = (_, refl)
init-layout f rx_only = (_, refl)
