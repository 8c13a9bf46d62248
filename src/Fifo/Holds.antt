-- ===== src/Fifo/Holds.antt =====
-- What it means that a FIFO holds the two bounded queues of `Spec`, and what keeps it so.
use simpio.Base.{ℕ, suc, ◌+◌, ◌≤◌, ◌≡◌, refl, ap, Bool, true}
use simpio.Base.{get_or, ◌≢◌, ◌∙◌, inl, inr, ℤ, List, [], ◌∷◌, ◌++◌, arith, length}
use simpio.Base.{length-set, length-append}
use simpio.Fifo.{Fifo, FifoMode, bidi, tx_only, rx_only, init, all_ones}
use simpio.Fifo.{shift_up, set_status}
use simpio.Fifo.Spec.{Queues, rx_cap, tx_cap}
use simpio.Fifo.Layout.{layout, insert, tx_base}
use simpio.Fifo.Layout.{set_status-layout, init-layout}
use simpio.Fifo.Window.{window, window-set_ne, window-shift_up, window-shift_up-set}
use simpio.Fifo.Window.{length-shift_up}

-- A buffer holds the queues `q`, within their capacities.
pub record Stores (buffer : List ℕ) (q : Queues) : Type 0 where
  pub size : length buffer ≡ 8
  pub rx_fits : length q.rx ≤ rx_cap q.mode
  pub tx_fits : length q.tx ≤ tx_cap q.mode
  pub rx_stored : window buffer 0 (length q.rx) ≡ q.rx
  pub tx_stored : window buffer (tx_base q.mode) (length q.tx) ≡ q.tx

-- A FIFO has its marks and states in order and holds the queues `q`.
pub record Holds (f : Fifo) (q : Queues) : Type 0 where
  pub buffer : List ℕ
  pub status : ℕ
  pub sel : Bool
  pub n : ℤ
  pub shape : f ≡ layout q.mode buffer status sel n (length q.rx) (length q.tx)
  pub stores : Stores buffer q

abbrev pub no_values : FifoMode → Queues
no_values m = record { mode = m; rx = []; tx = [] }

-- After `fifo_init` in any mode, a FIFO with its eight cells holds two empty queues.
pub init-Holds : (f : Fifo) (m : FifoMode) → length f.buffer ≡ 8 → Holds (init f m) (no_values m)
init-Holds f m h = record {
  buffer = f.buffer;
  status = all_ones;
  sel = true;
  n = (init-layout f m).0;
  shape = (init-layout f m).1;
  stores = ground arith;
}

length-insert :
    (bottom count v : ℕ) (buffer : List ℕ) → length (insert bottom count v buffer) ≡ length buffer
length-insert bottom count v buffer =
    omega (
      arith,
      length-set (shift_up bottom count buffer) bottom v,
      length-shift_up bottom count buffer,
    )

-- Both halves fit the buffer side by side.
tx_room : (m : FifoMode) → (tx_base m + tx_cap m ≡ 8) × (rx_cap m ≤ tx_base m)
tx_room bidi = omega arith
tx_room tx_only = omega arith
tx_room rx_only = omega arith

-- What `set_status` leaves.
pub Holds-set_status :
    (q : Queues) (buffer : List ℕ) (status : ℕ) (sel : Bool) (n : ℤ) (r t : ℕ)
    → r ≡ length q.rx
    → t ≡ length q.tx
    → Stores buffer q
    → Holds (set_status (layout q.mode buffer status sel n r t)) q
Holds-set_status q buffer status sel n r t er et h =
    rw (er, et)
      record {
        buffer = buffer;
        status = (set_status-layout buffer status sel n (length q.rx) (length q.tx) 0 q.mode).0;
        sel = sel;
        n = n;
        shape = (set_status-layout buffer status sel n (length q.rx) (length q.tx) 0 q.mode).1;
        stores = h;
      }

pub length-snoc : (xs : List ℕ) (v : ℕ) → length (xs ++ (v ∷ [])) ≡ suc (length xs)
length-snoc xs v = omega (arith, length-append xs (v ∷ []))

module _ (buffer : List ℕ) (q : Queues) (v : ℕ) (h : Stores buffer q) where
  pub Stores-push :
      length q.rx ≢ rx_cap q.mode
      → Stores (insert 0 (length q.rx) v buffer) (record q { rx = q.rx ++ (v ∷ []) })
  Stores-push room = record {
    size = length-insert 0 (length q.rx) v buffer ∙ h.size;
    rx_fits = omega (arith, h.rx_fits, length-snoc q.rx v);
    tx_fits = h.tx_fits;
    rx_stored = rw (length-snoc q.rx v) (
        window-shift_up-set 0 (length q.rx) buffer v
          (omega (arith, h.rx_fits, h.size, tx_room q.mode))
        ∙ ap (λ t. t ++ (v ∷ [])) h.rx_stored);
    tx_stored =
        window-set_ne (shift_up 0 (length q.rx) buffer) (tx_base q.mode) (length q.tx) 0 v
          (inl (omega (arith, h.rx_fits, tx_room q.mode)))
        ∙ window-shift_up 0 (length q.rx) buffer (tx_base q.mode) (length q.tx)
            (inr (omega (arith, h.rx_fits, tx_room q.mode)))
        ∙ h.tx_stored;
  }

  pub Stores-write :
      length q.tx ≢ tx_cap q.mode
      → Stores (insert (tx_base q.mode) (length q.tx) v buffer) (record q { tx = q.tx ++ (v ∷ []) })
  Stores-write room = record {
    size = length-insert (tx_base q.mode) (length q.tx) v buffer ∙ h.size;
    rx_fits = h.rx_fits;
    tx_fits = omega (arith, h.tx_fits, length-snoc q.tx v);
    rx_stored =
        window-set_ne (shift_up (tx_base q.mode) (length q.tx) buffer) 0 (length q.rx)
          (tx_base q.mode) v (inr (omega (arith, h.rx_fits, tx_room q.mode)))
        ∙ window-shift_up (tx_base q.mode) (length q.tx) buffer 0 (length q.rx)
            (inl (omega (arith, h.rx_fits, tx_room q.mode)))
        ∙ h.rx_stored;
    tx_stored = rw (length-snoc q.tx v) (
        window-shift_up-set (tx_base q.mode) (length q.tx) buffer v
          (omega (arith, h.tx_fits, h.size, tx_room q.mode))
        ∙ ap (λ t. t ++ (v ∷ [])) h.tx_stored);
  }

-- The topmost cell of a window is the oldest value of the queue, the rest of it the other values.
pub window-cons :
    (buffer : List ℕ) (bottom x : ℕ) (xs : List ℕ)
    → window buffer bottom (suc (length xs)) ≡ x ∷ xs
    → (get_or buffer (bottom + length xs) 0 ≡ x) × (window buffer bottom (length xs) ≡ xs)
window-cons buffer bottom x xs e = ground arith

pub Holds-layout :
    (q : Queues) (buffer : List ℕ) (status : ℕ) (sel : Bool) (n : ℤ)
    → Stores buffer q
    → Holds (layout q.mode buffer status sel n (length q.rx) (length q.tx)) q
Holds-layout q buffer status sel n h = record {
  buffer = buffer;
  status = status;
  sel = sel;
  n = n;
  shape = refl;
  stores = h;
}
