-- ===== src/Fifo/Flags.antt =====
-- The states that src/fifo.c keeps of its two halves, and what an accepted value leaves.
use simpio.Base.{
  ℕ, ◌≡◌, ◌≢◌, refl, Bool, true, false, ◌==◌, arith, List, [], ◌∷◌, ◌++◌, length, if◌then◌else◌,
}
use simpio.Fifo.{Fifo, FifoMode, bidi, tx_only, rx_only, push, write, is_full, is_empty}
use simpio.Fifo.Spec.{Queues, rx_cap, tx_cap, enqueue}
use simpio.Fifo.Layout.{layout}
use simpio.Fifo.Holds.{Holds}
use simpio.Fifo.Refine.{push_refines, write_refines}

module _ {f : Fifo} {q : Queues} (h : Holds f q) where
  pub rx_full : q.mode ≢ tx_only → is_full f.rx_state ≡ (length q.rx == rx_cap q.mode)
  unfolding layout
  rx_full ne = rw (h.shape) (cases q.mode (length q.rx) (length q.tx) ne)
    where
      cases :
          (m : FifoMode) (r t : ℕ)
          → m ≢ tx_only
          → is_full (layout m h.buffer h.status h.sel h.n r t).rx_state ≡ (r == rx_cap m)
      cases bidi r t d = ground arith
      cases tx_only r t d = absurd (d refl)
      cases rx_only r t d = ground arith

  pub tx_full : q.mode ≢ rx_only → is_full f.tx_state ≡ (length q.tx == tx_cap q.mode)
  unfolding layout
  tx_full ne = rw (h.shape) (cases q.mode (length q.rx) (length q.tx) ne)
    where
      cases :
          (m : FifoMode) (r t : ℕ)
          → m ≢ rx_only
          → is_full (layout m h.buffer h.status h.sel h.n r t).tx_state ≡ (t == tx_cap m)
      cases bidi r t d = ground arith
      cases tx_only r t d = ground arith
      cases rx_only r t d = absurd (d refl)

  pub rx_empty : is_empty f.rx_state ≡ (length q.rx == 0)
  unfolding layout
  rx_empty = rw (h.shape) (cases q.mode (length q.rx) (length q.tx))
    where
      cases :
          (m : FifoMode) (r t : ℕ)
          → is_empty (layout m h.buffer h.status h.sel h.n r t).rx_state ≡ (r == 0)
      cases bidi r t = ground arith
      cases tx_only r t = ground arith
      cases rx_only r t = ground arith

  pub tx_empty : is_empty f.tx_state ≡ (length q.tx == 0)
  unfolding layout
  tx_empty = rw (h.shape) (cases q.mode (length q.rx) (length q.tx))
    where
      cases :
          (m : FifoMode) (r t : ℕ)
          → is_empty (layout m h.buffer h.status h.sel h.n r t).tx_state ≡ (t == 0)
      cases bidi r t = ground arith
      cases tx_only r t = ground arith
      cases rx_only r t = ground arith

  pub push_accepts :
      (v : ℕ)
      → (length q.rx == rx_cap q.mode) ≡ false
      → Holds (push f v).1 (record q { rx = q.rx ++ (v ∷ []) })
  unfolding enqueue
  push_accepts v room = pushed (length q.rx == rx_cap q.mode) room (push_refines v h).1
    where
      tried : Bool → Bool × List ℕ
      tried full = if full then (false, q.rx) else (true, q.rx ++ (v ∷ []))

      pushed :
          (full : Bool)
          → full ≡ false
          → Holds (push f v).1 (record q { rx = (tried full).1 })
          → Holds (push f v).1 (record q { rx = q.rx ++ (v ∷ []) })
      pushed true e k = absurd (ground arith)
      pushed false e k = k

  pub write_accepts :
      (v : ℕ)
      → (length q.tx == tx_cap q.mode) ≡ false
      → Holds (write f v).1 (record q { tx = q.tx ++ (v ∷ []) })
  unfolding enqueue
  write_accepts v room = written (length q.tx == tx_cap q.mode) room (write_refines v h).1
    where
      tried : Bool → Bool × List ℕ
      tried full = if full then (false, q.tx) else (true, q.tx ++ (v ∷ []))

      written :
          (full : Bool)
          → full ≡ false
          → Holds (write f v).1 (record q { tx = (tried full).1 })
          → Holds (write f v).1 (record q { tx = q.tx ++ (v ∷ []) })
      written true e k = absurd (ground arith)
      written false e k = k
