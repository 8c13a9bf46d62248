-- ===== src/Fifo/Refine.antt =====
-- The functions of src/fifo.c implement the two bounded queues of `Spec`.
use simpio.Base.{ℕ, suc, ◌-◌, ◌≡◌, refl, false, ◌==◌}
use simpio.Base.{Bool-cases, inl, inr, List, [], ◌∷◌, arith, length}
use simpio.Fifo.{Fifo, FifoMode, write, read, push, pull}
use simpio.Fifo.Spec.{Queues, rx_cap, tx_cap, enqueue, dequeue}
use simpio.Fifo.Layout.{tx_base, push-layout, write-layout, read-layout, pull-layout}
use simpio.Fifo.Holds.{
  Stores, Holds, Holds-set_status, length-snoc, Stores-push, Stores-write, window-cons,
  Holds-layout,
}

-- `fifo_push` returns whether the RX queue had room, and appends the value to that queue if so; the
-- TX queue stays.
pub push_refines :
    {f : Fifo} {q : Queues} (v : ℕ)
    → Holds f q
    → let (done, rx) = enqueue (rx_cap q.mode) q.rx v in
      ((push f v).0 ≡ done) × Holds (push f v).1 (record q { rx = rx })
unfolding enqueue
push_refines {f} {q} v h =
    rw
      (
        h.shape,
        push-layout h.buffer h.status h.sel h.n (length q.rx) (length q.tx) v q.mode
            h.stores.rx_fits,
      )
      (elim (Bool-cases (length q.rx == rx_cap q.mode)) [
        | inl full ↦ rw full (refl, Holds-layout q h.buffer h.status h.sel h.n h.stores)
        | inr room ↦ rw room (
          refl,
          Holds-set_status _ _ h.status h.sel h.n _ _ (omega (arith, length-snoc q.rx v)) refl
              (Stores-push h.buffer q v h.stores (ground arith)),
        )
      ])

-- `fifo_write` returns whether the TX queue had room, and appends the value to that queue if so; the
-- RX queue stays.
pub write_refines :
    {f : Fifo} {q : Queues} (v : ℕ)
    → Holds f q
    → let (done, tx) = enqueue (tx_cap q.mode) q.tx v in
      ((write f v).0 ≡ done) × Holds (write f v).1 (record q { tx = tx })
unfolding enqueue
write_refines {f} {q} v h =
    rw
      (
        h.shape,
        write-layout h.buffer h.status h.sel h.n (length q.rx) (length q.tx) v q.mode
            h.stores.tx_fits,
      )
      (elim (Bool-cases (length q.tx == tx_cap q.mode)) [
        | inl full ↦ rw full (refl, Holds-layout q h.buffer h.status h.sel h.n h.stores)
        | inr room ↦ rw room (
          refl,
          Holds-set_status _ _ h.status h.sel h.n _ _ refl (omega (arith, length-snoc q.tx v))
              (Stores-write h.buffer q v h.stores (ground arith)),
        )
      ])

pub suc-beq-zero : (k : ℕ) → (suc k == 0) ≡ false
suc-beq-zero k = ground arith

suc-sub-one : (k : ℕ) → suc k - 1 ≡ k
suc-sub-one k = omega arith

read_cases :
    (f : Fifo) (m : FifoMode) (rx tx : List ℕ) (old : ℕ)
    → Holds f (record { mode = m; rx = rx; tx = tx })
    → let (done, x, rest) = dequeue rx old in
      ((read f old).0 ≡ done)
      × ((read f old).1 ≡ x)
      × Holds (read f old).2 (record { mode = m; rx = rest; tx = tx })
unfolding dequeue
read_cases f m [] tx old h =
    rw (h.shape, read-layout h.buffer h.status h.sel h.n 0 (length tx) old m h.stores.rx_fits)
      (refl, refl, Holds-layout _ h.buffer h.status h.sel h.n h.stores)
read_cases f m (x ∷ xs) tx old h =
    rw
      (
        h.shape,
        read-layout h.buffer h.status h.sel h.n (suc (length xs)) (length tx) old m
            h.stores.rx_fits,
        suc-beq-zero (length xs),
        suc-sub-one (length xs),
      )
      (
        refl,
        ground (arith, window-cons h.buffer 0 x xs h.stores.rx_stored),
        Holds-set_status _ _ h.status h.sel h.n _ _ (omega arith) refl rest,
      )
  where
    rest : Stores h.buffer (record { mode = m; rx = xs; tx = tx })
    rest = record {
      size = h.stores.size;
      rx_fits = omega (arith, h.stores.rx_fits);
      tx_fits = h.stores.tx_fits;
      rx_stored = (window-cons h.buffer 0 x xs h.stores.rx_stored).1;
      tx_stored = h.stores.tx_stored;
    }

-- `fifo_read` takes the oldest value of the RX queue, and fails with nothing taken if the queue is
-- empty; the TX queue stays.
pub read_refines :
    {f : Fifo} {q : Queues} (old : ℕ)
    → Holds f q
    → let (done, x, rx) = dequeue q.rx old in
      ((read f old).0 ≡ done) × ((read f old).1 ≡ x) × Holds (read f old).2 (record q { rx = rx })
read_refines {f} {q} old h = read_cases f q.mode q.rx q.tx old h

pull_cases :
    (f : Fifo) (m : FifoMode) (rx tx : List ℕ) (old : ℕ)
    → Holds f (record { mode = m; rx = rx; tx = tx })
    → let (done, x, rest) = dequeue tx old in
      ((pull f old).0 ≡ done)
      × ((pull f old).1 ≡ x)
      × Holds (pull f old).2 (record { mode = m; rx = rx; tx = rest })
unfolding dequeue
pull_cases f m rx [] old h =
    rw (h.shape, pull-layout h.buffer h.status h.sel h.n (length rx) 0 old m h.stores.tx_fits)
      (refl, refl, Holds-layout _ h.buffer h.status h.sel h.n h.stores)
pull_cases f m rx (x ∷ xs) old h =
    rw
      (
        h.shape,
        pull-layout h.buffer h.status h.sel h.n (length rx) (suc (length xs)) old m
            h.stores.tx_fits,
        suc-beq-zero (length xs),
        suc-sub-one (length xs),
      )
      (
        refl,
        ground (arith, window-cons h.buffer (tx_base m) x xs h.stores.tx_stored),
        Holds-set_status _ _ h.status h.sel h.n _ _ refl (omega arith) rest,
      )
  where
    rest : Stores h.buffer (record { mode = m; rx = rx; tx = xs })
    rest = record {
      size = h.stores.size;
      rx_fits = h.stores.rx_fits;
      tx_fits = omega (arith, h.stores.tx_fits);
      rx_stored = h.stores.rx_stored;
      tx_stored = (window-cons h.buffer (tx_base m) x xs h.stores.tx_stored).1;
    }

-- `fifo_pull` takes the oldest value of the TX queue, and fails with nothing taken if the queue is
-- empty; the RX queue stays.
pub pull_refines :
    {f : Fifo} {q : Queues} (old : ℕ)
    → Holds f q
    → let (done, x, tx) = dequeue q.tx old in
      ((pull f old).0 ≡ done) × ((pull f old).1 ≡ x) × Holds (pull f old).2 (record q { tx = tx })
pull_refines {f} {q} old h = pull_cases f q.mode q.rx q.tx old h
