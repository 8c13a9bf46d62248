-- ===== src/Fifo/Status.antt =====
-- The status register of the FIFO, which MOV reads: all ones where the selected queue is below N.
use simpio.Base.{
  ℕ, ◌≡◌, refl, ap, ◌∙◌, sym, subst, ◌⊎◌, inl, inr, ℤ, pos, ltz, if◌then◌else◌, List, [], ◌∷◌,
  length, arith,
}
use simpio.Base.{◌≤◌}
use simpio.Fifo.{
  Fifo, FifoMode, bidi, tx_only, rx_only, set_status, rx_depth, tx_depth, write, read, push, pull,
  all_ones, all_zeros,
}
use simpio.Fifo.Spec.{Queues, rx_cap, tx_cap}
use simpio.Base.{◌==◌, Bool-cases}
use simpio.Fifo.Layout.{layout, push-layout, write-layout, read-layout, pull-layout}
use simpio.Fifo.Holds.{Holds}
use simpio.Fifo.Refine.{push_refines, write_refines, read_refines, pull_refines}
use simpio.Fifo.Order.{Op, push_value, write_value, read_value, pull_value}

-- The length of the queue that the FIFO compares with N, and the register that goes with it.
abbrev pub depth_of : Fifo → Queues → ℕ
depth_of f q = if f.execctrl_status_sel then length q.rx else length q.tx

abbrev pub status_of : Fifo → Queues → ℕ
status_of f q = if ltz (pos (depth_of f q)) f.n then all_ones else all_zeros

depth-Holds :
    {f : Fifo} {q : Queues}
    → Holds f q
    → (if f.execctrl_status_sel then rx_depth f else tx_depth f) ≡ pos (depth_of f q)
unfolding layout rx_depth tx_depth
depth-Holds {f} {q} h =
    rw (h.shape) (cases q.mode (length q.rx) (length q.tx) h.stores.rx_fits h.stores.tx_fits)
  where
    laid : FifoMode → ℕ → ℕ → Fifo
    laid m r t = layout m h.buffer h.status h.sel h.n r t

    cases :
        (m : FifoMode) (r t : ℕ)
        → r ≤ rx_cap m
        → t ≤ tx_cap m
        → (if h.sel then rx_depth (laid m r t) else tx_depth (laid m r t))
          ≡ pos (if h.sel then r else t)
    cases bidi r t a b = ground arith
    cases tx_only r t a b = ground arith
    cases rx_only r t a b = ground arith

-- What `set_status` has left in the register.
set_status-status_of :
    (f : Fifo) {q : Queues}
    → Holds (set_status f) q
    → (set_status f).status ≡ status_of (set_status f) q
unfolding set_status
set_status-status_of f {q} h =
    ap (λ (d : ℤ). if ltz d f.n then all_ones else all_zeros) (depth-Holds h)

-- A call that is refused leaves the FIFO; one that is done ends with `set_status`.
abbrev Settled : Fifo → Fifo → Type 0
Settled f f' = (f' ≡ f) ⊎ ((g : Fifo) × (f' ≡ set_status g))

module _ {f : Fifo} {q : Queues} (v : ℕ) (h : Holds f q) where
  push-Settled : Settled f (push f v).1
  push-Settled =
      rw
        (
          h.shape,
          push-layout h.buffer h.status h.sel h.n (length q.rx) (length q.tx) v q.mode
              h.stores.rx_fits,
        )
        (elim (Bool-cases (length q.rx == rx_cap q.mode)) [
          | inl full ↦ rw full (inl refl)
          | inr room ↦ rw room (inr (_, refl))
        ])

  write-Settled : Settled f (write f v).1
  write-Settled =
      rw
        (
          h.shape,
          write-layout h.buffer h.status h.sel h.n (length q.rx) (length q.tx) v q.mode
              h.stores.tx_fits,
        )
        (elim (Bool-cases (length q.tx == tx_cap q.mode)) [
          | inl full ↦ rw full (inl refl)
          | inr room ↦ rw room (inr (_, refl))
        ])

  read-Settled : Settled f (read f v).2
  read-Settled =
      rw
        (
          h.shape,
          read-layout h.buffer h.status h.sel h.n (length q.rx) (length q.tx) v q.mode
              h.stores.rx_fits,
        )
        (elim (Bool-cases (length q.rx == 0)) [
          | inl empty ↦ rw empty (inl refl)
          | inr some_left ↦ rw some_left (inr (_, refl))
        ])

  pull-Settled : Settled f (pull f v).2
  pull-Settled =
      rw
        (
          h.shape,
          pull-layout h.buffer h.status h.sel h.n (length q.rx) (length q.tx) v q.mode
              h.stores.tx_fits,
        )
        (elim (Bool-cases (length q.tx == 0)) [
          | inl empty ↦ rw empty (inl refl)
          | inr some_left ↦ rw some_left (inr (_, refl))
        ])

-- The depth that a FIFO shows is that of any queues that it holds.
status_of-Holds :
    {f : Fifo} {q q' : Queues} → Holds f q → Holds f q' → status_of f q ≡ status_of f q'
status_of-Holds {f} {q} {q'} h h' =
    ap (λ (d : ℤ). if ltz d f.n then all_ones else all_zeros) (sym (depth-Holds h) ∙ depth-Holds h')

Settled-status :
    {f f' : Fifo} {q q' : Queues}
    → Holds f q
    → Holds f' q'
    → f.status ≡ status_of f q
    → Settled f f'
    → f'.status ≡ status_of f' q'
Settled-status {f} {f'} {q} {q'} h h' e (inl same) =
    subst (λ g. g.status ≡ status_of g q') (sym same)
      (e ∙ status_of-Holds h (subst (λ g. Holds g q') same h'))
Settled-status {f} {f'} {q} {q'} h h' e (inr (g, set)) =
    subst (λ k. k.status ≡ status_of k q') (sym set)
      (set_status-status_of g (subst (λ k. Holds k q') set h'))

-- The FIFO after a client's calls.
pub after : Fifo → List Op → Fifo
after f [] = f
after f (push_value v ∷ ops) = after (push f v).1 ops
after f (write_value v ∷ ops) = after (write f v).1 ops
after f (read_value ∷ ops) = after (read f 0).2 ops
after f (pull_value ∷ ops) = after (pull f 0).2 ops

-- A FIFO that holds some queues, and shows their depth in its status register.
abbrev pub Shows : Fifo → Type 0
Shows f = (q : Queues) × Holds f q × (f.status ≡ status_of f q)

Shows-step :
    (f f' : Fifo) (q q' : Queues)
    → Holds f q
    → f.status ≡ status_of f q
    → Holds f' q'
    → Settled f f'
    → Shows f'
Shows-step f f' q q' h e h' s = (q', h', Settled-status h h' e s)

-- Whatever calls a client makes in whatever order, the status register stays in step: it is all ones
-- if the queue that EXECCTRL_STATUS_SEL selects has fewer values than N, and all zeros if not.
pub after-Shows : (ops : List Op) (f : Fifo) → Shows f → Shows (after f ops)
unfolding after
after-Shows [] f s = s
after-Shows (push_value v ∷ ops) f (q, h, e) =
    after-Shows ops (push f v).1
      (Shows-step f (push f v).1 q _ h e (push_refines v h).1 (push-Settled v h))
after-Shows (write_value v ∷ ops) f (q, h, e) =
    after-Shows ops (write f v).1
      (Shows-step f (write f v).1 q _ h e (write_refines v h).1 (write-Settled v h))
after-Shows (read_value ∷ ops) f (q, h, e) =
    after-Shows ops (read f 0).2
      (Shows-step f (read f 0).2 q _ h e (read_refines 0 h).2 (read-Settled 0 h))
after-Shows (pull_value ∷ ops) f (q, h, e) =
    after-Shows ops (pull f 0).2
      (Shows-step f (pull f 0).2 q _ h e (pull_refines 0 h).2 (pull-Settled 0 h))
