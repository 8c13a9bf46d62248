-- ===== src/Fifo/Snapshot.antt =====
-- `fifo_copy` and `fifo_compare`, which hardware_changed.c uses to tell what a step changed.
use simpio.Base.{
  ℕ, zero, suc, ◌+◌, ◌<◌, ◌≡◌, refl, sym, ap, ap₂, subst, ◌∙◌, Bool, true, false, List, ◌∷◌, arith,
}
use simpio.Base.{ℤ, ltz, eqz, ◌≤◌, pos, negsuc, get_or, length}
use mathlib.Core.Path.{subst₂}
use simpio.Fifo.{
  Fifo, FifoMode, bidi, tx_only, rx_only, FifoState, fifo_full, fifo_empty, fifo_has_data,
}
use simpio.Fifo.{fifo_match, copy, compare, cells_differ, same_state}
use simpio.Fifo.Spec.{Queues}
use simpio.Fifo.Layout.{layout}
use simpio.Fifo.Holds.{Holds}
use simpio.Fifo.Window.{window}

-- What stands in front of the two buffers.
module _ (v w : ℕ) where
  cells_differ_self :
      (buffer : List ℕ) (i count : ℕ) → cells_differ v w buffer buffer (pos i) count ≡ false
  unfolding cells_differ
  cells_differ_self buffer i zero = refl
  cells_differ_self buffer i (suc count) = ground (arith, cells_differ_self buffer (i + 1) count)

  range_self :
      (buffer : List ℕ) (lo : ℤ) (count : ℕ)
      → ltz lo (pos 0) ≡ false
      → cells_differ v w buffer buffer lo count ≡ false
  range_self buffer (pos lo) count h = cells_differ_self buffer lo count
  range_self buffer (negsuc lo) count h = absurd (ground arith)

same_state_self : (s : FifoState) → same_state s s ≡ true
same_state_self fifo_full = refl
same_state_self fifo_empty = refl
same_state_self fifo_has_data = refl

eqz_self : (a : ℤ) → eqz a a ≡ true
eqz_self a = ground arith

-- A FIFO that is not in the mode TX_ONLY, compared with its own copy, has not changed.
pub compare-copy :
    (v w : ℕ) (f : Fifo) → ltz f.rx_bottom (pos 0) ≡ false → compare v w f (copy f) ≡ fifo_match
unfolding compare copy
compare-copy v w f h =
    simp (same_state_self, eqz_self, λ (count : ℕ). range_self v w f.buffer f.rx_bottom count h)

module _ (v w : ℕ) where
  cells_agree :
      (to from : List ℕ) (lo count : ℕ)
      → cells_differ v w to from (pos lo) count ≡ false
      → (j : ℕ) → j < count
      → get_or to (lo + j) 0 ≡ get_or from (lo + j) 0
  unfolding cells_differ
  cells_agree to from lo zero h j lt = absurd (omega arith)
  cells_agree to from lo (suc count) h zero lt = ground arith
  cells_agree to from lo (suc count) h (suc j) lt =
      ground (arith, cells_agree to from (lo + 1) count (ground arith) j (omega arith))

  window_ext :
      (to from : List ℕ) (lo count : ℕ)
      → ((j : ℕ) → j < count → get_or to (lo + j) 0 ≡ get_or from (lo + j) 0)
      → window to lo count ≡ window from lo count
  window_ext to from lo zero h = refl
  window_ext to from lo (suc count) h =
      ap₂ ◌∷◌ (h count (omega arith)) (window_ext to from lo count (λ j lt. h j (omega arith)))

  module _ (b b' : List ℕ) (s s' : ℕ) (sel sel' : Bool) (n n' : ℤ) (r t r' t' : ℕ) where
    match_bidi :
        r ≤ 4
        → t ≤ 4
        → r' ≤ 4
        → t' ≤ 4
        → compare v w (layout bidi b s sel n r t) (copy (layout bidi b' s' sel' n' r' t'))
          ≡ fifo_match
        → (r ≡ r')
          × (t ≡ t')
          × (cells_differ v w b' b (pos 0) r' ≡ false)
          × (cells_differ v w b' b (pos 0) (4 + t') ≡ false)
    unfolding compare copy layout
    match_bidi hr ht hr' ht' h = (ground arith, ground arith, ground arith, ground arith)

    match_rx_only :
        r ≤ 8
        → t ≤ 0
        → r' ≤ 8
        → t' ≤ 0
        → compare v w (layout rx_only b s sel n r t) (copy (layout rx_only b' s' sel' n' r' t'))
          ≡ fifo_match
        → (r ≡ r') × (t ≡ t') × (cells_differ v w b' b (pos 0) r' ≡ false)
    unfolding compare copy layout
    match_rx_only hr ht hr' ht' h = (ground arith, ground arith, ground arith)

    match_tx_only :
        r ≤ 0
        → t ≤ 8
        → r' ≤ 0
        → t' ≤ 8
        → compare v w (layout tx_only b s sel n r t) (copy (layout tx_only b' s' sel' n' r' t'))
          ≡ fifo_match
        → (r ≡ r') × (t ≡ t') × (cells_differ v w b' b (negsuc 0) (suc t') ≡ false)
    unfolding compare copy layout
    match_tx_only hr ht hr' ht' h = (ground arith, ground arith, ground arith)

  -- The cell under -1 tells nothing, and the others are those of the window from 0.
  cells_differ-negsuc :
      (to from : List ℕ) (count : ℕ)
      → cells_differ v w to from (negsuc 0) (suc count) ≡ false
      → cells_differ v w to from (pos 0) count ≡ false
  unfolding cells_differ
  cells_differ-negsuc to from count h = ground arith

  -- Queues that are read from agreeing cells are the same.
  window_same :
      (b b' : List ℕ) (lo : ℕ) (q q' : List ℕ)
      → length q ≡ length q'
      → window b lo (length q) ≡ q
      → window b' lo (length q') ≡ q'
      → ((j : ℕ) → j < length q' → get_or b' (lo + j) 0 ≡ get_or b (lo + j) 0)
      → q ≡ q'
  window_same b b' lo q q' len e e' agree =
      sym e ∙ ap (window b lo) len ∙ sym (window_ext b' b lo (length q') agree) ∙ e'

  -- A comparison of two FIFOs, as one of their layouts.
  on_layouts :
      {now before x y : Fifo}
      → now ≡ x
      → before ≡ y
      → compare v w now (copy before) ≡ fifo_match
      → compare v w x (copy y) ≡ fifo_match
  on_layouts p p' e = subst₂ (λ f g. compare v w f (copy g) ≡ fifo_match) p p' e

  same_values :
      (m : FifoMode) (rx tx rx' tx' : List ℕ) {now before : Fifo}
      → Holds now (record { mode = m; rx = rx; tx = tx })
      → Holds before (record { mode = m; rx = rx'; tx = tx' })
      → compare v w now (copy before) ≡ fifo_match
      → (rx ≡ rx') × (tx ≡ tx')
  same_values bidi rx tx rx' tx' h h' e =
      let (er, et, cr, ct) =
        match_bidi h.buffer h'.buffer h.status h'.status h.sel h'.sel h.n h'.n (length rx)
          (length tx) (length rx') (length tx') h.stores.rx_fits h.stores.tx_fits h'.stores.rx_fits
          h'.stores.tx_fits (on_layouts h.shape h'.shape e) in
      (
        window_same h.buffer h'.buffer 0 rx rx' er h.stores.rx_stored h'.stores.rx_stored
            (cells_agree h'.buffer h.buffer 0 (length rx') cr),
        window_same h.buffer h'.buffer 4 tx tx' et h.stores.tx_stored h'.stores.tx_stored
            (λ j lt. ground (arith, cells_agree h'.buffer h.buffer 0 (4 + length tx') ct (4 + j))),
      )
  same_values rx_only rx tx rx' tx' h h' e =
      let (er, et, cr) =
        match_rx_only h.buffer h'.buffer h.status h'.status h.sel h'.sel h.n h'.n (length rx)
          (length tx) (length rx') (length tx') h.stores.rx_fits h.stores.tx_fits h'.stores.rx_fits
          h'.stores.tx_fits (on_layouts h.shape h'.shape e) in
      (
        window_same h.buffer h'.buffer 0 rx rx' er h.stores.rx_stored h'.stores.rx_stored
            (cells_agree h'.buffer h.buffer 0 (length rx') cr),
        window_same h.buffer h'.buffer 8 tx tx' et h.stores.tx_stored h'.stores.tx_stored
            (λ j lt. absurd (omega (arith, h'.stores.tx_fits))),
      )
  same_values tx_only rx tx rx' tx' h h' e =
      let (er, et, ct) =
        match_tx_only h.buffer h'.buffer h.status h'.status h.sel h'.sel h.n h'.n (length rx)
          (length tx) (length rx') (length tx') h.stores.rx_fits h.stores.tx_fits h'.stores.rx_fits
          h'.stores.tx_fits (on_layouts h.shape h'.shape e) in
      (
        window_same h.buffer h'.buffer 0 rx rx' er h.stores.rx_stored h'.stores.rx_stored
            (λ j lt. absurd (omega (arith, h'.stores.rx_fits))),
        window_same h.buffer h'.buffer 0 tx tx' et h.stores.tx_stored h'.stores.tx_stored (
            cells_agree h'.buffer h.buffer 0 (length tx')
              (cells_differ-negsuc h'.buffer h.buffer (length tx') ct)),
      )

  -- Where the comparison with an earlier copy, in the same mode, reports a match, both queues hold the
  -- same values as then.
  pub compare_sound :
      {now before : Fifo} {q q' : Queues}
      → Holds now q
      → Holds before q'
      → q.mode ≡ q'.mode
      → compare v w now (copy before) ≡ fifo_match
      → (q.rx ≡ q'.rx) × (q.tx ≡ q'.tx)
  compare_sound {now} {before} {q} {q'} h h' e match =
      same_values q.mode q.rx q.tx q'.rx q'.tx h
        (subst (λ m. Holds before (record { mode = m; rx = q'.rx; tx = q'.tx })) (sym e) h') match
