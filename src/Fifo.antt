-- ===== src/Fifo.antt =====
-- src/fifo.c and inc/fifo.h: the FIFO pair of a state machine. A function that updates `*f` returns
-- the new FIFO; one with a `value_ptr` takes the old content of `*value_ptr` and returns the new one.
-- The `int` fields are integers, since TX_ONLY sets the RX marks to -1.
pub mod Spec
pub mod Window
pub mod Layout
pub mod Holds
pub mod Refine
pub mod Order
pub mod Snapshot
pub mod Flags
pub mod Status
use simpio.Base.{ℕ, zero, suc, ◌+◌, ℤ, pos, negsuc, pos_part, ◌+ℤ◌, ◌-ℤ◌, ltz, eqz, ltb, ◌==◌}
use simpio.Base.{Bool, true, false, not, ◌||◌, if◌then◌else◌, List, get_or, set}

abbrev pub total_fifo_size_per_sm : ℕ
total_fifo_size_per_sm = 8

abbrev pub all_ones : ℕ
all_ones = 0xFFFFFFFF

abbrev pub all_zeros : ℕ
all_zeros = 0

pub data FifoMode : Type 0 where
  bidi tx_only rx_only : FifoMode

pub data FifoState : Type 0 where
  fifo_full fifo_empty fifo_has_data : FifoState

pub data FifoCompare : Type 0 where
  tx_state rx_state tx_contents rx_contents fifo_match : FifoCompare

pub record Fifo : Type 0 where
  pub buffer : List ℕ
  pub mode : FifoMode
  pub rx_state : FifoState
  pub tx_state : FifoState
  pub status : ℕ
  pub execctrl_status_sel : Bool
  pub n : ℤ
  pub rx_bottom : ℤ
  pub rx_top : ℤ
  pub tx_bottom : ℤ
  pub tx_top : ℤ

abbrev pub is_full : FifoState → Bool
is_full fifo_full = true
is_full _ = false

abbrev pub is_empty : FifoState → Bool
is_empty fifo_empty = true
is_empty _ = false

abbrev pub same_state : FifoState → FifoState → Bool
same_state fifo_full s = is_full s
same_state fifo_empty s = is_empty s
same_state fifo_has_data s = not (is_full s || is_empty s)

-- `fifo_init`: the part before the switch, then the case of the mode. The buffer stays as it was.
reset_states : Fifo → Fifo
reset_states f = record f {
  rx_state = fifo_empty;
  tx_state = fifo_empty;
  status = all_ones;
  execctrl_status_sel = true;
}

unfoldable pub init : Fifo → FifoMode → Fifo
unfolding reset_states
init f bidi = record (reset_states f) {
  mode = bidi;
  n = pos 4;
  rx_bottom = pos 0;
  rx_top = pos 0;
  tx_bottom = pos 4;
  tx_top = pos 4;
}
init f rx_only = record (reset_states f) {
  mode = rx_only;
  n = pos 8;
  rx_bottom = pos 0;
  rx_top = pos 0;
  tx_bottom = pos 8;
  tx_top = pos 8;
}
init f tx_only = record (reset_states f) {
  mode = tx_only;
  n = pos 8;
  rx_bottom = negsuc 0;
  rx_top = negsuc 0;
  tx_bottom = pos 0;
  tx_top = pos 0;
}

-- The depth that the status register compares with N.
pub rx_depth : Fifo → ℤ
rx_depth f = if is_empty f.rx_state then pos 0 else f.rx_top -ℤ f.rx_bottom

pub tx_depth : Fifo → ℤ
tx_depth f = if is_empty f.tx_state then pos 0 else f.tx_top -ℤ f.tx_bottom

unfoldable pub set_status : Fifo → Fifo
unfolding rx_depth tx_depth
set_status f =
    let depth = if f.execctrl_status_sel then rx_depth f else tx_depth f in
    record f { status = if ltz depth f.n then all_ones else all_zeros }

-- `for (i = top-1; i >= bottom; i--) buffer[i+1] = buffer[i]`, with `count` cells left: i is
-- `bottom + count - 1`.
pub shift_up : ℕ → ℕ → List ℕ → List ℕ
shift_up bottom zero buffer = buffer
shift_up bottom (suc count) buffer =
    shift_up bottom count (set buffer (bottom + count + 1) (get_or buffer (bottom + count) 0))

-- The loop between two marks, then the store of the new value at the bottom. A mark that is
-- negative is no index; `Spec` shows that none is used.
pub insert_at_bottom : ℤ → ℤ → ℕ → List ℕ → List ℕ
insert_at_bottom bottom top value buffer =
    set (shift_up (pos_part bottom) (pos_part (top -ℤ bottom)) buffer) (pos_part bottom) value

unfoldable pub write : Fifo → ℕ → Bool × Fifo
unfolding insert_at_bottom
write f value = elim f.mode [
  | rx_only ↦ (false, f)
  | _ ↦
      if is_full f.tx_state
      then (false, f)
      else let top = f.tx_top +ℤ pos 1 in
        (
          true,
          set_status record f {
            tx_top = top;
            tx_state = if eqz top (pos total_fifo_size_per_sm) then fifo_full else fifo_has_data;
            buffer = insert_at_bottom f.tx_bottom f.tx_top value f.buffer;
          },
        )
]

unfoldable pub read : Fifo → ℕ → Bool × ℕ × Fifo
read f old = elim f.mode [
  | tx_only ↦ (false, old, f)
  | _ ↦
      if is_empty f.rx_state
      then (false, old, f)
      else let top = f.rx_top -ℤ pos 1 in
        (
          true,
          get_or f.buffer (pos_part top) 0,
          set_status record f {
            rx_top = top;
            rx_state = if eqz top (pos 0) then fifo_empty else fifo_has_data;
          },
        )
]

unfoldable pub push : Fifo → ℕ → Bool × Fifo
unfolding insert_at_bottom
push f value = elim f.mode [
  | tx_only ↦ (false, f)
  | _ ↦
      if is_full f.rx_state
      then (false, f)
      else let top = f.rx_top +ℤ pos 1 in
        (
          true,
          set_status record f {
            rx_top = top;
            rx_state = if eqz top f.tx_bottom then fifo_full else fifo_has_data;
            buffer = insert_at_bottom f.rx_bottom f.rx_top value f.buffer;
          },
        )
]

unfoldable pub pull : Fifo → ℕ → Bool × ℕ × Fifo
pull f old = elim f.mode [
  | rx_only ↦ (false, old, f)
  | _ ↦
      if is_empty f.tx_state
      then (false, old, f)
      else let top = f.tx_top -ℤ pos 1 in
        (
          true,
          get_or f.buffer (pos_part top) 0,
          set_status record f {
            tx_top = top;
            tx_state = if eqz top f.tx_bottom then fifo_empty else fifo_has_data;
          },
        )
]

-- `fifo_copy` returns what it leaves in `*to`. Its loop copies all eight cells; `tx_bottom` is taken
-- from the RX mark, as the source has it.
unfoldable pub copy : Fifo → Fifo
copy from = record from { tx_bottom = from.rx_bottom }

-- A cell under an index that may be negative: there C reads in front of the array, and `front` is what
-- it finds.
abbrev pub cell : ℕ → List ℕ → ℤ → ℕ
cell front buffer (pos i) = get_or buffer i 0
cell front buffer (negsuc _) = front

-- What stands in front of the two buffers that are compared. In the mode TX_ONLY, the copied
-- `tx_bottom` is -1.
module _ (front_to front_from : ℕ) where
  -- `for (i = lo; i < hi; i++) if (to->buffer[i] != from->buffer[i]) ...`, with `count` cells left.
  pub cells_differ : List ℕ → List ℕ → ℤ → ℕ → Bool
  cells_differ to from i zero = false
  cells_differ to from i (suc count) =
      not (cell front_to to i == cell front_from from i) || cells_differ to from (i +ℤ pos 1) count

  pub range_differs : List ℕ → List ℕ → ℤ → ℤ → Bool
  range_differs to from lo hi = cells_differ to from lo (pos_part (hi -ℤ lo))

  unfoldable pub compare : Fifo → Fifo → FifoCompare
  unfolding range_differs
  compare from to =
      if not (same_state to.rx_state from.rx_state)
      then rx_state
      else if not (same_state to.tx_state from.tx_state)
      then tx_state
      else if not (eqz to.rx_bottom from.rx_bottom)
      then rx_contents
      else if not (eqz to.rx_top from.rx_top)
      then rx_contents
      else if not (eqz to.tx_bottom from.rx_bottom)
      then tx_contents
      else if not (eqz to.tx_top from.tx_top)
      then tx_contents
      else if range_differs to.buffer from.buffer to.rx_bottom to.rx_top
      then rx_contents
      else if range_differs to.buffer from.buffer to.tx_bottom to.tx_top
      then tx_contents
      else fifo_match
