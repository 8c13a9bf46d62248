-- ===== src/Exec/Shift.antt =====
-- PUSH, PULL, IN and OUT of src/execution.c, with the automatic push and pull.
use simpio.Base.{ℕ, zero, suc, ℤ, pos, ◌+◌, ◌%◌, ltz, lez, ltb, leb}
use simpio.Base.{Bool, true, false, not, ◌&&◌, ◌||◌, if◌then◌else◌, List}
use simpio.Undefined.{Undefined}
use simpio.Fifo
use simpio.Fifo.{is_full, is_empty}
use simpio.Bits.{nth_bit, set_nth_bit_to, copy_n_then_shift, shift_n_then_copy, u16}
use simpio.Instruction.{
  Instruction, Source, Destination, pins_source, x_source, y_source, null_source, isr_source,
  osr_source, pins_destination, x_destination, y_destination, null_destination, pindirs_destination,
  pc_destination, isr_destination, exec_destination,
}
use simpio.Hardware.{Sm, Gpio, u8}
use simpio.Hardware.Lines.{hardware_set_gpio, hardware_set_gpio_dir, hardware_get_gpio}
use simpio.Exec.Context.{Context, Place, at_place, Outcome}

-- The end of a push: the ISR goes to the RX FIFO and is cleared.
unfoldable pub push_isr : Sm → Sm
push_isr sm = record sm {
  fifo = (Fifo.push sm.fifo sm.isr).1;
  isr = 0;
  shift_in_count = 0;
  isr_full = false;
}

unfoldable pub run_push_instruction : Place → Context → Outcome
unfolding push_isr
run_push_instruction p c =
    let i = at_place p c in
    let sm = c.sm in
    if i.if_full && not sm.isr_full
    then (true, c)
    else if i.block && is_full sm.fifo.rx_state
    then (false, c)
    else if not i.block && is_full sm.fifo.rx_state
    then (true, c)
    else (true, record c { sm = push_isr sm })

unfoldable pub run_autopush : Context → Outcome
unfolding push_isr
run_autopush c =
    let sm = c.sm in
    if not sm.isr_full
    then (true, c)
    else if is_full sm.fifo.rx_state
    then (false, c)
    else (true, record c { sm = push_isr sm })

-- A register counts as full or empty at its threshold, if that is set, and at 32 bits.
abbrev pub reached : ℤ → ℕ → Bool
reached threshold count = (ltz (pos 0) threshold && lez threshold (pos count)) || leb 32 count

module _ (u : Undefined) where
  -- `for (n = 0; n < bits_todo; n++)` over the IN pins, with `count` bits left.
  unfoldable pub gather_pins : List Gpio → ℕ → ℕ → ℕ → ℕ → ℕ
  gather_pins gpios base n zero nbits = nbits
  gather_pins gpios base n (suc count) nbits =
      gather_pins gpios base (n + 1) count
        (set_nth_bit_to u n nbits (hardware_get_gpio gpios ((base + n) % 32)))

  -- The switch of `run_in_instruction`: the new ISR; another source leaves it.
  unfoldable pub in_isr : Source → List Gpio → Sm → ℕ → ℕ
  unfolding gather_pins
  in_isr source gpios sm bits_todo =
      let dir = sm.shiftctl_in_shiftdir in
      elim source [
        | pins_source ↦
            shift_n_then_copy u dir (gather_pins gpios sm.in_pins_base 0 bits_todo 0) sm.isr
              bits_todo
        | x_source ↦ shift_n_then_copy u dir sm.scratch_x sm.isr bits_todo
        | y_source ↦ shift_n_then_copy u dir sm.scratch_y sm.isr bits_todo
        | null_source ↦ shift_n_then_copy u dir 0 sm.isr bits_todo
        | isr_source ↦ shift_n_then_copy u dir sm.isr sm.isr bits_todo
        | osr_source ↦ shift_n_then_copy u dir sm.osr sm.isr bits_todo
        | _ ↦ sm.isr
      ]

  -- `run_in_instruction` up to the test of the threshold.
  unfoldable pub in_shift : Place → Context → Context
  unfolding in_isr
  in_shift p c =
      let i = at_place p c in
      let bits_todo =
        if ltb 0 c.sm.shift_in_resume_count then c.sm.shift_in_resume_count else i.bit_count in
      record c {
        sm = record c.sm {
          isr = in_isr i.source c.gpios c.sm bits_todo;
          shift_in_count = u8 (c.sm.shift_in_count + bits_todo);
        };
      }

  unfoldable pub run_in_instruction : Place → Context → Outcome
  run_in_instruction p c =
      let c' = in_shift p c in
      let full = record c' { sm = record c'.sm { isr_full = true } } in
      if reached c'.sm.shiftctl_push_thresh c'.sm.shift_in_count
      then (if c'.sm.autopush then run_autopush full else (true, full))
      else (true, c')

-- The end of a pull: the OSR is filled from the TX FIFO.
unfoldable pub pull_osr : Sm → Sm
pull_osr sm =
    let (_, osr, fifo) = Fifo.pull sm.fifo sm.osr in
    record sm {
      fifo = fifo;
      osr = osr;
      shift_out_count = 0;
      shift_out_resume_count = 0;
      osr_empty = false;
    }

unfoldable pub run_pull_instruction : Place → Context → Outcome
unfolding pull_osr
run_pull_instruction p c =
    let i = at_place p c in
    let sm = c.sm in
    if i.if_empty && not sm.osr_empty
    then (true, c)
    else if is_empty sm.fifo.tx_state
    then if i.block then (false, c) else (
      true,
      record c {
        sm = record sm { osr = sm.scratch_x; shift_out_count = 0; shift_out_resume_count = 0 };
      },
    )
    else (true, record c { sm = pull_osr sm })

unfoldable pub run_autopull : Context → Outcome
unfolding pull_osr
run_autopull c =
    let sm = c.sm in
    if not sm.osr_empty
    then (true, c)
    else if is_empty sm.fifo.tx_state
    then (false, c)
    else (true, record c { sm = pull_osr sm })

module _ (u : Undefined) where
  -- `for (n = 0; n < bits_todo; n++)` over the OUT pins, with `count` bits left.
  unfoldable pub scatter_pins :
      (List Gpio → ℕ → Bool → List Gpio) → ℕ → ℕ → ℕ → ℕ → List Gpio → List Gpio
  scatter_pins store base n zero nbits gpios = gpios
  scatter_pins store base n (suc count) nbits gpios =
      scatter_pins store base (n + 1) count nbits
        (store gpios ((base + n) % 32) (nth_bit u n nbits))

  -- The switch of `run_out_instruction` on the destination.
  unfoldable pub out_store : Destination → ℕ → ℕ → Context → Context
  unfolding scatter_pins
  out_store destination nbits bits_todo c =
      let sm = c.sm in
      elim destination [
        | pins_destination ↦ record c {
          gpios = scatter_pins hardware_set_gpio sm.out_pins_base 0 bits_todo nbits c.gpios;
        }
        | x_destination ↦ record c { sm = record sm { scratch_x = nbits } }
        | y_destination ↦ record c { sm = record sm { scratch_y = nbits } }
        | null_destination ↦ c
        | pindirs_destination ↦ record c {
          gpios = scatter_pins hardware_set_gpio_dir sm.out_pins_base 0 bits_todo nbits c.gpios;
        }
        | pc_destination ↦ record c { sm = record sm { pc_temp = nbits } }
        | isr_destination ↦ record c { sm = record sm { isr = nbits } }
        | exec_destination ↦ record c { sm = record sm { exec_machine_instruction = u16 nbits } }
        | _ ↦ c
      ]

  abbrev pub is_pins : Source → Bool
  is_pins pins_source = true
  is_pins _ = false

  -- How many bits `run_out_instruction` moves.
  unfoldable pub out_bits : Instruction → Sm → ℕ
  out_bits i sm =
      if ltb 0 sm.shift_out_resume_count
      then sm.shift_out_resume_count
      else if is_pins i.source
      then if ltb i.bit_count sm.out_pins_num then i.bit_count else sm.out_pins_num
      else i.bit_count

  -- `run_out_instruction` from the shift to the update of `osr_empty`.
  unfoldable pub out_shift : Place → Context → Context
  unfolding out_store out_bits
  out_shift p c =
      let i = at_place p c in
      let bits_todo = out_bits i c.sm in
      let (nbits, osr) = copy_n_then_shift u c.sm.shiftctl_out_shiftdir c.sm.osr bits_todo in
      let c' =
        out_store i.destination nbits bits_todo (record c { sm = record c.sm { osr = osr } }) in
      let total = u8 (c'.sm.shift_out_count + bits_todo) in
      let count = if ltb 32 total then 32 else total in
      let sm = record c'.sm { shift_out_count = count } in
      record c' {
        sm = if reached sm.shiftctl_pull_thresh count then record sm { osr_empty = true } else sm;
      }
