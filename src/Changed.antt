-- ===== src/Changed.antt =====
-- The snapshots of src/hardware_changed.c and what they are compared with. The loops fill whole arrays,
-- so that a snapshot is a list of the values.
pub mod Same
use simpio.Base.{ℕ, ◌+◌, Bool, true, false, not, List, [], ◌∷◌, map, ◌==◌}
use simpio.Fifo.{Fifo, FifoCompare, copy, compare}
use simpio.Hardware.{Sm, Gpio, num_gpios}
use simpio.Hardware.Lines.{hardware_get_gpio, hardware_get_gpio_dir}
use simpio.Enumerator.{numbers_from}
use simpio.System.{System, Pio, Irq}

-- `sm_snapshot_t`.
pub record SmSnapshot : Type 0 where
  pub fifo : Fifo
  pub scratch_x : ℕ
  pub scratch_y : ℕ
  pub osr : ℕ
  pub isr : ℕ
  pub shift_out_count : ℕ
  pub shift_in_count : ℕ
  pub exec_machine_instruction : ℕ

-- `pio_snapshots`, of which only the fields `set` of the IRQs are used, `sm_snapshots` and
-- `gpio_snapshots`.
pub record Snapshot : Type 0 where
  pub irqs : List (List Bool)
  pub sms : List SmSnapshot
  pub gpios : List Gpio

-- `sm_changed_t`, but for its field `exec`, which nothing sets.
pub record SmChanged : Type 0 where
  pub fifo : FifoCompare
  pub scratch_x : Bool
  pub scratch_y : Bool
  pub osr : Bool
  pub isr : Bool
  pub shift_out_count : Bool
  pub shift_in_count : Bool
  pub exec_machine_instruction : Bool

-- `hardware_changed_t`; a `gpios_changed_t` has the fields of a `Gpio`. Of the PIOs, only the entry of
-- the first is ever set.
pub record Changed : Type 0 where
  pub irqs : List Bool
  pub sms : List SmChanged
  pub gpios : List Gpio

unfoldable pub snapshot_sm : Sm → SmSnapshot
snapshot_sm sm = record {
  fifo = copy sm.fifo;
  scratch_x = sm.scratch_x;
  scratch_y = sm.scratch_y;
  osr = sm.osr;
  isr = sm.isr;
  shift_out_count = sm.shift_out_count;
  shift_in_count = sm.shift_in_count;
  exec_machine_instruction = sm.exec_machine_instruction;
}

abbrev pub irq_levels : Pio → List Bool
irq_levels p = map (λ (i : Irq). i.on) p.irqs

abbrev pub line_at : List Gpio → ℕ → Gpio
line_at gpios i = record {
  value = hardware_get_gpio gpios i;
  pindir = hardware_get_gpio_dir gpios i;
}

unfoldable pub hardware_snapshot : System → Snapshot
hardware_snapshot s = record {
  irqs = map irq_levels s.pios;
  sms = map snapshot_sm s.sms;
  gpios = map (line_at s.gpios) (numbers_from 0 num_gpios);
}

-- `a != b`.
abbrev pub differ : Bool → Bool → Bool
differ true b = not b
differ false b = b

-- `fronts` is what stands in front of the FIFO buffer of the snapshot and of that of the state machine.
unfoldable pub sm_changed : ℕ × ℕ → SmSnapshot → Sm → SmChanged
sm_changed fronts old sm = record {
  fifo = compare fronts.0 fronts.1 sm.fifo old.fifo;
  scratch_x = not (old.scratch_x == sm.scratch_x);
  scratch_y = not (old.scratch_y == sm.scratch_y);
  osr = not (old.osr == sm.osr);
  isr = not (old.isr == sm.isr);
  shift_out_count = not (old.shift_out_count == sm.shift_out_count);
  shift_in_count = not (old.shift_in_count == sm.shift_in_count);
  exec_machine_instruction = not (old.exec_machine_instruction == sm.exec_machine_instruction);
}

-- From the state machine `i` on.
unfoldable pub sms_changed : (ℕ → ℕ × ℕ) → ℕ → List SmSnapshot → List Sm → List SmChanged
sms_changed fronts i (old ∷ olds) (sm ∷ sms) =
    sm_changed (fronts i) old sm ∷ sms_changed fronts (i + 1) olds sms
sms_changed _ _ _ _ = []

-- The loop over the IRQs of a PIO.
unfoldable pub levels_changed : List Bool → List Bool → List Bool
levels_changed (now ∷ nows) (old ∷ olds) = differ now old ∷ levels_changed nows olds
levels_changed _ _ = []

-- The loop over the PIOs, which never counts up `pio_num`: each is compared with the snapshot of the
-- first, and the last one's result stays.
unfoldable pub irqs_changed : List Bool → List Pio → List Bool → List Bool
irqs_changed old [] changed = changed
irqs_changed old (p ∷ ps) changed = irqs_changed old ps (levels_changed (irq_levels p) old)

unfoldable pub lines_changed : List Gpio → List Gpio → List Gpio
lines_changed (old ∷ olds) (now ∷ nows) =
    record { value = differ old.value now.value; pindir = differ old.pindir now.pindir }
    ∷ lines_changed olds nows
lines_changed _ _ = []

abbrev first_of : List (List Bool) → List Bool
first_of [] = []
first_of (x ∷ xs) = x

-- `hardware_get_changed`, from the IRQs that were marked before.
unfoldable pub hardware_get_changed : (ℕ → ℕ × ℕ) → List Bool → Snapshot → System → Changed
hardware_get_changed fronts marked old s = record {
  irqs = irqs_changed (first_of old.irqs) s.pios marked;
  sms = sms_changed fronts 0 old.sms s.sms;
  gpios = lines_changed old.gpios (map (line_at s.gpios) (numbers_from 0 num_gpios));
}
