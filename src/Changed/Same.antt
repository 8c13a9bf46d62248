-- ===== src/Changed/Same.antt =====
-- Nothing has changed right after a snapshot.
use simpio.Base.{
  ℕ, ◌+◌, All, ltz, pos, ◌≡◌, refl, ap₂, arith, Bool, true, false, not, List, [], ◌∷◌, map, ◌==◌,
}
use simpio.Fifo.{fifo_match}
use simpio.Fifo.Snapshot.{compare-copy}
use simpio.Hardware.{Sm, Gpio}
use simpio.Hardware.Lines.{no_gpio}
use simpio.Enumerator.{numbers_from}
use simpio.System.{System, Pio}
use simpio.Changed.{
  SmChanged, snapshot_sm, sm_changed, sms_changed, levels_changed, irqs_changed, lines_changed,
  irq_levels, hardware_snapshot, hardware_get_changed, line_at, differ,
}

abbrev pub no_change : SmChanged
no_change = record {
  fifo = fifo_match;
  scratch_x = false;
  scratch_y = false;
  osr = false;
  isr = false;
  shift_out_count = false;
  shift_in_count = false;
  exec_machine_instruction = false;
}

same_number : (n : ℕ) → not (n == n) ≡ false
same_number n = ground arith

-- The marks of the FIFO of a state machine lie within its buffer of eight cells. In the mode TX_ONLY they
-- do not, since the RX bottom is -1.
abbrev pub InBuffer : Sm → Type 0
InBuffer sm =
    (ltz sm.fifo.rx_bottom (pos 0) ≡ false)
    × (ltz (pos 8) sm.fifo.rx_top ≡ false)
    × (ltz (pos 8) sm.fifo.tx_top ≡ false)

sm_unchanged : (f : ℕ × ℕ) (sm : Sm) → InBuffer sm → sm_changed f (snapshot_sm sm) sm ≡ no_change
unfolding sm_changed snapshot_sm
sm_unchanged f sm h =
    rw
      (
        compare-copy f.0 f.1 sm.fifo h.0,
        same_number sm.scratch_x,
        same_number sm.scratch_y,
        same_number sm.osr,
        same_number sm.isr,
        same_number sm.shift_out_count,
        same_number sm.shift_in_count,
        same_number sm.exec_machine_instruction,
      )
      refl

sms_unchanged :
    (f : ℕ → ℕ × ℕ) (i : ℕ) (sms : List Sm)
    → All InBuffer sms
    → sms_changed f i (map snapshot_sm sms) sms ≡ map (λ sm. no_change) sms
unfolding sms_changed
sms_unchanged f i [] h = refl
sms_unchanged f i (sm ∷ sms) (h, hs) =
    ap₂ ◌∷◌ (sm_unchanged (f i) sm h) (sms_unchanged f (i + 1) sms hs)

differ_self : (b : Bool) → differ b b ≡ false
differ_self true = refl
differ_self false = refl

lines_unchanged :
    (f : ℕ → Gpio) (xs : List ℕ) → lines_changed (map f xs) (map f xs) ≡ map (λ i. no_gpio) xs
unfolding lines_changed
lines_unchanged f [] = refl
lines_unchanged f (x ∷ xs) =
    ap₂ ◌∷◌ (λ i. record { value = differ_self (f x).value i; pindir = differ_self (f x).pindir i })
      (lines_unchanged f xs)

-- Right after a snapshot of state machines whose FIFOs have their marks within the buffer, as outside
-- the mode TX_ONLY, no register, FIFO or line counts as changed, and an IRQ counts as changed
-- exactly if the two PIOs differ in it.
pub snapshot-changed :
    (fronts : ℕ → ℕ × ℕ) (marked : List Bool) (s : System) (first second : Pio)
    → All InBuffer s.sms
    → s.pios ≡ first ∷ second ∷ []
    → let changed = hardware_get_changed fronts marked (hardware_snapshot s) s in
      (changed.sms ≡ map (λ sm. no_change) s.sms)
      × (changed.gpios ≡ map (λ i. no_gpio) (numbers_from 0 32))
      × (changed.irqs ≡ levels_changed (irq_levels second) (irq_levels first))
unfolding hardware_get_changed hardware_snapshot irqs_changed
snapshot-changed fronts marked s first second h e = (
  sms_unchanged fronts 0 s.sms h,
  lines_unchanged (line_at s.gpios) (numbers_from 0 32),
  rw (e) refl,
)
