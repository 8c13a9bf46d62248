-- ===== src/Exec/Pins.antt =====
-- Which GPIO lines SET, MOV and a side set drive, and to what.
use simpio.Base.{ℕ, zero, suc, ◌+◌, ◌/◌, ◌%◌, ◌^◌, ◌≤◌, ◌<◌, ◌≡◌, ◌≢◌, refl, sym, ap, ◌∙◌, arith}
use simpio.Base.{Bool, List, length, length-set, get_or-set_self, get_or-set_ne, get_or, ◌==◌}
use simpio.Base.{◌⊎◌, inl}
use simpio.Bits.Mask.{div-two_pow-suc}
use simpio.Hardware.{Gpio, u8}
use simpio.Hardware.Lines.{hardware_set_gpio, hardware_get_gpio, no_gpio}
use simpio.Exec.Flow.{set_pins}

length-set_gpio :
    (gpios : List Gpio) (j : ℕ) (b : Bool) → length (hardware_set_gpio gpios j b) ≡ length gpios
unfolding hardware_set_gpio
length-set_gpio gpios j b =
    ground (arith, length-set gpios (u8 j) (record (get_or gpios (u8 j) no_gpio) { value = b }))

module _ (gpios : List Gpio) (i j : ℕ) (b : Bool) (i_lt : i < 32) (j_lt : j < 32) where
  get-set_self : length gpios ≡ 32 → hardware_get_gpio (hardware_set_gpio gpios j b) j ≡ b
  unfolding hardware_get_gpio hardware_set_gpio
  get-set_self l = ground (
    arith,
    get_or-set_self gpios (u8 j) (record (get_or gpios (u8 j) no_gpio) { value = b }) no_gpio
        (omega arith),
  )

  get-set_ne : i ≢ j → hardware_get_gpio (hardware_set_gpio gpios j b) i ≡ hardware_get_gpio gpios i
  unfolding hardware_get_gpio hardware_set_gpio
  get-set_ne h = ground (
    arith,
    get_or-set_ne gpios (u8 j) (u8 i) (record (get_or gpios (u8 j) no_gpio) { value = b }) no_gpio
        (λ e. h (omega (arith, e))),
  )

-- Where the lines to drive are among the 32, a line outside of them keeps its level.
pub set_pins-outside :
    (count base value i : ℕ) (gpios : List Gpio)
    → base + count ≤ 32
    → i < 32
    → (i < base) ⊎ (base + count ≤ i)
    → hardware_get_gpio (set_pins hardware_set_gpio base count value gpios) i
      ≡ hardware_get_gpio gpios i
unfolding set_pins
set_pins-outside zero base value i gpios fits lt out = refl
set_pins-outside (suc count) base value i gpios fits lt out =
    set_pins-outside count (base + 1) (value / 2) i (hardware_set_gpio gpios base (value % 2 == 1))
      (omega arith) lt (still_out out)
    ∙ get-set_ne gpios i base (value % 2 == 1) lt (omega arith) (omega (arith, out))
  where
    still_out : (i < base) ⊎ (base + suc count ≤ i) → (i < base + 1) ⊎ (base + 1 + count ≤ i)
    still_out o = ground arith

-- Where the lines to drive are among the 32, the lines from `base` on take the binary digits of the
-- value, the lowest digit first.
pub set_pins-inside :
    (count base value k : ℕ) (gpios : List Gpio)
    → base + count ≤ 32
    → length gpios ≡ 32
    → k < count
    → hardware_get_gpio (set_pins hardware_set_gpio base count value gpios) (base + k)
      ≡ (value / 2 ^ k % 2 == 1)
unfolding set_pins
set_pins-inside zero base value k gpios fits l lt = absurd (omega arith)
set_pins-inside (suc count) base value zero gpios fits l lt =
    ap
      (hardware_get_gpio (
        set_pins hardware_set_gpio (base + 1) count (value / 2)
          (hardware_set_gpio gpios base (value % 2 == 1))))
      (omega arith)
    ∙ set_pins-outside count (base + 1) (value / 2) base
        (hardware_set_gpio gpios base (value % 2 == 1)) (omega arith) (omega arith)
        (inl (omega arith))
    ∙ get-set_self gpios base base (value % 2 == 1) (omega arith) (omega arith) l
    ∙ ap (λ (t : ℕ). t % 2 == 1) (omega arith)
set_pins-inside (suc count) base value (suc k) gpios fits l lt =
    ap
      (hardware_get_gpio (
        set_pins hardware_set_gpio (base + 1) count (value / 2)
          (hardware_set_gpio gpios base (value % 2 == 1))))
      (omega arith)
    ∙ set_pins-inside count (base + 1) (value / 2) k (hardware_set_gpio gpios base (value % 2 == 1))
        (omega arith) (length-set_gpio gpios base (value % 2 == 1) ∙ l) (omega arith)
    ∙ ap (λ (t : ℕ). t % 2 == 1) (sym (div-two_pow-suc value k))
