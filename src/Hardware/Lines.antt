-- ===== src/Hardware/Lines.antt =====
-- The GPIO lines and the IRQ flags of src/hardware.c. An `int` pin number is cut to a `uint8_t` by
-- the call; a number of no line is refused, with an error message.
use simpio.Base.{ℕ, Bool, true, false, List, get_or, set, ltb, if◌then◌else◌}
use simpio.Hardware.{Gpio, num_gpios, num_irq_flags, u8}

abbrev pub no_gpio : Gpio
no_gpio = record { value = false; pindir = false }

unfoldable pub hardware_set_gpio : List Gpio → ℕ → Bool → List Gpio
hardware_set_gpio gpios num val =
    let i = u8 num in
    if ltb i num_gpios then set gpios i (record (get_or gpios i no_gpio) { value = val }) else gpios

unfoldable pub hardware_set_gpio_dir : List Gpio → ℕ → Bool → List Gpio
hardware_set_gpio_dir gpios num dir =
    let i = u8 num in
    if ltb i num_gpios
    then set gpios i (record (get_or gpios i no_gpio) { pindir = dir })
    else gpios

unfoldable pub hardware_get_gpio : List Gpio → ℕ → Bool
hardware_get_gpio gpios num =
    let i = u8 num in if ltb i num_gpios then (get_or gpios i no_gpio).value else false

unfoldable pub hardware_get_gpio_dir : List Gpio → ℕ → Bool
hardware_get_gpio_dir gpios num =
    let i = u8 num in if ltb i num_gpios then (get_or gpios i no_gpio).pindir else false

-- The `set` field of each IRQ flag.
unfoldable pub hardware_irq_flag_set : List Bool → ℕ → Bool → Bool × List Bool
hardware_irq_flag_set flags irq set_or_clear =
    if ltb (u8 irq) num_irq_flags then (true, set flags (u8 irq) set_or_clear) else (false, flags)

unfoldable pub hardware_irq_flag_is_set : List Bool → ℕ → Bool
hardware_irq_flag_is_set flags irq =
    if ltb (u8 irq) num_irq_flags then get_or flags (u8 irq) false else false
