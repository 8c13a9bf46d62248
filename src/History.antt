-- ===== src/History.antt =====
-- The GPIO history of src/hardware_changed.c: an array of `max_gpio_history_index` entries, a count and
-- an index. The update after the first 49 stores at the index 50, outside the array, and what C
-- overwrites there is not modelled: the list stays as it is.
pub mod Stored
use simpio.Base.{
  ℕ, zero, suc, ◌+◌, ◌-◌, ◌%◌, ◌^◌, Bool, true, false, ◌&&◌, ◌||◌, List, [], ◌∷◌, ltb, ◌==◌,
  if◌then◌else◌, get_or, set, Option, none, some,
}
use simpio.Hardware.{Gpio, num_gpios}
use simpio.Hardware.Lines.{hardware_get_gpio}

abbrev pub max_gpio_history_index : ℕ
max_gpio_history_index = 50

-- `gpio_history_t`.
pub record Entry : Type 0 where
  pub values : List Bool
  pub clock_tick : ℕ

pub record History : Type 0 where
  pub gpio_history : List Entry
  pub count : ℕ
  pub current_index : ℕ
  pub current_iterator : ℕ

unfoldable pub history_init : History → ℕ × History
history_init h = (max_gpio_history_index, record h { count = 0; current_index = 0 })

unfoldable pub history_iteration : History → ℕ × History
history_iteration h = (h.count, record h { current_iterator = 0 })

-- The index of the entry that `hardware_changed_gpio_history_get` returns a pointer to, or `none` for
-- NULL.
unfoldable pub history_get : History → Option ℕ × History
history_get h =
    let i = h.current_iterator in
    let max = max_gpio_history_index in
    let next = record h { current_iterator = (i + 1) % 2 ^ 32 } in
    (
      if ltb h.count max || h.current_index + 1 == max
          then some i
          else if ltb i ((max + 2 ^ 32 - h.current_index - 1) % 2 ^ 32)
          then some ((h.current_index + 1 + i) % 2 ^ 32)
          else if ltb i max
          then some ((h.current_index + 1 + i + 2 ^ 32 - max) % 2 ^ 32)
          else none,
      next,
    )

-- `for (gpio=0; gpio<NUM_GPIOS; gpio++)`, with `left` lines left.
unfoldable pub gpio_levels : List Gpio → ℕ → ℕ → List Bool
gpio_levels gpios gpio zero = []
gpio_levels gpios gpio (suc left) = hardware_get_gpio gpios gpio ∷ gpio_levels gpios (gpio + 1) left

-- `hardware_changed_gpio_history_update` up to the stores: the count and the index.
unfoldable pub history_advance : History → History
history_advance h =
    if ltb h.count max_gpio_history_index
    then record h { count = h.count + 1; current_index = h.current_index + 1 }
    else if h.current_index == max_gpio_history_index
    then record h { current_index = 0 }
    else record h { current_index = (h.current_index + 1) % 2 ^ 32 }

unfoldable pub history_update : List Gpio → ℕ → History → History
unfolding gpio_levels history_advance
history_update gpios clock_tick h =
    let h' = history_advance h in
    record h' {
      gpio_history =
          set h'.gpio_history h'.current_index
            (record { values = gpio_levels gpios 0 num_gpios; clock_tick = clock_tick });
    }
