-- ===== src/Keypad.antt =====
-- src/device_keypad.c: a matrix of four rows and four columns of keys.
use simpio.Base.{
  ℕ, ◌+◌, ℤ, pos, negsuc, pos_part, eqz, true, false, ◌&&◌, List, [], ◌∷◌, get_or, ◌==◌, leb,
  if◌then◌else◌,
}
use simpio.Hardware.{Gpio}
use simpio.Hardware.Lines.{hardware_set_gpio, hardware_get_gpio}

pub record Keypad : Type 0 where
  pub row_pins : List ℕ
  pub col_pins : List ℕ
  pub keypress_row : ℤ
  pub keypress_col : ℤ

abbrev pub key_at : Keypad → ℕ → ℕ → Keypad
key_at k row col = record k { keypress_row = pos row; keypress_col = pos col }

-- `_set_keypress`, by the codes of its characters.
unfoldable pub set_keypress : ℕ → Keypad → Keypad
set_keypress ch k =
    if ch == 32
    then record k { keypress_row = negsuc 0; keypress_col = negsuc 0 }
    else if ch == 49
    then key_at k 0 0
    else if ch == 50
    then key_at k 0 1
    else if ch == 51
    then key_at k 0 2
    else if ch == 65
    then key_at k 0 3
    else if ch == 52
    then key_at k 1 0
    else if ch == 53
    then key_at k 1 1
    else if ch == 54
    then key_at k 1 2
    else if ch == 66
    then key_at k 1 3
    else if ch == 55
    then key_at k 2 0
    else if ch == 56
    then key_at k 2 1
    else if ch == 57
    then key_at k 2 2
    else if ch == 67
    then key_at k 2 3
    else if ch == 42
    then key_at k 3 0
    else if ch == 48
    then key_at k 3 1
    else if ch == 35
    then key_at k 3 2
    else if ch == 68
    then key_at k 3 3
    else k

-- `for (i=0; i<4; i++) hardware_set_gpio(col_pins[i],0)`.
pub clear_columns : List ℕ → List Gpio → List Gpio
clear_columns [] gpios = gpios
clear_columns (pin ∷ pins) gpios = clear_columns pins (hardware_set_gpio gpios pin false)

-- The second loop, over the rows from `i` on: the column of the key is set if its row is driven.
pub scan_rows : Keypad → ℕ → List ℕ → List Gpio → List Gpio
scan_rows k i [] gpios = gpios
scan_rows k i (pin ∷ pins) gpios = scan_rows k (i + 1) pins (
    if hardware_get_gpio gpios pin && eqz k.keypress_row (pos i)
    then hardware_set_gpio gpios (get_or k.col_pins (pos_part k.keypress_col) 0) true
    else gpios)

unfoldable pub run_keypad : Keypad → List Gpio → List Gpio
unfolding clear_columns scan_rows
run_keypad k gpios = scan_rows k 0 k.row_pins (clear_columns k.col_pins gpios)

-- `device_enable_keypad`, without the registration of the device.
unfoldable pub device_enable_keypad : ℕ → ℕ → ℕ → ℕ → ℕ → ℕ → ℕ → ℕ → Keypad
device_enable_keypad r1 r2 r3 r4 c1 c2 c3 c4 = record {
  row_pins = r1 ∷ r2 ∷ r3 ∷ r4 ∷ [];
  col_pins = c1 ∷ c2 ∷ c3 ∷ c4 ∷ [];
  keypress_row = negsuc 0;
  keypress_col = negsuc 0;
}

unfoldable pub device_set_keypress : ℕ → Keypad → Keypad
unfolding set_keypress
device_set_keypress key k = if leb key 9 then set_keypress (key + 48) k else k
