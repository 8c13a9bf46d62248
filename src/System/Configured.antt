-- ===== src/System/Configured.antt =====
-- Which PIO and which state machine a program configures.
use simpio.Base.{◌≡◌, arith, Bool, true, false, List, [], ◌∷◌, ℤ, pos, negsuc, ◌⊎◌}
use simpio.System.{System}
use simpio.System.Configure.{in_range, hardware_set_pio, hardware_set_sm}

-- A call of `hardware_set_pio` or of `hardware_set_sm`, with any number.
pub data Setting : Type 0 where
  set_pio set_sm : ℤ → Setting

unfoldable pub apply_setting : Setting → System → ℤ × System
apply_setting (set_pio pio) = hardware_set_pio pio
apply_setting (set_sm sm) = hardware_set_sm sm

unfoldable pub apply_settings : List Setting → System → System
unfolding apply_setting
apply_settings [] s = s
apply_settings (x ∷ xs) s = apply_settings xs (apply_setting x s).1

-- The numbers are those of a PIO and of a state machine.
abbrev pub Selected : System → Type 0
Selected s = (in_range 0 1 s.current_pio ≡ true) × (in_range 0 7 s.current_sm ≡ true)

abbrev pub accepts : Setting → Bool
accepts (set_pio pio) = in_range 0 1 pio
accepts (set_sm sm) = in_range 0 3 sm

-- A call with a number that is in range returns 0. Any other call returns -1 and changes nothing.
pub setting-accepts :
    (x : Setting) (s : System)
    → ((accepts x ≡ true) × ((apply_setting x s).0 ≡ pos 0))
      ⊎ ((accepts x ≡ false) × ((apply_setting x s).0 ≡ negsuc 0) × ((apply_setting x s).1 ≡ s))
unfolding apply_setting hardware_set_pio hardware_set_sm
setting-accepts (set_pio pio) s = ground arith
setting-accepts (set_sm sm) s = ground arith

setting-Selected : (x : Setting) (s : System) → Selected s → Selected (apply_setting x s).1
unfolding apply_setting hardware_set_pio hardware_set_sm
setting-Selected (set_pio pio) s p = ground arith
setting-Selected (set_sm sm) s p = ground arith

-- Where a PIO below 2 and a state machine below 8 are selected, they still are after any calls of
-- `hardware_set_pio` and `hardware_set_sm`, refused ones included.
pub settings-Selected :
    (xs : List Setting) (s : System) → Selected s → Selected (apply_settings xs s)
unfolding apply_settings
settings-Selected [] s p = p
settings-Selected (x ∷ xs) s p = settings-Selected xs (apply_setting x s).1 (setting-Selected x s p)
