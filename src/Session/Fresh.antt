-- ===== src/Session/Fresh.antt =====
-- The first step after a build, which only finds the line that comes first.
use simpio.Base.{◌≡◌, ℤ, false, map}
use simpio.Enumerator.{numbers_from}
use simpio.Hardware.Lines.{no_gpio}
use simpio.Changed.Same.{no_change}
use simpio.Session.{Session}

-- The session that a first step leaves.
abbrev pub Fresh : ℤ → Session → Session → Type 0
Fresh line s s' =
    (s'.system ≡ s.system)
    × (s'.first_stepit ≡ false)
    × (s'.prev_line ≡ line)
    × (s'.changed.sms ≡ map (λ sm. no_change) s.system.sms)
    × (s'.changed.gpios ≡ map (λ i. no_gpio) (numbers_from 0 32))
