-- ===== src/Session/Command.antt =====
-- The commands of a session with the user interface, in the order in which they come.
use simpio.Base.{ℕ, ℤ, Bool, Option, some, List, [], ◌∷◌}
use simpio.Exec.Run.{◌>>=◌}
use simpio.System.{System, Outside}
use simpio.Session.{Session, buildit, stepit, toggleit, runit}

-- A build comes with what the parser answers and makes of the program, a run with the rounds of its keys.
pub data Command : Type 0 where
  build : ℤ → System → Command
  step : Command
  toggle_line : ℤ → Command
  run : (ℕ → Bool) → Command

module _ (o : Outside) (fuel rounds : ℕ) (unset : ℤ) where
  unfoldable pub perform : Command → Session → Option (ℤ × Session)
  perform (build error_line system) s = some (buildit (error_line, system) s)
  perform step s = stepit o fuel s
  perform (toggle_line line) s = some (toggleit line s)
  perform (run keys) s = runit o keys fuel rounds unset s

  unfoldable pub perform_all : List Command → Session → Option Session
  perform_all [] s = some s
  perform_all (c ∷ commands) s = do (_, s') ← perform c s; perform_all commands s'
