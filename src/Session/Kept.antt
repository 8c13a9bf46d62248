-- ===== src/Session/Kept.antt =====
-- What a session of commands keeps of the program.
use simpio.Base.{
  ◌≡◌, ◌∙◌, arith, refl, sym, subst, ℕ, ℤ, pos, Bool, true, false, Option, none, some, List, [],
  ◌∷◌, All, if◌then◌else◌,
}
use simpio.Exec.Run.{◌>>=◌}
use simpio.Hardware.{u8_of_int}
use simpio.System.{System, Outside}
use simpio.System.Frame.{Valid, Same, Same-Valid}
use simpio.System.Kept.{step-Valid}
use simpio.System.RunAll.{exec_run_all_programs, run_all-Valid}
use simpio.System.Step.{exec_step_programs_next_instruction}
use simpio.System.Breakpoints.{instruction_toggle_breakpoint}
use simpio.Session.{
  Session, buildit, stepit, toggleit, runit, first_step, next_step, run_built, report_previous,
  after_step, after_run, take_snapshot, say, step_done, running, need_to_build_to_step,
  need_to_build_to_run, update_regs,
}
use simpio.Session.Command.{Command, build, step, toggle_line, run, perform, perform_all}

pub toggle-Same : (line : ℕ) (s : System) → Same s (instruction_toggle_breakpoint line s).1
unfolding instruction_toggle_breakpoint
toggle-Same line s = ground arith

report-system : (s : Session) → (report_previous s).system ≡ s.system
unfolding report_previous
report-system s = ground arith

update-system : (o : Outside) (s : Session) → (update_regs o s).system ≡ s.system
unfolding update_regs
update-system o s = refl

toggleit-system :
    (line : ℤ) (s : Session)
    → (toggleit line s).1.system
      ≡ (if s.built then (instruction_toggle_breakpoint (u8_of_int line) s.system).1 else s.system)
unfolding toggleit
toggleit-system line s = ground arith

buildit-system : (answer : ℤ) (p : System) (s : Session) → (buildit (answer, p) s).1.system ≡ p
unfolding buildit
buildit-system answer p s = ground arith

-- What a command leaves, if it ends.
abbrev Ends : (System → Type 0) → Option (ℤ × Session) → Type 0
Ends P none = Unit
Ends P (some r) = P r.1.system

either :
    (P : System → Type 0) (b : Bool) (x y : Option (ℤ × Session))
    → Ends P x
    → Ends P y
    → Ends P (if b then x else y)
either P true x y h k = h
either P false x y h k = k

after_step-system :
    (o : Outside) (s : Session) (line : ℤ) (p : System) → (after_step o s (line, p)).1.system ≡ p
unfolding after_step
after_step-system o s line p = ground (
  arith,
  report-system (record s { system = p }),
  update-system o (report_previous (record s { system = p })),
  update-system o (say step_done (record s { system = p })),
)

after_run-system :
    (o : Outside) (s : Session) (line : ℤ) (p : System) → (after_run o s (line, p)).1.system ≡ p
unfolding after_run update_regs
after_run-system o s line p = refl

toggleit-Valid : (line : ℤ) (s : Session) → Valid s.system → Valid (toggleit line s).1.system
toggleit-Valid line s v = subst Valid (sym (toggleit-system line s)) (choose s.built)
  where
    toggled : System
    toggled = (instruction_toggle_breakpoint (u8_of_int line) s.system).1

    choose : (b : Bool) → Valid (if b then toggled else s.system)
    choose true = Same-Valid s.system toggled (toggle-Same (u8_of_int line) s.system) v
    choose false = v

-- A build must leave a program whose FIFOs are in order.
abbrev pub Builds : Command → Type 0
Builds (build answer p) = Valid p
Builds _ = Unit

module _ (o : Outside) (fuel rounds : ℕ) (unset : ℤ) where
  first_step-system : (s : Session) → (first_step o s).1.system ≡ s.system
  unfolding first_step update_regs
  first_step-system s = ground arith

  next_step-Valid : (s : Session) → Valid s.system → Ends Valid (next_step o fuel s)
  unfolding next_step
  next_step-Valid s v = choose (exec_step_programs_next_instruction o fuel s.system) refl
    where
      choose :
          (r : Option (ℤ × System))
          → exec_step_programs_next_instruction o fuel s.system ≡ r
          → Ends Valid (r >>= (λ stepped. some (after_step o s stepped)))
      choose none e = tt
      choose (some (line, p)) e =
          subst Valid (sym (after_step-system o s line p)) (step-Valid o fuel s.system p line v e)

  run_built-Valid :
      (keys : ℕ → Bool) (s : Session)
      → Valid s.system
      → Ends Valid (run_built o keys fuel rounds unset s)
  unfolding run_built
  run_built-Valid keys s v = choose (exec_run_all_programs o keys fuel rounds unset s.system) refl
    where
      choose :
          (r : Option (ℤ × System))
          → exec_run_all_programs o keys fuel rounds unset s.system ≡ r
          → Ends Valid (r >>= (λ stopped. some (after_run o s stopped)))
      choose none e = tt
      choose (some (line, p)) e =
          subst Valid (sym (after_run-system o s line p))
            (run_all-Valid o keys fuel rounds unset line s.system p v e)

  stepit-Valid : (s : Session) → Valid s.system → Ends Valid (stepit o fuel s)
  unfolding stepit
  stepit-Valid s v =
      either Valid s.built _ (some (pos 1, say need_to_build_to_step s))
        (either Valid s.first_stepit (some (first_step o first)) _
          (subst Valid (sym (first_step-system first)) v) (next_step-Valid (take_snapshot s) v))
        v
    where
      first : Session
      first = record (take_snapshot s) { first_stepit = false }

  runit-Valid :
      (keys : ℕ → Bool) (s : Session)
      → Valid s.system
      → Ends Valid (runit o keys fuel rounds unset s)
  unfolding runit
  runit-Valid keys s v =
      either Valid s.built _ (some (pos 1, say need_to_build_to_run (take_snapshot s)))
        (run_built-Valid keys (say running (record (take_snapshot s) { first_stepit = false })) v) v

  perform-Valid :
      (c : Command) (s : Session)
      → Builds c
      → Valid s.system
      → Ends Valid (perform o fuel rounds unset c s)
  unfolding perform
  perform-Valid (build answer p) s b v = subst Valid (sym (buildit-system answer p s)) b
  perform-Valid step s b v = stepit-Valid s v
  perform-Valid (toggle_line line) s b v = toggleit-Valid line s v
  perform-Valid (run keys) s b v = runit-Valid keys s v

same : {x y : Session} → ◌≡◌ {A = Option Session} (some x) (some y) → x ≡ y
same e = cc e

-- A session keeps all FIFOs in order and the round robin of the user processors in range, whatever
-- commands the user gives and in whatever order, if every build leaves a program that has both.
pub perform_all-Valid :
    (o : Outside) (fuel rounds : ℕ) (unset : ℤ) (commands : List Command) (s s' : Session)
    → All Builds commands
    → Valid s.system
    → perform_all o fuel rounds unset commands s ≡ some s'
    → Valid s'.system
unfolding perform_all
perform_all-Valid o fuel rounds unset [] s s' b v e =
    subst (λ (t : Session). Valid t.system) (same e) v
perform_all-Valid o fuel rounds unset (c ∷ commands) s s' (b, bs) v e =
    choose (perform o fuel rounds unset c s) (perform-Valid o fuel rounds unset c s b v)
      (λ t. perform_all-Valid o fuel rounds unset commands t s' bs) e
  where
    choose :
        (r : Option (ℤ × Session))
        → Ends Valid r
        → ((t : Session)
            → Valid t.system
            → perform_all o fuel rounds unset commands t ≡ some s'
            → Valid s'.system)
        → r >>= (λ t. perform_all o fuel rounds unset commands t.1) ≡ some s'
        → Valid s'.system
    choose none _ next e = absurd (ground arith)
    choose (some t) v next e = next t.1 v e

-- Before a first build, no steps, breakpoints and runs change the program.
abbrev pub Waits : Command → Type 0
Waits (build answer p) = ⊥
Waits _ = Unit

module _ (o : Outside) (fuel rounds : ℕ) (unset : ℤ) where
  abbrev Untouched : Session → Option (ℤ × Session) → Type 0
  Untouched s none = ⊥
  Untouched s (some r) = (r.1.system ≡ s.system) × (r.1.built ≡ false)

  perform-Untouched :
      (c : Command) (s : Session)
      → Waits c
      → s.built ≡ false
      → Untouched s (perform o fuel rounds unset c s)
  unfolding perform stepit runit toggleit
  perform-Untouched (build answer p) s w b = absurd w
  perform-Untouched step s w b = rw (b) (refl, refl)
  perform-Untouched (toggle_line line) s w b = ground arith
  perform-Untouched (run keys) s w b = rw (b) (refl, refl)

-- Before a build, commands that step, run or set breakpoints all return, and leave the program as it
-- is.
pub perform_all-unbuilt :
    (o : Outside) (fuel rounds : ℕ) (unset : ℤ) (commands : List Command) (s : Session)
    → All Waits commands
    → s.built ≡ false
    → (s' : Session) × (perform_all o fuel rounds unset commands s ≡ some s')
      × (s'.system ≡ s.system)
unfolding perform_all
perform_all-unbuilt o fuel rounds unset [] s w b = (s, refl, refl)
perform_all-unbuilt o fuel rounds unset (c ∷ commands) s (w, ws) b =
    choose (perform o fuel rounds unset c s) (perform-Untouched o fuel rounds unset c s w b)
      (λ t. perform_all-unbuilt o fuel rounds unset commands t ws)
  where
    choose :
        (r : Option (ℤ × Session))
        → Untouched o fuel rounds unset s r
        → ((t : Session)
            → t.built ≡ false
            → (s' : Session) × (perform_all o fuel rounds unset commands t ≡ some s')
              × (s'.system ≡ t.system))
        → (s' : Session) × (r >>= (λ t. perform_all o fuel rounds unset commands t.1) ≡ some s')
          × (s'.system ≡ s.system)
    choose none u next = absurd u
    choose (some t) (same_system, b') next =
        let (s', e, k) = next t.1 b' in (s', e, k ∙ same_system)
