-- ===== src/Session/Quit.antt =====
-- When the interactive mode ends.
use simpio.Base.{
  ◌≡◌, arith, refl, subst, sym, atoi, ℕ, zero, suc, ◌==◌, ℤ, pos, negsuc, ltz, Bool, true, false,
  Option, none, some, if◌then◌else◌, List, [], ◌∷◌, All,
}
use simpio.Exec.Run.{◌>>=◌}
use simpio.System.{System, Outside}
use simpio.System.RunAll.{exec_first_instruction_that_will_be_executed}
use simpio.Session.Terminal.{
  Terminal, getchar, after_getchar, fgets, quits, is_key, toggle_at, nothing_to_execute,
  starting_at, shown, print, interactive_mode, break_command, run_command, step_command, arrived,
  command, interact,
}

-- The input has no q and no Q.
abbrev pub NoQuit : List ℕ → Type 0
NoQuit = All (λ c. quits (some c) ≡ false)

fgets-NoQuit : (limit : ℕ) (input : List ℕ) → NoQuit input → NoQuit (fgets limit input).1
unfolding fgets
fgets-NoQuit zero input h = h
fgets-NoQuit (suc limit) [] h = tt
fgets-NoQuit (suc limit) (c ∷ input) (h, hs) = choose (c == 10) (fgets-NoQuit limit input hs)
  where
    choose :
        (b : Bool)
        → NoQuit (fgets limit input).1
        → NoQuit
            (if◌then◌else◌ {A = List ℕ × List ℕ} b
              (c ∷ [], input)
              (c ∷ (fgets limit input).0, (fgets limit input).1)).1
    choose true next = hs
    choose false next = next

toggle_at-input : (line : ℤ) (t : Terminal) → (toggle_at line t).input ≡ t.input
unfolding toggle_at
toggle_at-input line t = ground arith

break_command-input : (t : Terminal) → (break_command t).input ≡ (fgets 79 t.input).1
unfolding break_command
break_command-input t =
    ground (
      arith,
      toggle_at-input (atoi (fgets 79 t.input).0) (record t { input = (fgets 79 t.input).1 }),
    )

getchar-NoQuit :
    (input : List ℕ) → NoQuit input → (quits (getchar input) ≡ false) × NoQuit (after_getchar input)
getchar-NoQuit [] h = (refl, tt)
getchar-NoQuit (c ∷ input) (h, hs) = (h, hs)

module _ (o : Outside) (keys : ℕ → ℕ → Bool) (fuel rounds : ℕ) (unset : ℤ) where
  -- A command that ends leaves no q in the input.
  abbrev Leaves : Option Terminal → Type 0
  Leaves none = Unit
  Leaves (some t) = NoQuit t.input

  arrived-Leaves :
      (t : Terminal) (r : Option (ℤ × System))
      → NoQuit t.input
      → Leaves (r >>= (λ stopped. some (arrived t stopped)))
  arrived-Leaves t none h = tt
  arrived-Leaves t (some r) h = h

  either : (b : Bool) (x y : Option Terminal) → Leaves x → Leaves y → Leaves (if b then x else y)
  either true x y h k = h
  either false x y h k = k

  command-Leaves :
      (count : ℕ) (ch : Option ℕ) (t : Terminal)
      → NoQuit t.input
      → Leaves (command o keys fuel rounds unset count ch t)
  unfolding command run_command step_command
  command-Leaves count ch t h =
      either (is_key b'b' b'B' ch) (some (break_command t)) _
        (subst NoQuit (sym (break_command-input t)) (fgets-NoQuit 79 t.input h))
        (either (is_key b'r' b'R' ch) _ _ (arrived-Leaves t _ h) (arrived-Leaves t _ h))

-- The loop ends only at a q or a Q: on an input without one it does not end, whatever the number of
-- commands, not even after the end of the input.
pub interact-NoQuit :
    (o : Outside) (keys : ℕ → ℕ → Bool) (fuel rounds : ℕ) (unset : ℤ) (count : ℕ) (ch : Option ℕ)
    (t : Terminal)
    → quits ch ≡ false
    → NoQuit t.input
    → interact o keys fuel rounds unset count ch t ≡ none
unfolding interact
interact-NoQuit o keys fuel rounds unset zero ch t q h = refl
interact-NoQuit o keys fuel rounds unset (suc count) ch t q h = rw (q) (
    choose (command o keys fuel rounds unset count ch t)
      (command-Leaves o keys fuel rounds unset count ch t h)
      (λ t' q' h'.
        interact-NoQuit o keys fuel rounds unset count (getchar t'.input)
          (record t' { input = after_getchar t'.input }) q' h'))
  where
    continue_with : Terminal → Option Terminal
    continue_with t' =
        interact o keys fuel rounds unset count (getchar t'.input)
          (record t' { input = after_getchar t'.input })

    choose :
        (r : Option Terminal)
        → Leaves o keys fuel rounds unset r
        → ((t' : Terminal)
            → quits (getchar t'.input) ≡ false
            → NoQuit (after_getchar t'.input)
            → continue_with t' ≡ none)
        → r >>= continue_with ≡ none
    choose none _ next = refl
    choose (some t') l next = let (q', h') = getchar-NoQuit t'.input l in next t' q' h'

-- On an input without a q or a Q, the interactive mode exits with -1 if there is no instruction to
-- execute, after the first character. Otherwise it does not end, whatever the bound on its commands and
-- whatever they are, not even after the end of the input.
pub interactive_mode-NoQuit :
    (o : Outside) (keys : ℕ → ℕ → Bool) (fuel rounds : ℕ) (unset : ℤ) (count : ℕ) (t : Terminal)
    → NoQuit t.input
    → interactive_mode o keys fuel rounds unset count t ≡ (
        if ltz (exec_first_instruction_that_will_be_executed o t.system) (pos 0)
        then some
            (negsuc 0, print (nothing_to_execute ∷ []) (record t { input = after_getchar t.input }))
        else none)
unfolding interactive_mode
interactive_mode-NoQuit o keys fuel rounds unset count t h =
    let (q, h1) = getchar-NoQuit t.input h in
    let (q1, h2) = getchar-NoQuit (after_getchar t.input) h1 in
    let line = exec_first_instruction_that_will_be_executed o t.system in
    let second : Terminal = record t { input = after_getchar (after_getchar t.input) } in
    rw
      (
        q,
        interact-NoQuit o keys fuel rounds unset count (getchar (after_getchar t.input))
            (print (starting_at line ∷ shown line ∷ []) second) q1 h2,
      )
      refl
