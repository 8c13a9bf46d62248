-- ===== src/System/Frame.antt =====
-- What the searches, the handlers' start and the devices leave as it is: the state machines, and
-- whose turn it was among the user processors.
use simpio.Base.{
  ℕ, zero, suc, ◌≡◌, refl, sym, subst, arith, Bool, true, false, Option, none, some, List, [], ◌∷◌,
  if◌then◌else◌,
}
use simpio.Enumerator.{enum_next}
use simpio.System.{
  Pointer, num_user_processors, System, Outside, Turn, HardwareDevice, DeviceHandler, handle_keypad,
  handle_spi_flash, IrqFlag,
}
use simpio.System.Turns.{find_user, user_round}
use simpio.System.Retry.{InRange}
use simpio.System.Search.{up_runnable, next_instruction, next_user_instruction, try_sm, try_user}
use simpio.System.Interrupt.{exec_enable_ih, fired_from, fired_ihs}
use simpio.System.Step.{run_device, run_devices}
use simpio.User.Kept.{AllInOrder}

-- The FIFOs of the state machines are in order, and the enumerator of the user processors is behind
-- the current one.
abbrev pub Valid : System → Type 0
Valid s = AllInOrder s.sms × InRange s.user_turn

abbrev pub Same : System → System → Type 0
Same s s' = (s'.sms ≡ s.sms) × (s'.user_turn ≡ s.user_turn)

pub Same-Valid : (s s' : System) → Same s s' → Valid s → Valid s'
Same-Valid s s' (p, q) (h, v) = (subst AllInOrder (sym p) h, subst InRange (sym q) v)

user_round-InRange :
    (dont_switch : Bool) (t : Turn) → InRange t → InRange (user_round dont_switch t)
unfolding user_round enum_next
user_round-InRange dont_switch t v = choose dont_switch t.current v
  where
    stepped : ℕ → Type 0
    stepped e = InRange (record { current = (enum_next 2 e).0; e = (enum_next 2 e).1 })

    choose :
        (d : Bool) (c : Option ℕ)
        → InRange (record { current = c; e = t.e })
        → InRange (user_round d (record { current = c; e = t.e }))
    choose d none v = ground arith
    choose true (some i) v = v
    choose false (some zero) (_, q) = subst stepped (sym q) (omega arith, refl)
    choose false (some (suc zero)) (_, q) = subst stepped (sym q) tt
    choose false (some (suc (suc i))) (l, _) = absurd (omega (arith, l))

find_user-InRange :
    (runnable : ℕ → Bool) (dont_switch : Bool) (rounds : ℕ) (t : Turn)
    → InRange t
    → InRange (find_user runnable dont_switch rounds t).1
unfolding find_user
find_user-InRange runnable dont_switch zero t v = v
find_user-InRange runnable dont_switch (suc rounds) t v =
    let w = user_round-InRange dont_switch t v in
    choose (user_round dont_switch t).current w
      (find_user-InRange runnable dont_switch rounds (user_round dont_switch t) w)
  where
    t' : Turn
    t' = user_round dont_switch t

    test :
        (b : Bool) (x y : Option ℕ × Turn)
        → InRange x.1
        → InRange y.1
        → InRange (if b then x else y).1
    test true x y h k = h
    test false x y h k = k

    choose :
        (c : Option ℕ)
        → InRange t'
        → InRange (find_user runnable dont_switch rounds t').1
        → InRange
            (elim c as (λ x. Option ℕ × Turn) [
              | none ↦ find_user runnable dont_switch rounds t'
              | some i ↦
                  if runnable i then (some i, t') else find_user runnable dont_switch rounds t'
            ]).1
    choose none w rest = rest
    choose (some i) w rest = test (runnable i) _ _ w rest

module _ (o : Outside) where
  next_instruction-Same : (s : System) → Same s (next_instruction o s).1
  unfolding next_instruction
  next_instruction-Same s = ground arith

  pub next_instruction-Valid : (s : System) → Valid s → Valid (next_instruction o s).1
  next_instruction-Valid s v = Same-Valid s (next_instruction o s).1 (next_instruction-Same s) v

  pub try_sm-Valid : (p : Option Pointer) (s : System) → Valid s → Valid (try_sm o p s).1
  unfolding try_sm
  try_sm-Valid none s v = next_instruction-Valid s v
  try_sm-Valid (some p) s v = v

  next_user-turn :
      (d : Bool) (s : System)
      → ((next_user_instruction o d s).1.sms ≡ s.sms)
        × ((next_user_instruction o d s).1.user_turn
            ≡ (find_user (up_runnable o s) d num_user_processors s.user_turn).1)
  unfolding next_user_instruction
  next_user-turn d s = ground arith

  pub next_user-Valid : (d : Bool) (s : System) → Valid s → Valid (next_user_instruction o d s).1
  next_user-Valid d s (h, v) = (
    subst AllInOrder (sym (next_user-turn d s).0) h,
    subst InRange (sym (next_user-turn d s).1)
        (find_user-InRange (up_runnable o s) d num_user_processors s.user_turn v),
  )

  pub try_user-Valid : (p : Option Pointer) (s : System) → Valid s → Valid (try_user o p s).1
  unfolding try_user
  try_user-Valid none s v = next_user-Valid false s v
  try_user-Valid (some p) s v = v

  fired_from-Same :
      (ons : List Bool) (fs : List IrqFlag) (s : System) → Same s (fired_from o ons fs s).1
  unfolding fired_from exec_enable_ih
  fired_from-Same [] fs s = (refl, refl)
  fired_from-Same (on ∷ ons) [] s = (refl, refl)
  fired_from-Same (on ∷ ons) (f ∷ fs) s = ground (arith, fired_from-Same ons fs s)

  pub fired_ihs-Valid : (s : System) → Valid s → Valid (fired_ihs o s).1
  unfolding fired_ihs
  fired_ihs-Valid s v =
      Same-Valid s (fired_from o s.flags_set s.irq_flags s).1
        (fired_from-Same s.flags_set s.irq_flags s) v

  run_device-Same : (h : DeviceHandler) (s : System) → Same s (run_device o h s)
  unfolding run_device
  run_device-Same handle_keypad s = (refl, refl)
  run_device-Same handle_spi_flash s = (refl, refl)

  one_device-Same :
      (enabled : Bool) (handler : Option DeviceHandler) (s : System)
      → Same s
          (if enabled then elim handler [ none ↦ s | some handler ↦ run_device o handler s ] else s)
  one_device-Same false handler s = (refl, refl)
  one_device-Same true none s = (refl, refl)
  one_device-Same true (some handler) s = run_device-Same handler s

  pub run_devices-Valid :
      (ds : List HardwareDevice) (s : System) → Valid s → Valid (run_devices o ds s)
  unfolding run_devices
  run_devices-Valid [] s v = v
  run_devices-Valid (d ∷ ds) s v =
      let s' =
        if d.enabled
        then elim d.handler [ none ↦ s | some handler ↦ run_device o handler s ]
        else s in
      run_devices-Valid ds s' (Same-Valid s s' (one_device-Same d.enabled d.handler s) v)
