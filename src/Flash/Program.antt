-- ===== src/Flash/Program.antt =====
-- What a call of `spif_sm` stores while the device is programming.
use simpio.Base.{ℕ, ◌≡◌, ◌≢◌, refl, sym, ap, ◌∙◌, arith, Bool, true, false, get_or}
use simpio.Base.{get_or-set_ne, if◌then◌else◌}
use simpio.Undefined.{Undefined}
use simpio.Base.{◌⊎◌, inl, inr}
use simpio.Flash.Commands.{in_bit}
use simpio.Hardware.Lines.{hardware_get_gpio}
use simpio.Flash.{spif_idle, spif_programming, SpifState, SpifPins, Device, spif_reset_for_next_cmd}
use simpio.Flash.Commands.{spif_finish, spif_program}
use simpio.Flash.Machine.{spif_when_programming, spif_phase, count_delay, spif_sm}
use simpio.Flash.Storage.{count_delay-state}

programming-phase :
    (u : Undefined) (pins : SpifPins) (d : Device)
    → d.spif.state ≡ spif_programming
    → spif_phase u pins d ≡ spif_when_programming u pins d
unfolding spif_phase
programming-phase u pins d e = ground arith

programming-byte :
    (u : Undefined) (pins : SpifPins) (d : Device) (i : ℕ)
    → i ≢ d.spif.addr
    → get_or (spif_when_programming u pins d).storage i 0 ≡ get_or d.storage i 0
unfolding spif_when_programming spif_program
programming-byte u pins d i h = ground (
  arith,
  get_or-set_ne d.storage d.spif.addr i (in_bit pins d.spif.program_byte d).byte 0 (λ e. h (sym e)),
)

count_delay-addr : (s : SpifState) → (count_delay s).addr ≡ s.addr
unfolding count_delay
count_delay-addr s = ground arith

spif_sm-cases :
    (u : Undefined) (pins : SpifPins) (d : Device)
    → ((spif_sm u pins d).storage ≡ d.storage)
      ⊎ (spif_sm u pins d ≡ spif_phase u pins (record d { spif = count_delay d.spif }))
unfolding spif_sm spif_finish
spif_sm-cases u pins d = choose (hardware_get_gpio d.gpios pins.spif_cs)
  where
    ticked : Device
    ticked = record d { spif = count_delay d.spif }

    finished : Bool → Bool × Device
    finished cs =
        if cs
        then (
          true,
          record ticked {
            spif = spif_reset_for_next_cmd (record ticked.spif { state = spif_idle });
          },
        )
        else (false, ticked)

    choose :
        (cs : Bool)
        → ((if (finished cs).0 then (finished cs).1 else spif_phase u pins (finished cs).1).storage
            ≡ d.storage)
          ⊎ ((if (finished cs).0 then (finished cs).1 else spif_phase u pins (finished cs).1)
              ≡ spif_phase u pins ticked)
    choose true = inl refl
    choose false = inr refl

-- While the device is programming, a call of `spif_sm` stores into no byte of its memory but the one
-- at its address.
pub spif_sm-programming :
    (u : Undefined) (pins : SpifPins) (d : Device) (i : ℕ)
    → d.spif.state ≡ spif_programming
    → i ≢ d.spif.addr
    → get_or (spif_sm u pins d).storage i 0 ≡ get_or d.storage i 0
spif_sm-programming u pins d i e h = elim (spif_sm-cases u pins d) [
  | inl k ↦ ap (λ t. get_or t i 0) k
  | inr k ↦
      ap (λ t. get_or t.storage i 0)
        (k ∙ programming-phase u pins ticked (count_delay-state d.spif ∙ e))
      ∙ programming-byte u pins ticked i (λ a. h (a ∙ count_delay-addr d.spif))
]
  where
    ticked : Device
    ticked = record d { spif = count_delay d.spif }
