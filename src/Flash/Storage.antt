-- ===== src/Flash/Storage.antt =====
-- What a call of `spif_sm` may change: the memory of the device, and its output line.
use simpio.Base.{
  ℕ, zero, suc, ◌+◌, ◌≡◌, ◌≢◌, refl, sym, subst, ap, ◌∙◌, arith, Bool, true, false, List, get_or,
  set, length,
}
use simpio.Base.{length-set, get_or-set_ne, none, some, if◌then◌else◌}
use simpio.Undefined.{Undefined}
use simpio.Hardware.{u8, Gpio}
use simpio.Base.{Option}
use simpio.Flash.{shift_out_next_bit, shifter}
use simpio.Hardware.Lines.{hardware_get_gpio, hardware_set_gpio, no_gpio}
use simpio.Flash.{
  SpifPhase, spif_idle, spif_getting_cmd, spif_getting_addr1, spif_getting_addr2,
  spif_getting_addr3, spif_programming, spif_reading, spif_writing_response, spif_processing_cmd,
  spif_done, SpifState, SpifPins, Device, spif_reset_for_next_cmd,
}
use simpio.Flash.Commands.{
  out_bit, spif_finish, spif_response, spif_setup_read, spif_read, spif_program, erase,
  spif_setup_sector_erase, spif_process_addr3,
}
use simpio.Flash.Machine.{
  spif_when_idle, spif_when_getting_cmd, spif_when_getting_addr1, spif_when_getting_addr2,
  spif_when_getting_addr3, spif_when_programming, spif_when_reading, spif_when_writing_response,
  spif_phase, count_delay, spif_sm,
}

length-erase :
    (first count : ℕ) (storage : List ℕ) → length (erase first count storage) ≡ length storage
unfolding erase
length-erase first zero storage = refl
length-erase first (suc count) storage =
    length-erase (first + 1) count (set storage first 0xFF) ∙ length-set storage first 0xFF

-- The phases in which a call may store into the memory.
abbrev pub stores : SpifPhase → Bool
stores spif_getting_addr3 = true
stores spif_programming = true
stores _ = false

-- What a call in a phase leaves as it was: the size of the memory; the memory itself, unless the
-- phase is one that stores; and every line but the one the device sends on.
pub record Framed (pins : SpifPins) (phase : SpifPhase) (d d' : Device) : Type 0 where
  pub size : length d'.storage ≡ length d.storage
  pub memory : stores phase ≡ false → d'.storage ≡ d.storage
  pub lines : (i : ℕ) → i ≢ u8 pins.spif_rx → get_or d'.gpios i no_gpio ≡ get_or d.gpios i no_gpio

set_gpio_ne :
    (gpios : List Gpio) (pin i : ℕ) (level : Bool)
    → i ≢ u8 pin
    → get_or (hardware_set_gpio gpios pin level) i no_gpio ≡ get_or gpios i no_gpio
unfolding hardware_set_gpio
set_gpio_ne gpios pin i level h = ground (
  arith,
  get_or-set_ne gpios (u8 pin) i (record (get_or gpios (u8 pin) no_gpio) { value = level }) no_gpio
      (λ e. h (sym e)),
)

module _ (u : Undefined) (pins : SpifPins) where
  same :
      (phase : SpifPhase) (d d' : Device)
      → d'.storage ≡ d.storage
      → d'.gpios ≡ d.gpios
      → Framed pins phase d d'
  same phase d d' e g = record {
    size = ap length e;
    memory = λ _. e;
    lines = λ i _. ap (λ t. get_or t i no_gpio) g;
  }

  out_bit-lines :
      (d : Device) (i : ℕ)
      → i ≢ u8 pins.spif_rx
      → get_or (out_bit pins d).gpios i no_gpio ≡ get_or d.gpios i no_gpio
  unfolding out_bit
  out_bit-lines d i h =
      line
        (shift_out_next_bit (hardware_get_gpio d.gpios pins.spif_clk)
          (shifter d.spif d.spif.response_byte)).0
    where
      line :
          (rx : Option Bool)
          → get_or
              (elim rx [
                | none ↦ d.gpios
                | some level ↦ hardware_set_gpio d.gpios pins.spif_rx level
              ])
              i
              no_gpio
            ≡ get_or d.gpios i no_gpio
      line none = refl
      line (some level) = set_gpio_ne d.gpios pins.spif_rx i level h

  out_bit-storage : (d : Device) → (out_bit pins d).storage ≡ d.storage
  unfolding out_bit
  out_bit-storage d = refl

  reading-Framed : (d : Device) → Framed pins spif_reading d (spif_when_reading u pins d)
  unfolding spif_when_reading spif_read
  reading-Framed d = record {
    size = ground (arith, out_bit-storage d);
    memory = λ _. ground (arith, out_bit-storage d);
    lines = λ i h. ground (arith, out_bit-lines d i h);
  }

  response-Framed :
      (d : Device) → Framed pins spif_writing_response d (spif_when_writing_response u pins d)
  unfolding spif_when_writing_response spif_response
  response-Framed d = record {
    size = ground (arith, out_bit-storage d, out_bit-storage (out_bit pins d));
    memory = λ _. ground (arith, out_bit-storage d, out_bit-storage (out_bit pins d));
    lines = λ i h. ground (arith, out_bit-lines d i h, out_bit-lines (out_bit pins d) i h);
  }

  erase-Framed : (d : Device) → Framed pins spif_getting_addr3 d (spif_setup_sector_erase u d)
  unfolding spif_setup_sector_erase
  erase-Framed d = record {
    size = grind (arith, length-erase);
    memory = λ (h : true ≡ false). absurd (ground arith);
    lines = λ i _. ground arith;
  }

  process-length : (d : Device) → length (spif_process_addr3 u d).storage ≡ length d.storage
  unfolding spif_process_addr3 spif_setup_read
  process-length d = ground (arith, (erase-Framed d).size)

  process-gpios : (d : Device) → (spif_process_addr3 u d).gpios ≡ d.gpios
  unfolding spif_process_addr3 spif_setup_read spif_setup_sector_erase
  process-gpios d = ground arith

  addr3-Framed : (d : Device) → Framed pins spif_getting_addr3 d (spif_when_getting_addr3 u pins d)
  unfolding spif_when_getting_addr3
  addr3-Framed d = record {
    size = grind (arith, process-length);
    memory = λ (h : true ≡ false). absurd (ground arith);
    lines = λ i _. grind (arith, process-gpios);
  }

  programming-Framed :
      (d : Device) → Framed pins spif_programming d (spif_when_programming u pins d)
  unfolding spif_when_programming spif_program
  programming-Framed d = record {
    size = grind (arith, length-set);
    memory = λ (h : true ≡ false). absurd (ground arith);
    lines = λ i _. ground arith;
  }

  phase-Framed : (d : Device) → Framed pins d.spif.state d (spif_phase u pins d)
  unfolding spif_phase spif_when_idle spif_when_getting_cmd spif_when_getting_addr1
      spif_when_getting_addr2
  phase-Framed d = choose d.spif.state
    where
      choose :
          (phase : SpifPhase)
          → Framed pins phase d (elim phase [
            | spif_idle ↦ spif_when_idle u pins d
            | spif_getting_cmd ↦ spif_when_getting_cmd u pins d
            | spif_getting_addr1 ↦ spif_when_getting_addr1 u pins d
            | spif_getting_addr2 ↦ spif_when_getting_addr2 u pins d
            | spif_getting_addr3 ↦ spif_when_getting_addr3 u pins d
            | spif_programming ↦ spif_when_programming u pins d
            | spif_reading ↦ spif_when_reading u pins d
            | spif_writing_response ↦ spif_when_writing_response u pins d
            | spif_processing_cmd ↦ d
            | spif_done ↦ d
          ])
      choose spif_idle = same spif_idle d (spif_when_idle u pins d) (ground arith) (ground arith)
      choose spif_getting_cmd =
          same spif_getting_cmd d (spif_when_getting_cmd u pins d) (ground arith) (ground arith)
      choose spif_getting_addr1 =
          same spif_getting_addr1 d (spif_when_getting_addr1 u pins d) (ground arith) (ground arith)
      choose spif_getting_addr2 =
          same spif_getting_addr2 d (spif_when_getting_addr2 u pins d) (ground arith) (ground arith)
      choose spif_getting_addr3 = addr3-Framed d
      choose spif_programming = programming-Framed d
      choose spif_reading = reading-Framed d
      choose spif_writing_response = response-Framed d
      choose spif_processing_cmd = same spif_processing_cmd d d refl refl
      choose spif_done = same spif_done d d refl refl

pub count_delay-state : (s : SpifState) → (count_delay s).state ≡ s.state
unfolding count_delay
count_delay-state s = ground arith

-- In every phase, a call of `spif_sm` leaves the size of the memory as it was, the memory too unless
-- the phase programs or takes the last byte of an address, and every line but the one that the device
-- sends on.
pub spif_sm-Framed :
    (u : Undefined) (pins : SpifPins) (d : Device) → Framed pins d.spif.state d (spif_sm u pins d)
unfolding spif_sm spif_finish
spif_sm-Framed u pins d = choose (hardware_get_gpio d.gpios pins.spif_cs)
  where
    ticked : Device
    ticked = record d { spif = count_delay d.spif }

    reset_device : Device
    reset_device = record ticked {
      spif = spif_reset_for_next_cmd (record ticked.spif { state = spif_idle });
    }

    from_ticked :
        Framed pins ticked.spif.state ticked (spif_phase u pins ticked)
        → Framed pins ticked.spif.state d (spif_phase u pins ticked)
    from_ticked f = record { size = f.size; memory = f.memory; lines = f.lines }

    finished : Bool → Bool × Device
    finished cs = if cs then (true, reset_device) else (false, ticked)

    choose :
        (cs : Bool)
        → Framed pins d.spif.state d
            (if (finished cs).0 then (finished cs).1 else spif_phase u pins (finished cs).1)
    choose true = same u pins d.spif.state d reset_device refl refl
    choose false =
        subst (λ t. Framed pins t d (spif_phase u pins ticked)) (count_delay-state d.spif)
          (from_ticked (phase-Framed u pins ticked))
