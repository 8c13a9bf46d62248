-- ===== src/System/Configure.antt =====
-- The functions of src/hardware.c that configure the hardware. The index of a static `current_`
-- variable that is negative is outside the array: a store there changes nothing.
use simpio.Base.{
  ℕ, ◌*◌, ◌-◌, leb, ℤ, pos, negsuc, pos_part, array_index, ◌+ℤ◌, ◌-ℤ◌, ltz, eqz, Bool, true, false,
  not, ◌&&◌, ◌||◌, some, if◌then◌else◌, List, get_or, set,
}
use simpio.Fifo.{FifoMode, init}
use simpio.Instruction.Variables.{symbol_max, truncated}
use simpio.Hardware.{Sm, u8_of_int}
use simpio.User.{UserProcessor, int8, print_string}
use simpio.System.{
  System, Outside, Pio, Irq, DeviceHandler, up_context, ih_context, pio_at, sm_at, up_at, num_pios,
  num_user_processors, num_ih_processors,
}

abbrev pub num_irqs : ℕ
num_irqs = 2

abbrev pub max_devices : ℕ
max_devices = 5

-- `lo <= z && z <= hi`.
abbrev pub in_range : ℕ → ℕ → ℤ → Bool
in_range lo hi z = not (ltz z (pos lo)) && not (ltz (pos hi) z)

unfoldable pub hardware_set_pio : ℤ → System → ℤ × System
hardware_set_pio pio s =
    if ltz pio (pos 0) || ltz (pos 1) pio
    then (negsuc 0, s)
    else (pos 0, record s { current_pio = pio })

-- The name of the program at hand is copied into the state machine.
unfoldable pub hardware_set_program_name : List ℕ → System → System
hardware_set_program_name name s = record s { program_name = truncated (symbol_max - 1) name }

unfoldable pub hardware_set_sm : ℤ → System → ℤ × System
hardware_set_sm sm s =
    let number = if ltz s.current_pio (pos 0) then sm else pos (pos_part s.current_pio * 4) +ℤ sm in
    if ltz sm (pos 0) || ltz (pos 3) sm then (negsuc 0, s) else (
      pos 0,
      record s {
        current_sm = number;
        program_names =
            set s.program_names (pos_part number) (truncated (symbol_max - 1) s.program_name);
      },
    )

unfoldable pub hardware_set_up : ℕ → System → System
hardware_set_up pnum s = record s {
  current_up = pos (if leb num_user_processors pnum then num_user_processors - 1 else pnum);
  user_context = up_context;
}

unfoldable pub hardware_set_ih : ℕ → System → System
hardware_set_ih pnum s = record s {
  current_ih = pos (if leb num_ih_processors pnum then num_ih_processors - 1 else pnum);
  user_context = ih_context;
}

unfoldable pub hardware_register_device : Bool → DeviceHandler → System → System
hardware_register_device enabled handler s =
    let last = s.last_device +ℤ pos 1 in
    let s' = record s { last_device = last } in
    if eqz last (pos max_devices) then s' else record s' {
      devices =
          set s.devices (pos_part last) (record { handler = some handler; enabled = enabled });
    }

abbrev pub this_pio : System → ℕ
this_pio s = array_index s.current_pio

abbrev pub this_sm : System → ℕ
this_sm s = array_index s.current_sm

abbrev pub this_up : System → ℕ
this_up s = array_index s.current_up

module _ (o : Outside) where
  -- `pios[i]`, `sms[i]` and `user_processors[i]`, replaced by what `f` makes of them.
  abbrev pub put_pio : ℕ → (Pio → Pio) → System → System
  put_pio i f s = record s { pios = set s.pios i (f (pio_at o s i)) }

  abbrev pub put_sm : ℕ → (Sm → Sm) → System → System
  put_sm i f s = record s { sms = set s.sms i (f (sm_at o s i)) }

  abbrev pub put_up : ℕ → (UserProcessor → UserProcessor) → System → System
  put_up i f s = record s { user_processors = set s.user_processors i (f (up_at o s i)) }

  abbrev pub on_sm : (Sm → Sm) → System → System
  on_sm f s = put_sm (this_sm s) f s

  unfoldable pub hardware_set_data : List ℕ → System → System
  hardware_set_data value s =
      put_up (this_up s) (λ up. record up { up_data = print_string 254 value up.up_data }) s

  unfoldable pub hardware_set_set_pins : ℤ → ℤ → System → System
  hardware_set_set_pins base num_pins =
      on_sm (λ sm. record sm { set_pins_base = u8_of_int base; set_pins_num = u8_of_int num_pins })

  unfoldable pub hardware_set_out_pins : ℤ → ℤ → System → System
  hardware_set_out_pins base num_pins =
      on_sm (λ sm. record sm { out_pins_base = u8_of_int base; out_pins_num = u8_of_int num_pins })

  unfoldable pub hardware_set_in_pins : ℤ → System → System
  hardware_set_in_pins base = on_sm (λ sm. record sm { in_pins_base = u8_of_int base })

  unfoldable pub hardware_set_side_set_pins : ℤ → System → System
  hardware_set_side_set_pins base = on_sm (λ sm. record sm { side_set_pins_base = u8_of_int base })

  -- An invalid `optional` counts as 1, an invalid `pindirs` as 0.
  unfoldable pub hardware_set_side_set_count : ℤ → ℤ → ℤ → System → System
  hardware_set_side_set_count num_pins optional pindirs = on_sm (λ sm. record sm {
    side_set_pins_num = u8_of_int num_pins;
    side_set_pins_optional = if in_range 0 1 optional then not (eqz optional (pos 0)) else true;
    side_set_pindirs = if in_range 0 1 pindirs then not (eqz pindirs (pos 0)) else false;
  })

  unfoldable pub hardware_set_shiftctl_out : ℤ → Bool → ℤ → System → System
  hardware_set_shiftctl_out dir ap threshold = on_sm (λ sm. record sm {
    shiftctl_out_shiftdir = not (eqz dir (pos 0));
    autopull = ap;
    shiftctl_pull_thresh = if in_range 0 31 threshold then threshold else sm.shiftctl_pull_thresh;
  })

  unfoldable pub hardware_set_shiftctl_in : ℤ → Bool → ℤ → System → System
  hardware_set_shiftctl_in dir ap threshold = on_sm (λ sm. record sm {
    shiftctl_in_shiftdir = not (eqz dir (pos 0));
    autopush = ap;
    shiftctl_push_thresh = if in_range 0 31 threshold then threshold else sm.shiftctl_push_thresh;
  })

  unfoldable pub hardware_set_status_sel : ℤ → ℕ → System → System
  hardware_set_status_sel sel level = on_sm (λ sm. record sm {
    fifo = record sm.fifo { execctrl_status_sel = not (eqz sel (pos 0)); n = pos level };
  })

  unfoldable pub hardware_set_pin_condition : ℤ → System → System
  hardware_set_pin_condition pin_num = on_sm (λ sm. record sm {
    pin_condition = if in_range 0 31 pin_num then pos_part pin_num else sm.pin_condition;
  })

  unfoldable pub hardware_fifo_merge : FifoMode → System → System
  hardware_fifo_merge mode = on_sm (λ sm. record sm { fifo = init sm.fifo mode })

  unfoldable pub hardware_set_wrap : System → System
  hardware_set_wrap s =
      let next = (pio_at o s (this_pio s)).next_instruction_location in
      on_sm (λ sm. record sm { wrap = int8 (next -ℤ pos 1) }) s

  unfoldable pub hardware_set_wrap_target : System → System
  hardware_set_wrap_target s =
      let next = (pio_at o s (this_pio s)).next_instruction_location in
      on_sm (λ sm. record sm { wrap_target = next }) s

  unfoldable pub hardware_init_current_sm_pc_if_needed : ℤ → System → System
  hardware_init_current_sm_pc_if_needed location = on_sm (λ sm.
      if ltz sm.first_pc (pos 0) then record sm { first_pc = location; pc = location } else sm)

  unfoldable pub hardware_init_current_up_pc_if_needed : ℤ → System → System
  hardware_init_current_up_pc_if_needed location s =
      put_up (this_up s) (λ up. if ltz up.pc (pos 0) then record up { pc = location } else up) s

  -- `hardware_set_irq` and `hardware_get_irq`; the number is below `num_irqs`.
  abbrev pub put_irq : ℕ → ℕ → (Irq → Irq) → System → System
  put_irq pio irq f = put_pio pio (λ p. record p {
    irqs =
        set p.irqs irq (f (get_or p.irqs irq (record { enabled = false; on = false; flag = 0 })));
  })

  unfoldable pub hardware_set_irq : ℕ → Bool → System → System
  hardware_set_irq irq_num value s =
      put_irq (this_pio s) irq_num (λ irq. record irq { on = value }) s

  -- The third test is of `irq` again, not of `flag`. A flag that is no index changes nothing here; C
  -- writes outside the array.
  unfoldable pub hardware_enable_irq_handler : ℕ → ℕ → ℕ → System → System
  hardware_enable_irq_handler pio irq flag s =
      if leb num_pios pio || leb num_irqs irq || leb 4 irq
      then s
      else let s' = put_irq pio irq (λ i. record i { enabled = true; flag = flag }) s in
        record s' {
          irq_flags =
              set s.irq_flags flag
                (record { mapped_to_irq = true; pio = pio; ih = pos_part s.current_ih });
        }
