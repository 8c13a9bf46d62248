-- ===== src/System/Reset.antt =====
-- The resets and the defaults of src/hardware.c, and those of the tables of src/instruction.c.
use simpio.Base.{ℕ, zero, suc, ◌+◌, ◌/◌, ◌%◌, pos, negsuc, true, false, List, [], get_or, set, map}
use simpio.Fifo.{init, bidi}
use simpio.Instruction.{no_location, set_defaults, set_user_defaults}
use simpio.Instruction.Variables.{vars_init}
use simpio.Hardware.{Sm, num_irq_flags}
use simpio.User.{UserProcessor}
use simpio.System.{System, Outside, Irq, Define, num_user_processors, num_ih_processors, ih_at}
use simpio.System.Turns.{all_sms}
use simpio.System.Configure.{put_pio, put_sm, put_up, put_irq}

-- `for (i = from; i < from + count; i++) body(i)`.
unfoldable pub for_from : ℕ → ℕ → (ℕ → System → System) → System → System
for_from i zero body s = s
for_from i (suc count) body s = for_from (i + 1) count body (body i s)

-- `hardware_set_sm_defaults`; the pin condition -1 is 255 as a `uint8_t`.
unfoldable pub sm_defaults : ℕ → Sm → Sm
sm_defaults i sm = record sm {
  pc = negsuc 0;
  wrap = negsuc 0;
  wrap_target = negsuc 0;
  first_pc = negsuc 0;
  pin_condition = 255;
  set_pins_base = 0;
  set_pins_num = 0;
  out_pins_base = 0;
  out_pins_num = 0;
  in_pins_base = 0;
  side_set_count = 0;
  side_set_pins_optional = true;
  side_set_pindirs = false;
  autopush = false;
  autopull = false;
  shiftctl_pull_thresh = negsuc 0;
  shiftctl_push_thresh = negsuc 0;
  shiftctl_out_shiftdir = false;
  shiftctl_in_shiftdir = false;
  pio_num = i / 4;
  this_num = i % 4;
}

-- `hardware_reset_sm`.
unfoldable pub reset_sm : Sm → Sm
reset_sm sm = record sm {
  pc = sm.first_pc;
  pc_temp = 0;
  clock_tick = 0;
  fifo = init sm.fifo bidi;
  scratch_x = 0;
  scratch_y = 0;
  osr = 0;
  isr = 0;
  shift_in_count = 0;
  shift_out_count = 0;
  shift_in_resume_count = 0;
  shift_out_resume_count = 0;
  osr_empty = true;
  isr_full = false;
}

-- What `hardware_reset_user_processor` and `hardware_reset_ih_processor` do to the fields that the two
-- kinds of processor share, the defaults of the instructions included.
unfoldable pub reset_processor : ℕ → UserProcessor → UserProcessor
reset_processor p up = record up {
  next_instruction_location = pos 0;
  pc = negsuc 0;
  this_num = p;
  up_data = set up.up_data 0 0;
  instructions = map set_user_defaults up.instructions;
}

-- `instruction_label_locations_init` and `instruction_set_definition_defaults`.
unfoldable pub no_labels : List (List ℕ) → List (List ℕ)
no_labels = map (λ label. [])

unfoldable pub no_locations : List ℕ → List ℕ
no_locations = map (λ location. no_location)

unfoldable pub no_definitions : List Define → List Define
no_definitions = map {A = Define} (λ d. record d { defined = false })

unfoldable pub instruction_set_global_default : System → System
instruction_set_global_default s = record s {
  current_definition = 0;
  definitions = no_definitions s.definitions;
  current_label = 0;
  labels = no_labels s.labels;
  label_locations = no_locations s.label_locations;
  variables = vars_init s.variables;
}

abbrev disabled : Irq → Irq
disabled irq = record irq { enabled = false }

module _ (o : Outside) where
  unfoldable pub hardware_set_pio_instruction_cache : ℕ → System → System
  hardware_set_pio_instruction_cache pio = put_pio o pio (λ p. record p {
    instructions = map set_defaults p.instructions;
    next_instruction_location = pos 0;
  })

  unfoldable pub hardware_set_pio_defaults : ℕ → ℕ → System → System
  hardware_set_pio_defaults pio num s = hardware_set_pio_instruction_cache pio (
      put_pio o pio (λ p. record p { this_num = num })
        (put_irq o pio 1 disabled (put_irq o pio 0 disabled s)))

  unfoldable pub hardware_set_pios_defaults : System → System
  hardware_set_pios_defaults = for_from 0 2 (λ pio. hardware_set_pio_defaults pio pio)

  -- The body of the loop of `hardware_set_sms_defaults`, with the name of the program.
  abbrev pub default_sm : ℕ → System → System
  default_sm i s =
      put_sm o i reset_sm
        (record (put_sm o i (sm_defaults i) s) { program_names = set s.program_names i [] })

  unfoldable pub hardware_set_sms_defaults : System → System
  hardware_set_sms_defaults = for_from 0 all_sms default_sm

  unfoldable pub hardware_reset_sms : System → System
  hardware_reset_sms = for_from 0 all_sms (λ i. put_sm o i reset_sm)

  unfoldable pub hardware_reset_user_processors : System → System
  hardware_reset_user_processors =
      for_from 0 num_user_processors (λ p. put_up o p (reset_processor p))

  unfoldable pub hardware_reset_ih_processors : System → System
  hardware_reset_ih_processors = for_from 0 num_ih_processors (λ p s. record s {
    ih_processors =
        set s.ih_processors p
          (let ih = ih_at o s p in record ih { processor = reset_processor p ih.processor });
  })

  -- The body stores through the name of the array, so every round is about flag 0.
  unfoldable pub hardware_reset_irq_flags : System → System
  hardware_reset_irq_flags = for_from 0 num_irq_flags (λ i s. record s {
    flags_set = set s.flags_set 0 false;
    irq_flags =
        set s.irq_flags 0
          (record (get_or s.irq_flags 0 (record { mapped_to_irq = false; pio = 0; ih = 0 })) {
            mapped_to_irq = false;
          });
  })

  unfoldable pub hardware_set_system_defaults : System → System
  hardware_set_system_defaults s = instruction_set_global_default (
      hardware_reset_ih_processors (
        hardware_reset_user_processors (
          hardware_set_sms_defaults
            (hardware_set_pios_defaults (record s { current_pio = pos 0; current_sm = pos 0 })))))

  unfoldable pub hardware_reset : System → System
  hardware_reset s = hardware_reset_user_processors (hardware_reset_sms s)
