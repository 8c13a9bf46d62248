-- ===== src/Print/Configuration.antt =====
-- The configuration of the hardware, the defines and the labels as src/print.c prints them.
use simpio.Base.{ℕ, zero, suc, ◌+◌, ◌==◌, bit, List, [], ◌∷◌, ◌++◌, get_or, codes, int_text, pad_2}
use simpio.Hardware.{Sm, u8_of_int}
use simpio.System.{System, Pio, IrqFlag, Define, HardwareDevice}
use simpio.Print.{concat, choose_text}
use simpio.Print.Listing.{number, newline}

unfoldable pub printf_defines_in : List Define → List ℕ
printf_defines_in [] = []
printf_defines_in (d ∷ ds) =
    choose_text d.defined
      (concat (codes " define: " ∷ d.symbol ∷ codes " => " ∷ pad_2 (number d.value) ∷ newline ∷ []))
      []
    ++ printf_defines_in ds

unfoldable pub printf_defines : System → List ℕ
printf_defines s = newline ++ (codes "DEFINES: " ++ (newline ++ printf_defines_in s.definitions))

-- The loop over the labels, from number `i` on.
unfoldable pub printf_labels_from : System → ℕ → ℕ → List ℕ
printf_labels_from s i zero = []
printf_labels_from s i (suc left) =
    concat (
      codes "label: "
      ∷ get_or s.labels i []
      ∷ codes " => "
      ∷ pad_2 (number (get_or s.label_locations i 0))
      ∷ newline
      ∷ [])
    ++ printf_labels_from s (i + 1) left

unfoldable pub printf_labels : System → List ℕ
printf_labels s =
    newline ++ (codes "LABELS: " ++ (newline ++ printf_labels_from s 0 s.current_label))

abbrev pub row : List ℕ → List ℕ → List ℕ
row name value = concat (name ∷ value ∷ newline ∷ [])

-- The lines of a state machine with its program's name.
unfoldable pub sm_text : Sm → List ℕ → List ℕ
sm_text sm program_name = concat (
    row (codes "      sm: ") (number sm.this_num)
    ∷ row (codes "         program name: ") program_name
    ∷ row (codes "         pc: ") (int_text sm.pc)
    ∷ row (codes "         first pc: ") (int_text sm.first_pc)
    ∷ row (codes "         in   pins base: ") (number sm.in_pins_base)
    ∷ codes "         out  pins base: "
    ∷ number sm.out_pins_base
    ∷ row (codes "  num_pins: ") (number sm.out_pins_num)
    ∷ codes "         set  pins base: "
    ∷ number sm.set_pins_base
    ∷ row (codes "  num_pins: ") (number sm.set_pins_num)
    ∷ codes "         sset pins base: "
    ∷ number sm.side_set_pins_base
    ∷ codes "  num_pins: "
    ∷ number sm.side_set_pins_num
    ∷ row (codes "  optional: ") (number (bit sm.side_set_pins_optional))
    ∷ row (codes "         shift out dir: ") (number (bit sm.shiftctl_out_shiftdir))
    ∷ [])

-- The state machines of the PIO, with the names of their programs.
unfoldable pub printf_sms : ℕ → List Sm → List (List ℕ) → List ℕ
printf_sms pio_num (sm ∷ sms) (name ∷ names) =
    choose_text (sm.pio_num == pio_num) (sm_text sm name) [] ++ printf_sms pio_num sms names
printf_sms pio_num _ _ = []

unfoldable pub printf_flags : ℕ → List IrqFlag → List ℕ
printf_flags i [] = []
printf_flags i (f ∷ fs) =
    choose_text f.mapped_to_irq
      (concat (codes "      irq " ∷ number i ∷ codes " mapped to handler" ∷ newline ∷ [])) []
    ++ printf_flags (i + 1) fs

unfoldable pub printf_pio_configurations : System → List Pio → List ℕ
printf_pio_configurations s [] = []
printf_pio_configurations s (p ∷ ps) =
    concat (
      row (codes "   pio: ") (number p.this_num)
      ∷ printf_sms p.this_num s.sms s.program_names
      ∷ printf_flags 0 s.irq_flags
      ∷ [])
    ++ printf_pio_configurations s ps

unfoldable pub printf_devices : List HardwareDevice → List (List ℕ) → List ℕ
printf_devices (d ∷ ds) (name ∷ names) =
    choose_text d.enabled (row (codes "    ") name) [] ++ printf_devices ds names
printf_devices _ _ = []

-- `printf_hardware_configuration`, with the names of the devices.
unfoldable pub printf_hardware_configuration : List (List ℕ) → System → List ℕ
printf_hardware_configuration device_names s = concat (
    newline
    ∷ row (codes "Hardware Configuration:") []
    ∷ codes "   Current PIO: "
    ∷ number (u8_of_int s.current_pio)
    ∷ row (codes "   Current SM: ") (number (u8_of_int s.current_sm))
    ∷ printf_pio_configurations s s.pios
    ∷ row (codes "Devices Enabled: ") []
    ∷ printf_devices s.devices device_names
    ∷ [])
