-- ===== src/Exec/Data.antt =====
-- MOV of src/execution.c, but for its destination EXEC, which `Run` has.
use simpio.Base.{ℕ, zero, suc, ◌+◌, ◌*◌, ◌-◌, ◌%◌, ◌^◌, ◌==◌, bit, if◌then◌else◌, false}
use simpio.Base.{List}
use simpio.Undefined.{Undefined}
use simpio.Bits.{op_bit_reverse, complement, u32}
use simpio.Instruction.{
  Source, Operation, Destination, pins_source, x_source, y_source, null_source, status_source,
  isr_source, osr_source, invert, bit_reverse, pins_destination, x_destination, y_destination,
  pc_destination, isr_destination, osr_destination,
}
use simpio.Hardware.{Sm, Gpio, int_of_u32}
use simpio.Hardware.Lines.{hardware_get_gpio, hardware_set_gpio}
use simpio.Exec.Context.{Context}
use simpio.Exec.Flow.{set_pins}

-- The loop over 32 pins, with `count` left: it wraps at pin 31.
unfoldable pub read_pins : List Gpio → ℕ → ℕ → ℕ → ℕ
read_pins gpios pin_num zero value = value
read_pins gpios pin_num (suc count) value =
    read_pins gpios (if pin_num == 31 then 0 else pin_num + 1) count
      (u32 (u32 (value * 2) + bit (hardware_get_gpio gpios pin_num)))

-- The switch on the source; at a source with no case, `value` is not set.
unfoldable pub mov_value_of : Undefined → Source → List Gpio → Sm → ℕ
unfolding read_pins
mov_value_of u source gpios sm = elim source [
  | pins_source ↦ read_pins gpios sm.in_pins_base 32 0
  | x_source ↦ sm.scratch_x
  | y_source ↦ sm.scratch_y
  | null_source ↦ 0
  | status_source ↦ sm.fifo.status
  | isr_source ↦ sm.isr
  | osr_source ↦ sm.osr
  | _ ↦ u.mov_value
]

unfoldable pub mov_operate : Operation → ℕ → ℕ
mov_operate operation value = elim operation [
  | invert ↦ complement value
  | bit_reverse ↦ op_bit_reverse value
  | _ ↦ value
]

-- The switch on the destination, without EXEC.
unfoldable pub mov_store : Destination → ℕ → Context → Context
unfolding set_pins
mov_store destination value c =
    let sm = c.sm in
    elim destination [
      | pins_destination ↦ record c {
        gpios = set_pins hardware_set_gpio sm.out_pins_base sm.out_pins_num value c.gpios;
      }
      | x_destination ↦ record c { sm = record sm { scratch_x = value } }
      | y_destination ↦ record c { sm = record sm { scratch_y = value } }
      | pc_destination ↦ record c {
        sm = record sm { pc = int_of_u32 ((value + 2 ^ 32 - 1) % 2 ^ 32) };
      }
      | isr_destination ↦ record c { sm = record sm { isr = value } }
      | osr_destination ↦ record c { sm = record sm { osr = value; osr_empty = false } }
      | _ ↦ c
    ]
