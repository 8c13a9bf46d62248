-- ===== src/Exec/Flow.antt =====
-- JMP, WAIT, NOP, IRQ, SET and the side set of src/execution.c.
use simpio.Base.{ℕ, zero, suc, pos, ◌+◌, ◌-◌, ◌/◌, ◌%◌, ◌^◌, ◌+ℤ◌, ltz, lez, leb, ◌==◌}
use simpio.Base.{Bool, true, false, not, ◌&&◌, if◌then◌else◌, List, get_or}
use simpio.Undefined.{Undefined}
use simpio.Instruction.{
  Instruction, Condition, always, x_zero, y_zero, x_decrement, y_decrement, x_not_equal_y,
  pin_condition, not_osre, unset_condition, gpio_source, pin_source, irq_source, pins_destination,
  x_destination, y_destination, pindirs_destination, nowait_operation, wait_operation,
  clear_operation,
}
use simpio.Hardware.{Sm, Gpio, u8, u8_of_int, u32_of_int}
use simpio.Hardware.Lines.{
  hardware_set_gpio, hardware_set_gpio_dir, hardware_get_gpio, hardware_irq_flag_set,
  hardware_irq_flag_is_set,
}
use simpio.Exec.Context.{Context, Place, at_place, put_at, Outcome}

abbrev pub same_bool : Bool → Bool → Bool
same_bool true b = b
same_bool false b = not b

-- `(x)--` of a `uint32_t`.
abbrev pub decrement : ℕ → ℕ
decrement x = (x + 2 ^ 32 - 1) % 2 ^ 32

-- The switch of `run_jmp_instruction`: whether it branches, and the state machine it leaves.
unfoldable pub jmp_branch : Condition → List Gpio → Sm → Bool × Sm
jmp_branch always gpios sm = (true, sm)
jmp_branch unset_condition gpios sm = (true, sm)
jmp_branch x_zero gpios sm = (sm.scratch_x == 0, sm)
jmp_branch y_zero gpios sm = (sm.scratch_y == 0, sm)
jmp_branch x_decrement gpios sm =
    (not (sm.scratch_x == 0), record sm { scratch_x = decrement sm.scratch_x })
jmp_branch y_decrement gpios sm =
    (not (sm.scratch_y == 0), record sm { scratch_y = decrement sm.scratch_y })
jmp_branch x_not_equal_y gpios sm = (not (sm.scratch_x == sm.scratch_y), sm)
jmp_branch pin_condition gpios sm =
    (leb sm.pin_condition 31 && hardware_get_gpio gpios sm.pin_condition, sm)
jmp_branch not_osre gpios sm = (
  lez (pos 0) sm.shiftctl_pull_thresh
      && (lez sm.shiftctl_pull_thresh (pos 31)
          && ltz (pos sm.shift_out_count) sm.shiftctl_pull_thresh),
  sm,
)

unfoldable pub run_jmp_instruction : Place → Context → Outcome
run_jmp_instruction p c =
    let (branch, sm) = jmp_branch (at_place p c).condition c.gpios c.sm in
    let c' = record c { sm = sm } in
    let i = at_place p c' in
    (
      true,
      if i.jmp_pc_set
          then c'
          else if branch
          then put_at p (record i { jmp_pc = get_or c.label_locations i.location 0 }) c'
          else put_at p (record i { jmp_pc = u8_of_int (sm.pc +ℤ pos 1) }) c',
    )

-- `run_wait_instruction` changes nothing; `completed` is not set at a source with no case.
unfoldable pub run_wait_instruction : Undefined → Place → Context → Outcome
run_wait_instruction u p c =
    let i = at_place p c in
    (
      elim i.wait_source [
        | gpio_source ↦ same_bool (hardware_get_gpio c.gpios i.index_or_value) i.polarity
        | pin_source ↦
            same_bool (hardware_get_gpio c.gpios ((i.index_or_value + c.sm.in_pins_base) % 32))
              i.polarity
        | irq_source ↦ same_bool (hardware_irq_flag_is_set c.irq_flags i.index_or_value) i.polarity
        | _ ↦ u.wait_completed
      ],
      c,
    )

unfoldable pub run_nop_instruction : Context → Outcome
run_nop_instruction c = (true, c)

-- `run_empty_instruction`.
unfoldable pub run_empty_instruction : Context → Outcome
run_empty_instruction c = (true, c)

-- `for (pin_num = base; pin_num < base + num; pin_num++)`, with `count` pins left: each line gets the
-- lowest bit of the value, which moves down.
unfoldable pub set_pins : (List Gpio → ℕ → Bool → List Gpio) → ℕ → ℕ → ℕ → List Gpio → List Gpio
set_pins store pin_num zero value gpios = gpios
set_pins store pin_num (suc count) value gpios =
    set_pins store (pin_num + 1) count (value / 2) (store gpios pin_num (value % 2 == 1))

-- PINDIRS hands `pin_num` on, which no statement has set.
unfoldable pub run_set_instruction : Undefined → Place → Context → Outcome
unfolding set_pins
run_set_instruction u p c =
    let i = at_place p c in
    let sm = c.sm in
    let value = i.index_or_value in
    (
      true,
      elim i.destination [
        | pins_destination ↦ record c {
          gpios = set_pins hardware_set_gpio sm.set_pins_base sm.set_pins_num value c.gpios;
        }
        | x_destination ↦ record c { sm = record sm { scratch_x = value } }
        | y_destination ↦ record c { sm = record sm { scratch_y = value } }
        | pindirs_destination ↦ record c {
          gpios = hardware_set_gpio_dir c.gpios u.set_pin (not (value == 0));
        }
        | _ ↦ c
      ],
    )

-- `flag_num` of `run_irq_instruction`.
unfoldable pub irq_flag_num : Instruction → Sm → ℕ
irq_flag_num i sm = u8 (if i.is_relative then i.index_or_value + sm.this_num else i.index_or_value)

unfoldable pub run_irq_instruction : Place → Context → Outcome
unfolding irq_flag_num
run_irq_instruction p c =
    let i = at_place p c in
    let flag_num = irq_flag_num i c.sm in
    elim i.operation [
      | nowait_operation ↦
          (true, record c { irq_flags = (hardware_irq_flag_set c.irq_flags flag_num true).1 })
      | wait_operation ↦
          if i.already_set_waiting
          then if hardware_irq_flag_is_set c.irq_flags flag_num
            then (false, c)
            else (true, put_at p (record i { already_set_waiting = false }) c)
          else (
            false,
            put_at p (record i { already_set_waiting = true })
                record c { irq_flags = (hardware_irq_flag_set c.irq_flags flag_num true).1 },
          )
      | clear_operation ↦
          (true, record c { irq_flags = (hardware_irq_flag_set c.irq_flags flag_num false).1 })
      | _ ↦ (true, c)
    ]

unfoldable pub run_side_set : Place → Context → Context
unfolding set_pins
run_side_set p c =
    let sm = c.sm in
    let value = u32_of_int (at_place p c).side_set_value in
    record c {
      gpios =
          set_pins (if sm.side_set_pindirs then hardware_set_gpio_dir else hardware_set_gpio)
            sm.side_set_pins_base sm.side_set_pins_num value c.gpios;
    }
