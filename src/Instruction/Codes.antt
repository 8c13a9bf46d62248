-- ===== src/Instruction/Codes.antt =====
-- What the codes in the fields of a machine instruction stand for, as the switches of
-- `exec_instruction_decode` of src/execution.c read them.
use simpio.Base.{ℕ, ◌==◌, if◌then◌else◌}
use simpio.Instruction.{
  Instruction, Condition, always, x_zero, y_zero, x_decrement, y_decrement, x_not_equal_y,
  pin_condition, not_osre, unset_condition, WaitSource, gpio_source, pin_source, irq_source,
  reserved_wait_source, unset_wait_source, Source, pins_source, x_source, y_source, null_source,
  isr_source, osr_source, status_source, reserved_source, unset_source, Destination,
  pins_destination, x_destination, y_destination, reserved_destination, exec_destination,
  pc_destination, isr_destination, osr_destination, pindirs_destination, null_destination,
  unset_destination, no_operation,
}

unfoldable pub jmp_condition : ℕ → Condition
jmp_condition field =
    if field == 0
    then always
    else if field == 1
    then x_zero
    else if field == 2
    then x_decrement
    else if field == 3
    then y_zero
    else if field == 4
    then y_decrement
    else if field == 5
    then x_not_equal_y
    else if field == 6
    then pin_condition
    else if field == 7
    then not_osre
    else unset_condition

unfoldable pub wait_source_of : ℕ → WaitSource
wait_source_of field =
    if field == 0
    then gpio_source
    else if field == 1
    then pin_source
    else if field == 2
    then irq_source
    else if field == 3
    then reserved_wait_source
    else unset_wait_source

unfoldable pub in_source : ℕ → Source
in_source field =
    if field == 0
    then pins_source
    else if field == 1
    then x_source
    else if field == 2
    then y_source
    else if field == 3
    then null_source
    else if field == 4
    then reserved_source
    else if field == 5
    then reserved_source
    else if field == 6
    then isr_source
    else if field == 7
    then osr_source
    else unset_source

unfoldable pub out_destination : ℕ → Destination
out_destination field =
    if field == 0
    then pins_destination
    else if field == 1
    then x_destination
    else if field == 2
    then y_destination
    else if field == 3
    then null_destination
    else if field == 4
    then pindirs_destination
    else if field == 5
    then pc_destination
    else if field == 6
    then isr_destination
    else if field == 7
    then exec_destination
    else unset_destination

unfoldable pub mov_destination : ℕ → Destination
mov_destination field =
    if field == 0
    then pins_destination
    else if field == 1
    then x_destination
    else if field == 2
    then y_destination
    else if field == 3
    then reserved_destination
    else if field == 4
    then exec_destination
    else if field == 5
    then pc_destination
    else if field == 6
    then isr_destination
    else if field == 7
    then osr_destination
    else unset_destination

unfoldable pub mov_source : ℕ → Source
mov_source field =
    if field == 0
    then pins_source
    else if field == 1
    then x_source
    else if field == 2
    then y_source
    else if field == 3
    then null_source
    else if field == 4
    then reserved_source
    else if field == 5
    then status_source
    else if field == 6
    then isr_source
    else if field == 7
    then osr_source
    else unset_source

-- The switch on the operation of MOV stores the enumerators of `operation_e` in `source`: `invert` is
-- the number of `x_source`, `bit_reverse` that of `y_source`, `reserved_operation` and
-- `unset_operation` those of `reserved_source` and `unset_source`.
unfoldable pub mov_operation : ℕ → Instruction → Instruction
mov_operation field i =
    if field == 0
    then record i { operation = no_operation }
    else if field == 1
    then record i { source = x_source }
    else if field == 2
    then record i { source = y_source }
    else if field == 3
    then record i { source = reserved_source }
    else record i { source = unset_source }

unfoldable pub set_destination_of : ℕ → Destination
set_destination_of field =
    if field == 0
    then pins_destination
    else if field == 1
    then x_destination
    else if field == 2
    then y_destination
    else if field == 3
    then reserved_destination
    else if field == 4
    then pindirs_destination
    else if field == 5
    then reserved_destination
    else if field == 6
    then reserved_destination
    else if field == 7
    then reserved_destination
    else unset_destination
