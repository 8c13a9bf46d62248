-- ===== src/Print.antt =====
-- src/print.c: what the functions that print put out, as lists of characters. Those that print into the
-- status window (`print_...`) have the texts of those that print on the standard output (`printf_...`)
-- where nothing else is said.
pub mod Pattern
pub mod Listing
pub mod Configuration
pub mod Readable
use simpio.Base.{
  ℕ, ℤ, pos, Bool, true, false, if◌then◌else◌, List, [], ◌∷◌, ◌++◌, codes, int_text, pad_2,
  hex_text,
}
use simpio.Instruction.{
  Condition, always, x_zero, y_zero, x_decrement, y_decrement, x_not_equal_y, pin_condition,
  not_osre, unset_condition, WaitSource, gpio_source, pin_source, irq_source, reserved_wait_source,
  unset_wait_source, Source, pins_source, x_source, y_source, null_source, isr_source, osr_source,
  status_source, reserved_source, unset_source, Destination, pins_destination, x_destination,
  y_destination, reserved_destination, exec_destination, pc_destination, isr_destination,
  osr_destination, pindirs_destination, null_destination, unset_destination, Operation,
  no_operation, invert, bit_reverse, clear_operation, set_operation, wait_operation,
  nowait_operation, reserved_operation, unset_operation, DataOperation, data_write, data_read,
  data_readln, data_print, data_clear, data_set, no_data_operation,
}

abbrev pub concat : List (List ℕ) → List ℕ
concat [] = []
concat (text ∷ texts) = text ++ concat texts

abbrev pub choose_text : Bool → List ℕ → List ℕ → List ℕ
choose_text b x y = if b then x else y

unfoldable pub printf_if_full : Bool → List ℕ
printf_if_full iff = choose_text iff (codes "if_full true ") (codes "if_full false ")

unfoldable pub printf_if_empty : Bool → List ℕ
printf_if_empty iff = choose_text iff (codes "if_empty true ") (codes "if_empty false ")

unfoldable pub printf_block : Bool → List ℕ
printf_block bl =
    choose_text bl (codes "instruction will block/wait ") (codes "instruction will not block/wait ")

-- The operations without a case print nothing.
unfoldable pub printf_operation : Operation → List ℕ
printf_operation no_operation = codes "operation: none "
printf_operation invert = codes "operation: invert "
printf_operation bit_reverse = codes "operation: bit reverse "
printf_operation clear_operation = codes "operation: clear "
printf_operation wait_operation = codes "operatino: wait "
printf_operation unset_operation = codes "operation is not set !"
printf_operation _ = []

unfoldable pub printf_index : ℕ → List ℕ
printf_index iov = concat (codes "index: " ∷ pad_2 (int_text (pos iov)) ∷ codes " " ∷ [])

unfoldable pub printf_value : ℕ → List ℕ
printf_value iov = concat (codes "value: " ∷ hex_text 8 iov ∷ codes " " ∷ [])

unfoldable pub printf_bit_count : ℕ → List ℕ
printf_bit_count sc = concat (codes "shift count: " ∷ pad_2 (int_text (pos sc)) ∷ codes " " ∷ [])

unfoldable pub printf_set_or_clear : Operation → List ℕ
printf_set_or_clear clear_operation = codes "clear "
printf_set_or_clear _ = codes "set  "

unfoldable pub printf_wait : Bool → List ℕ
printf_wait w = choose_text w (codes "wait: true ") (codes "wait: false ")

unfoldable pub printf_address : ℤ → List ℕ
printf_address addr = concat (codes "address: " ∷ pad_2 (int_text addr) ∷ codes " " ∷ [])

unfoldable pub printf_side_set_value : ℤ → List ℕ
printf_side_set_value side_set_value =
    concat (codes "side set value: " ∷ pad_2 (int_text side_set_value) ∷ codes "  " ∷ [])

unfoldable pub printf_delay : ℕ → List ℕ
printf_delay delay_value =
    concat (codes "delay value: " ∷ pad_2 (int_text (pos delay_value)) ∷ codes "  " ∷ [])

unfoldable pub printf_jmp_condition : Condition → List ℕ
printf_jmp_condition unset_condition = codes "always "
printf_jmp_condition always = codes "always "
printf_jmp_condition x_zero = codes "if x is zero "
printf_jmp_condition y_zero = codes "if y is zero "
printf_jmp_condition x_decrement = codes "if x is not zero, decrement and jump "
printf_jmp_condition y_decrement = codes "if y is not zero, decrement and jump "
printf_jmp_condition x_not_equal_y = codes "if x != y    "
printf_jmp_condition pin_condition = codes "if pin indicated by EXECCTRL_JMP_PIN is high "
printf_jmp_condition not_osre = codes "if OSRE is not empty "

unfoldable pub printf_polarity : Bool → List ℕ
printf_polarity p = choose_text p (codes "polarity: one ") (codes "polarity: zero ")

unfoldable pub printf_relative : Bool → List ℕ
printf_relative r = choose_text r (codes "is relative ") (codes "is not relative ")

unfoldable pub printf_wait_source : WaitSource → List ℕ
printf_wait_source gpio_source = codes "wait source: gpio "
printf_wait_source pin_source = codes "wait_source: pin "
printf_wait_source irq_source = codes "wait_source: irq "
printf_wait_source unset_wait_source = codes "wait source not set ! "
printf_wait_source reserved_wait_source = []

unfoldable pub printf_source : Source → List ℕ
printf_source pins_source = codes "source: pins selected by PINCTRL_IN_BASE + bit count "
printf_source x_source = codes "source: x scratch register "
printf_source y_source = codes "source: y scratch register "
printf_source null_source = codes "source: null "
printf_source isr_source = codes "source: isr "
printf_source osr_source = codes "source: osr "
printf_source status_source = codes "source: status as specified by EXECCTRL_STATUS_SEL "
printf_source unset_source = codes "source is not set ! "
printf_source reserved_source = []

-- OSR has no case, so that a MOV into it prints no destination.
unfoldable pub printf_destination : Destination → List ℕ
printf_destination pins_destination =
    codes "destination: pins selected by PINCTRL_IN_BASE + bit count "
printf_destination x_destination = codes "destination: x scratch register "
printf_destination y_destination = codes "destination: y scratch register "
printf_destination null_destination = codes "destination: null "
printf_destination pindirs_destination = codes "destination: pindirs "
printf_destination pc_destination = codes "destination: instruction counter "
printf_destination isr_destination = codes "destination: isr "
printf_destination exec_destination = codes "destinatino: EXEC "
printf_destination unset_destination = codes "destination is not set ! "
printf_destination _ = []

-- The switch on the operation of a DATA instruction.
unfoldable pub printf_data_operation : DataOperation → List ℕ
printf_data_operation data_write = codes "data read "
printf_data_operation data_read = codes "data read "
printf_data_operation data_readln = codes "data readln "
printf_data_operation data_print = codes "data print "
printf_data_operation data_clear = codes "data clear "
printf_data_operation data_set = codes "data set "
printf_data_operation no_data_operation = codes "data but no operation? "
