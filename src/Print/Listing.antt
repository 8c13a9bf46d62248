-- ===== src/Print/Listing.antt =====
-- The instructions as src/print.c prints them.
use simpio.Base.{
  ℕ, zero, suc, ◌+◌, ℤ, pos, pos_part, ltz, List, [], ◌∷◌, ◌++◌, get_or, codes, int_text, pad_2,
}
use simpio.Instruction.{
  Instruction, UserInstruction, jmp_instruction, wait_instruction, nop_instruction, in_instruction,
  out_instruction, push_instruction, pull_instruction, mov_instruction, set_instruction,
  irq_instruction, empty_instruction, read_instruction, write_instruction, user_print_instruction,
  pin_instruction, data_instruction, repeat_instruction, exit_instruction, empty_user_instruction,
  Condition, unset_condition, always,
}
use simpio.User.{UserProcessor}
use simpio.System.{System, Outside, Pio, IhProcessor, instruction_at}
use simpio.Print.{
  concat, choose_text, printf_if_full, printf_if_empty, printf_block, printf_operation,
  printf_index, printf_value, printf_bit_count, printf_set_or_clear, printf_wait, printf_address,
  printf_side_set_value, printf_delay, printf_jmp_condition, printf_polarity, printf_relative,
  printf_wait_source, printf_source, printf_destination, printf_data_operation,
}

abbrev pub number : ℕ → List ℕ
number n = int_text (pos n)

abbrev pub newline : List ℕ
newline = 10 ∷ []

-- `printf_instruction`, by the target line that a JMP shows.
unfoldable pub printf_location : ℕ → Instruction → List ℕ
printf_location target i = concat (
    codes "label: "
    ∷ i.label
    ∷ codes " location: "
    ∷ number i.location
    ∷ codes " to-line "
    ∷ number target
    ∷ codes " "
    ∷ [])

-- The switch on the type of the instruction.
unfoldable pub printf_type : ℕ → Instruction → List ℕ
printf_type target i = elim i.instruction_type [
  | jmp_instruction ↦
      codes "instruction: JMP " ++ (printf_jmp_condition i.condition ++ printf_location target i)
  | wait_instruction ↦
      codes "instruction: WAIT "
      ++ (printf_polarity i.polarity
          ++ (printf_wait_source i.wait_source ++ printf_index i.index_or_value))
  | nop_instruction ↦ codes "instruction: NOP "
  | in_instruction ↦
      codes "instruction: IN " ++ (printf_source i.source ++ printf_bit_count i.bit_count)
  | out_instruction ↦
      codes "instruction: OUT "
      ++ (printf_destination i.destination ++ printf_bit_count i.bit_count)
  | push_instruction ↦
      codes "instruction: PUSH " ++ (printf_if_full i.if_full ++ printf_block i.block)
  | pull_instruction ↦
      codes "instruction: PULL " ++ (printf_if_empty i.if_empty ++ printf_block i.block)
  | mov_instruction ↦
      codes "instruction: MOV "
      ++ (printf_destination i.destination
          ++ (printf_operation i.operation ++ printf_source i.source))
  | irq_instruction ↦
      codes "instruction: IRQ "
      ++ (printf_set_or_clear i.operation ++ (printf_wait i.wait ++ printf_relative i.is_relative))
  | set_instruction ↦
      codes "instruction: SET "
      ++ (printf_destination i.destination ++ printf_value i.index_or_value)
  | empty_instruction ↦ codes "instruction: no instruction! "
]

unfoldable pub printf_instruction : ℕ → Instruction → List ℕ
printf_instruction target i = concat (
    codes "Line: "
    ∷ number i.line
    ∷ codes " "
    ∷ printf_type target i
    ∷ printf_side_set_value i.side_set_value
    ∷ printf_delay i.delay
    ∷ printf_address i.address
    ∷ codes "sm: "
    ∷ number i.executing_sm_num
    ∷ codes " "
    ∷ newline
    ∷ [])

-- The switch on the type of a user instruction. Its last case names the empty instruction of a state
-- machine, which is another number, so that an empty user instruction prints nothing.
unfoldable pub printf_user_type : UserInstruction → List ℕ
printf_user_type i = elim i.instruction_type [
  | write_instruction ↦ codes "instruction: WRITE " ++ printf_value i.value
  | read_instruction ↦
      concat (codes "instruction: READ " ∷ codes "VAR_NAME: " ∷ i.var_name ∷ codes " " ∷ [])
  | pin_instruction ↦ concat (
      codes "instruction: PIN "
      ∷ int_text i.pin
      ∷ codes " "
      ∷ choose_text i.set_high (codes "=> HIGH; ") (codes "=> LOW; ")
      ∷ [])
  | user_print_instruction ↦ concat (codes "print " ∷ i.var_name ∷ codes " " ∷ [])
  | data_instruction ↦ printf_data_operation i.data_operation_type
  | repeat_instruction ↦ codes "repeat "
  | exit_instruction ↦ codes "exit "
  | empty_user_instruction ↦ []
]

unfoldable pub printf_user_instruction : UserInstruction → List ℕ
printf_user_instruction i = concat (
    codes "Line: "
    ∷ number i.line
    ∷ codes " "
    ∷ printf_user_type i
    ∷ printf_delay i.delay
    ∷ printf_address i.address
    ∷ choose_text i.continue_user (codes "will continue ") []
    ∷ newline
    ∷ [])

module _ (o : Outside) where
  -- The loop over the instructions of a PIO, from index `i` on.
  unfoldable pub printf_pio_from : System → Pio → ℕ → ℕ → List ℕ
  printf_pio_from s p i zero = []
  printf_pio_from s p i (suc left) =
      let instruction = get_or p.instructions i o.instruction in
      let target = (instruction_at o s (instruction.pio, instruction.location)).line in
      concat (codes "  PC: " ∷ number i ∷ codes "  " ∷ printf_instruction target instruction ∷ [])
      ++ printf_pio_from s p (i + 1) left

  -- The loop over the PIOs that are left. It prints the local variable `p`, which is not set.
  unfoldable pub printf_pios : ℤ → System → List Pio → List ℕ
  printf_pios unset s [] = []
  printf_pios unset s (p ∷ ps) =
      concat (
        codes "pio: "
        ∷ int_text unset
        ∷ codes " ("
        ∷ int_text p.next_instruction_location
        ∷ codes ")"
        ∷ newline
        ∷ printf_pio_from s p 0 (pos_part p.next_instruction_location)
        ∷ [])
      ++ printf_pios unset s ps

  unfoldable pub printf_instructions : ℤ → System → List ℕ
  printf_instructions unset s =
      newline ++ (codes "INSTRUCTIONS: " ++ (newline ++ printf_pios unset s s.pios))

  -- The loop over the instructions of a processor.
  unfoldable pub printf_processor_from : UserProcessor → ℕ → ℕ → List ℕ
  printf_processor_from up i zero = []
  printf_processor_from up i (suc left) =
      concat
        (codes "  " ∷ printf_user_instruction (get_or up.instructions i o.user_instruction) ∷ [])
      ++ printf_processor_from up (i + 1) left

  abbrev pub processor_text : List ℕ → ℕ → UserProcessor → List ℕ
  processor_text name unum up = concat (
      name
      ∷ number unum
      ∷ codes "  PC: "
      ∷ int_text up.pc
      ∷ codes " next_instruction_location: "
      ∷ int_text up.next_instruction_location
      ∷ newline
      ∷ printf_processor_from up 0 (pos_part up.next_instruction_location)
      ∷ [])

  unfoldable pub printf_ups : ℕ → List UserProcessor → List ℕ
  printf_ups unum [] = []
  printf_ups unum (up ∷ ups) = processor_text (codes "up: ") unum up ++ printf_ups (unum + 1) ups

  unfoldable pub printf_ihs : ℕ → List IhProcessor → List ℕ
  printf_ihs unum [] = []
  printf_ihs unum (ih ∷ ihs) =
      processor_text (codes "ih: ") unum ih.processor ++ printf_ihs (unum + 1) ihs

  unfoldable pub printf_user_instructions : System → List ℕ
  printf_user_instructions s =
      newline ++ (codes "USER INSTRUCTIONS: " ++ (newline ++ printf_ups 1 s.user_processors))

  unfoldable pub printf_ih_instructions : System → List ℕ
  printf_ih_instructions s =
      newline
      ++ (codes "INTERRUPT HANDLER(S) INSTRUCTIONS: " ++ (newline ++ printf_ihs 1 s.ih_processors))

-- `print_instruction`, into the status window. Its helpers have the texts of the others, but that a
-- condition that is not set shows so and ends the line, and a side set value is shown if it is positive.
unfoldable pub print_jmp_condition : Condition → List ℕ
print_jmp_condition unset_condition = codes "unset! " ++ newline
print_jmp_condition always = codes "always       " ++ newline
print_jmp_condition c = printf_jmp_condition c ++ newline

unfoldable pub print_side_set_value : ℤ → List ℕ
print_side_set_value side_set_value =
    choose_text (ltz (pos 0) side_set_value) (printf_side_set_value side_set_value) []

unfoldable pub print_type : Instruction → List ℕ
print_type i = elim i.instruction_type [
  | jmp_instruction ↦ concat (
      codes "instruction: JMP "
      ∷ print_jmp_condition i.condition
      ∷ codes "jmp pc: "
      ∷ pad_2 (number i.jmp_pc)
      ∷ codes " "
      ∷ [])
  | irq_instruction ↦
      codes "instruction: IRQ " ++ (printf_set_or_clear i.operation ++ printf_wait i.wait)
  | _ ↦ printf_type 0 i
]

unfoldable pub print_instruction : Instruction → List ℕ
print_instruction i = concat (
    codes "Line: "
    ∷ number i.line
    ∷ codes " "
    ∷ print_type i
    ∷ print_side_set_value i.side_set_value
    ∷ printf_delay i.delay
    ∷ printf_address i.address
    ∷ newline
    ∷ [])
