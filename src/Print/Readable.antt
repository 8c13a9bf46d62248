-- ===== src/Print/Readable.antt =====
-- The type of an instruction can be read off the text that is printed.
use simpio.Base.{◌≡◌, refl, ℕ, ◌==◌, List, get_or, if◌then◌else◌}
use simpio.Instruction.{
  Instruction, InstructionType, jmp_instruction, wait_instruction, nop_instruction, in_instruction,
  out_instruction, push_instruction, pull_instruction, mov_instruction, set_instruction,
  irq_instruction, empty_instruction,
}
use simpio.Print.Listing.{printf_type}

-- The type by the letters after "instruction: ".
pub read_type : List ℕ → InstructionType
read_type text =
    let first = get_or text 13 0 in
    let second = get_or text 14 0 in
    let third = get_or text 15 0 in
    if first == b'J'
    then jmp_instruction
    else if first == b'W'
    then wait_instruction
    else if first == b'N'
    then nop_instruction
    else if first == b'O'
    then out_instruction
    else if first == b'M'
    then mov_instruction
    else if first == b'S'
    then set_instruction
    else if first == b'I'
    then if second == b'N' then in_instruction else irq_instruction
    else if first == b'P'
    then if third == b'S' then push_instruction else pull_instruction
    else empty_instruction

read-text_of :
    (t : InstructionType) (target : ℕ) (i : Instruction)
    → read_type (printf_type target (record i { instruction_type = t })) ≡ t
unfolding read_type printf_type
read-text_of jmp_instruction target i = refl
read-text_of wait_instruction target i = refl
read-text_of nop_instruction target i = refl
read-text_of in_instruction target i = refl
read-text_of out_instruction target i = refl
read-text_of push_instruction target i = refl
read-text_of pull_instruction target i = refl
read-text_of mov_instruction target i = refl
read-text_of set_instruction target i = refl
read-text_of irq_instruction target i = refl
read-text_of empty_instruction target i = refl

-- The type of an instruction is read back from what is printed of it after its line, whatever its
-- other fields and the line of its target are.
pub read_type-printf_type :
    (target : ℕ) (i : Instruction) → read_type (printf_type target i) ≡ i.instruction_type
read_type-printf_type target i = read-text_of i.instruction_type target i
