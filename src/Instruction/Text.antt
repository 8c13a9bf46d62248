-- ===== src/Instruction/Text.antt =====
-- `instruction_add_data` of src/instruction.c: the text of a DATA instruction is a symbol whose name is
-- the line of the instruction.
use simpio.Base.{ℕ, ◌+◌, ◌/◌, ◌%◌, Bool, List, [], ◌∷◌, ltb, if◌then◌else◌}
use simpio.Instruction.{UserInstruction}
use simpio.Symbols.{Chain, symbols_new}

abbrev pub data_type : ℕ
data_type = 4

-- `snprintf(numstr, 5, "%d", line)` of a `uint8_t`.
abbrev digit : ℕ → ℕ
digit n = 48 + n % 10

unfoldable pub decimal : ℕ → List ℕ
decimal n =
    if ltb n 10
    then digit n ∷ []
    else if ltb n 100
    then digit (n / 10) ∷ digit n ∷ []
    else digit (n / 100) ∷ digit (n / 10) ∷ digit n ∷ []

unfoldable pub instruction_add_data :
    Bool → List ℕ → UserInstruction → List Chain → UserInstruction × List Chain
unfolding decimal
instruction_add_data memory text i table =
    let (ptr, table') = symbols_new memory (decimal i.line) text data_type table in
    (record i { data_ptr = ptr }, table')
