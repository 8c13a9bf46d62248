-- ===== src/System/Breakpoints.antt =====
-- Breakpoints in src/instruction.c: a line of the source stands for the first instruction that has it.
use simpio.Base.{
  ℕ, zero, suc, ◌==◌, Bool, true, false, not, Option, none, some, if◌then◌else◌, List, [], ◌∷◌,
  pos_part,
}
use simpio.Instruction.{Instruction, UserInstruction}
use simpio.User.{UserProcessor}
use simpio.System.{System, Pio, num_pios, num_user_processors, num_instructions}
use simpio.System.Entries.{num_user_instructions}

-- The two kinds of loop over the first `count` elements, which return at the first that answers: one
-- answers with a result, the other with a new element in its place.
unfoldable pub find_first {ℓ κ} : {A : Type ℓ} {B : Type κ} → (A → Option B) → ℕ → List A → Option B
find_first f zero xs = none
find_first f (suc count) [] = none
find_first f (suc count) (x ∷ xs) =
    let rest = find_first f count xs in elim (f x) [ some b ↦ some b | none ↦ rest ]

unfoldable pub change_first {ℓ} : {A : Type ℓ} → (A → Option A) → ℕ → List A → Option (List A)
change_first f zero xs = none
change_first f (suc count) [] = none
change_first f (suc count) (x ∷ xs) =
    let rest = change_first f count xs in
    elim (f x) [
      | some x' ↦ some (x' ∷ xs)
      | none ↦ elim rest [ none ↦ none | some xs' ↦ some (x ∷ xs') ]
    ]

-- `instruction_is_breakpoint`.
abbrev pub breakpoint : ℕ → Instruction → Option Bool
breakpoint line i = if i.line == line then some i.is_breakpoint else none

abbrev pub user_breakpoint : ℕ → UserInstruction → Option Bool
user_breakpoint line i = if i.line == line then some i.is_breakpoint else none

abbrev pub pio_breakpoint : ℕ → Pio → Option Bool
pio_breakpoint line p = find_first (breakpoint line) num_instructions p.instructions

abbrev pub up_breakpoint : ℕ → UserProcessor → Option Bool
up_breakpoint line up = find_first (user_breakpoint line) num_user_instructions up.instructions

unfoldable pub instruction_is_breakpoint : ℕ → System → Bool
instruction_is_breakpoint line s = elim (find_first (pio_breakpoint line) num_pios s.pios) [
  | some b ↦ b
  | none ↦ elim (find_first (up_breakpoint line) num_user_processors s.user_processors) [
    | some b ↦ b
    | none ↦ false
  ]
]

-- `instruction_toggle_breakpoint`: of a PIO, only the instructions below the next location.
abbrev pub toggle : ℕ → Instruction → Option Instruction
toggle line i =
    if i.line == line then some record i { is_breakpoint = not i.is_breakpoint } else none

abbrev pub user_toggle : ℕ → UserInstruction → Option UserInstruction
user_toggle line i =
    if i.line == line then some record i { is_breakpoint = not i.is_breakpoint } else none

abbrev pub with_instructions : Pio → Option (List Instruction) → Option Pio
with_instructions p none = none
with_instructions p (some is) = some record p { instructions = is }

abbrev pub with_user_instructions :
    UserProcessor → Option (List UserInstruction) → Option UserProcessor
with_user_instructions up none = none
with_user_instructions up (some is) = some record up { instructions = is }

abbrev pub pio_toggle : ℕ → Pio → Option Pio
pio_toggle line p =
    with_instructions p
      (change_first (toggle line) (pos_part p.next_instruction_location) p.instructions)

abbrev pub up_toggle : ℕ → UserProcessor → Option UserProcessor
up_toggle line up =
    with_user_instructions up
      (change_first (user_toggle line) num_user_instructions up.instructions)

unfoldable pub instruction_toggle_breakpoint : ℕ → System → Bool × System
instruction_toggle_breakpoint line s = elim (change_first (pio_toggle line) num_pios s.pios) [
  | some pios ↦ (true, record s { pios = pios })
  | none ↦ elim (change_first (up_toggle line) num_user_processors s.user_processors) [
    | some ups ↦ (true, record s { user_processors = ups })
    | none ↦ (false, s)
  ]
]
