-- ===== src/User.antt =====
-- The instructions of user processors in src/execution.c. `UserContext` is what one reads and writes:
-- its processor, the state machines, the GPIO lines, the variables, and itself.
pub mod Delay
pub mod Transfer
pub mod Kept
use simpio.Base.{
  ℕ, zero, suc, ◌+◌, ◌-◌, ◌%◌, ◌^◌, ℤ, pos, negsuc, pos_part, ◌+ℤ◌, ◌-ℤ◌, eqz, ltz, Bool, true,
  false, not, ◌&&◌, ◌||◌, Option, none, some, List, [], ◌∷◌, ◌==◌, ltb, if◌then◌else◌, get_or, set,
  length,
}
use simpio.Fifo.{Fifo, is_full, is_empty, write, read}
use simpio.Hardware.{Sm, Gpio, u8}
use simpio.Hardware.Lines.{hardware_set_gpio}
use simpio.Instruction.{
  UserInstruction, UserInstructionType, read_instruction, write_instruction, user_print_instruction,
  pin_instruction, data_instruction, repeat_instruction, exit_instruction, empty_user_instruction,
  data_write, data_read, data_readln, data_print, data_clear, data_set, no_data_operation,
  user_reset,
}
use simpio.Instruction.Variables.{Variable, var_set}

abbrev pub string_max : ℕ
string_max = 255

-- `user_processor_t`; the processor of an interrupt handler has the same fields and one more.
pub record UserProcessor : Type 0 where
  pub instructions : List UserInstruction
  pub next_instruction_location : ℤ
  pub pc : ℤ
  pub this_num : ℕ
  pub up_data : List ℕ

pub record UserContext : Type 0 where
  pub instruction : UserInstruction
  pub up : UserProcessor
  pub sms : List Sm
  pub gpios : List Gpio
  pub variables : List Variable
  pub exited : Bool

abbrev pub UserOutcome : Type 0
UserOutcome = Bool × UserContext

-- `int8_t`.
abbrev pub int8 : ℤ → ℤ
int8 (pos n) = if ltb (n % 2 ^ 8) 128 then pos (n % 2 ^ 8) else negsuc (255 - n % 2 ^ 8)
int8 (negsuc n) = if ltb (n % 2 ^ 8) 128 then negsuc (n % 2 ^ 8) else pos (255 - n % 2 ^ 8)

-- A `char` as a `uint32_t`, where `char` is signed.
abbrev pub u32_of_char : ℕ → ℕ
u32_of_char c = if ltb c 128 then c else c + 2 ^ 32 - 256

-- `strlen` of an array of characters.
pub strlen : List ℕ → ℕ
strlen [] = 0
strlen (c ∷ cs) = let rest = strlen cs in if c == 0 then 0 else suc rest

-- `snprintf(array, n + 1, "%s", from)`: the characters and a NUL replace the start of the array.
pub print_string : ℕ → List ℕ → List ℕ → List ℕ
print_string n from [] = []
print_string zero from (c ∷ cs) = 0 ∷ cs
print_string (suc n) [] (c ∷ cs) = 0 ∷ cs
print_string (suc n) (x ∷ xs) (c ∷ cs) = x ∷ print_string n xs cs

module _ (no_sm : Sm) where
  -- `(sm_t *) instruction->executing_sm`, whose number is below the number of state machines.
  abbrev pub sm_of : UserContext → Sm
  sm_of c = get_or c.sms c.instruction.executing_sm no_sm

  abbrev pub put_fifo : Fifo → UserContext → UserContext
  put_fifo f c = record c {
    sms = set c.sms c.instruction.executing_sm (record (sm_of c) { fifo = f });
  }

  unfoldable pub run_write_instruction : UserContext → UserOutcome
  run_write_instruction c =
      let fifo = (sm_of c).fifo in
      if is_full fifo.tx_state
      then (false, c)
      else (true, put_fifo (write fifo c.instruction.value).1 c)

  -- Where `fifo_read` refuses, `value` is not set; what is then read of it is `unset`.
  unfoldable pub run_read_instruction : ℕ → UserContext → UserOutcome
  run_read_instruction unset c =
      let fifo = (sm_of c).fifo in
      if is_empty fifo.rx_state
      then (false, c)
      else let (_, value, fifo') = read fifo unset in
        (
          true,
          record (put_fifo fifo' c) {
            variables = (var_set c.instruction.var_name value c.variables).1;
          },
        )

  unfoldable pub run_print_instruction : UserContext → UserOutcome
  run_print_instruction c = (true, c)

  unfoldable pub run_pin_instruction : UserContext → UserOutcome
  run_pin_instruction c =
      let i = c.instruction in
      (
        true,
        if ltz i.pin (pos 0)
            then c
            else record c { gpios = hardware_set_gpio c.gpios (pos_part i.pin) i.set_high },
      )

  abbrev pub put_data : ℕ → ℕ → UserContext → UserContext
  put_data index value c = record c {
    up = record c.up { up_data = set c.up.up_data index (u8 value) };
  }

  abbrev pub put_index : ℕ → UserContext → UserContext
  put_index index c = record c { instruction = record c.instruction { data_index = index } }

  -- The cases of `run_data_instruction`. C leaves an index at the end of the array and a data pointer
  -- that is NULL undefined; here they change nothing.
  unfoldable pub run_data_write : UserContext → UserOutcome
  unfolding strlen
  run_data_write c =
      let fifo = (sm_of c).fifo in
      let index = c.instruction.data_index in
      if is_full fifo.tx_state then (false, c) else (
        index + 1 == strlen c.up.up_data,
        put_index (index + 1)
            (put_fifo (write fifo (u32_of_char (get_or c.up.up_data index 0))).1 c),
      )

  -- `data_read` and `data_readln` differ in the test that ends them.
  unfoldable pub run_data_read : ℕ → (ℕ → Bool) → UserContext → UserOutcome
  run_data_read unset stops c =
      let fifo = (sm_of c).fifo in
      let index = c.instruction.data_index in
      if is_empty fifo.rx_state
      then (false, c)
      else let (_, value, fifo') = read fifo unset in
        (
          stops value || index + 1 == string_max,
          put_index (index + 1) (put_data index value (put_fifo fifo' c)),
        )

  unfoldable pub run_data_instruction : ℕ → UserContext → UserOutcome
  unfolding run_data_write run_data_read print_string
  run_data_instruction unset c =
      let i = c.instruction in
      elim i.data_operation_type [
        | data_write ↦ run_data_write c
        | data_read ↦ run_data_read unset (λ _. eqz (pos (i.data_index + 1)) i.max_read_index) c
        | data_readln ↦ run_data_read unset (λ v. v == 46) c
        | data_print ↦ (true, c)
        | data_set ↦ (
          true,
          elim i.data_ptr [
            | none ↦ c
            | some text ↦ record c {
              up = record c.up { up_data = print_string 254 text c.up.up_data };
            }
          ],
        )
        | data_clear ↦ (true, put_index 0 (put_data 0 0 c))
        | no_data_operation ↦ (false, c)
      ]

  unfoldable pub run_repeat_instruction : UserContext → UserOutcome
  run_repeat_instruction c = (true, record c { up = record c.up { pc = negsuc 0 } })

  unfoldable pub run_exit_instruction : UserContext → UserOutcome
  run_exit_instruction c = (true, record c { exited = true })

  -- The switch of `exec_run_user_instruction`.
  unfoldable pub run_user_type : ℕ → UserContext → UserOutcome
  run_user_type unset c = elim c.instruction.instruction_type [
    | write_instruction ↦ run_write_instruction c
    | read_instruction ↦ run_read_instruction unset c
    | user_print_instruction ↦ run_print_instruction c
    | data_instruction ↦ run_data_instruction unset c
    | pin_instruction ↦ run_pin_instruction c
    | repeat_instruction ↦ run_repeat_instruction c
    | exit_instruction ↦ run_exit_instruction c
    | empty_user_instruction ↦ (true, c)
  ]

-- The delay before a user instruction: a cycle of it, and its start.
unfoldable pub count_down : UserInstruction → UserInstruction
count_down i =
    let left = i.delay_left -ℤ pos 1 in
    if eqz left (pos 0)
    then record i { delay_left = left; in_delay_state = false; delay_completed = true }
    else record i { delay_left = left }

unfoldable pub pre_delay : UserInstruction → UserInstruction
unfolding count_down
pre_delay i =
    if ltb 0 i.delay && not i.delay_completed
    then (if i.in_delay_state
        then count_down i
        else record i { in_delay_state = true; delay_left = pos i.delay })
    else i

-- The end of `exec_run_user_instruction`.
unfoldable pub user_finish : UserOutcome → UserOutcome
user_finish r =
    let c = r.1 in
    if r.0
    then (
      true,
      record c {
        instruction = user_reset c.instruction;
        up = record c.up { pc = int8 (c.up.pc +ℤ pos 1) };
      },
    )
    else (false, record c { instruction = record c.instruction { not_completed = true } })

unfoldable pub exec_run_user_instruction : Sm → ℕ → UserContext → UserOutcome
exec_run_user_instruction no_sm unset c =
    let c' = record c { instruction = pre_delay c.instruction } in
    user_finish
      (if c'.instruction.in_delay_state then (false, c') else run_user_type no_sm unset c')
