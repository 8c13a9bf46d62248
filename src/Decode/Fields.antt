-- ===== src/Decode/Fields.antt =====
-- `exec_instruction_decode` on an instruction that is put together from its parts.
use simpio.Base.{
  ℕ, suc, pos, ◌+◌, ◌-◌, ◌*◌, ◌/◌, ◌%◌, ◌^◌, ◌≤◌, ◌<◌, ◌≡◌, ◌⊎◌, inl, inr, ap₂, refl, ap, ◌∙◌,
  arith,
}
use simpio.Base.{List, true, zero}
use simpio.Undefined.{Undefined}
use simpio.Exec.Context.{Context, in_exec}
use simpio.Exec.Flow.{jmp_branch, run_jmp_instruction}
use simpio.Instruction.{Condition}
use simpio.Hardware.{Gpio}
use simpio.Bits.{instruction_field}
use simpio.Bits.Field.{instruction_field_lem, instruction_field-none}
use simpio.Hardware.{Sm, u8}
use simpio.Instruction.{set_instruction}
use simpio.Instruction.Codes.{set_destination_of}
use simpio.Decode.{exec_instruction_decode, decode_type, decode_set, decode_jmp}

-- The layout of a machine instruction: the number of its type, the side set value over the delay in
-- five bits, of which `s` are for the side set, and two operands of three and five bits.
abbrev pub assemble : ℕ → ℕ → ℕ → ℕ → ℕ → ℕ → ℕ
assemble s op side delay a b = op * 2 ^ 13 + side * 2 ^ (13 - s) + delay * 2 ^ 8 + a * 2 ^ 5 + b

-- The digits of the parts, for each number of side set bits.
parts :
    (s op side delay a b : ℕ)
    → s ≤ 5
    → op < 8
    → side < 2 ^ s
    → delay < 2 ^ (5 - s)
    → a < 8
    → b < 32
    → let mi = assemble s op side delay a b in
      (mi / 2 ^ 13 % 8 ≡ op)
      × (mi / 2 ^ 8 % 2 ^ (5 - s) ≡ delay)
      × (mi / 2 ^ (13 - s) % 2 ^ s ≡ side)
      × (mi / 2 ^ 5 % 8 ≡ a)
      × (mi % 32 ≡ b)
parts zero op side delay a b s_le op_lt side_lt delay_lt a_lt b_lt = omega arith
parts (suc zero) op side delay a b s_le op_lt side_lt delay_lt a_lt b_lt = omega arith
parts (suc (suc zero)) op side delay a b s_le op_lt side_lt delay_lt a_lt b_lt = omega arith
parts (suc (suc (suc zero))) op side delay a b s_le op_lt side_lt delay_lt a_lt b_lt = omega arith
parts (suc (suc (suc (suc zero)))) op side delay a b s_le op_lt side_lt delay_lt a_lt b_lt =
    omega arith
parts (suc (suc (suc (suc (suc zero))))) op side delay a b s_le op_lt side_lt delay_lt a_lt b_lt =
    omega arith
parts (suc (suc (suc (suc (suc (suc s)))))) op side delay a b s_le op_lt side_lt delay_lt a_lt
      b_lt =
    absurd (omega arith)

module _ (u : Undefined) (s op side delay a b : ℕ) (s_le : s ≤ 5) (op_lt : op < 8)
    (side_lt : side < 2 ^ s) (delay_lt : delay < 2 ^ (5 - s)) (a_lt : a < 8) (b_lt : b < 32) where
  type_field : instruction_field u (assemble s op side delay a b) 13 15 ≡ op
  type_field =
      instruction_field_lem u (assemble s op side delay a b) 13 15 (omega arith) (omega arith)
      ∙ (parts s op side delay a b s_le op_lt side_lt delay_lt a_lt b_lt).0

  a_field : instruction_field u (assemble s op side delay a b) 5 7 ≡ a
  a_field =
      instruction_field_lem u (assemble s op side delay a b) 5 7 (omega arith) (omega arith)
      ∙ (parts s op side delay a b s_le op_lt side_lt delay_lt a_lt b_lt).3

  b_field : instruction_field u (assemble s op side delay a b) 0 4 ≡ b
  b_field =
      instruction_field_lem u (assemble s op side delay a b) 0 4 (omega arith) (omega arith)
      ∙ ap (λ (t : ℕ). t % 32) (omega arith)
      ∙ (parts s op side delay a b s_le op_lt side_lt delay_lt a_lt b_lt).4

  delay_field : instruction_field u (assemble s op side delay a b) 8 (12 - s) ≡ delay
  delay_field = split (ground arith)
    where
      split :
          (s ≡ 5) ⊎ (s < 5) → instruction_field u (assemble s op side delay a b) 8 (12 - s) ≡ delay
      split (inl e) =
          ap (λ (t : ℕ). instruction_field u (assemble s op side delay a b) 8 (12 - t)) e
          ∙ instruction_field-none u (assemble s op side delay a b) 8 7 (omega arith)
          ∙ omega (arith, delay_lt, ap (λ (t : ℕ). 2 ^ (5 - t)) e)
      split (inr h) =
          instruction_field_lem u (assemble s op side delay a b) 8 (12 - s) (omega arith)
            (omega arith)
          ∙ ap (λ (t : ℕ). assemble s op side delay a b / 2 ^ 8 % 2 ^ t) (omega arith)
          ∙ (parts s op side delay a b s_le op_lt side_lt delay_lt a_lt b_lt).1

  side_field : instruction_field u (assemble s op side delay a b) (12 - s + 1) 12 ≡ side
  side_field = split (ground arith)
    where
      split :
          (s ≡ 0) ⊎ (0 < s)
          → instruction_field u (assemble s op side delay a b) (12 - s + 1) 12 ≡ side
      split (inl e) =
          instruction_field-none u (assemble s op side delay a b) (12 - s + 1) 12 (omega arith)
          ∙ omega (arith, side_lt, ap (λ (t : ℕ). 2 ^ t) e)
      split (inr h) =
          instruction_field_lem u (assemble s op side delay a b) (12 - s + 1) 12 (omega arith)
            (omega arith)
          ∙ ap₂ (λ (t v : ℕ). assemble s op side delay a b / 2 ^ t % 2 ^ v) (omega arith)
              (omega arith)
          ∙ (parts s op side delay a b s_le op_lt side_lt delay_lt a_lt b_lt).2

small_delay : (s delay : ℕ) → s ≤ 5 → delay < 2 ^ (5 - s) → delay < 32
small_delay zero delay s_le h = omega arith
small_delay (suc zero) delay s_le h = omega arith
small_delay (suc (suc zero)) delay s_le h = omega arith
small_delay (suc (suc (suc zero))) delay s_le h = omega arith
small_delay (suc (suc (suc (suc zero)))) delay s_le h = omega arith
small_delay (suc (suc (suc (suc (suc zero))))) delay s_le h = omega arith
small_delay (suc (suc (suc (suc (suc (suc s)))))) delay s_le h = absurd (omega arith)

module _ (u : Undefined) (sm : Sm) (op side delay a b : ℕ) (s_le : sm.side_set_count ≤ 5)
    (op_lt : op < 8) (side_lt : side < 2 ^ sm.side_set_count)
    (delay_lt : delay < 2 ^ (5 - sm.side_set_count)) (a_lt : a < 8) (b_lt : b < 32)
    (e : sm.exec_machine_instruction ≡ assemble sm.side_set_count op side delay a b) where
  pub at_type : instruction_field u sm.exec_machine_instruction 13 15 ≡ op
  at_type =
      ap (λ (t : ℕ). instruction_field u t 13 15) e
      ∙ type_field u sm.side_set_count op side delay a b s_le op_lt side_lt delay_lt a_lt b_lt

  pub at_a : instruction_field u sm.exec_machine_instruction 5 7 ≡ a
  at_a =
      ap (λ (t : ℕ). instruction_field u t 5 7) e
      ∙ a_field u sm.side_set_count op side delay a b s_le op_lt side_lt delay_lt a_lt b_lt

  pub at_b : instruction_field u sm.exec_machine_instruction 0 4 ≡ b
  at_b =
      ap (λ (t : ℕ). instruction_field u t 0 4) e
      ∙ b_field u sm.side_set_count op side delay a b s_le op_lt side_lt delay_lt a_lt b_lt

  pub at_delay :
      u8 (instruction_field u sm.exec_machine_instruction 8 (12 - sm.side_set_count)) ≡ delay
  at_delay =
      ap (λ (t : ℕ). u8 (instruction_field u t 8 (12 - sm.side_set_count))) e
      ∙ ap u8
          (delay_field u sm.side_set_count op side delay a b s_le op_lt side_lt delay_lt a_lt b_lt)
      ∙ omega (arith, small_delay sm.side_set_count delay s_le delay_lt)

  pub at_side :
      instruction_field u sm.exec_machine_instruction (12 - sm.side_set_count + 1) 12 ≡ side
  at_side =
      ap (λ (t : ℕ). instruction_field u t (12 - sm.side_set_count + 1) 12) e
      ∙ side_field u sm.side_set_count op side delay a b s_le op_lt side_lt delay_lt a_lt b_lt

-- A SET that is put together from its parts, with any split of the delay bits, is decoded to these
-- parts.
pub decode-set :
    (u : Undefined) (sm : Sm) (side delay a b : ℕ)
    → sm.side_set_count ≤ 5
    → side < 2 ^ sm.side_set_count
    → delay < 2 ^ (5 - sm.side_set_count)
    → a < 8
    → b < 32
    → sm.exec_machine_instruction ≡ assemble sm.side_set_count 7 side delay a b
    → let i = (exec_instruction_decode u sm).exec_instruction in
      (i.instruction_type ≡ set_instruction)
      × (i.destination ≡ set_destination_of a)
      × (i.index_or_value ≡ b)
      × (i.delay ≡ delay)
      × (i.side_set_value ≡ pos side)
unfolding exec_instruction_decode decode_type decode_set
decode-set u sm side delay a b s_le side_lt delay_lt a_lt b_lt e =
    rw (at_type u sm 7 side delay a b s_le (omega arith) side_lt delay_lt a_lt b_lt e) (
      refl,
      ap set_destination_of
          (at_a u sm 7 side delay a b s_le (omega arith) side_lt delay_lt a_lt b_lt e),
      at_b u sm 7 side delay a b s_le (omega arith) side_lt delay_lt a_lt b_lt e,
      at_delay u sm 7 side delay a b s_le (omega arith) side_lt delay_lt a_lt b_lt e,
      ap pos (at_side u sm 7 side delay a b s_le (omega arith) side_lt delay_lt a_lt b_lt e),
    )

jmp_branch-exec :
    (d : Condition) (gpios : List Gpio) (sm : Sm)
    → (jmp_branch d gpios sm).1.exec_instruction ≡ sm.exec_instruction
unfolding jmp_branch
jmp_branch-exec d gpios sm = ground arith

decoded_jmp :
    (c : Context)
    → c.sm.exec_instruction.jmp_pc_set ≡ true
    → let (completed, c') = run_jmp_instruction in_exec c in
      (completed ≡ true) × (c'.sm.exec_instruction.jmp_pc ≡ c.sm.exec_instruction.jmp_pc)
unfolding run_jmp_instruction
decoded_jmp c h = ground (arith, jmp_branch-exec c.sm.exec_instruction.condition c.gpios c.sm)

-- A JMP that is decoded and run is taken whatever its condition `a` says: it completes with the
-- target of its address `b`, less 1.
pub run_jmp-decoded :
    (u : Undefined) (c : Context) (side delay a b : ℕ)
    → c.sm.side_set_count ≤ 5
    → side < 2 ^ c.sm.side_set_count
    → delay < 2 ^ (5 - c.sm.side_set_count)
    → a < 8
    → b < 32
    → c.sm.exec_machine_instruction ≡ assemble c.sm.side_set_count 0 side delay a b
    → let (completed, c') =
        run_jmp_instruction in_exec (record c { sm = exec_instruction_decode u c.sm }) in
      (completed ≡ true) × (c'.sm.exec_instruction.jmp_pc ≡ u8 (b + 255))
unfolding exec_instruction_decode decode_type decode_jmp
run_jmp-decoded u c side delay a b s_le side_lt delay_lt a_lt b_lt e = (r.0, r.1 ∙ address)
  where
    field : instruction_field u c.sm.exec_machine_instruction 13 15 ≡ 0
    field = at_type u c.sm 0 side delay a b s_le (omega arith) side_lt delay_lt a_lt b_lt e

    taken : (exec_instruction_decode u c.sm).exec_instruction.jmp_pc_set ≡ true
    taken = rw (field) refl

    r :
        let (completed, c') =
          run_jmp_instruction in_exec (record c { sm = exec_instruction_decode u c.sm }) in
        (completed ≡ true)
        × (c'.sm.exec_instruction.jmp_pc ≡ (exec_instruction_decode u c.sm).exec_instruction.jmp_pc)
    r = decoded_jmp (record c { sm = exec_instruction_decode u c.sm }) taken

    address : (exec_instruction_decode u c.sm).exec_instruction.jmp_pc ≡ u8 (b + 255)
    address = rw (field) (
        ap (λ (t : ℕ). u8 (t + 255))
          (at_b u c.sm 0 side delay a b s_le (omega arith) side_lt delay_lt a_lt b_lt e))
