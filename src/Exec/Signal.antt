-- ===== src/Exec/Signal.antt =====
-- IRQ with the option wait: the protocol between a state machine and whoever clears its flag.
use simpio.Base.{ℕ, ◌<◌, ◌≡◌, refl, Bool, true, false, List, length, arith}
use simpio.Base.{get_or-set_self, length-set, ◌∙◌}
use simpio.Instruction.{Instruction}
use simpio.Hardware.{Sm, u8}
use simpio.Hardware.Lines.{hardware_irq_flag_set, hardware_irq_flag_is_set}
use simpio.Instruction.{wait_operation}
use simpio.Exec.Context.{Context, Place, in_program, in_exec, at_place, put_at}
use simpio.Exec.Flow.{run_irq_instruction, irq_flag_num}

irq_flag_set_get :
    (flags : List Bool) (irq : ℕ) (b : Bool)
    → length flags ≡ 8
    → u8 irq < 8
    → hardware_irq_flag_is_set (hardware_irq_flag_set flags irq b).1 irq ≡ b
unfolding hardware_irq_flag_is_set hardware_irq_flag_set
irq_flag_set_get flags irq b l h =
    ground (arith, get_or-set_self flags (u8 irq) b false (omega arith))

-- The context in which the flag of the instruction has been cleared by someone else.
abbrev pub cleared : Place → Context → Context
cleared p c = record c {
  irq_flags = (hardware_irq_flag_set c.irq_flags (irq_flag_num (at_place p c) c.sm) false).1;
}

-- The three calls of the protocol.
abbrev waiting : Place → Context → Context
waiting p c =
    put_at p (record (at_place p c) { already_set_waiting = true })
      record c {
        irq_flags = (hardware_irq_flag_set c.irq_flags (irq_flag_num (at_place p c) c.sm) true).1;
      }

first_call :
    (p : Place) (c : Context)
    → (at_place p c).operation ≡ wait_operation
    → (at_place p c).already_set_waiting ≡ false
    → run_irq_instruction p c ≡ (false, waiting p c)
unfolding run_irq_instruction
first_call in_program c o w = ground arith
first_call in_exec c o w = ground arith

module _ (p : Place) (c : Context) (o : (at_place p c).operation ≡ wait_operation)
    (w : (at_place p c).already_set_waiting ≡ true) where
  still_set :
      hardware_irq_flag_is_set c.irq_flags (irq_flag_num (at_place p c) c.sm) ≡ true
      → run_irq_instruction p c ≡ (false, c)
  unfolding run_irq_instruction
  still_set h = ground arith

  now_clear :
      hardware_irq_flag_is_set c.irq_flags (irq_flag_num (at_place p c) c.sm) ≡ false
      → run_irq_instruction p c
        ≡ (true, put_at p (record (at_place p c) { already_set_waiting = false }) c)
  unfolding run_irq_instruction
  now_clear h = ground arith

length-irq_flag_set :
    (flags : List Bool) (irq : ℕ) (b : Bool)
    → length (hardware_irq_flag_set flags irq b).1 ≡ length flags
unfolding hardware_irq_flag_set
length-irq_flag_set flags irq b = ground (arith, length-set flags (u8 irq) b)

-- The flag number of an instruction is a `uint8_t`.
u8-irq_flag_num : (i : Instruction) (sm : Sm) → u8 (irq_flag_num i sm) ≡ irq_flag_num i sm
unfolding irq_flag_num
u8-irq_flag_num i sm = omega arith

irq_flag_num-waiting :
    (i : Instruction) (sm : Sm) (e : Instruction)
    → irq_flag_num (record i { already_set_waiting = true }) (record sm { exec_instruction = e })
      ≡ irq_flag_num i sm
unfolding irq_flag_num
irq_flag_num-waiting i sm e = refl

module _ (c : Context) (l : length c.irq_flags ≡ 8) (n : ℕ) (h : u8 n < 8) where
  set_now : hardware_irq_flag_is_set (hardware_irq_flag_set c.irq_flags n true).1 n ≡ true
  set_now = irq_flag_set_get c.irq_flags n true l h

  clear_now :
      hardware_irq_flag_is_set
        (hardware_irq_flag_set (hardware_irq_flag_set c.irq_flags n true).1 n false).1
        n
      ≡ false
  clear_now =
      irq_flag_set_get (hardware_irq_flag_set c.irq_flags n true).1 n false
        (length-irq_flag_set c.irq_flags n true ∙ l) h

-- With the eight flags in place, a first IRQ WAIT on one of the eight flags sets the flag and does
-- not complete; while the flag stays set, a further call changes nothing and does not complete; once
-- the flag has been cleared, a call completes, and changes nothing but the mark that the instruction
-- has been waiting.
pub run_irq-wait :
    (p : Place) (c : Context)
    → (at_place p c).operation ≡ wait_operation
    → (at_place p c).already_set_waiting ≡ false
    → length c.irq_flags ≡ 8
    → irq_flag_num (at_place p c) c.sm < 8
    → let (completed, c') = run_irq_instruction p c in
      (completed ≡ false)
      × (hardware_irq_flag_is_set c'.irq_flags (irq_flag_num (at_place p c) c.sm) ≡ true)
      × (run_irq_instruction p c' ≡ (false, c'))
      × (run_irq_instruction p (cleared p c')
          ≡ (true, put_at p (record (at_place p c) { already_set_waiting = false }) (cleared p c')))
unfolding irq_flag_num
run_irq-wait in_program c o w l h = rw (first_call in_program c o w) (
  refl,
  set_now c l n bound,
  still_set in_program (waiting in_program c) o refl (set_now c l n bound),
  now_clear in_program (cleared in_program (waiting in_program c)) o refl (clear_now c l n bound),
)
  where
    n : ℕ
    n = irq_flag_num c.program_instruction c.sm

    bound : u8 n < 8
    bound = omega arith
run_irq-wait in_exec c o w l h = rw (first_call in_exec c o w) (
  refl,
  set_now c l n bound,
  still_set in_exec (waiting in_exec c) o refl (set_now c l n bound),
  now_clear in_exec (cleared in_exec (waiting in_exec c)) o refl (clear_now c l n bound),
)
  where
    n : ℕ
    n = irq_flag_num c.sm.exec_instruction c.sm

    bound : u8 n < 8
    bound = omega arith
