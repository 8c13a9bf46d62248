-- ===== src/System/Handlers.antt =====
-- A step of an interrupt handler, where a handler that has completed stays in the way of the next.
use simpio.Base.{
  pos_part, get_or-set_self, get_or-set_ne, ℕ, suc, ◌<◌, ◌≡◌, refl, sym, subst, ◌∙◌, ap, arith,
  Bool, false, Option, none, some, List, [], ◌∷◌, ℤ, pos, ltz, get_or, set, length,
}
use simpio.Instruction.{UserInstruction, empty_user_instruction}
use simpio.Hardware.{Sm}
use simpio.User.{
  UserProcessor, UserContext, exec_run_user_instruction, run_user_type, user_finish, pre_delay,
}
use simpio.System.{System, Outside, Pointer, IhProcessor, ih_at, user_instruction_at, exec_normal}
use simpio.System.Search.{next_user_instruction, next_instruction, try_sm, try_user}
use simpio.System.Interrupt.{
  processor_of, exec_find_next_instruction_after_interrupt, run_ih, after_ih, ih_context,
  step_ih_from, exec_step_programs_next_interrupt_instruction,
}

-- An instruction that is empty and has no delay completes, and only the pc moves on.
empty_user-runs :
    (no_sm : Sm) (unset : ℕ) (c : UserContext) (n : ℕ)
    → c.instruction.instruction_type ≡ empty_user_instruction
    → c.instruction.delay ≡ 0
    → c.instruction.in_delay_state ≡ false
    → c.up.pc ≡ pos n
    → n < 127
    → (exec_run_user_instruction no_sm unset c).1.up ≡ record c.up { pc = pos (suc n) }
unfolding exec_run_user_instruction run_user_type user_finish pre_delay
empty_user-runs no_sm unset c n t d i e h = ground arith

-- The interrupt handlers and the context of the execution stay.
abbrev Handlers : System → System → Type 0
Handlers s s' = (s'.ih_processors ≡ s.ih_processors) × (s'.exec_context ≡ s.exec_context)

Handlers-trans : (s s' s'' : System) → Handlers s s' → Handlers s' s'' → Handlers s s''
Handlers-trans s s' s'' (p, q) (p', q') = (p' ∙ p, q' ∙ q)

chosen :
    (s : System) (x : Option Pointer) (f : Pointer → ℤ × System) (d : ℤ × System)
    → ((p : Pointer) → Handlers s (f p).1)
    → Handlers s d.1
    → Handlers s (elim x as (λ x. ℤ × System) [ some p ↦ f p | none ↦ d ]).1
chosen s none f d h k = k
chosen s (some p) f d h k = h p

module _ (o : Outside) where
  next_instruction-Handlers : (s : System) → Handlers s (next_instruction o s).1
  unfolding next_instruction
  next_instruction-Handlers s = ground arith

  next_user-Handlers : (d : Bool) (s : System) → Handlers s (next_user_instruction o d s).1
  unfolding next_user_instruction
  next_user-Handlers d s = ground arith

  try_sm-Handlers : (p : Option Pointer) (s : System) → Handlers s (try_sm o p s).1
  unfolding try_sm
  try_sm-Handlers none s = next_instruction-Handlers s
  try_sm-Handlers (some p) s = (refl, refl)

  try_user-Handlers : (p : Option Pointer) (s : System) → Handlers s (try_user o p s).1
  unfolding try_user
  try_user-Handlers none s = next_user-Handlers false s
  try_user-Handlers (some p) s = (refl, refl)

  after_interrupt-Handlers :
      (s : System) → Handlers s (exec_find_next_instruction_after_interrupt o s).1
  unfolding exec_find_next_instruction_after_interrupt
  after_interrupt-Handlers s =
      let r = next_instruction o s in
      let r1 = try_sm o r.0 r.1 in
      let r2 = try_user o o.unset_pointer r1.1 in
      let h = Handlers-trans s r.1 r1.1 (next_instruction-Handlers s) (try_sm-Handlers r.0 r.1) in
      let k = Handlers-trans s r1.1 r2.1 h (try_user-Handlers o.unset_pointer r1.1) in
      chosen s r1.0 _ _ (λ p. h) (chosen s r2.0 _ _ (λ p. k) k)

  -- A handler that has come to its end leaves the other handlers as they are.
  after_ih-completed :
      (i : ℕ) (c : UserContext) (s : System)
      → ltz c.up.pc c.up.next_instruction_location ≡ false
      → ((after_ih o i c s).1.exec_context ≡ exec_normal)
        × ((after_ih o i c s).1.ih_processors
            ≡ set s.ih_processors i (record {
              processor = processor_of (pos_part (ih_at o s i).processor.pc) c;
              enabled = false;
            }))
  unfolding after_ih
  after_ih-completed i c s e =
      rw (e) ((after_interrupt-Handlers _).1, (after_interrupt-Handlers _).0)

  past_end : (n : ℕ) → ltz (pos (suc n)) (pos n) ≡ false
  past_end n = ground arith

  not_negative : (z : ℤ) (n : ℕ) → z ≡ pos n → ltz z (pos 0) ≡ false
  not_negative z n p = ground arith

  module _ (s : System) (n : ℕ) (p : (ih_at o s 0).processor.pc ≡ pos n) where
    fetched :
        n < length (ih_at o s 0).processor.instructions
        → (ih_context o 0 s).instruction
          ≡ record (user_instruction_at o (ih_at o s 0).processor n) { executing_up = 2 }
    fetched r =
        let up = (ih_at o s 0).processor in
        get_or-set_self up.instructions (pos_part up.pc)
          (record (user_instruction_at o up (pos_part up.pc)) { executing_up = 2 })
          o.user_instruction (subst (λ z. pos_part z < length up.instructions) (sym p) r)
        ∙ ap (λ z. record (user_instruction_at o up (pos_part z)) { executing_up = 2 }) p

    completes :
        (ih_at o s 0).processor.next_instruction_location ≡ pos n
        → n < 127
        → n < length (ih_at o s 0).processor.instructions
        → (user_instruction_at o (ih_at o s 0).processor n).instruction_type
          ≡ empty_user_instruction
        → (user_instruction_at o (ih_at o s 0).processor n).delay ≡ 0
        → (user_instruction_at o (ih_at o s 0).processor n).in_delay_state ≡ false
        → let c = (exec_run_user_instruction o.sm o.unset_value (ih_context o 0 s)).1 in
          ltz c.up.pc c.up.next_instruction_location ≡ false
    completes l b r t d e =
        let f = fetched r in
        ap (λ (u : UserProcessor). ltz u.pc u.next_instruction_location)
          (empty_user-runs o.sm o.unset_value (ih_context o 0 s) n
            (ap (λ (i : UserInstruction). i.instruction_type) f ∙ t)
            (ap (λ (i : UserInstruction). i.delay) f ∙ d)
            (ap (λ (i : UserInstruction). i.in_delay_state) f ∙ e) p b)
        ∙ ap (ltz (pos (suc n))) l
        ∙ past_end n

  -- In the context of interrupts, with the first handler at its end: the next step leaves that context
  -- and the second handler as it was, even if this is the one that has been enabled.
  pub step_ih-stale :
      (s : System) (n : ℕ)
      → (ih_at o s 0).processor.pc ≡ pos n
      → (ih_at o s 0).processor.next_instruction_location ≡ pos n
      → n < 127
      → n < length (ih_at o s 0).processor.instructions
      → (user_instruction_at o (ih_at o s 0).processor n).instruction_type ≡ empty_user_instruction
      → (user_instruction_at o (ih_at o s 0).processor n).delay ≡ 0
      → (user_instruction_at o (ih_at o s 0).processor n).in_delay_state ≡ false
      → 0 < length s.ih_processors
      → let (line, s') = exec_step_programs_next_interrupt_instruction o s in
        (s'.exec_context ≡ exec_normal) × (ih_at o s' 1 ≡ ih_at o s 1)
  unfolding exec_step_programs_next_interrupt_instruction step_ih_from run_ih
  step_ih-stale s n p l b r t d e h =
      let c = (exec_run_user_instruction o.sm o.unset_value (ih_context o 0 s)).1 in
      let (q, k) = after_ih-completed 0 c s (completes s n p l b r t d e) in
      choose s.ih_processors p h (
        q,
        ap (λ ihs. get_or ihs 1 o.ih_processor) k
            ∙ get_or-set_ne s.ih_processors 0 1 _ o.ih_processor (λ q. absurd (omega arith)),
      )
    where
      choose :
          (ihs : List IhProcessor)
          → (get_or ihs 0 o.ih_processor).processor.pc ≡ pos n
          → 0 < length ihs
          → let r = run_ih o 0 s in
            (r.1.exec_context ≡ exec_normal) × (ih_at o r.1 1 ≡ ih_at o s 1)
            → let r = step_ih_from o 0 ihs s in
              (r.1.exec_context ≡ exec_normal) × (ih_at o r.1 1 ≡ ih_at o s 1)
      choose [] p h k = absurd (omega arith)
      choose (ih ∷ ihs) p h k = rw (not_negative ih.processor.pc n p) k
