-- ===== src/System/Added.antt =====
-- Where `instruction_add` puts the instructions of a program: the location is an `int8_t`.
use simpio.Base.{
  replicate, ℕ, suc, ◌+◌, ◌<◌, ◌≤◌, array_index, ◌≡◌, refl, sym, ap, subst, ◌∙◌, arith, Bool, true,
  false, List, [], ◌∷◌, length, ℤ, pos, ◌+ℤ◌, eqz, get_or-set_self, length-set, if◌then◌else◌,
}
use simpio.Instruction.{Instruction}
use simpio.User.{int8}
use simpio.Hardware.{u8_of_int}
use simpio.System.{System, Outside, Pio, pio_at, up_at}
use simpio.System.Configure.{
  put_pio, this_pio, this_sm, this_up, hardware_init_current_sm_pc_if_needed,
}
use simpio.System.Entries.{filled}
use simpio.System.Table.{instruction_add, add_instruction, with_instruction, next_location}

int8-suc : (n : ℕ) → int8 (int8 (pos n) +ℤ pos 1) ≡ int8 (pos (suc n))
int8-suc n = ground arith

int8-bound : (n : ℕ) → eqz (int8 (pos n)) (pos 132) ≡ false
int8-bound n = ground arith

module _ (o : Outside) where
  -- Calls of `instruction_add`: what each returned, and the state after them.
  unfoldable pub add_all : List Instruction → System → List Bool × System
  add_all [] s = ([], s)
  add_all (i ∷ is) s =
      let (added, s') = instruction_add o i s in
      let (others, s'') = add_all is s' in (added ∷ others, s'')

  abbrev pub location : System → ℤ
  location s = (pio_at o s (this_pio s)).next_instruction_location

  put_pio-location :
      (p : ℕ) (f : Pio → Pio) (s : System)
      → p < length s.pios
      → (pio_at o (put_pio o p f s) p).next_instruction_location
        ≡ (f (pio_at o s p)).next_instruction_location
  put_pio-location p f s h =
      ap (λ (pio : Pio). pio.next_instruction_location)
        (get_or-set_self s.pios p (f (pio_at o s p)) o.pio h)

  add-location :
      (i : Instruction) (s : System)
      → this_pio s < length s.pios
      → location (add_instruction o i s) ≡ int8 (location s +ℤ pos 1)
  unfolding add_instruction hardware_init_current_sm_pc_if_needed
  add-location i s h =
      let p = this_pio s in
      let s1 =
        put_pio o p
          (with_instruction o
            (λ old. record (filled old i) { executing_sm_num = u8_of_int s.current_sm; pio = p }))
          s in
      let s3 = hardware_init_current_sm_pc_if_needed o (location s) s1 in
      let addressed = with_instruction o (λ old. record old { address = location s }) in
      let s4 = put_pio o p addressed s3 in
      let h1 = subst (λ n. p < n) (sym (length-set s.pios p _)) h in
      let h4 = subst (λ n. p < n) (sym (length-set s1.pios p (addressed (pio_at o s1 p)))) h1 in
      ap (λ (pio : Pio). pio.next_instruction_location)
        (get_or-set_self s4.pios p (next_location o (pio_at o s4 p)) o.pio h4)
      ∙ ap (λ z. int8 (z +ℤ pos 1))
          (put_pio-location p addressed s1 h1
            ∙ put_pio-location p
                (with_instruction o (λ old. record (filled old i) {
                  executing_sm_num = u8_of_int s.current_sm;
                  pio = p;
                }))
                s h)

  add-pios :
      (i : Instruction) (s : System)
      → (length (add_instruction o i s).pios ≡ length s.pios)
        × (this_pio (add_instruction o i s) ≡ this_pio s)
  unfolding add_instruction hardware_init_current_sm_pc_if_needed
  add-pios i s = (
    length-set _ (this_pio s) _ ∙ length-set _ (this_pio s) _ ∙ length-set s.pios (this_pio s) _,
    refl,
  )

  add-done :
      (i : Instruction) (s : System) (n : ℕ)
      → location s ≡ int8 (pos n)
      → instruction_add o i s ≡ (true, add_instruction o i s)
  unfolding instruction_add
  add-done i s n e =
      ap (λ (b : Bool). if b then (false, s) else (true, add_instruction o i s))
        (ap (λ z. eqz z (pos 132)) e ∙ int8-bound n)

  add_all-more :
      (i : Instruction) (is : List Instruction) (s s' : System)
      → instruction_add o i s ≡ (true, s')
      → add_all (i ∷ is) s ≡ (true ∷ (add_all is s').0, (add_all is s').1)
  unfolding add_all
  add_all-more i is s s' e =
      ap (λ (r : Bool × System). (r.0 ∷ (add_all is r.1).0, (add_all is r.1).1)) e

  counted :
      (is : List Instruction) (s : System) (n : ℕ)
      → this_pio s < length s.pios
      → location s ≡ int8 (pos n)
      → ((add_all is s).0 ≡ replicate (length is) true)
        × (location (add_all is s).1 ≡ int8 (pos (n + length is)))
  unfolding add_all
  counted [] s n h e = (refl, e ∙ ap (λ m. int8 (pos m)) (omega arith))
  counted (i ∷ is) s n h e =
      let s' = add_instruction o i s in
      let (p, q) = add-pios i s in
      let next = add-location i s h ∙ ap (λ z. int8 (z +ℤ pos 1)) e ∙ int8-suc n in
      let (a, b) = counted is s' (suc n) (omega (arith, p, q, h)) next in
      subst
        (λ (r : List Bool × System).
          (r.0 ≡ replicate (length (i ∷ is)) true)
          × (location r.1 ≡ int8 (pos (n + length (i ∷ is)))))
        (sym (add_all-more i is s s' (add-done i s n e)))
        (ap (λ t. true ∷ t) a, b ∙ ap (λ m. int8 (pos m)) (omega arith))

  -- Calls of `instruction_add` that with those before are at most 128, and no more than the PIO has
  -- instructions, are all accepted, and leave the number of all calls, as an `int8_t`, as the next
  -- location of the PIO: the test of the limit of 132 refuses none, and the 128th makes the location
  -- negative. A state machine is set, and a user processor whose next location is in its memory, where
  -- the code stores too.
  pub add_all-location :
      (is : List Instruction) (s : System) (n : ℕ)
      → n + length is ≤ 128
      → this_pio s < length s.pios
      → n + length is ≤ length (pio_at o s (this_pio s)).instructions
      → this_sm s < length s.sms
      → this_up s < length s.user_processors
      → array_index (up_at o s (this_up s)).next_instruction_location
        < length (up_at o s (this_up s)).instructions
      → location s ≡ int8 (pos n)
      → ((add_all is s).0 ≡ replicate (length is) true)
        × (location (add_all is s).1 ≡ int8 (pos (n + length is)))
  add_all-location is s n room pio memory sm up stores e = counted is s n pio e
