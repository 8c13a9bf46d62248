-- ===== src/System/Defaults.antt =====
-- The state machines after the defaults.
use simpio.Base.{
  ℕ, zero, suc, ◌+◌, ◌/◌, ◌%◌, ◌<◌, ◌≤◌, ◌≡◌, ◌≢◌, refl, sym, ap, subst, ◌∙◌, arith, Bool, false,
  none, List, length, get_or, get_or-set_self, get_or-set_ne, length-set, pos, negsuc, ℕ_discrete,
}
use simpio.Fifo.{bidi}
use simpio.Fifo.Holds.{Holds, init-Holds, no_values}
use simpio.Hardware.{Sm}
use simpio.System.{System, Outside, Turn, sm_at}
use simpio.System.Turns.{all_sms, find_sm, sm_round, turn_at}
use simpio.System.Fair.{sm_round-range}
use simpio.System.Search.{sm_runnable, next_instruction}
use simpio.System.Configure.{put_sm}
use simpio.System.Reset.{
  for_from, sm_defaults, reset_sm, default_sm, hardware_set_pios_defaults,
  hardware_set_pio_defaults, hardware_set_pio_instruction_cache, hardware_set_sms_defaults,
  hardware_reset_user_processors, hardware_reset_ih_processors, instruction_set_global_default,
  hardware_set_system_defaults,
}

module _ (o : Outside) where
  -- A body that changes one state machine, and that one as `f` says.
  record Changes (body : ℕ → System → System) (f : ℕ → Sm → Sm) : Type 0 where
    its_own : (i : ℕ) (s : System) → i < length s.sms → sm_at o (body i s) i ≡ f i (sm_at o s i)
    no_other : (i j : ℕ) (s : System) → i ≢ j → sm_at o (body i s) j ≡ sm_at o s j
    as_long : (i : ℕ) (s : System) → length (body i s).sms ≡ length s.sms

  module _ (body : ℕ → System → System) (f : ℕ → Sm → Sm) (c : Changes body f) where
    for_from-before :
        (i count k : ℕ) (s : System) → k < i → sm_at o (for_from i count body s) k ≡ sm_at o s k
    unfolding for_from
    for_from-before i zero k s h = refl
    for_from-before i (suc count) k s h =
        for_from-before (i + 1) count k (body i s) (omega arith)
        ∙ c.no_other i k s (λ e. absurd (omega arith))

    for_from-changed :
        (i count k : ℕ) (s : System)
        → i ≤ k
        → k < i + count
        → i + count ≤ length s.sms
        → sm_at o (for_from i count body s) k ≡ f k (sm_at o s k)
    unfolding for_from
    for_from-changed i zero k s l h b = absurd (omega arith)
    for_from-changed i (suc count) k s l h b = elim (ℕ_discrete i k) [
      | yes e ↦
          for_from-before (i + 1) count k (body i s) (omega arith)
          ∙ subst (λ j. sm_at o (body i s) j ≡ f j (sm_at o s j)) e (c.its_own i s (omega arith))
      | no d ↦
          for_from-changed (i + 1) count k (body i s) (omega arith) (omega arith)
            (omega (arith, c.as_long i s))
          ∙ ap (f k) (c.no_other i k s d)
    ]

  put_sm_self :
      (i : ℕ) (f : Sm → Sm) (s : System)
      → i < length s.sms
      → sm_at o (put_sm o i f s) i ≡ f (sm_at o s i)
  put_sm_self i f s h = get_or-set_self s.sms i (f (sm_at o s i)) o.sm h

  put_sm_other :
      (i j : ℕ) (f : Sm → Sm) (s : System) → i ≢ j → sm_at o (put_sm o i f s) j ≡ sm_at o s j
  put_sm_other i j f s d = get_or-set_ne s.sms i j (f (sm_at o s i)) o.sm d

  abbrev new_sm : ℕ → Sm → Sm
  new_sm i sm = reset_sm (sm_defaults i sm)

  new_sm-Changes : Changes (default_sm o) new_sm
  new_sm-Changes = record {
    its_own = λ i s h.
        put_sm_self i reset_sm (put_sm o i (sm_defaults i) s)
          (subst (λ n. i < n) (sym (length-set s.sms i (sm_defaults i (sm_at o s i)))) h)
        ∙ ap reset_sm (put_sm_self i (sm_defaults i) s h);
    no_other = λ i j s d.
        put_sm_other i j reset_sm (put_sm o i (sm_defaults i) s) d
        ∙ put_sm_other i j (sm_defaults i) s d;
    as_long = λ i s.
        let s' = put_sm o i (sm_defaults i) s in
        length-set s'.sms i (reset_sm (sm_at o s' i))
        ∙ length-set s.sms i (sm_defaults i (sm_at o s i));
  }

  pios_defaults-sms : (s : System) → (hardware_set_pios_defaults o s).sms ≡ s.sms
  unfolding hardware_set_pios_defaults hardware_set_pio_defaults hardware_set_pio_instruction_cache
      for_from
  pios_defaults-sms s = refl

  defaults-sms :
      (s : System)
      → (hardware_set_system_defaults o s).sms
        ≡ (hardware_set_sms_defaults o
            (hardware_set_pios_defaults o record s { current_pio = pos 0; current_sm = pos 0 })).sms
  unfolding hardware_set_system_defaults instruction_set_global_default
      hardware_reset_user_processors hardware_reset_ih_processors for_from
  defaults-sms s = refl

  defaults-sm :
      (s : System) (k : ℕ)
      → length s.sms ≡ 8
      → k < 8
      → sm_at o (hardware_set_system_defaults o s) k ≡ new_sm k (sm_at o s k)
  unfolding hardware_set_sms_defaults
  defaults-sm s k e h =
      let s0 = record s { current_pio = pos 0; current_sm = pos 0 } in
      let s1 = hardware_set_pios_defaults o s0 in
      ap (λ (sms : List Sm). get_or sms k o.sm) (defaults-sms s)
      ∙ for_from-changed (default_sm o) new_sm new_sm-Changes 0 8 k s1 (omega arith) h
          (omega (arith, e, ap (λ (sms : List Sm). length sms) (pios_defaults-sms s0)))
      ∙ ap (λ (sms : List Sm). new_sm k (get_or sms k o.sm)) (pios_defaults-sms s0)

  -- After the defaults, the state machine `k` has no instruction to execute and two empty queues, and
  -- is the machine `k % 4` of the PIO `k / 4`.
  pub defaults-new :
      (s : System) (k : ℕ)
      → length s.sms ≡ 8
      → length (sm_at o s k).fifo.buffer ≡ 8
      → k < 8
      → let sm = sm_at o (hardware_set_system_defaults o s) k in
        (sm.pc ≡ negsuc 0)
        × (sm.pio_num ≡ k / 4)
        × (sm.this_num ≡ k % 4)
        × Holds sm.fifo (no_values bidi)
  unfolding reset_sm sm_defaults
  defaults-new s k e b h =
      rw (defaults-sm s k e h) (refl, refl, refl, init-Holds (sm_at o s k).fifo bidi b)

  idle : (s : System) (k : ℕ) → (sm_at o s k).pc ≡ negsuc 0 → sm_runnable o s k ≡ false
  unfolding sm_runnable
  idle s k e = ground arith

find_sm-none :
    (runnable : ℕ → Bool) (rounds : ℕ) (t : Turn)
    → ((k : ℕ) → k < 8 → runnable k ≡ false)
    → (find_sm runnable rounds t).0 ≡ none
unfolding find_sm
find_sm-none runnable zero t h = refl
find_sm-none runnable (suc rounds) t h =
    rw (h (sm_round t).0 (sm_round-range t).0)
      (find_sm-none runnable rounds (turn_at (sm_round t)) h)

module _ (o : Outside) where
  next_instruction-none :
      (s : System)
      → (find_sm (sm_runnable o s) all_sms s.sm_turn).0 ≡ none
      → (next_instruction o s).0 ≡ none
  unfolding next_instruction
  next_instruction-none s e = ground arith

  -- After the defaults, `next_instruction` returns NULL.
  pub defaults-idle :
      (s : System)
      → length s.sms ≡ 8
      → (next_instruction o (hardware_set_system_defaults o s)).0 ≡ none
  unfolding reset_sm sm_defaults
  defaults-idle s e =
      let s' = hardware_set_system_defaults o s in
      next_instruction-none s' (
        find_sm-none (sm_runnable o s') all_sms s'.sm_turn
          (λ k h. idle o s' k (ap (λ (sm : Sm). sm.pc) (defaults-sm o s k e h))))
