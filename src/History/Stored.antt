-- ===== src/History/Stored.antt =====
-- What the array of src/hardware_changed.c holds after fewer than 50 updates from its start.
use simpio.Base.{
  sym, ◌≡◌, arith, refl, ap, ap₂, subst, ◌∙◌, ℕ, suc, ◌+◌, ◌<◌, ◌≤◌, List, [], ◌∷◌, ◌++◌, map,
  get_or, set, get_or-set_self, get_or-set_ne, length, length-set, length-append,
}
use native.Mathlib.Nat.{add-zero}
use simpio.Enumerator.{numbers_from}
use simpio.Hardware.{Gpio, num_gpios}
use simpio.History.{Entry, History, history_init, history_update, history_advance, gpio_levels}

-- A sequence of updates, each with the lines and the clock that it finds.
unfoldable pub updates : List (List Gpio × ℕ) → History → History
updates [] h = h
updates ((gpios, tick) ∷ rest) h = updates rest (history_update gpios tick h)

-- The entry that an update stores.
abbrev pub entry_of : List Gpio × ℕ → Entry
entry_of (gpios, tick) = record { values = gpio_levels gpios 0 num_gpios; clock_tick = tick }

append_nil : (us : List (List Gpio × ℕ)) → us ++ [] ≡ us
append_nil [] = refl
append_nil (u ∷ us) = ap (λ (vs : List (List Gpio × ℕ)). u ∷ vs) (append_nil us)

abbrev after : ℕ → History → History
after n h = record h { count = n + 1; current_index = n + 1 }

module _ (outside : Entry) where
  abbrev pub entry_at : History → ℕ → Entry
  entry_at h i = get_or h.gpio_history i outside

  -- After `n` updates of an array of 50 entries.
  abbrev pub Stored : ℕ → History → Type 0
  Stored n h = (h.count ≡ n) × (h.current_index ≡ n) × (length h.gpio_history ≡ 50)

  advanced : (n : ℕ) (h : History) → n < 49 → Stored n h → history_advance h ≡ after n h
  unfolding history_advance
  advanced n h l (c, i, s) = ground arith

  stored :
      (gpios : List Gpio) (tick n : ℕ) (h : History)
      → n < 49
      → Stored n h
      → history_update gpios tick h
        ≡ record (after n h) { gpio_history = set h.gpio_history (n + 1) (entry_of (gpios, tick)) }
  unfolding history_update
  stored gpios tick n h l s = rw (advanced n h l s) refl

  update-Stored :
      (gpios : List Gpio) (tick n : ℕ) (h : History)
      → n < 49
      → Stored n h
      → Stored (n + 1) (history_update gpios tick h)
  update-Stored gpios tick n h l s =
      rw (stored gpios tick n h l s)
        (refl, refl, length-set h.gpio_history (n + 1) (entry_of (gpios, tick)) ∙ s.2)

  update-entry :
      (gpios : List Gpio) (tick n : ℕ) (h : History)
      → n < 49
      → Stored n h
      → entry_at (history_update gpios tick h) (n + 1) ≡ entry_of (gpios, tick)
  update-entry gpios tick n h l s = rw (stored gpios tick n h l s) (
      get_or-set_self h.gpio_history (n + 1) (entry_of (gpios, tick)) outside
        (omega (arith, l, s.2)))

  update-older :
      (gpios : List Gpio) (tick n j : ℕ) (h : History)
      → n < 49
      → Stored n h
      → j ≤ n
      → entry_at (history_update gpios tick h) j ≡ entry_at h j
  update-older gpios tick n j h l s le = rw (stored gpios tick n h l s) (
      get_or-set_ne h.gpio_history (n + 1) j (entry_of (gpios, tick)) outside
        (λ e. absurd (omega (arith, e, le))))

  pub updates-older :
      (us : List (List Gpio × ℕ)) (n j : ℕ) (h : History)
      → n + length us < 50
      → Stored n h
      → j ≤ n
      → entry_at (updates us h) j ≡ entry_at h j
  unfolding updates
  updates-older [] n j h l s le = refl
  updates-older ((gpios, tick) ∷ us) n j h l s le =
      updates-older us (n + 1) j (history_update gpios tick h) (omega (arith, l))
        (update-Stored gpios tick n h (omega (arith, l)) s) (omega (arith, le))
      ∙ update-older gpios tick n j h (omega (arith, l)) s le

  pub updates-Stored :
      (us : List (List Gpio × ℕ)) (n : ℕ) (h : History)
      → n + length us < 50
      → Stored n h
      → Stored (n + length us) (updates us h)
  unfolding updates
  updates-Stored [] n h (l) s = rw (add-zero) s
  updates-Stored ((gpios, tick) ∷ us) n h l s =
      let h' : History = updates us (history_update gpios tick h) in
      let e : n + 1 + length us ≡ n + suc (length us) = omega arith in
      subst (λ (k : ℕ). Stored k h') e
        (updates-Stored us (n + 1) (history_update gpios tick h) (omega (arith, l))
          (update-Stored gpios tick n h (omega (arith, l)) s))

  pub updates-entries :
      (before rest : List (List Gpio × ℕ)) (n : ℕ) (h : History)
      → n + length before + length rest < 50
      → Stored n h
      → map (entry_at (updates (before ++ rest) h)) (numbers_from (n + 1) (length before))
        ≡ map entry_of before
  unfolding numbers_from updates
  updates-entries [] rest n h l s = refl
  updates-entries ((gpios, tick) ∷ before) rest n h l s =
      let h' : History = history_update gpios tick h in
      let s' = update-Stored gpios tick n h (omega (arith, l)) s in
      ap₂ ◌∷◌
        (updates-older (before ++ rest) (n + 1) (n + 1) h'
            (omega (arith, l, length-append before rest)) s' (omega arith)
          ∙ update-entry gpios tick n h (omega (arith, l)) s)
        (updates-entries before rest (n + 1) h' (omega (arith, l)) s')

  -- Of fewer than 50 updates since the history was started, each has stored its lines and its clock in
  -- an entry of its own, in their order from the entry 1 on. The index and the count are their number,
  -- and the entry 0 is as it was.
  pub updates-history_init :
      (us : List (List Gpio × ℕ)) (h : History)
      → length us < 50
      → length h.gpio_history ≡ 50
      → let h' = updates us (history_init h).1 in
        (h'.current_index ≡ length us)
        × (h'.count ≡ length us)
        × (map (entry_at h') (numbers_from 1 (length us)) ≡ map entry_of us)
        × (entry_at h' 0 ≡ entry_at h 0)
  unfolding history_init
  updates-history_init us h l s =
      let h0 : History = (history_init h).1 in
      let s0 : Stored 0 h0 = (refl, refl, s) in
      let (count, index, _) = updates-Stored us 0 h0 (omega (arith, l)) s0 in
      (
        index ∙ omega arith,
        count ∙ omega arith,
        ap
              (λ (vs : List (List Gpio × ℕ)).
                map (entry_at (updates vs h0)) (numbers_from 1 (length us)))
              (sym (append_nil us))
            ∙ updates-entries us [] 0 h0 (omega (arith, l)) s0,
        updates-older us 0 0 h0 (omega (arith, l)) s0 (omega arith),
      )
