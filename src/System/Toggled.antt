-- ===== src/System/Toggled.antt =====
-- A breakpoint that is toggled, and toggled again.
use simpio.Base.{
  ℕ, zero, suc, ◌==◌, ◌≡◌, refl, ap, Bool, true, false, not, Option, none, some, if◌then◌else◌,
  List, [], ◌∷◌, pos_part,
}
use simpio.Instruction.{Instruction, UserInstruction}
use simpio.User.{UserProcessor}
use simpio.System.{System, Pio, num_pios, num_user_processors}
use simpio.System.Entries.{num_user_instructions}
use simpio.System.Breakpoints.{
  change_first, toggle, user_toggle, with_instructions, with_user_instructions, pio_toggle,
  up_toggle, instruction_toggle_breakpoint,
}

-- The result that `f` has changed an element into is taken back by `f`.
abbrev Returned {ℓ} : {A : Type ℓ} → (A → Option A) → A → Option A → Type ℓ
Returned f x none = Unit
Returned f x (some x') = f x' ≡ some x

abbrev Back {ℓ} : {A : Type ℓ} → (A → Option A) → Type ℓ
Back {A = A} f = (x : A) → Returned f x (f x)

module _ {ℓ} {A : Type ℓ} (f : A → Option A) where
  changed-here :
      (count : ℕ) (x x' : A) (xs : List A)
      → f x ≡ some x'
      → change_first f (suc count) (x ∷ xs) ≡ some (x' ∷ xs)
  unfolding change_first
  changed-here count x x' xs e = rw (change_first, e) refl

  changed-later :
      (count : ℕ) (x : A) (xs xs' : List A)
      → f x ≡ none
      → change_first f count xs ≡ some xs'
      → change_first f (suc count) (x ∷ xs) ≡ some (x ∷ xs')
  unfolding change_first
  changed-later count x xs xs' e h = rw (change_first, e, h) refl

  change_first-Back : Back f → (count : ℕ) → Back (change_first f count)
  unfolding change_first
  change_first-Back back zero xs = tt
  change_first-Back back (suc count) [] = tt
  change_first-Back back (suc count) (x ∷ xs) =
      choose (f x) (change_first f count xs) refl refl (back x) (change_first-Back back count xs)
    where
      choose :
          (r : Option A) (rest : Option (List A))
          → f x ≡ r
          → change_first f count xs ≡ rest
          → Returned f x r
          → Returned (change_first f count) xs rest
          → Returned (change_first f (suc count)) (x ∷ xs) (elim r as (λ r'. Option (List A)) [
            | some x' ↦ some (x' ∷ xs)
            | none ↦ elim rest as (λ r'. Option (List A)) [
              | none ↦ none
              | some xs' ↦ some (x ∷ xs')
            ]
          ])
      choose (some x') rest e h b k = changed-here count x' x xs b
      choose none none e h b k = tt
      choose none (some xs') e h b k = changed-later count x xs' xs e k

not-not : (b : Bool) → not (not b) ≡ b
not-not true = refl
not-not false = refl

toggle-Back : (line : ℕ) → Back (toggle line)
toggle-Back line x = choose (x.line == line) refl
  where
    choose :
        (b : Bool)
        → (x.line == line) ≡ b
        → Returned
            (toggle line)
            x
            (if b then some record x { is_breakpoint = not x.is_breakpoint } else none)
    choose true e = rw (e, not-not x.is_breakpoint) refl
    choose false e = tt

user_toggle-Back : (line : ℕ) → Back (user_toggle line)
user_toggle-Back line x = choose (x.line == line) refl
  where
    choose :
        (b : Bool)
        → (x.line == line) ≡ b
        → Returned
            (user_toggle line)
            x
            (if b then some record x { is_breakpoint = not x.is_breakpoint } else none)
    choose true e = rw (e, not-not x.is_breakpoint) refl
    choose false e = tt

pio_toggle-Back : (line : ℕ) → Back (pio_toggle line)
pio_toggle-Back line p =
    choose (change_first (toggle line) count p.instructions)
      (change_first-Back (toggle line) (toggle-Back line) count p.instructions)
  where
    count : ℕ
    count = pos_part p.next_instruction_location

    choose :
        (r : Option (List Instruction))
        → Returned (change_first (toggle line) count) p.instructions r
        → Returned (pio_toggle line) p (with_instructions p r)
    choose none h = tt
    choose (some is) h = ap (with_instructions p) h

up_toggle-Back : (line : ℕ) → Back (up_toggle line)
up_toggle-Back line up =
    choose (change_first (user_toggle line) num_user_instructions up.instructions) (
      change_first-Back (user_toggle line) (user_toggle-Back line) num_user_instructions
        up.instructions)
  where
    choose :
        (r : Option (List UserInstruction))
        → Returned (change_first (user_toggle line) num_user_instructions) up.instructions r
        → Returned (up_toggle line) up (with_user_instructions up r)
    choose none h = tt
    choose (some is) h = ap (with_user_instructions up) h

-- To toggle the breakpoint of a line twice leaves everything as it was.
pub toggle-toggle :
    (line : ℕ) (s : System)
    → (instruction_toggle_breakpoint line (instruction_toggle_breakpoint line s).1).1 ≡ s
unfolding instruction_toggle_breakpoint change_first
toggle-toggle line s =
    choose (change_first (pio_toggle line) num_pios s.pios)
      (change_first (up_toggle line) num_user_processors s.user_processors) refl refl
      (change_first-Back (pio_toggle line) (pio_toggle-Back line) num_pios s.pios)
      (change_first-Back (up_toggle line) (up_toggle-Back line) num_user_processors
        s.user_processors)
  where
    choose :
        (r : Option (List Pio)) (r' : Option (List UserProcessor))
        → change_first (pio_toggle line) num_pios s.pios ≡ r
        → change_first (up_toggle line) num_user_processors s.user_processors ≡ r'
        → Returned (change_first (pio_toggle line) num_pios) s.pios r
        → Returned (change_first (up_toggle line) num_user_processors) s.user_processors r'
        → (instruction_toggle_breakpoint line
            (elim r as (λ x. Bool × System) [
              | some pios ↦ (true, record s { pios = pios })
              | none ↦ elim r' as (λ x. Bool × System) [
                | some ups ↦ (true, record s { user_processors = ups })
                | none ↦ (false, s)
              ]
            ]).1).1
          ≡ s
    choose (some pios) r' e e' h h' = rw (h) refl
    choose none (some ups) e e' h h' = rw (e, h') refl
    choose none none e e' h h' = rw (e, e') refl
