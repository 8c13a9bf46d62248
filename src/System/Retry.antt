-- ===== src/System/Retry.antt =====
-- The search for a user instruction, which may find nothing, and the one that tries again.
use simpio.Base.{
  ℕ, ◌⊎◌, zero, suc, ◌+◌, ◌<◌, ◌≡◌, refl, Bool, true, false, Option, none, some, arith,
}
use simpio.Enumerator.{enum_next}
use simpio.System.{Turn, num_user_processors}
use simpio.System.Turns.{user_round, find_user}

-- What `next_user_instruction` and the `try_user` after it find.
unfoldable pub find_user_twice : (ℕ → Bool) → Bool → Turn → Option ℕ
unfolding find_user
find_user_twice runnable dont_switch t =
    let (found, t') = find_user runnable dont_switch num_user_processors t in
    elim found [ some i ↦ some i | none ↦ (find_user runnable false num_user_processors t').0 ]

-- The enumerator is behind the current processor, if there is one.
abbrev pub InRange : Turn → Type 0
InRange t = elim t.current [ none ↦ Unit | some i ↦ (i < 2) × (t.e ≡ i + 1) ]

Finds : (ℕ → Bool) → Bool → Turn → Type 0
Finds runnable dont_switch t =
    (r : ℕ) × (find_user_twice runnable dont_switch t ≡ some r) × (runnable r ≡ true)

find_cases :
    (runnable : ℕ → Bool) (dont_switch : Bool) (e : ℕ) (c : Option ℕ) (can_0 can_1 : Bool)
    → runnable 0 ≡ can_0
    → runnable 1 ≡ can_1
    → InRange (record { current = c; e = e })
    → (can_0 ≡ true) ⊎ (can_1 ≡ true)
    → Finds runnable dont_switch (record { current = c; e = e })
unfolding Finds find_user_twice find_user user_round enum_next
find_cases runnable dont_switch e none true can_1 p q v s = (0, ground arith, p)
find_cases runnable false e none false can_1 p q v s = (1, ground arith, ground arith)
find_cases runnable true e none false can_1 p q v s = (1, ground arith, ground arith)
find_cases runnable false e (some zero) can_0 true p q v s = (1, ground arith, q)
find_cases runnable false e (some zero) can_0 false p q v s = (0, ground arith, ground arith)
find_cases runnable true e (some zero) true can_1 p q v s = (0, ground arith, p)
find_cases runnable true e (some zero) false can_1 p q v s = (1, ground arith, ground arith)
find_cases runnable false e (some (suc zero)) true can_1 p q v s = (0, ground arith, p)
find_cases runnable false e (some (suc zero)) false can_1 p q v s = (1, ground arith, ground arith)
find_cases runnable true e (some (suc zero)) can_0 true p q v s = (1, ground arith, q)
find_cases runnable true e (some (suc zero)) can_0 false p q v s = (0, ground arith, ground arith)
find_cases runnable dont_switch e (some (suc (suc i))) can_0 can_1 p q v s = absurd (omega arith)

-- If a user processor can run, `next_user_instruction` and the `try_user` after it find one that can,
-- although one call of `next_user_instruction` may find none.
pub find_user_twice_lem :
    (runnable : ℕ → Bool) (dont_switch : Bool) (t : Turn)
    → InRange t
    → (runnable 0 ≡ true) ⊎ (runnable 1 ≡ true)
    → (r : ℕ) × (find_user_twice runnable dont_switch t ≡ some r) × (runnable r ≡ true)
unfolding Finds
find_user_twice_lem runnable dont_switch t v s =
    find_cases runnable dont_switch t.e t.current (runnable 0) (runnable 1) refl refl v s
