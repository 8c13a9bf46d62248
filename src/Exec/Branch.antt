-- ===== src/Exec/Branch.antt =====
-- Loops that a program counts with JMP X--.
use simpio.Base.{
  ℕ, zero, suc, ◌^◌, ◌<◌, ◌≡◌, refl, sym, subst, ap, ap₂, ◌∙◌, not, ◌==◌, Bool, true, false, List,
  arith,
}
use simpio.Instruction.{x_decrement}
use simpio.Hardware.{Sm, Gpio}
use simpio.Exec.Flow.{jmp_branch, decrement}

-- JMP X-- executed `n` times over: whether it branched each time, and the state machine it leaves.
pub turns : ℕ → List Gpio → Sm → Bool × Sm
turns zero gpios sm = (true, sm)
turns (suc n) gpios sm =
    let (branch, sm') = jmp_branch x_decrement gpios sm in
    let (others, sm'') = turns n gpios sm' in (elim branch [ true ↦ others | false ↦ false ], sm'')

decrement-zero : decrement 0 ≡ 0xFFFFFFFF
decrement-zero = omega arith

decrement-suc : (n : ℕ) → n < 2 ^ 32 → decrement (suc n) ≡ n
decrement-suc n h = omega arith

nonzero : (n : ℕ) → not (suc n == 0) ≡ true
nonzero n = ground arith

x_step :
    (gpios : List Gpio) (sm : Sm) (v w : ℕ) (b : Bool)
    → sm.scratch_x ≡ v
    → not (v == 0) ≡ b
    → decrement v ≡ w
    → jmp_branch x_decrement gpios sm ≡ (b, record sm { scratch_x = w })
unfolding jmp_branch
x_step gpios sm v w b e n d =
    ap (λ (t : ℕ). (not (t == 0), record sm { scratch_x = decrement t })) e
    ∙ ap₂ (λ (r : Bool) (t : ℕ). (r, record sm { scratch_x = t })) n d

turns-suc :
    (n : ℕ) (gpios : List Gpio) (sm sm' : Sm)
    → jmp_branch x_decrement gpios sm ≡ (true, sm')
    → turns (suc n) gpios sm ≡ turns n gpios sm'
unfolding turns
turns-suc n gpios sm sm' e =
    ap
      (λ (r : Bool × Sm).
        (elim r.0 [ true ↦ (turns n gpios r.1).0 | false ↦ false ], (turns n gpios r.1).1))
      e

-- A JMP X-- with a 32-bit `n` in the scratch register X branches `n` times, and then once does not.
-- It leaves all ones in X, and the rest of the state machine as it was.
pub turns-x_decrement :
    (n : ℕ) (gpios : List Gpio) (sm : Sm)
    → sm.scratch_x ≡ n
    → n < 2 ^ 32
    → (turns n gpios sm ≡ (true, record sm { scratch_x = 0 }))
      × (jmp_branch x_decrement gpios (turns n gpios sm).1
          ≡ (false, record sm { scratch_x = 0xFFFFFFFF }))
unfolding turns
turns-x_decrement zero gpios sm e h = (
  ap (λ (t : ℕ). (true, record sm { scratch_x = t })) e,
  x_step gpios sm 0 0xFFFFFFFF false e refl decrement-zero,
)
turns-x_decrement (suc n) gpios sm e h =
    subst
      (λ (t : Bool × Sm).
        (t ≡ (true, record sm { scratch_x = 0 }))
        × (jmp_branch x_decrement gpios t.1 ≡ (false, record sm { scratch_x = 0xFFFFFFFF })))
      (sym (
        turns-suc n gpios sm (record sm { scratch_x = n })
          (x_step gpios sm (suc n) n true e (nonzero n) (decrement-suc n (omega arith)))))
      (turns-x_decrement n gpios (record sm { scratch_x = n }) refl (omega arith))
