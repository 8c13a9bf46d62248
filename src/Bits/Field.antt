-- ===== src/Bits/Field.antt =====
-- `instruction_field` takes a run of binary digits out of a machine instruction.
use Prim.Native.Nat.add
use simpio.Base.{
  ◌∙◌, refl, true, leb, ℕ, zero, suc, ◌+◌, ◌-◌, ◌*◌, ◌/◌, ◌%◌, ◌^◌, ◌≤◌, ◌<◌, ◌≡◌, bit, arith, ap,
  ap₂,
}
use simpio.Bits.{u16, nth_bit, field_loop, instruction_field}
use simpio.Bits.Mask.{
  all_below, all_below_lem, nth_bit-digit, pos_two_pow, div-two_pow-suc, mod-two_pow-suc,
}
use native.Mathlib.Nat.{mod-lt, pow-suc, div-div-eq-div-mul}
use simpio.Undefined.{Undefined}

-- One more digit of a number, from the low end.
mod-pow-suc_high : (a k : ℕ) → a % 2 ^ suc k ≡ a % 2 ^ k + a / 2 ^ k % 2 * 2 ^ k
mod-pow-suc_high a zero = ground arith
mod-pow-suc_high a (suc k) = omega (
  arith,
  mod-two_pow-suc a (suc k),
  mod-two_pow-suc a k,
  mod-pow-suc_high (a / 2) k,
  ap (λ (t : ℕ). t % 2 * 2 ^ suc k) (div-two_pow-suc a k),
  ap (λ (t : ℕ). a / 2 / 2 ^ k % 2 * t) (pow-suc 2 k),
)

two_pow_add : (a b : ℕ) → 2 ^ (a + b) ≡ 2 ^ a * 2 ^ b
two_pow_add zero b = ground arith
two_pow_add (suc a) b = omega (
  arith,
  ap (λ (t : ℕ). 2 ^ t) (add.suc a b),
  pow-suc 2 (a + b),
  pow-suc 2 a,
  ap (λ (t : ℕ). 2 * t) (two_pow_add a b),
  ap (λ (t : ℕ). t * 2 ^ b) (pow-suc 2 a),
)

two_pow_le : (k : ℕ) → k < 17 → 2 ^ k ≤ 2 ^ 16
two_pow_le k h = ground (arith, all_below_lem 17 (λ i. leb (2 ^ i) (2 ^ 16)) k bounds)
  where
    bounds : all_below 17 (λ i. leb (2 ^ i) (2 ^ 16)) ≡ true
    bounds = unfold all_below in refl

module _ (u : Undefined) (mi from : ℕ) where
  digit_at : (k : ℕ) → from + k < 32 → bit (nth_bit u (from + k) mi) ≡ mi / 2 ^ from / 2 ^ k % 2
  digit_at k h = ground (
    arith,
    nth_bit-digit u (from + k) mi h,
    div-div-eq-div-mul mi (2 ^ from) (2 ^ k),
    ap (λ (t : ℕ). mi / t % 2) (two_pow_add from k),
  )

  field_loop_lem :
      (count k n : ℕ)
      → n ≡ from + k
      → n + count ≤ 16
      → field_loop u mi from n count (mi / 2 ^ from % 2 ^ k) ≡ mi / 2 ^ from % 2 ^ (k + count)
  unfolding field_loop
  field_loop_lem zero k n e h = ap (λ (t : ℕ). mi / 2 ^ from % 2 ^ t) (omega arith)
  field_loop_lem (suc count) k n e h =
      ap (field_loop u mi from (n + 1) count) step
      ∙ field_loop_lem count (suc k) (n + 1) (omega arith) (omega arith)
      ∙ ap (λ (t : ℕ). mi / 2 ^ from % 2 ^ t) (omega arith)
    where
      behind : n - from ≡ k
      behind = omega arith

      step :
          u16 (mi / 2 ^ from % 2 ^ k + bit (nth_bit u n mi) * 2 ^ (n - from))
          ≡ mi / 2 ^ from % 2 ^ suc k
      step = omega (
        arith,
        ap₂ ◌*◌ (ap (λ t. bit (nth_bit u t mi)) e ∙ digit_at k (omega arith))
            (ap (λ (t : ℕ). 2 ^ t) behind),
        mod-pow-suc_high (mi / 2 ^ from) k,
        mod-lt (mi / 2 ^ from) (pos_two_pow (suc k)),
        two_pow_le (suc k) (omega arith),
      )

-- For `from` up to `to` below 16, the field of these bits is the quotient of the machine instruction
-- by `2 ^ from`, reduced by the power of two of their number.
pub instruction_field_lem :
    (u : Undefined) (mi from to : ℕ)
    → to < 16
    → from ≤ to
    → instruction_field u mi from to ≡ mi / 2 ^ from % 2 ^ (to + 1 - from)
unfolding instruction_field
instruction_field_lem u mi from to h le =
    ap (field_loop u mi from from (to + 1 - from)) (omega arith)
    ∙ field_loop_lem u mi from (to + 1 - from) 0 from (omega arith) (omega arith)
    ∙ ap (λ (t : ℕ). mi / 2 ^ from % 2 ^ t) (omega arith)

-- A field of no bits.
pub instruction_field-none :
    (u : Undefined) (mi from to : ℕ) → to < from → instruction_field u mi from to ≡ 0
unfolding instruction_field field_loop
instruction_field-none u mi from to h = ap (λ count. field_loop u mi from from count 0) no_count
  where
    no_count : to + 1 - from ≡ 0
    no_count = omega arith
