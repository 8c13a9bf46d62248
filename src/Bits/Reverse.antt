-- ===== src/Bits/Reverse.antt =====
-- `op_bit_reverse` reverses the 32 binary digits of a word.
use Prim.Native.Nat.{bit_and}
use simpio.Base.{
  ℕ, zero, suc, ◌+◌, ◌*◌, ◌/◌, ◌%◌, ◌^◌, ◌≤◌, ◌<◌, ◌≡◌, refl, arith, ap, ap₂, sym, ◌∙◌, Bool, true,
  false, bit, leb, ◌==◌,
}
use simpio.Base.{List, [], ◌∷◌, ◌++◌, length, length-append}
use mathlib.Core.List.{reverse, reverse-append, reverse-reverse, append-nil, append_assoc}
use simpio.Bits.{reverse_loop, op_bit_reverse, u32}
use simpio.Bits.Mask.{bit_and-ones, all_below, all_below_lem}
use native.Mathlib.Nat.{pow-suc}

-- The `n` low binary digits of a number, lowest first, and the number that digits stand for.
abbrev pub digits_of : ℕ → ℕ → List Bool
digits_of zero x = []
digits_of (suc n) x = (x % 2 == 1) ∷ digits_of n (x / 2)

abbrev pub value_of : List Bool → ℕ
value_of [] = 0
value_of (d ∷ ds) = bit d + 2 * value_of ds

value-digits : (n x : ℕ) → x < 2 ^ n → value_of (digits_of n x) ≡ x
value-digits zero x h = omega arith
value-digits (suc n) x h = ground (arith, value-digits n (x / 2), pow-suc 2 n)

digits-value : (ds : List Bool) → digits_of (length ds) (value_of ds) ≡ ds
digits-value [] = refl
digits-value (d ∷ ds) = ap₂ ◌∷◌ (lowest d) (ap (digits_of (length ds)) (others d) ∙ digits-value ds)
  where
    lowest : (b : Bool) → ((bit b + 2 * value_of ds) % 2 == 1) ≡ b
    lowest true = ground arith
    lowest false = ground arith

    others : (b : Bool) → (bit b + 2 * value_of ds) / 2 ≡ value_of ds
    others true = omega arith
    others false = omega arith

length-digits : (n x : ℕ) → length (digits_of n x) ≡ n
length-digits zero x = refl
length-digits (suc n) x = ap suc (length-digits n (x / 2))

reverse-cons : (d : Bool) (ds : List Bool) → reverse (d ∷ ds) ≡ reverse ds ++ (d ∷ [])
reverse-cons d ds = reverse-append (d ∷ []) ds

length-reverse : (ds : List Bool) → length (reverse ds) ≡ length ds
length-reverse [] = refl
length-reverse (d ∷ ds) =
    ap length (reverse-cons d ds)
    ∙ length-append (reverse ds) (d ∷ [])
    ∙ omega (arith, length-reverse ds)

value-lt : (ds : List Bool) → value_of ds < 2 ^ length ds
value-lt [] = omega arith
value-lt (d ∷ ds) = ground (arith, value-lt ds, pow-suc 2 (length ds))

two_pow_le : (k : ℕ) → k < 33 → 2 ^ k ≤ 2 ^ 32
two_pow_le k h = ground (arith, all_below_lem 33 (λ i. leb (2 ^ i) (2 ^ 32)) k bounds)
  where
    bounds : all_below 33 (λ i. leb (2 ^ i) (2 ^ 32)) ≡ true
    bounds = unfold all_below in refl

-- The loop moves the digits of `input` one by one to the low end of `output`.
reverse_loop_lem :
    (count : ℕ) (moved : List Bool) (input : ℕ)
    → length moved + count ≤ 32
    → reverse_loop count (value_of moved) input
      ≡ value_of (reverse (digits_of count input) ++ moved)
unfolding reverse_loop
reverse_loop_lem zero moved input h = refl
reverse_loop_lem (suc count) moved input h =
    ap (λ (t : ℕ). reverse_loop count t (input / 2)) step
    ∙ reverse_loop_lem count (low ∷ moved) (input / 2) (omega arith)
    ∙ ap value_of (
        sym (append_assoc (reverse (digits_of count (input / 2))) (low ∷ []) moved)
        ∙ ap (λ t. t ++ moved) (sym (reverse-cons low (digits_of count (input / 2)))))
  where
    low : Bool
    low = input % 2 == 1

    step : u32 (u32 (value_of moved * 2) + bit_and input 1) ≡ value_of (low ∷ moved)
    step = ground (
      arith,
      bit_and-ones 1 input,
      value-lt moved,
      pow-suc 2 (length moved),
      two_pow_le (suc (length moved)),
    )

-- The digits of the result are those of the input in reverse.
pub op_bit_reverse_lem : (x : ℕ) → op_bit_reverse x ≡ value_of (reverse (digits_of 32 x))
unfolding op_bit_reverse
op_bit_reverse_lem x =
    reverse_loop_lem 32 [] x (omega arith) ∙ ap value_of (append-nil (reverse (digits_of 32 x)))

-- The 32 digits of the result are the 32 digits of the argument in reverse.
pub digits-op_bit_reverse : (x : ℕ) → digits_of 32 (op_bit_reverse x) ≡ reverse (digits_of 32 x)
digits-op_bit_reverse x =
    ap₂ digits_of (sym (length-reverse (digits_of 32 x) ∙ length-digits 32 x))
      (op_bit_reverse_lem x)
    ∙ digits-value (reverse (digits_of 32 x))

-- Reversing the bits of a 32-bit value twice gives the value back.
pub op_bit_reverse_twice : (x : ℕ) → x < 2 ^ 32 → op_bit_reverse (op_bit_reverse x) ≡ x
op_bit_reverse_twice x h =
    op_bit_reverse_lem (op_bit_reverse x)
    ∙ ap (λ t. value_of (reverse t)) (digits-op_bit_reverse x)
    ∙ ap value_of (reverse-reverse (digits_of 32 x))
    ∙ value-digits 32 x h
