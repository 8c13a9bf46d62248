-- ===== src/Bits/Registers.antt =====
-- The shift registers: what `copy_n_then_shift` and `shift_n_then_copy` move between a register and
-- the bits that go in or out.
use Prim.Native.Nat.{bit_and}
use simpio.Base.{ℕ, ◌+◌, ◌-◌, ◌*◌, ◌/◌, ◌%◌, ◌^◌, ◌<◌, ◌≡◌, refl, ◌==◌, true, false, arith, ap}
use simpio.Bits.{shl, copy_n_then_shift, shift_n_then_copy, complement}
use simpio.Bits.Mask.{all_below, all_below_lem, complement-shl, bit_and-ones, pos_two_pow}
use native.Mathlib.Nat.{
  mul_comm, div-lt_iff_lt-mul, mul-le-mul_right, mul-lt-mul_of_pos_right, div-add-mod, mod-lt,
}
use simpio.Undefined.{Undefined}

two_pow_split : (n : ℕ) → n < 33 → 2 ^ n * 2 ^ (32 - n) ≡ 2 ^ 32
two_pow_split n h = ground (arith, all_below_lem 33 (λ k. 2 ^ k * 2 ^ (32 - k) == 2 ^ 32) n splits)
  where
    splits : all_below 33 (λ k. 2 ^ k * 2 ^ (32 - k) == 2 ^ 32) ≡ true
    splits = unfold all_below in refl

module _ (p q : ℕ) (p_pos : 0 < p) (q_pos : 0 < q) (pq : p * q ≡ 2 ^ 32) where
  low_fits : (s : ℕ) → s % p * q < 2 ^ 32
  low_fits s = rw (← pq) (mul-lt-mul_of_pos_right (mod-lt s p_pos) q_pos)

  high_fits : (s : ℕ) → s % q * p < 2 ^ 32
  high_fits s = rw (← pq, mul_comm p q) (mul-lt-mul_of_pos_right (mod-lt s q_pos) p_pos)

  -- What comes in beside what stays does not reach the modulus.
  right_fits : (d s : ℕ) → d < 2 ^ 32 → d / p + s % p * q < 2 ^ 32
  right_fits d s h = omega (
    arith,
    pq,
    (div-lt_iff_lt-mul {k = p} {x = d} {y = q} p_pos).1 (rw (mul_comm q p, pq) h),
    mul-le-mul_right q (mod-lt s p_pos),
  )

  left_fits : (d s : ℕ) → d % q * p + s % p < 2 ^ 32
  left_fits d s =
      omega (arith, pq, mod-lt s p_pos, mul-le-mul_right p (mod-lt d q_pos), mul_comm p q)

  -- The part of a register that a shift to the left does not push out.
  mul-mod : (x : ℕ) → x * p % 2 ^ 32 ≡ x % q * p
  mul-mod x =
      omega (
        arith,
        ap (λ (t : ℕ). t * p) (div-add-mod x q),
        ap (λ (t : ℕ). t * (x / q)) pq,
        high_fits x,
      )

module _ (u : Undefined) (n x : ℕ) (small : n < 32) where
  masked : bit_and x (complement (shl u 0xFFFFFFFF n)) ≡ x % 2 ^ n
  masked = rw (complement-shl u n small) (bit_and-ones n x)

  -- To the right by fewer than 32 bits, the `n` low bits are copied, and the register keeps the
  -- others, moved down.
  pub copy_right : copy_n_then_shift u true x n ≡ (x % 2 ^ n, x / 2 ^ n)
  unfolding copy_n_then_shift
  copy_right = ground (arith, masked)

  moved_up : x * 2 ^ n % 2 ^ 32 ≡ x % 2 ^ (32 - n) * 2 ^ n
  moved_up =
      mul-mod (2 ^ n) (2 ^ (32 - n)) (pos_two_pow n) (pos_two_pow (32 - n))
        (two_pow_split n (omega arith)) x

  -- To the left by 1 to 31 bits, the `n` high bits are copied, and the register keeps the others,
  -- moved up.
  pub copy_left :
      0 < n → copy_n_then_shift u false x n ≡ (x / 2 ^ (32 - n), x % 2 ^ (32 - n) * 2 ^ n)
  unfolding copy_n_then_shift
  copy_left pos = ground (arith, moved_up)

module _ (u : Undefined) (n source destination : ℕ) (small : n < 32) where
  -- Shifting 1 to 31 bits in to the right moves a 32-bit register down by `n` bits, and puts the `n`
  -- low bits of the source above them.
  pub shift_in_right :
      0 < n
      → destination < 2 ^ 32
      → shift_n_then_copy u true source destination n
        ≡ destination / 2 ^ n + source % 2 ^ n * 2 ^ (32 - n)
  unfolding shift_n_then_copy
  shift_in_right pos h = ground (
    arith,
    masked u n source small,
    low_fits (2 ^ n) (2 ^ (32 - n)) (pos_two_pow n) (pos_two_pow (32 - n))
        (two_pow_split n (omega arith)) source,
    right_fits (2 ^ n) (2 ^ (32 - n)) (pos_two_pow n) (pos_two_pow (32 - n))
        (two_pow_split n (omega arith)) destination source h,
  )

  -- Shifting fewer than 32 bits in to the left moves the register up by `n` bits, and puts the `n`
  -- low bits of the source below them.
  pub shift_in_left :
      shift_n_then_copy u false source destination n
      ≡ destination % 2 ^ (32 - n) * 2 ^ n + source % 2 ^ n
  unfolding shift_n_then_copy
  shift_in_left = ground (
    arith,
    masked u n source small,
    moved_up u n destination small,
    left_fits (2 ^ n) (2 ^ (32 - n)) (pos_two_pow n) (pos_two_pow (32 - n))
        (two_pow_split n (omega arith)) destination source,
  )
