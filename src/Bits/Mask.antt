-- ===== src/Bits/Mask.antt =====
-- `&` with a low mask and with a single bit, as arithmetic, at every width.
use Prim.Native.Nat.{bit_and, digits, bit_and-bitwise}
use simpio.Base.{
  ℕ, zero, suc, ◌+◌, ◌-◌, ◌*◌, ◌/◌, ◌%◌, ◌^◌, ◌≤◌, ◌<◌, min, ltb-eq_true, ◌==◌, ◌≡◌, refl,
}
use simpio.Base.{Bool, true, ◌&&◌, arith, ap}
use native.Mathlib.Nat.{pow-suc, one-le-pow, div-div-eq-div-mul, div-add-mod, mul-div_cancel}
use simpio.Bits.{shl, shr, complement, nth_bit}
use simpio.Undefined.{Undefined}

-- The recursion on digits that the native operation stands for does not depend on its fuel.
abbrev meet : ℕ → ℕ → ℕ → ℕ
meet fuel a b = digits (λ _. zero) min fuel a b

meet_fuel : (m k a b : ℕ) → a ≤ m → a ≤ k → meet m a b ≡ meet k a b
meet_fuel m k zero b p q = fuel_zero m k
  where
    fuel_zero : (m k : ℕ) → meet m 0 b ≡ meet k 0 b
    fuel_zero zero zero = refl
    fuel_zero zero (suc k) = refl
    fuel_zero (suc m) zero = refl
    fuel_zero (suc m) (suc k) = refl
meet_fuel zero k (suc a) b p q = absurd (omega arith)
meet_fuel (suc m) zero (suc a) b p q = absurd (omega arith)
meet_fuel (suc m) (suc k) (suc a) b p q =
    omega (arith, meet_fuel m k (suc a / 2) (b / 2) (omega arith) (omega arith))

bit_and-zero_left : (b : ℕ) → bit_and 0 b ≡ 0
bit_and-zero_left b = bit_and-bitwise 0 b

-- One equation for the lowest digit.
bit_and-digit : (a b : ℕ) → bit_and a b ≡ bit_and (a / 2) (b / 2) * 2 + min (a % 2) (b % 2)
bit_and-digit zero b = omega (arith, bit_and-zero_left b, bit_and-zero_left (b / 2))
bit_and-digit (suc a) b = omega (
  arith,
  bit_and-bitwise (suc a) b,
  bit_and-bitwise (suc a / 2) (b / 2),
  meet_fuel a (suc a / 2) (suc a / 2) (b / 2) (omega arith) (omega arith),
)

bit_and-zero_below : (bound a : ℕ) → a ≤ bound → bit_and a 0 ≡ 0
bit_and-zero_below bound zero h = bit_and-zero_left 0
bit_and-zero_below zero (suc a) h = absurd (omega arith)
bit_and-zero_below (suc bound) (suc a) h =
    omega (arith, bit_and-digit (suc a) 0, bit_and-zero_below bound (suc a / 2) (omega arith))

bit_and-zero : (a : ℕ) → bit_and a 0 ≡ 0
bit_and-zero a = bit_and-zero_below a a (omega arith)

half-two_pow :
    (k : ℕ)
    → (2 ^ suc k / 2 ≡ 2 ^ k)
      × (2 ^ suc k % 2 ≡ 0)
      × ((2 ^ suc k - 1) / 2 ≡ 2 ^ k - 1)
      × ((2 ^ suc k - 1) % 2 ≡ 1)
half-two_pow k = omega (arith, pow-suc 2 k, one-le-pow k 2)

-- The digits above the lowest, of a quotient and of a remainder by a power of two.
pub div-two_pow-suc : (a k : ℕ) → a / 2 ^ suc k ≡ a / 2 / 2 ^ k
div-two_pow-suc a k = rw (div-div-eq-div-mul) (ap (λ (t : ℕ). a / t) (omega (arith, pow-suc 2 k)))

pub mul-two_pow-suc : (q k : ℕ) → q * 2 ^ suc k ≡ 2 * (q * 2 ^ k)
mul-two_pow-suc q k = omega (arith, ap (λ (t : ℕ). q * t) (pow-suc 2 k))

pub mod-two_pow-suc : (a k : ℕ) → a % 2 ^ suc k ≡ a / 2 % 2 ^ k * 2 + a % 2
mod-two_pow-suc a k = omega (
  arith,
  div-add-mod a (2 ^ suc k),
  div-add-mod (a / 2) (2 ^ k),
  ap (λ (t : ℕ). t * 2 ^ suc k) (div-two_pow-suc a k),
  mul-two_pow-suc (a / 2 / 2 ^ k) k,
)

-- A mask of `k` low ones is the remainder by `2 ^ k`.
pub bit_and-ones : (k a : ℕ) → bit_and a (2 ^ k - 1) ≡ a % 2 ^ k
bit_and-ones zero a = omega (arith, bit_and-zero a)
bit_and-ones (suc k) a = ground (
  arith,
  bit_and-digit a (2 ^ suc k - 1),
  half-two_pow k,
  bit_and-ones k (a / 2),
  mod-two_pow-suc a k,
)

-- A mask with the single bit `k` keeps that digit.
pub bit_and-one_bit : (k a : ℕ) → bit_and a (2 ^ k) ≡ a / 2 ^ k % 2 * 2 ^ k
bit_and-one_bit zero a = omega (arith, bit_and-digit a 1, bit_and-zero (a / 2))
bit_and-one_bit (suc k) a = ground (
  arith,
  bit_and-digit a (2 ^ suc k),
  half-two_pow k,
  bit_and-one_bit k (a / 2),
  div-two_pow-suc a k,
  mul-two_pow-suc (a / 2 / 2 ^ k % 2) k,
  ap (λ (t : ℕ). bit_and (a / 2) t) (half-two_pow k).0,
  ap (λ (t : ℕ). t % 2 * 2 ^ suc k) (div-two_pow-suc a k),
)

-- The shift counts are few: what holds of every count is checked count by count.
unfoldable pub all_below : ℕ → (ℕ → Bool) → Bool
all_below zero p = true
all_below (suc n) p = p n && all_below n p

pub all_below_lem : (n : ℕ) (p : ℕ → Bool) (x : ℕ) → all_below n p ≡ true → x < n → p x ≡ true
unfolding all_below
all_below_lem zero p x h lt = absurd (omega arith)
all_below_lem (suc n) p x h lt = ground (arith, all_below_lem n p x)

low_masks : all_below 32 (λ n. complement (0xFFFFFFFF * 2 ^ n % 2 ^ 32) == 2 ^ n - 1) ≡ true
unfolding all_below
low_masks = refl

one_bits : all_below 32 (λ n. 1 * 2 ^ n % 2 ^ 32 == 2 ^ n) ≡ true
unfolding all_below
one_bits = refl

pub pos_two_pow : (n : ℕ) → 0 < 2 ^ n
pos_two_pow n = one-le-pow n 2 (omega arith)

module _ (u : Undefined) where
  -- `~(0xFFFFFFFF << n)` has the `n` low bits set.
  pub complement-shl : (n : ℕ) → n < 32 → complement (shl u 0xFFFFFFFF n) ≡ 2 ^ n - 1
  unfolding shl
  complement-shl n h = ground (
    arith,
    all_below_lem 32 (λ k. complement (0xFFFFFFFF * 2 ^ k % 2 ^ 32) == 2 ^ k - 1) n low_masks,
  )

  pub shl-one : (n : ℕ) → n < 32 → shl u 1 n ≡ 2 ^ n
  unfolding shl
  shl-one n h = ground (arith, all_below_lem 32 (λ k. 1 * 2 ^ k % 2 ^ 32 == 2 ^ k) n one_bits)

  shr_one_bit : (n x : ℕ) → n < 32 → shr u (bit_and x (shl u 1 n)) n ≡ x / 2 ^ n % 2
  unfolding shr
  shr_one_bit n x h =
      rw (shl-one n h, ltb-eq_true n 32 h, bit_and-one_bit n x)
        (mul-div_cancel (x / 2 ^ n % 2) (pos_two_pow n))

  -- `nth_bit` reads the binary digit at a position below 32.
  pub nth_bit-digit : (n x : ℕ) → n < 32 → nth_bit u n x ≡ (x / 2 ^ n % 2 == 1)
  unfolding nth_bit
  nth_bit-digit n x h = ground (arith, shr_one_bit n x h)
