-- ===== src/Print/Pattern.antt =====
-- `printf_zero_pattern` of src/print.c: the numbers of zeros between the ones of a word.
use native.Mathlib.Nat.{mul_assoc, mul_left_comm, mul-zero, pow-succ'}
use simpio.Bits.Mask.{mod-two_pow-suc}
use simpio.Base.{
  Bool-cases, inl, inr, ◌≡◌, arith, refl, ap, sym, ◌∙◌, ℕ, zero, suc, ◌+◌, ◌*◌, ◌/◌, ◌%◌, ◌^◌, ◌<◌,
  ◌==◌, Bool, true, false, if◌then◌else◌, List, [], ◌∷◌, ◌++◌, codes, int_text, pos,
}

-- The loop from the least bit up, with `left` rounds left: the numbers that are printed.
unfoldable pub counts_right : ℕ → ℕ → ℕ → List ℕ
counts_right zero n zero_count = zero_count ∷ []
counts_right (suc left) n zero_count =
    let more = counts_right left (n / 2) (if n % 2 == 0 then zero_count + 1 else 0) in
    if n % 2 == 0 then more else zero_count ∷ more

-- The loop from the most significant bit down.
unfoldable pub counts_left : ℕ → ℕ → ℕ → List ℕ
counts_left zero n zero_count = zero_count ∷ []
counts_left (suc left) n zero_count =
    let clear = n / 2 ^ 31 % 2 == 0 in
    let more = counts_left left (n * 2 % 2 ^ 32) (if clear then zero_count + 1 else 0) in
    if clear then more else zero_count ∷ more

abbrev pub counts_text : List ℕ → List ℕ
counts_text [] = []
counts_text (c ∷ cs) = int_text (pos c) ++ (codes " " ++ counts_text cs)

unfoldable pub printf_zero_pattern : ℕ → Bool → List ℕ
printf_zero_pattern n true =
    codes "right to left number of zeros before a one: " ++ counts_text (counts_right 32 n 0)
printf_zero_pattern n false =
    codes "left to right number of zeros before a one: " ++ counts_text (counts_left 32 n 0)

-- The number that has so many zeros below each of its ones; the last count is that of the zeros above
-- them.
unfoldable pub word_of : List ℕ → ℕ
word_of [] = 0
word_of (c ∷ []) = 0
word_of (c ∷ d ∷ cs) = 2 ^ c * (1 + 2 * word_of (d ∷ cs))

word_of-more :
    (left n z c : ℕ)
    → word_of (c ∷ counts_right left n z) ≡ 2 ^ c * (1 + 2 * word_of (counts_right left n z))
unfolding counts_right word_of
word_of-more zero n z c = refl
word_of-more (suc left) n z c = elim (Bool-cases (n % 2 == 0)) [
  | inl e ↦ rw (e) (word_of-more left (n / 2) (z + 1) c)
  | inr e ↦ rw (e) refl
]

double : (p x : ℕ) → 2 * p * x ≡ p * (x * 2 + 0)
double p x = mul_assoc 2 p x ∙ mul_left_comm 2 p x ∙ ap (λ (t : ℕ). p * t) (omega arith)

double_one : (p x : ℕ) → p * (1 + 2 * (1 * x)) ≡ p * (x * 2 + 1)
double_one p x = ap (λ (t : ℕ). p * t) (omega arith)

even : (n : ℕ) → (n % 2 == 0) ≡ true → n % 2 ≡ 0
even n e = ground arith

odd : (n : ℕ) → (n % 2 == 0) ≡ false → n % 2 ≡ 1
odd n e = ground arith

word_of-counts_right : (left n c : ℕ) → word_of (counts_right left n c) ≡ 2 ^ c * (n % 2 ^ left)
unfolding counts_right word_of
word_of-counts_right zero n c = sym (ap (λ (t : ℕ). 2 ^ c * t) (omega arith) ∙ mul-zero (2 ^ c))
word_of-counts_right (suc left) n c = elim (Bool-cases (n % 2 == 0)) [
  | inl e ↦ rw (e) (
      word_of-counts_right left (n / 2) (c + 1)
      ∙ ap (λ (t : ℕ). t * (n / 2 % 2 ^ left)) (ap (λ (t : ℕ). 2 ^ t) (omega arith) ∙ pow-succ' 2 c)
      ∙ double (2 ^ c) (n / 2 % 2 ^ left)
      ∙ ap (λ (t : ℕ). 2 ^ c * (n / 2 % 2 ^ left * 2 + t)) (sym (even n e))
      ∙ ap (λ (t : ℕ). 2 ^ c * t) (sym (mod-two_pow-suc n left)))
  | inr e ↦ rw (e) (
      word_of-more left (n / 2) 0 c
      ∙ ap (λ (t : ℕ). 2 ^ c * (1 + 2 * t)) (word_of-counts_right left (n / 2) 0)
      ∙ double_one (2 ^ c) (n / 2 % 2 ^ left)
      ∙ ap (λ (t : ℕ). 2 ^ c * (n / 2 % 2 ^ left * 2 + t)) (sym (odd n e))
      ∙ ap (λ (t : ℕ). 2 ^ c * t) (sym (mod-two_pow-suc n left)))
]

-- The numbers of zeros that are printed from right to left give the word back.
pub word_of-zero_pattern : (n : ℕ) → n < 2 ^ 32 → word_of (counts_right 32 n 0) ≡ n
word_of-zero_pattern n h = word_of-counts_right 32 n 0 ∙ omega (arith, h)
