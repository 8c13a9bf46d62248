-- ===== src/Base/Text.antt =====
-- Texts as lists of the codes of their characters, and what the program uses of the C library on them:
-- strchr as a test, atoi, and the conversions of printf.
use Prim.Native.Char.{code}
use Prim.Native.String.{String}
use Prim.Native.Nat.{ℕ, zero, suc, ◌+◌, ◌-◌, ◌*◌, ◌/◌, ◌%◌}
use mathlib.Core.Bool.{Bool, false, ◌&&◌, ◌||◌}
use mathlib.Core.List.{List, [], ◌∷◌, ◌++◌}
use simpio.Base.Tests.{leb, ltb, ◌==◌, if◌then◌else◌}
use simpio.Base.Int.{ℤ, pos, negsuc}
use simpio.Base.Lists.{length, replicate}

abbrev pub codes : String → List ℕ
codes String.[] = []
codes (String.◌∷◌ c s) = code c ∷ codes s

-- `strchr(text, c)` as a `bool`.
unfoldable pub has_char : ℕ → List ℕ → Bool
has_char c [] = false
has_char c (d ∷ text) = d == c || has_char c text

abbrev is_space : ℕ → Bool
is_space c = c == 32 || leb 9 c && leb c 13

abbrev is_digit : ℕ → Bool
is_digit c = leb 48 c && leb c 57

unfoldable pub digits_value : ℕ → List ℕ → ℕ
digits_value n [] = n
digits_value n (c ∷ text) =
    let rest = digits_value (10 * n + (c - 48)) text in if is_digit c then rest else n

abbrev minus : ℕ → ℤ
minus zero = pos 0
minus (suc n) = negsuc n

-- `atoi`, on a number that is an `int`.
unfoldable pub atoi : List ℕ → ℤ
unfolding digits_value
atoi [] = pos 0
atoi (c ∷ text) =
    let rest = atoi text in
    if is_space c
    then rest
    else if c == b'-'
    then minus (digits_value 0 text)
    else if c == b'+'
    then pos (digits_value 0 text)
    else pos (digits_value 0 (c ∷ text))

-- `%d`, of a number of at most ten digits.
unfoldable pub digits_from : ℕ → ℕ → List ℕ
digits_from zero n = []
digits_from (suc left) n =
    let more = digits_from left (n / 10) in
    if ltb n 10 then (48 + n) ∷ [] else more ++ ((48 + n % 10) ∷ [])

abbrev pub digits_text : ℕ → List ℕ
digits_text = digits_from 10

abbrev pub int_text : ℤ → List ℕ
int_text (pos n) = digits_text n
int_text (negsuc n) = b'-' ∷ digits_text (suc n)

-- `%2d`.
abbrev pub pad_2 : List ℕ → List ℕ
pad_2 text = replicate (2 - length text) 32 ++ text

abbrev hex_digit : ℕ → ℕ
hex_digit n = if ltb n 10 then 48 + n else 87 + n

-- `%08x`, with `left` digits left.
unfoldable pub hex_text : ℕ → ℕ → List ℕ
hex_text zero n = []
hex_text (suc left) n = hex_text left (n / 16) ++ (hex_digit (n % 16) ∷ [])

-- `%0wX`, with `w` digits, and `%0wd`.
unfoldable pub upper_hex_text : ℕ → ℕ → List ℕ
upper_hex_text zero n = []
upper_hex_text (suc left) n =
    upper_hex_text left (n / 16) ++ ((if ltb (n % 16) 10 then 48 + n % 16 else 55 + n % 16) ∷ [])

abbrev pub pad_0 : ℕ → ℕ → List ℕ
pad_0 width n = replicate (width - length (digits_text n)) 48 ++ digits_text n

abbrev pub pad_int : ℕ → ℤ → List ℕ
pad_int width (pos n) = pad_0 width n
pad_int width (negsuc n) = b'-' ∷ pad_0 (width - 1) (suc n)

-- `%s` of an array of characters: those before the first NUL.
unfoldable pub c_text : List ℕ → List ℕ
c_text [] = []
c_text (c ∷ text) = if c == 0 then [] else c ∷ c_text text
