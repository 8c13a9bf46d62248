-- ===== src/Flash/Clocked.antt =====
-- A byte over the serial lines of the flash device, a bit in a period of the clock, highest bit
-- first.
use simpio.Base.{ℕ, zero, suc, ◌+◌, ◌*◌, ◌%◌, ◌<◌, ◌≡◌, refl, ap, ap₂, ◌∙◌, ◌==◌, bit, arith}
use simpio.Base.{Bool, true, false, not, none, some, List, [], ◌∷◌, length}
use Prim.Native.Nat.{bit_and}
use simpio.Bits.Mask.{all_below, all_below_lem}
use simpio.Flash.{
  Shifter, shift_in_next_bit, shift_out_next_bit, waiting_on_clk_low_then_high, waiting_on_clk_low,
}

-- The device is called once while the clock is low and once while it is high, for each bit.
pub clock_in : List Bool → Shifter → Shifter
clock_in [] s = s
clock_in (b ∷ bs) s = clock_in bs (shift_in_next_bit true b (shift_in_next_bit false b s))

-- The levels that the device sets the line to in `n` periods, and the shifter that is left.
pub clock_out : ℕ → Shifter → List Bool × Shifter
clock_out zero s = ([], s)
clock_out (suc n) s =
    let (level, s') = shift_out_next_bit false s in
    let (levels, s'') = clock_out n (shift_out_next_bit true s').1 in
    (elim level [ none ↦ levels | some b ↦ b ∷ levels ], s'')

-- The number that bits stand for, behind the digits of `acc`.
pub value_onto : ℕ → List Bool → ℕ
value_onto acc [] = acc
value_onto acc (b ∷ bs) = value_onto (acc * 2 + bit b) bs

value_onto-mod :
    (a b : ℕ) (bs : List Bool) → a % 256 ≡ b % 256 → value_onto a bs % 256 ≡ value_onto b bs % 256
unfolding value_onto
value_onto-mod a b [] h = h
value_onto-mod a b (x ∷ bs) h = value_onto-mod (a * 2 + bit x) (b * 2 + bit x) bs (omega arith)

-- A byte waiting for its next bit to be received, and one waiting for its next bit to be sent.
abbrev pub receiving : ℕ → ℕ → Shifter
receiving count byte = record {
  shift_state = waiting_on_clk_low_then_high;
  shift_count = count;
  byte = byte;
}

abbrev pub sending : ℕ → ℕ → Shifter
sending count byte = record { shift_state = waiting_on_clk_low; shift_count = count; byte = byte }

receive_bit :
    (b : Bool) (count byte : ℕ)
    → shift_in_next_bit true b (shift_in_next_bit false b (receiving count byte))
      ≡ receiving ((count + 1) % 256) ((byte * 2 % 256 + bit b) % 256)
unfolding shift_in_next_bit
receive_bit b count byte = refl

-- After a period of the clock for each of the bits, highest first, the device has counted them and
-- holds the last eight of the digits of its byte followed by them.
pub clock_in-receiving :
    (bs : List Bool) (count byte : ℕ)
    → count + length bs < 256
    → byte < 256
    → clock_in bs (receiving count byte) ≡ receiving (count + length bs) (value_onto byte bs % 256)
unfolding clock_in value_onto
clock_in-receiving [] count byte h small = ap₂ receiving (omega arith) (omega arith)
clock_in-receiving (b ∷ bs) count byte h small =
    ap (clock_in bs) (receive_bit b count byte)
    ∙ clock_in-receiving bs ((count + 1) % 256) ((byte * 2 % 256 + bit b) % 256) (omega arith)
        (omega arith)
    ∙ ap₂ receiving (omega arith)
        (value_onto-mod ((byte * 2 % 256 + bit b) % 256) (byte * 2 + bit b) bs (omega arith))

sent : ℕ → ℕ → List Bool
sent zero byte = []
sent (suc n) byte = not (bit_and byte 0x80 == 0) ∷ sent n (byte * 2 % 256)

clock_out-sent : (n count byte : ℕ) → (clock_out n (sending count byte)).0 ≡ sent n byte
unfolding clock_out sent shift_out_next_bit
clock_out-sent zero count byte = refl
clock_out-sent (suc n) count byte =
    ap (λ t. not (bit_and byte 0x80 == 0) ∷ t)
      (clock_out-sent n ((count + 1) % 256) (byte * 2 % 256))

sent_value : all_below 256 (λ b. value_onto 0 (sent 8 b) == b) ≡ true
unfolding all_below value_onto sent
sent_value = refl

value_onto-sent :
    (acc byte : ℕ) → value_onto acc (sent 8 byte) % 256 ≡ value_onto 0 (sent 8 byte) % 256
unfolding value_onto sent
value_onto-sent acc byte = omega arith

-- A byte that one device sends in eight periods of the clock is received by another, whatever byte
-- that one held before.
pub clock_in-clock_out :
    (byte old count : ℕ)
    → byte < 256
    → old < 256
    → clock_in (clock_out 8 (sending count byte)).0 (receiving 0 old) ≡ receiving 8 byte
unfolding sent
clock_in-clock_out byte old count h k =
    ap (λ t. clock_in t (receiving 0 old)) (clock_out-sent 8 count byte)
    ∙ clock_in-receiving (sent 8 byte) 0 old (omega arith) k
    ∙ ap (receiving 8) (value_onto-sent old byte ∙ omega (arith, same))
  where
    same : value_onto 0 (sent 8 byte) ≡ byte
    same = ground (arith, all_below_lem 256 (λ b. value_onto 0 (sent 8 b) == b) byte sent_value)
