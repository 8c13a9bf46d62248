-- ===== src/Bits.antt =====
-- The bit helpers of src/execution.c: the shift registers, single bits, fields of a machine
-- instruction, and the bit reversal of MOV. A `uint32_t *` argument is passed in and returned.
pub mod Mask
pub mod Field
pub mod Registers
pub mod Reverse
use Prim.Native.Nat.{bit_and, bit_or}
use simpio.Base.{ℕ, zero, suc, ◌+◌, ◌-◌, ◌*◌, ◌/◌, ◌%◌, ◌^◌, ltb, ◌==◌, bit, if◌then◌else◌}
use simpio.Base.{Bool, true, false, not}
use simpio.Undefined.{Undefined}

abbrev pub u16 : ℕ → ℕ
u16 x = x % 2 ^ 16

abbrev pub u32 : ℕ → ℕ
u32 x = x % 2 ^ 32

-- `~x` of a `uint32_t`.
abbrev pub complement : ℕ → ℕ
complement x = 0xFFFFFFFF - x

-- `x << n` and `x >> n` of a `uint32_t`; C leaves a count of 32 or more undefined.
module _ (u : Undefined) where
  unfoldable pub shl : ℕ → ℕ → ℕ
  shl x n = if ltb n 32 then u32 (x * 2 ^ n) else u.wide_left x n

  unfoldable pub shr : ℕ → ℕ → ℕ
  shr x n = if ltb n 32 then x / 2 ^ n else u.wide_right x n

  unfoldable pub nth_bit : ℕ → ℕ → Bool
  unfolding shl shr
  nth_bit n from =
      let bit_mask = shl 1 n in
      let selected_bit = bit_and from bit_mask in not (shr selected_bit n == 0)

  unfoldable pub set_nth_bit_to : ℕ → ℕ → Bool → ℕ
  unfolding shl
  set_nth_bit_to n destination value =
      let mask = shl 1 n in
      if value then bit_or destination mask else bit_and destination (complement mask)

  -- `true` is to the right. The result is the bits copied and the source shifted.
  unfoldable pub copy_n_then_shift : Bool → ℕ → ℕ → ℕ × ℕ
  unfolding shl shr
  copy_n_then_shift true source n =
      if n == 32
      then (source, shr 0 n)
      else let mask = complement (shl 0xFFFFFFFF n) in (bit_and source mask, shr source n)
  copy_n_then_shift false source n =
      if n == 32 then (source, 0) else (shr source (32 - n), shl source n)

  unfoldable pub shift_n_then_copy : Bool → ℕ → ℕ → ℕ → ℕ
  unfolding shl shr
  shift_n_then_copy direction source destination n =
      let nbits = if n == 32 then source else bit_and source (complement (shl 0xFFFFFFFF n)) in
      if direction
      then u32 (shr destination n + shl nbits (32 - n))
      else u32 (shl destination n + nbits)

  -- `for (n = from; n <= to; n++) field += nth_bit(n, machine_instruction) << (n-from)`, with `count`
  -- rounds left.
  pub field_loop : ℕ → ℕ → ℕ → ℕ → ℕ → ℕ
  field_loop machine_instruction from n zero field = field
  field_loop machine_instruction from n (suc count) field =
      field_loop machine_instruction from (n + 1) count
        (u16 (field + bit (nth_bit n machine_instruction) * 2 ^ (n - from)))

  unfoldable pub instruction_field : ℕ → ℕ → ℕ → ℕ
  unfolding field_loop
  instruction_field machine_instruction from to =
      field_loop machine_instruction from from (to + 1 - from) 0

-- `for (i=0; i<32; i++)`, with `count` rounds left.
pub reverse_loop : ℕ → ℕ → ℕ → ℕ
reverse_loop zero output input = output
reverse_loop (suc count) output input =
    reverse_loop count (u32 (u32 (output * 2) + bit_and input 1)) (input / 2)

unfoldable pub op_bit_reverse : ℕ → ℕ
unfolding reverse_loop
op_bit_reverse input = reverse_loop 32 0 input

-- `shift_into` and `shift_into_16`, which nothing calls.
unfoldable pub shift_into : Bool → ℕ → Bool → ℕ
shift_into true target b = u32 (target / 2 + bit b * 2 ^ 31)
shift_into false target b = u32 (u32 (target * 2) + bit b)

unfoldable pub shift_into_16 : Bool → ℕ → Bool → ℕ
shift_into_16 true target b = u16 (target / 2 + bit b * 2 ^ 15)
shift_into_16 false target b = u16 (target * 2 + bit b)
