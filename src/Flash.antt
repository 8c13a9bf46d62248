-- ===== src/Flash.antt =====
-- src/device_spi_flash.c: the simulated SPI flash device. Its state machine runs once in a cycle: it
-- reads its GPIO lines, and shifts a byte in or out, a bit for each period of the clock.
pub mod Commands
pub mod Machine
pub mod Clocked
pub mod Storage
pub mod Program
use Prim.Native.Nat.{bit_and}
use simpio.Base.{
  ℕ, ◌+◌, ◌*◌, ◌%◌, ◌^◌, ◌==◌, bit, if◌then◌else◌, Bool, true, false, not, Option, none, some,
}
use simpio.Base.{List, [], ◌∷◌, get_or}
use simpio.Undefined.{Undefined}
use simpio.Hardware.{Gpio, u8}
use simpio.Hardware.Lines.{hardware_get_gpio, hardware_set_gpio}

abbrev pub spi_flash_size : ℕ
spi_flash_size = 768

abbrev pub spi_sector_size : ℕ
spi_sector_size = 4096

pub data SpifPhase : Type 0 where
  spif_idle spif_getting_cmd spif_getting_addr1 spif_getting_addr2 spif_getting_addr3 : SpifPhase
  spif_programming spif_reading spif_writing_response spif_processing_cmd spif_done : SpifPhase

pub data SpifMode : Type 0 where
  spif_mode_0 spif_mode_3 : SpifMode

pub data ShiftState : Type 0 where
  waiting_on_clk_low_then_high waiting_on_clk_high : ShiftState
  waiting_on_clk_high_then_low waiting_on_clk_low : ShiftState

-- Where `data_ptr` points.
pub data DataPtr : Type 0 where
  null_ptr to_status to_id to_response to_program : DataPtr

-- `spif_state_t`.
pub record SpifState : Type 0 where
  pub state : SpifPhase
  pub mode : SpifMode
  pub shift_state : ShiftState
  pub cmd : ℕ
  pub prev_cmd : ℕ
  pub addr1 : ℕ
  pub addr2 : ℕ
  pub addr3 : ℕ
  pub status_register_1 : ℕ
  pub addr : ℕ
  pub response_byte : ℕ
  pub program_byte : ℕ
  pub shift_count : ℕ
  pub num_bytes : ℕ
  pub bytes_responded : ℕ
  pub bytes_received : ℕ
  pub byte_index : ℕ
  pub delay : ℕ
  pub data_ptr : DataPtr
  pub last_clk : Bool
  pub busy : Bool
  pub write_enable_latch : Bool

-- The pins that the device was enabled with.
pub record SpifPins : Type 0 where
  pub spif_clk : ℕ
  pub spif_tx : ℕ
  pub spif_rx : ℕ
  pub spif_cs : ℕ

-- What the device keeps, and the lines that it reads and writes.
pub record Device : Type 0 where
  pub spif : SpifState
  pub storage : List ℕ
  pub gpios : List Gpio

-- A byte that is shifted, with the shift state and the count of its bits.
pub record Shifter : Type 0 where
  pub shift_state : ShiftState
  pub shift_count : ℕ
  pub byte : ℕ

-- `spif_shift_in_next_bit` at the levels of the lines clk and tx.
unfoldable pub shift_in_next_bit : Bool → Bool → Shifter → Shifter
shift_in_next_bit clk tx s = elim s.shift_state [
  | waiting_on_clk_low_then_high ↦ if clk then s else record s { shift_state = waiting_on_clk_high }
  | waiting_on_clk_high ↦
      if clk
      then record {
        shift_state = waiting_on_clk_low_then_high;
        shift_count = u8 (s.shift_count + 1);
        byte = u8 (u8 (s.byte * 2) + bit tx);
      }
      else s
  | _ ↦ s
]

-- `spif_shift_out_next_bit` at the level of the line clk, with the level that it sets the line rx to,
-- if it does.
unfoldable pub shift_out_next_bit : Bool → Shifter → Option Bool × Shifter
shift_out_next_bit clk s = elim s.shift_state [
  | waiting_on_clk_high_then_low ↦
      (none, if clk then record s { shift_state = waiting_on_clk_low } else s)
  | waiting_on_clk_low ↦ if clk then (none, s) else (
    some (not (bit_and s.byte 0x80 == 0)),
    record {
      shift_state = waiting_on_clk_high_then_low;
      shift_count = u8 (s.shift_count + 1);
      byte = u8 (s.byte * 2);
    },
  )
  | _ ↦ (none, s)
]

abbrev pub shifter : SpifState → ℕ → Shifter
shifter s byte = record { shift_state = s.shift_state; shift_count = s.shift_count; byte = byte }

-- The address of the three bytes; what the caller gets of it is undefined, since the function has no
-- return statement.
unfoldable pub spif_get_addr : Undefined → SpifState → ℕ
spif_get_addr u s =
    u.address_result (((s.addr1 * 2 ^ 8 + s.addr2) % 2 ^ 32 * 2 ^ 8 + s.addr3) % 2 ^ 32)

unfoldable pub spif_reset_for_next_cmd : SpifState → SpifState
spif_reset_for_next_cmd s = record s {
  prev_cmd = s.cmd;
  cmd = 0;
  addr1 = 0;
  addr2 = 0;
  addr3 = 0;
  addr = 0;
  response_byte = 0;
  program_byte = 0;
  shift_count = 0;
  bytes_responded = 0;
  bytes_received = 0;
  byte_index = 0;
  data_ptr = null_ptr;
}

-- `device_enable_spi_flash`, without the registration of the device.
unfoldable pub device_enable_spi_flash : ℕ → ℕ → ℕ → ℕ → SpifState → SpifPins × SpifState
unfolding spif_reset_for_next_cmd
device_enable_spi_flash clk tx rx cs s = (
  record { spif_clk = clk; spif_tx = tx; spif_rx = rx; spif_cs = cs },
  spif_reset_for_next_cmd record s { busy = false; write_enable_latch = false; delay = 0; cmd = 0 },
)

abbrev pub spif_id : List ℕ
spif_id = 0xAB ∷ 0xCD ∷ []

-- `data_ptr[i]`; past the end of what it points to, C reads what lies there, and here it is 0.
unfoldable pub data_at : SpifState → ℕ → ℕ
data_at s i = elim s.data_ptr [
  | null_ptr ↦ 0
  | to_status ↦ get_or (s.status_register_1 ∷ []) i 0
  | to_id ↦ get_or spif_id i 0
  | to_response ↦ get_or (s.response_byte ∷ []) i 0
  | to_program ↦ get_or (s.program_byte ∷ []) i 0
]
