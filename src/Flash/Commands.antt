-- ===== src/Flash/Commands.antt =====
-- The operations that src/device_spi_flash.c carries out when a byte has been shifted.
use simpio.Base.{ℕ, zero, suc, ◌+◌, ◌*◌, ◌-◌, ◌%◌, ◌^◌, ◌==◌, bit, ltb, leb, if◌then◌else◌}
use simpio.Base.{Bool, true, false, none, some, List, get_or, set}
use simpio.Undefined.{Undefined}
use simpio.Hardware.{u8}
use simpio.Hardware.Lines.{hardware_get_gpio, hardware_set_gpio}
use simpio.Flash.{
  SpifPhase, spif_idle, spif_getting_addr1, spif_programming, spif_reading, spif_writing_response,
  spif_done, waiting_on_clk_low_then_high, waiting_on_clk_low, DataPtr, to_status, to_id,
  to_response, to_program, SpifState, SpifPins, Device, Shifter, shift_in_next_bit,
  shift_out_next_bit, shifter, spif_get_addr, spif_reset_for_next_cmd, data_at, spi_flash_size,
  spi_sector_size,
}

module _ (pins : SpifPins) where
  -- A call of `spif_shift_in_next_bit` or `spif_shift_out_next_bit` on a byte of the state.
  unfoldable pub in_bit : ℕ → Device → Shifter
  in_bit byte d =
      shift_in_next_bit (hardware_get_gpio d.gpios pins.spif_clk)
        (hardware_get_gpio d.gpios pins.spif_tx) (shifter d.spif byte)

  unfoldable pub out_bit : Device → Device
  out_bit d =
      let (rx, s) =
        shift_out_next_bit (hardware_get_gpio d.gpios pins.spif_clk)
          (shifter d.spif d.spif.response_byte) in
      record d {
        spif = record d.spif {
          shift_state = s.shift_state;
          shift_count = s.shift_count;
          response_byte = s.byte;
        };
        gpios = elim rx [
          | none ↦ d.gpios
          | some level ↦ hardware_set_gpio d.gpios pins.spif_rx level
        ];
      }

  unfoldable pub spif_finish : Device → Bool × Device
  spif_finish d =
      if hardware_get_gpio d.gpios pins.spif_cs
      then (true, record d { spif = spif_reset_for_next_cmd (record d.spif { state = spif_idle }) })
      else (false, d)

  unfoldable pub spif_response : Device → Device
  spif_response d =
      let d' = out_bit d in
      let responded = (d'.spif.bytes_responded + 1) % 2 ^ 32 in
      let s = record d'.spif { bytes_responded = responded } in
      if d'.spif.shift_count == 8
      then record d' {
        spif =
            if responded == s.num_bytes
            then record s { state = spif_done }
            else record s { response_byte = data_at s responded; shift_count = 0 };
      }
      else d'

unfoldable pub spif_setup_response : DataPtr → ℕ → SpifState → SpifState
spif_setup_response from num_bytes s =
    let s' = record s { state = spif_writing_response; data_ptr = from } in
    record s' {
      response_byte = data_at s' 0;
      byte_index = 0;
      num_bytes = num_bytes;
      shift_count = 0;
      shift_state = waiting_on_clk_low;
    }

abbrev pub next_addr : ℕ → ℕ
next_addr addr = (addr + 1) % 2 ^ 32

-- `spif_setup_read` does not test the address.
unfoldable pub spif_setup_read : Undefined → Device → Device
spif_setup_read u d =
    let addr = spif_get_addr u d.spif in
    record d {
      spif = record d.spif {
        state = spif_reading;
        addr = next_addr addr;
        data_ptr = to_response;
        response_byte = get_or d.storage addr 0;
        shift_count = 0;
        shift_state = waiting_on_clk_low;
      };
    }

unfoldable pub spif_read : Device → Device
spif_read d =
    let s = d.spif in
    let s' =
      if leb spi_flash_size s.addr
      then record s { response_byte = 0xFF }
      else record s { response_byte = get_or d.storage s.addr 0; addr = next_addr s.addr } in
    record d {
      spif = record s' { bytes_responded = (s.bytes_responded + 1) % 2 ^ 32; shift_count = 0 };
    }

unfoldable pub spif_setup_program : Undefined → SpifState → SpifState
spif_setup_program u s = record s {
  state = spif_programming;
  addr = spif_get_addr u s;
  data_ptr = to_program;
  shift_count = 0;
  shift_state = waiting_on_clk_low_then_high;
}

unfoldable pub spif_program : Device → Device
spif_program d =
    let s = d.spif in
    if leb spi_flash_size s.addr then d else record d {
      storage = set d.storage s.addr s.program_byte;
      spif = record s { addr = next_addr s.addr; shift_count = 0 };
    }

-- `for (i=first; i<max; i++) spif_storage[i] = 0xFF`, with `count` bytes left.
unfoldable pub erase : ℕ → ℕ → List ℕ → List ℕ
erase first zero storage = storage
erase first (suc count) storage = erase (first + 1) count (set storage first 0xFF)

-- The state stays as it is: the phase stays `spif_getting_addr3`.
unfoldable pub spif_setup_sector_erase : Undefined → Device → Device
spif_setup_sector_erase u d =
    let addr = spif_get_addr u d.spif in
    let first = addr * spi_sector_size % 2 ^ 32 in
    let sector_end = (addr + 1) % 2 ^ 32 * spi_sector_size % 2 ^ 32 in
    let max = if ltb spi_flash_size sector_end then spi_flash_size else sector_end in
    if ltb spi_flash_size first
    then d
    else record d { storage = erase first (max - first) d.storage }

abbrev pub done_with : SpifState → SpifState
done_with s = record s { shift_count = 0; state = spif_done }

abbrev pub receive_next : SpifPhase → SpifState → SpifState
receive_next phase s = record s {
  state = phase;
  shift_count = 0;
  shift_state = waiting_on_clk_low_then_high;
}

-- The switch on the command: the commands with an address, STATUS, WRITE_EN, and all others.
unfoldable pub spif_process_cmd : SpifState → SpifState
spif_process_cmd s =
    if s.cmd == 0x02
    then receive_next spif_getting_addr1 s
    else if s.cmd == 0x03
    then receive_next spif_getting_addr1 s
    else if s.cmd == 0x20
    then receive_next spif_getting_addr1 s
    else if s.cmd == 0x90
    then receive_next spif_getting_addr1 s
    else if s.cmd == 0x05
    then spif_setup_response to_status 1
        record s { status_register_1 = u8 (bit s.write_enable_latch * 2 + bit s.busy) }
    else if s.cmd == 0x06
    then record s { write_enable_latch = true; state = spif_done }
    else done_with s

unfoldable pub spif_process_addr3 : Undefined → Device → Device
spif_process_addr3 u d =
    let s = d.spif in
    if s.cmd == 0x02
    then record d { spif = spif_setup_program u s }
    else if s.cmd == 0x03
    then spif_setup_read u d
    else if s.cmd == 0x20
    then spif_setup_sector_erase u d
    else if s.cmd == 0x90
    then record d { spif = spif_setup_response to_id 2 s }
    else record d { spif = done_with s }
