-- ===== src/Tests/Serial.antt =====
-- The flash device at concrete lines and bytes.
use simpio.Base.{◌≡◌, arith, true, false, ◌∷◌, replicate}
use simpio.Hardware.Lines.{no_gpio}
use simpio.Flash.{
  Device, SpifPins, SpifState, spif_programming, spif_mode_0, waiting_on_clk_high, to_program,
}
use simpio.Flash.Machine.{spif_sm}
use simpio.Flash.Clocked.{clock_in, clock_out, receiving, sending, clock_in-clock_out}
use simpio.Flash.Storage.{Framed, spif_sm-Framed}
use simpio.Tests.Samples.{some_undefined}

clock_in-clock_out_example :
    clock_in (clock_out 8 (sending 0 0x9F)).0 (receiving 0 0x33) ≡ receiving 8 0x9F
clock_in-clock_out_example = clock_in-clock_out 0x9F 0x33 0 (omega arith) (omega arith)

abbrev pins : SpifPins
pins = record { spif_clk = 0; spif_tx = 1; spif_rx = 2; spif_cs = 3 }

-- Seven bits of a byte for the address 2 have come in, and the clock goes high on the eighth.
abbrev programming_state : SpifState
programming_state = record {
  state = spif_programming;
  mode = spif_mode_0;
  shift_state = waiting_on_clk_high;
  cmd = 2;
  prev_cmd = 0;
  addr1 = 0;
  addr2 = 0;
  addr3 = 2;
  status_register_1 = 0;
  addr = 2;
  response_byte = 0;
  program_byte = 9;
  shift_count = 7;
  num_bytes = 0;
  bytes_responded = 0;
  bytes_received = 0;
  byte_index = 0;
  delay = 0;
  data_ptr = to_program;
  last_clk = false;
  busy = false;
  write_enable_latch = true;
}

abbrev programming_device : Device
programming_device = record {
  spif = programming_state;
  storage = replicate 768 0;
  gpios = record no_gpio { value = true } ∷ replicate 31 no_gpio;
}

spif_sm-Framed_example :
    Framed pins spif_programming programming_device (spif_sm some_undefined pins programming_device)
spif_sm-Framed_example = spif_sm-Framed some_undefined pins programming_device
