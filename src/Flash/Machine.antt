-- ===== src/Flash/Machine.antt =====
-- The phases of the state machine of src/device_spi_flash.c.
use simpio.Base.{◌-◌, ◌==◌, ltb, if◌then◌else◌}
use simpio.Base.{false}
use simpio.Undefined.{Undefined}
use simpio.Hardware.Lines.{hardware_get_gpio}
use simpio.Flash.{
  spif_idle, spif_getting_cmd, spif_getting_addr1, spif_getting_addr2, spif_getting_addr3,
  spif_programming, spif_reading, spif_writing_response, spif_processing_cmd, spif_done,
  spif_mode_0, spif_mode_3, waiting_on_clk_low_then_high, waiting_on_clk_high, SpifState, SpifPins,
  Device, Shifter,
}
use simpio.Flash.Commands.{
  in_bit, out_bit, spif_finish, spif_response, spif_read, spif_program, receive_next,
  spif_process_cmd, spif_process_addr3,
}

-- The delay at the start of `spif_sm`.
unfoldable pub count_delay : SpifState → SpifState
count_delay s =
    if ltb 0 s.delay
    then record s { delay = s.delay - 1; busy = if s.delay == 1 then false else s.busy }
    else s

module _ (u : Undefined) (pins : SpifPins) where
  unfoldable pub spif_when_idle : Device → Device
  spif_when_idle d =
      let clk = hardware_get_gpio d.gpios pins.spif_clk in
      if hardware_get_gpio d.gpios pins.spif_cs then d else record d {
        spif = record d.spif {
          state = spif_getting_cmd;
          last_clk = clk;
          mode = if clk then spif_mode_3 else spif_mode_0;
          shift_state = if clk then waiting_on_clk_low_then_high else waiting_on_clk_high;
          shift_count = 0;
        };
      }

  -- The state with the shift state and the count that a shift leaves.
  abbrev pub after_shift : Device → Shifter → SpifState
  after_shift d s = record d.spif { shift_state = s.shift_state; shift_count = s.shift_count }

  unfoldable pub spif_when_getting_cmd : Device → Device
  spif_when_getting_cmd d =
      let s = in_bit pins d.spif.cmd d in
      let s' = record (after_shift d s) { cmd = s.byte } in
      record d { spif = if s.shift_count == 8 then spif_process_cmd s' else s' }

  unfoldable pub spif_when_getting_addr1 : Device → Device
  spif_when_getting_addr1 d =
      let s = in_bit pins d.spif.addr1 d in
      let s' = record (after_shift d s) { addr1 = s.byte } in
      record d { spif = if s.shift_count == 8 then receive_next spif_getting_addr2 s' else s' }

  unfoldable pub spif_when_getting_addr2 : Device → Device
  spif_when_getting_addr2 d =
      let s = in_bit pins d.spif.addr2 d in
      let s' = record (after_shift d s) { addr2 = s.byte } in
      record d { spif = if s.shift_count == 8 then receive_next spif_getting_addr3 s' else s' }

  unfoldable pub spif_when_getting_addr3 : Device → Device
  spif_when_getting_addr3 d =
      let s = in_bit pins d.spif.addr3 d in
      let d' = record d { spif = record (after_shift d s) { addr3 = s.byte } } in
      if s.shift_count == 8 then spif_process_addr3 u d' else d'

  unfoldable pub spif_when_programming : Device → Device
  spif_when_programming d =
      let s = in_bit pins d.spif.program_byte d in
      let d' = record d { spif = record (after_shift d s) { program_byte = s.byte } } in
      if s.shift_count == 8 then spif_program d' else d'

  unfoldable pub spif_when_reading : Device → Device
  spif_when_reading d =
      let d' = out_bit pins d in if d'.spif.shift_count == 8 then spif_read d' else d'

  unfoldable pub spif_when_writing_response : Device → Device
  spif_when_writing_response d =
      let d' = out_bit pins d in if d'.spif.shift_count == 8 then spif_response pins d' else d'

  -- The switch of `spif_sm` on the state.
  unfoldable pub spif_phase : Device → Device
  spif_phase d = elim d.spif.state [
    | spif_idle ↦ spif_when_idle d
    | spif_getting_cmd ↦ spif_when_getting_cmd d
    | spif_getting_addr1 ↦ spif_when_getting_addr1 d
    | spif_getting_addr2 ↦ spif_when_getting_addr2 d
    | spif_getting_addr3 ↦ spif_when_getting_addr3 d
    | spif_programming ↦ spif_when_programming d
    | spif_reading ↦ spif_when_reading d
    | spif_writing_response ↦ spif_when_writing_response d
    | spif_processing_cmd ↦ d
    | spif_done ↦ d
  ]

  unfoldable pub spif_sm : Device → Device
  spif_sm d =
      let (finished, d') = spif_finish pins (record d { spif = count_delay d.spif }) in
      if finished then d' else spif_phase d'
