-- ===== src/Tests/Tables.antt =====
-- The configuration, the tables and the counters at a concrete program.
use simpio.Base.{ℕ, ◌/◌, ◌%◌, ◌≡◌, refl, arith, true, [], ◌∷◌, pos, negsuc, some, replicate}
use simpio.Fifo.{bidi, init}
use simpio.Fifo.Holds.{Holds, no_values}
use simpio.Hardware.{Gpio}
use simpio.Hardware.Lines.{no_gpio}
use simpio.History.{Entry, History, history_init}
use simpio.History.Stored.{updates, entry_at, entry_of, updates-history_init}
use simpio.Enumerator.{numbers_from}
use simpio.User.{int8}
use simpio.System.{ih_at, sm_at, exec_normal}
use simpio.System.Interrupt.{exec_step_programs_next_interrupt_instruction}
use simpio.System.Handlers.{step_ih-stale}
use simpio.System.Reset.{hardware_set_system_defaults}
use simpio.System.Defaults.{defaults-new}
use simpio.System.Added.{add_all, location, add_all-location}
use simpio.System.Breakpoints.{instruction_toggle_breakpoint}
use simpio.System.Toggled.{toggle-toggle}
use simpio.Base.{map, some, List}
use simpio.Changed.{hardware_get_changed, hardware_snapshot, irq_levels, levels_changed}
use simpio.Changed.Same.{no_change, snapshot-changed}
use simpio.Symbols.{Chain, no_chain, hash_from, find_in, symbols_new, symbols_find}
use simpio.Symbols.Found.{find-new}
use simpio.Editor.{Editor}
use simpio.Tests.Machines.{sample-InBuffer, sample_pio, sample_system, sample_outside, nop_at}

abbrev blank_entry : Entry
blank_entry = record { values = []; clock_tick = 0 }

abbrev blank_history : History
blank_history = record {
  gpio_history = replicate 50 blank_entry;
  count = 3;
  current_index = 3;
  current_iterator = 0;
}

abbrev two_updates : List (List Gpio × ℕ)
two_updates = (replicate 32 no_gpio, 3) ∷ ([], 5) ∷ []

updates-history_init_example :
    let h = updates two_updates (history_init blank_history).1 in
    (h.current_index ≡ 2)
    × (h.count ≡ 2)
    × (map (entry_at blank_entry h) (numbers_from 1 2) ≡ map entry_of two_updates)
    × (entry_at blank_entry h 0 ≡ blank_entry)
updates-history_init_example =
    updates-history_init blank_entry two_updates blank_history (omega arith) refl

defaults-new_example :
    let sm = sm_at sample_outside (hardware_set_system_defaults sample_outside sample_system) 6 in
    (sm.pc ≡ negsuc 0)
    × (sm.pio_num ≡ 6 / 4)
    × (sm.this_num ≡ 6 % 4)
    × Holds sm.fifo (no_values bidi)
unfolding init
defaults-new_example = defaults-new sample_outside sample_system 6 refl refl (omega arith)

add_all-location_example :
    ((add_all sample_outside (nop_at 7 ∷ nop_at 8 ∷ []) sample_system).0 ≡ true ∷ true ∷ [])
    × (location sample_outside (add_all sample_outside (nop_at 7 ∷ nop_at 8 ∷ []) sample_system).1
        ≡ int8 (pos 4))
add_all-location_example =
    add_all-location sample_outside (nop_at 7 ∷ nop_at 8 ∷ []) sample_system 2 (omega arith)
      (omega arith) (omega arith) (omega arith) (omega arith) (omega arith) refl

toggle-toggle_example :
    (instruction_toggle_breakpoint 2 (instruction_toggle_breakpoint 2 sample_system).1).1
    ≡ sample_system
toggle-toggle_example = toggle-toggle 2 sample_system

step_ih-stale_example :
    let (line, s') = exec_step_programs_next_interrupt_instruction sample_outside sample_system in
    (s'.exec_context ≡ exec_normal)
    × (ih_at sample_outside s' 1 ≡ ih_at sample_outside sample_system 1)
step_ih-stale_example =
    step_ih-stale sample_outside sample_system 1 refl refl (omega arith) (omega arith) refl refl
      refl (omega arith)

snapshot-changed_example :
    let changed =
      hardware_get_changed (λ i. (i, 7)) [] (hardware_snapshot sample_system) sample_system in
    (changed.sms ≡ map (λ sm. no_change) sample_system.sms)
    × (changed.gpios ≡ map (λ i. no_gpio) (numbers_from 0 32))
    × (changed.irqs ≡ levels_changed (irq_levels sample_pio) (irq_levels sample_pio))
snapshot-changed_example =
    snapshot-changed (λ i. (i, 7)) [] sample_system sample_pio sample_pio sample-InBuffer refl

abbrev no_symbols : List Chain
no_symbols = replicate 100 no_chain

find-new_example :
    symbols_find (97 ∷ []) 1 (symbols_new true (97 ∷ []) (98 ∷ 99 ∷ []) 1 no_symbols).1
    ≡ some (98 ∷ 99 ∷ [])
unfolding hash_from find_in
find-new_example = find-new (97 ∷ []) (98 ∷ 99 ∷ []) 1 no_symbols refl refl

-- Three lines, in a window of two rows.
abbrev small_editor : Editor
small_editor = record {
  buffer = 97 ∷ 10 ∷ 98 ∷ 10 ∷ 99 ∷ 10 ∷ [];
  num_chars = pos 6;
  line_starts = pos 0 ∷ pos 2 ∷ pos 4 ∷ [];
  line_ends = pos 1 ∷ pos 3 ∷ pos 5 ∷ [];
  num_lines = pos 3;
  window_num_rows = pos 2;
  first_displayed_line = pos 0;
  last_displayed_line = pos 1;
  cursor_x = pos 0;
  cursor_y = pos 0;
  current_line = pos 0;
}
