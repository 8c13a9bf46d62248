-- ===== src/Session/Registers.antt =====
-- What `update_regs` of src/main.c writes into the window of the registers.
use simpio.Base.{
  ℕ, zero, suc, ◌+◌, ◌-◌, ◌/◌, ◌%◌, ◌==◌, ℤ, pos, pos_part, ltz, ◌-ℤ◌, Bool, true, false, not, ◌&&◌,
  bit, if◌then◌else◌, List, [], ◌∷◌, ◌++◌, get_or, replicate, codes, int_text, pad_0, pad_int,
  c_text, upper_hex_text,
}
use simpio.Fifo.{
  FifoMode, tx_only, rx_only, FifoState, is_full, is_empty, FifoCompare, tx_state, rx_state,
  tx_contents, rx_contents,
}
use simpio.Hardware.{Sm, Gpio, num_gpios, int_of_u32}
use simpio.Hardware.Lines.{hardware_get_gpio, hardware_get_gpio_dir, no_gpio}
use simpio.Instruction.Variables.{Variable, is_undefined}
use simpio.User.{UserProcessor}
use simpio.System.{System, Outside, Pio, instruction_at, user_instruction_at}
use simpio.Changed.{Changed, SmChanged}

-- A piece of text, and whether it is bold.
abbrev pub Piece : Type 0
Piece = Bool × List ℕ

abbrev pub plain : List ℕ → Piece
plain text = (false, text)

abbrev pub digit : ℕ → List ℕ
digit n = int_text (pos n) ++ codes " "

-- The variable that is shown, if it has a name, and the enumerator after it.
abbrev pub variable_text : List ℕ → List Variable → List ℕ
variable_text indent [] = []
variable_text indent (v ∷ vs) =
    if is_undefined v
    then []
    else indent
      ++ (v.name ++ (codes "=" ++ (if v.has_value then upper_hex_text 8 v.value else codes "___")))

abbrev pub after_variable : List Variable → List Variable
after_variable [] = []
after_variable (v ∷ vs) = if is_undefined v then v ∷ vs else vs

abbrev pub skip : List Variable → List Variable
skip [] = []
skip (v ∷ vs) = vs

module _ (changed : Changed) (s : System) where
  abbrev pub change_at : ℕ → Gpio
  change_at gpio_num = get_or changed.gpios gpio_num no_gpio

  abbrev pub value_piece : ℕ → Piece
  value_piece gpio_num =
      ((change_at gpio_num).value, digit (bit (hardware_get_gpio s.gpios gpio_num)))

  abbrev pub pindir_piece : ℕ → Piece
  pindir_piece gpio_num =
      ((change_at gpio_num).pindir, digit (bit (hardware_get_gpio_dir s.gpios gpio_num)))

  -- `for (i=col_max-1; i>=0; i--)`, from the GPIO `gpio_num` on.
  unfoldable pub pindir_pieces : ℕ → ℕ → List Piece
  pindir_pieces gpio_num zero = []
  pindir_pieces gpio_num (suc left) = pindir_piece gpio_num ∷ pindir_pieces (gpio_num + 1) left

  -- The loop over the GPIOs, from `gpio_num` on: `row`, `col` and the variables are those of the loop.
  unfoldable pub gpio_pieces : ℕ → ℕ → ℕ → ℕ → List Variable → List Piece
  gpio_pieces gpio_num zero row col vars = []
  gpio_pieces gpio_num (suc left) row col vars =
      let ends = col + 1 == 10 in
      let more =
        gpio_pieces (gpio_num + 1) left (if ends then row + 1 else row)
          (if ends then 0 else col + 1) (if ends then after_variable vars else vars) in
      (if col == 0 then plain (digit row) ∷ [] else [])
      ++ ((value_piece gpio_num ∷ [])
          ++ ((if ends
                then plain (codes "    " ++ digit row)
                  ∷ (pindir_pieces (gpio_num - 9) 10
                      ++ (plain (variable_text (codes "  ") vars) ∷ plain (10 ∷ []) ∷ []))
                else [])
              ++ more))

  -- The directions that are left: the loop subtracts `i`, which is the number of spaces that the loop
  -- before it has written, from the number of each GPIO.
  unfoldable pub trailing_pieces : List Piece
  trailing_pieces =
      let pad = 22 - num_gpios % 10 in
      let first = num_gpios - num_gpios % 10 in
      plain (replicate pad 32)
      ∷ plain (digit (num_gpios / 10))
      ∷ (pindir_pieces (first - pad) (num_gpios % 10) ++ (plain (10 ∷ []) ∷ []))

abbrev pub is_rx_state : FifoCompare → Bool
is_rx_state rx_state = true
is_rx_state _ = false

abbrev pub is_tx_state : FifoCompare → Bool
is_tx_state tx_state = true
is_tx_state _ = false

abbrev pub is_rx_change : FifoCompare → Bool
is_rx_change rx_state = true
is_rx_change rx_contents = true
is_rx_change _ = false

abbrev pub is_tx_change : FifoCompare → Bool
is_tx_change tx_state = true
is_tx_change tx_contents = true
is_tx_change _ = false

abbrev pub has_rx : FifoMode → Bool
has_rx tx_only = false
has_rx _ = true

abbrev pub has_tx : FifoMode → Bool
has_tx rx_only = false
has_tx _ = true

abbrev pub status_char : FifoState → List ℕ
status_char state =
    if is_empty state then codes "E" else if is_full state then codes "F" else codes "D"

-- The values from the top of a queue down to its bottom. `&&` makes a 1 of every value but 0.
unfoldable pub value_texts : List ℕ → ℕ → ℕ → List ℕ
value_texts buffer bottom zero = []
value_texts buffer bottom (suc left) =
    upper_hex_text 2 (if get_or buffer (bottom + left) 0 == 0 then 0 else 1)
    ++ value_texts buffer bottom left

abbrev pub queue_text : List ℕ → ℤ → ℤ → List ℕ
queue_text buffer bottom top = value_texts buffer (pos_part bottom) (pos_part (top -ℤ bottom))

-- The pieces of a state machine, with what has changed of it and the delay of the instruction it is at.
unfoldable pub sm_pieces : ℕ → SmChanged → ℕ → Sm → List Piece
sm_pieces sm_num c delay_left sm =
    plain (codes "SM:" ++ (pad_0 2 sm_num ++ codes " "))
    ∷ plain (codes "CLOCK: " ++ pad_int 4 (int_of_u32 sm.clock_tick))
    ∷ (ltz (pos 0) (pos delay_left), codes "  DELAY: " ++ pad_0 2 delay_left)
    ∷ (c.scratch_x, codes " X:" ++ (upper_hex_text 8 sm.scratch_x ++ codes " "))
    ∷ (c.scratch_y, codes "Y:" ++ (upper_hex_text 8 sm.scratch_y ++ codes " "))
    ∷ (
      c.exec_machine_instruction,
      codes "EXEC:" ++ (upper_hex_text 8 sm.exec_machine_instruction ++ codes " \n"),
    )
    ∷ plain (codes "PC:" ++ pad_int 2 sm.pc)
    ∷ (not sm.osr_empty, codes " OSR")
    ∷ (c.shift_out_count, codes "-" ++ pad_0 2 sm.shift_out_count)
    ∷ (c.osr, codes ":" ++ upper_hex_text 8 sm.osr)
    ∷ (sm.isr_full, codes " ISR")
    ∷ (c.shift_in_count, codes "-" ++ pad_0 2 sm.shift_in_count)
    ∷ (c.isr, codes ":" ++ upper_hex_text 8 sm.isr)
    ∷ plain (codes " RX")
    ∷ (is_rx_state c.fifo, codes "-" ++ (status_char sm.fifo.rx_state ++ codes ":"))
    ∷ ((if has_rx sm.fifo.mode
          then (is_rx_change c.fifo, queue_text sm.fifo.buffer sm.fifo.rx_bottom sm.fifo.rx_top)
            ∷ plain (codes " ")
            ∷ []
          else [])
        ++ (plain (codes "TX")
            ∷ (is_tx_state c.fifo, codes "-" ++ (status_char sm.fifo.tx_state ++ codes ":"))
            ∷ (if has_tx sm.fifo.mode
                then (
                  is_tx_change c.fifo,
                  queue_text sm.fifo.buffer sm.fifo.tx_bottom sm.fifo.tx_top,
                )
                  ∷ plain (10 ∷ [])
                  ∷ []
                else [])))

module _ (o : Outside) (no_change : SmChanged) (changed : Changed) (s : System) where
  -- The loop over the state machines, from number `sm_num` on.
  unfoldable pub sms_pieces : ℕ → ℕ → List Sm → List Piece
  sms_pieces pio_num sm_num [] = []
  sms_pieces pio_num sm_num (sm ∷ sms) =
      (if sm.pio_num == pio_num
        then sm_pieces sm_num (get_or changed.sms sm_num no_change)
            (instruction_at o s (pio_num, pos_part sm.pc)).delay_left sm
        else [])
      ++ sms_pieces pio_num (sm_num + 1) sms

  -- The loop over the PIOs. Only the first has its IRQs marked as changed.
  unfoldable pub pios_pieces : ℕ → List Pio → List Piece
  pios_pieces pio_num [] = []
  pios_pieces pio_num (p ∷ ps) =
      let irq_flag =
        λ (k : ℕ). (get_or p.irqs k (record { enabled = false; on = false; flag = 0 })).flag in
      let irq_bold = λ (k : ℕ). pio_num == 0 && get_or changed.irqs k false in
      plain (codes "PIO: " ++ digit pio_num)
      ∷ (irq_bold 0, codes "IRQ-0: " ++ (upper_hex_text 8 (irq_flag 0) ++ codes " "))
      ∷ (irq_bold 1, codes "IRQ-1: " ++ (upper_hex_text 8 (irq_flag 1) ++ codes "\n"))
      ∷ (sms_pieces pio_num 0 s.sms ++ pios_pieces (pio_num + 1) ps)

  unfoldable pub ups_pieces : List UserProcessor → List Piece
  ups_pieces [] = []
  ups_pieces (up ∷ ups) =
      plain (
        codes "UP"
        ++ (int_text (pos up.this_num)
            ++ (codes " PC:"
                ++ (int_text up.pc
                    ++ (codes " Delay:"
                        ++ (int_text (user_instruction_at o up (pos_part up.pc)).delay_left
                            ++ (codes " DATA:" ++ (c_text up.up_data ++ codes "\n"))))))))
      ∷ ups_pieces ups

  unfoldable pub regs_pieces : List Piece
  regs_pieces =
      plain (codes "GPIOS:                    PINDIRS:                User Vars:\n")
      ∷ plain (codes "  0 1 2 3 4 5 6 7 8 9       0 1 2 3 4 5 6 7 8 9")
      ∷ plain (variable_text (codes "   ") s.variables ++ (10 ∷ []))
      ∷ (gpio_pieces changed s 0 num_gpios 0 0 (skip s.variables)
          ++ (trailing_pieces changed s ++ (pios_pieces 0 s.pios ++ ups_pieces s.user_processors)))
