-- ===== src/Session/Contents.antt =====
-- What `show_fifos` and `show_irq_flags` of src/main.c write into the temporary window.
use simpio.Base.{
  ℕ, zero, suc, ◌+◌, ◌-ℤ◌, ℤ, pos, pos_part, Bool, bit, List, [], ◌∷◌, ◌++◌, get_or, codes,
  int_text, upper_hex_text,
}
use simpio.Hardware.{Sm}
use simpio.System.{System}

abbrev pub prompt : List ℕ
prompt = codes "type q to exit\n\n"

-- The loop over the values of a queue, from its top down to its bottom.
unfoldable pub value_lines : List ℕ → ℕ → ℕ → List ℕ
value_lines buffer bottom zero = []
value_lines buffer bottom (suc left) =
    codes "      "
    ++ (upper_hex_text 8 (get_or buffer (bottom + left) 0)
        ++ (codes "\n" ++ value_lines buffer bottom left))

abbrev pub queue_lines : List ℕ → ℤ → ℤ → List ℕ
queue_lines buffer bottom top = value_lines buffer (pos_part bottom) (pos_part (top -ℤ bottom))

unfoldable pub show_fifos_from : List Sm → List ℕ
show_fifos_from [] = []
show_fifos_from (sm ∷ sms) =
    codes "pio: "
    ++ (int_text (pos sm.pio_num)
        ++ (codes " sm; "
            ++ (int_text (pos sm.this_num)
                ++ (codes " \n    TX:\n"
                    ++ (queue_lines sm.fifo.buffer sm.fifo.tx_bottom sm.fifo.tx_top
                        ++ (codes "    RX:\n"
                            ++ (queue_lines sm.fifo.buffer sm.fifo.rx_bottom sm.fifo.rx_top
                                ++ show_fifos_from sms)))))))

unfoldable pub show_fifos : System → List ℕ
show_fifos s = prompt ++ show_fifos_from s.sms

-- The loop over the flags, from number `i` on.
unfoldable pub show_irq_flags_from : ℕ → List Bool → List ℕ
show_irq_flags_from i [] = []
show_irq_flags_from i (on ∷ flags) =
    codes "irq flag: "
    ++ (int_text (pos i)
        ++ (codes " = "
            ++ (int_text (pos (bit on)) ++ (codes " \n" ++ show_irq_flags_from (i + 1) flags))))

unfoldable pub show_irq_flags : System → List ℕ
show_irq_flags s = prompt ++ show_irq_flags_from 0 s.flags_set
