-- ===== src/Tests/Texts.antt =====
-- Files that are read and printed.
use simpio.Base.{
  ◌≡◌, refl, arith, pos, true, false, some, List, [], ◌∷◌, ◌++◌, codes, pad_2, int_text, replicate,
  digits_from,
}
use simpio.Editor.{Editor}
use simpio.Editor.Cursor.{up, down, right, moves, InWindow}
use simpio.Editor.Opened.{AtTop, ed_init, moves-ed_init}
use simpio.Lines.{read_lines, print_line, put_chars, read_chars, read_char, line_end}
use simpio.Lines.Read.{Line, text_of}
use simpio.Lines.Printed.{print_line_lem}

abbrev sample_lines : List Line
sample_lines = (codes "ab", true) ∷ (codes "c d", false) ∷ []

-- The second line of a file with two kinds of line ends.
print_line_lem_example :
    print_line 0 (read_lines (text_of sample_lines (codes "e"))) (pos 2)
    ≡ pad_2 (int_text (pos 2)) ++ (codes " " ++ (codes "c d" ++ (10 ∷ [])))
unfolding text_of
print_line_lem_example =
    print_line_lem 0 sample_lines (codes "e") 1 (omega arith) (omega arith) (omega arith)
      (omega arith) (omega arith)

second_line : print_line 0 (read_lines (codes "ab\r\nc d\ne")) (pos 2) ≡ codes " 2 c d\n"
unfolding print_line read_lines read_chars read_char line_end put_chars digits_from
second_line = refl

abbrev blank_editor : Editor
blank_editor = record {
  buffer = replicate 20 0;
  num_chars = pos 0;
  line_starts = replicate 5 (pos 0);
  line_ends = replicate 5 (pos 0);
  num_lines = pos 0;
  window_num_rows = pos 0;
  first_displayed_line = pos 0;
  last_displayed_line = pos 0;
  cursor_x = pos 0;
  cursor_y = pos 0;
  current_line = pos 0;
}

moves-ed_init_example :
    let opened = (ed_init 2 (some (text_of sample_lines (codes "e"))) blank_editor).1 in
    AtTop 2 opened × InWindow 2 3 (moves (down ∷ down ∷ right ∷ up ∷ []) opened)
unfolding text_of
moves-ed_init_example =
    moves-ed_init 2 sample_lines (codes "e") blank_editor (down ∷ down ∷ right ∷ up ∷ [])
      (omega arith) (omega arith) (omega arith) (omega arith) (omega arith) (omega arith)
