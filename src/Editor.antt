-- ===== src/Editor.antt =====
-- The model and the cursor of src/editor.c, without the calls that draw. Line numbers and positions are
-- the C `int`s; an index that is negative counts as 0, where C reads or writes outside the array.
pub mod Cursor
pub mod Opened
use simpio.Base.{
  ℕ, zero, suc, ◌+◌, ◌-◌, ◌==◌, ltb, leb, ℤ, pos, negsuc, pos_part, ◌+ℤ◌, ◌-ℤ◌, ltz, eqz, Bool,
  true, false, not, ◌&&◌, ◌||◌, if◌then◌else◌, List, [], ◌∷◌, get_or, set,
}

abbrev pub text_buffer_size : ℕ
text_buffer_size = 80000

-- `editor_t`, without the file and the window.
pub record Editor : Type 0 where
  pub buffer : List ℕ
  pub num_chars : ℤ
  pub line_starts : List ℤ
  pub line_ends : List ℤ
  pub num_lines : ℤ
  pub window_num_rows : ℤ
  pub first_displayed_line : ℤ
  pub last_displayed_line : ℤ
  pub cursor_x : ℤ
  pub cursor_y : ℤ
  pub current_line : ℤ

abbrev pub decrease : ℤ → ℤ
decrease z = z -ℤ pos 1

abbrev pub increase : ℤ → ℤ
increase z = z +ℤ pos 1

-- The end of `ed_up`, `ed_down` and `ed_right`: the cursor stays in its line.
abbrev pub line_len : Editor → ℤ
line_len ed =
    let i = pos_part ed.current_line in
    get_or ed.line_ends i (pos 0) -ℤ get_or ed.line_starts i (pos 0) -ℤ pos 1

abbrev pub at_most : ℤ → ℤ → ℤ
at_most limit x = if ltz limit x then limit else x

abbrev pub at_least_zero : ℤ → ℤ
at_least_zero x = if ltz x (pos 0) then pos 0 else x

unfoldable pub adjust_cursor : Editor → Editor
adjust_cursor ed = record ed { cursor_x = at_least_zero (at_most (line_len ed) ed.cursor_x) }

unfoldable pub ed_home : Editor → Editor
ed_home ed = record ed {
  current_line = ed.first_displayed_line;
  cursor_x = pos 0;
  cursor_y = pos 0;
}

unfoldable pub ed_up : Editor → Editor
unfolding adjust_cursor
ed_up ed =
    let ed' = record ed { current_line = decrease ed.current_line } in
    if not (ltz (pos 0) ed.current_line)
    then ed
    else adjust_cursor (
        if eqz ed.cursor_y (pos 0) && ltz (pos 0) ed.first_displayed_line
        then record ed' {
          first_displayed_line = decrease ed.first_displayed_line;
          last_displayed_line = decrease ed.last_displayed_line;
        }
        else record ed' { cursor_y = decrease ed.cursor_y })

unfoldable pub ed_down : Editor → Editor
unfolding adjust_cursor
ed_down ed =
    let ed' = record ed { current_line = increase ed.current_line } in
    if not (ltz ed.current_line (decrease ed.num_lines))
    then ed
    else adjust_cursor (
        if eqz ed.cursor_y (decrease ed.window_num_rows)
          && ltz ed.last_displayed_line (decrease ed.num_lines)
        then record ed' {
          first_displayed_line = increase ed.first_displayed_line;
          last_displayed_line = increase ed.last_displayed_line;
        }
        else record ed' { cursor_y = increase ed.cursor_y })

unfoldable pub ed_right : Editor → Editor
unfolding adjust_cursor
ed_right ed = adjust_cursor (record ed { cursor_x = increase ed.cursor_x })

unfoldable pub ed_left : Editor → Editor
ed_left ed =
    if not (ltz (pos 0) ed.cursor_x)
    then record ed { cursor_x = pos 0 }
    else record ed { cursor_x = decrease ed.cursor_x }

unfoldable pub ed_page_down : Editor → Editor
ed_page_down ed =
    let moved = ed.last_displayed_line +ℤ ed.window_num_rows in
    let last = if ltz moved ed.num_lines then moved else decrease ed.num_lines in
    record ed {
      last_displayed_line = last;
      first_displayed_line = last -ℤ ed.window_num_rows +ℤ pos 1;
      current_line = ed.current_line +ℤ (last -ℤ ed.last_displayed_line);
    }

unfoldable pub ed_page_up : Editor → Editor
ed_page_up ed =
    let moved = ed.first_displayed_line -ℤ ed.window_num_rows in
    let first = if ltz (pos 0) moved then moved else pos 0 in
    record ed {
      first_displayed_line = first;
      last_displayed_line = first +ℤ ed.window_num_rows -ℤ pos 1;
      current_line = ed.current_line -ℤ (ed.first_displayed_line -ℤ first);
    }

unfoldable pub ed_goto_line : ℤ → Editor → Editor
ed_goto_line line_num ed =
    let n = decrease line_num in
    let last = n +ℤ ed.window_num_rows -ℤ pos 1 in
    let past = not (ltz last ed.num_lines) in
    let ed' =
      if ltz n ed.first_displayed_line || ltz ed.last_displayed_line n
      then record ed {
        first_displayed_line = if past then ed.num_lines -ℤ ed.window_num_rows +ℤ pos 1 else n;
        last_displayed_line = if past then ed.num_lines else last;
      }
      else ed in
    record ed' { cursor_y = n -ℤ ed'.first_displayed_line; cursor_x = pos 0; current_line = n }

-- The loops of `ed_del_char` and `ed_insert_char` over the buffer, with `count` rounds left, and over
-- the lines after the current one, from `i` down.
pub close_up : ℕ → ℕ → List ℕ → List ℕ
close_up i zero buffer = buffer
close_up i (suc count) buffer = close_up (i + 1) count (set buffer i (get_or buffer (i + 1) 0))

pub make_room : ℕ → ℕ → List ℕ → List ℕ
make_room i zero buffer = buffer
make_room i (suc count) buffer = make_room (i - 1) count (set buffer i (get_or buffer (i - 1) 0))

pub move_lines : (ℤ → ℤ) → ℕ → ℕ → List ℤ → List ℤ
move_lines f i zero lines = lines
move_lines f i (suc count) lines =
    move_lines f (i - 1) count (set lines i (f (get_or lines i (pos 0))))

abbrev pub following : Editor → ℕ
following ed = pos_part (ed.num_lines -ℤ pos 1 -ℤ ed.current_line)

abbrev pub last_line : Editor → ℕ
last_line ed = pos_part (decrease ed.num_lines)

abbrev pub cursor_pos : Editor → ℕ
cursor_pos ed = pos_part (get_or ed.line_starts (pos_part ed.current_line) (pos 0) +ℤ ed.cursor_x)

-- The ends of the current line and of those after it, and the starts of those after it.
abbrev pub with_lines : (ℤ → ℤ) → Editor → Editor
with_lines f ed =
    let i = pos_part ed.current_line in
    let ends = set ed.line_ends i (f (get_or ed.line_ends i (pos 0))) in
    record ed {
      num_chars = f ed.num_chars;
      line_starts = move_lines f (last_line ed) (following ed) ed.line_starts;
      line_ends = move_lines f (last_line ed) (following ed) ends;
    }

unfoldable pub ed_del_char : Editor → Editor
unfolding close_up move_lines
ed_del_char ed =
    let at = cursor_pos ed in
    with_lines decrease
      (record ed { buffer = close_up at (pos_part (ed.num_chars -ℤ pos at)) ed.buffer })

unfoldable pub ed_insert_char : ℕ → Editor → Editor
unfolding make_room move_lines ed_right
ed_insert_char ch ed =
    let at = cursor_pos ed in
    let count = pos_part (ed.num_chars -ℤ pos at) in
    if not (ltz ed.num_chars (pos text_buffer_size))
    then ed
    else ed_right (
        with_lines increase
          (record ed { buffer = set (make_room (pos_part ed.num_chars) count ed.buffer) at ch }))
