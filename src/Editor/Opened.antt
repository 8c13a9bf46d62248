-- ===== src/Editor/Opened.antt =====
-- `ed_init` of src/editor.c, without the window: a file is read and its first lines are in view.
use simpio.Base.{
  ◌≡◌, arith, refl, ap, ◌∙◌, ℕ, suc, ◌-◌, ◌<◌, ◌≤◌, ltb, ℤ, pos, if◌then◌else◌, Option, none, some,
  List, [], ◌∷◌, length, All, map,
}
use simpio.Editor.{Editor, decrease}
use simpio.Editor.Cursor.{Move, moves, InWindow, moves-InWindow}
use simpio.Lines.{read_lines}
use simpio.Lines.Read.{Line, Plain, PlainLine, text_of, read-text}
use simpio.Lines.Printed.{length-spans}

-- The first elements of an array are stored again.
unfoldable pub store {ℓ} : {A : Type ℓ} → List A → List A → List A
store [] old = old
store (x ∷ xs) [] = []
store (x ∷ xs) (y ∷ old) = x ∷ store xs old

abbrev pub start_of : ℕ × ℕ → ℤ
start_of (start, end) = pos start

abbrev pub end_at : ℕ × ℕ → ℤ
end_at (start, end) = pos end

-- `rows` is the height of the screen, which the curses library tells.
abbrev pub show_first : ℕ → ℕ → Editor → Editor
show_first rows num_lines ed = record ed {
  current_line = pos 0;
  window_num_rows = pos rows;
  first_displayed_line = pos 0;
  last_displayed_line =
      if ltb num_lines rows then decrease (pos num_lines) else decrease (pos rows);
  cursor_x = pos 0;
  cursor_y = pos 0;
}

unfoldable pub ed_init : ℕ → Option (List ℕ) → Editor → ℤ × Editor
ed_init rows none ed = (pos 0, record ed { num_chars = pos 0; num_lines = pos 0 })
ed_init rows (some file) ed =
    let r = read_lines file in
    let num_lines = length r.lines in
    (
      pos 1,
      show_first rows num_lines (record ed {
        buffer = store r.buffer ed.buffer;
        num_chars = pos r.num_chars;
        line_starts = store (map start_of r.lines) ed.line_starts;
        line_ends = store (map end_at r.lines) ed.line_ends;
        num_lines = pos num_lines;
      }),
    )

last_row :
    (n rows : ℕ)
    → 0 < rows
    → rows ≤ n
    → (if ltb n rows then decrease (pos n) else decrease (pos rows)) ≡ pos (rows - 1)
last_row n rows p le = ground arith

-- The window shows the first `rows` lines, with the cursor on the first character.
abbrev pub AtTop : ℕ → Editor → Type 0
AtTop rows ed =
    (ed.first_displayed_line ≡ pos 0)
    × (ed.last_displayed_line ≡ pos (rows - 1))
    × (ed.current_line ≡ pos 0)
    × (ed.cursor_x ≡ pos 0)
    × (ed.cursor_y ≡ pos 0)

-- Where a text of plain lines that fits into the arrays fills the screen, ed_init shows its first lines
-- with the cursor on the first character. Moves of the cursor up, down, left, right or to the first row
-- then keep it in the window, on the row of the line that it edits.
pub moves-ed_init :
    (rows : ℕ) (lines : List Line) (last : List ℕ) (ed : Editor) (ms : List Move)
    → 0 < rows
    → rows ≤ suc (length lines)
    → All PlainLine lines
    → All Plain last
    → length (text_of lines last) < 80000
    → length lines < 1000
    → let opened = (ed_init rows (some (text_of lines last)) ed).1 in
      AtTop rows opened × InWindow rows (suc (length lines)) (moves ms opened)
unfolding ed_init read_lines
moves-ed_init rows lines last ed ms some_rows filled p q h m = (
  (refl, row, refl, refl, refl),
  moves-InWindow rows (suc (length lines)) ms (ed_init rows (some (text_of lines last)) ed).1 (
    0,
    0,
    rows - 1,
    refl,
    refl,
    row,
    refl,
    refl,
    ap pos count,
    some_rows,
    omega (arith, some_rows),
    omega (arith, some_rows, filled),
  ),
)
  where
    count : length (read_lines (text_of lines last)).lines ≡ suc (length lines)
    count =
        ap (λ (xs : List (ℕ × ℕ)). length xs)
          (read-text lines last 0 [] [] p q (omega (arith, h)) (omega (arith, m))).0
        ∙ length-spans lines 0 last

    row :
        (if ltb (length (read_lines (text_of lines last)).lines) rows
          then decrease (pos (length (read_lines (text_of lines last)).lines))
          else decrease (pos rows))
        ≡ pos (rows - 1)
    row =
        last_row (length (read_lines (text_of lines last)).lines) rows some_rows
          (omega (arith, filled, count))
