-- ===== src/Lines.antt =====
-- The lines of a file: the loop that `ed_init` of src/editor.c and `set_print_lines` of src/print.c
-- both have, statement for statement, and `print_line` of src/print.c.
pub mod Read
pub mod Printed
use simpio.Editor.{text_buffer_size}
use simpio.Base.{
  ◌++◌, ℕ, zero, suc, ◌+◌, ◌-◌, ◌==◌, ltb, leb, Bool, true, false, ◌&&◌, ◌||◌, not, if◌then◌else◌,
  List, [], ◌∷◌, get_or, length, ℤ, pos, pos_part, ◌-ℤ◌, Option, none, some, codes, pad_2, int_text,
}

abbrev pub max_number_of_lines : ℕ
max_number_of_lines = 1000

-- EOF as a signed `char`, which is the character 255.
abbrev pub eof : ℕ
eof = 255

-- The variables of the loop. `lines` has the entries of both arrays below `num_lines`, the start and the
-- end of each line; `buffer` has the characters that are stored. The loop is left by its `break` where
-- `broken` is set.
pub record Reader : Type 0 where
  pub num_chars : ℕ
  pub line_start : ℕ
  pub saw_cr : Bool
  pub saw_lf : Bool
  pub broken : Bool
  pub buffer : List ℕ
  pub lines : List (ℕ × ℕ)

abbrev pub first_reader : Reader
first_reader = record {
  num_chars = 0;
  line_start = 0;
  saw_cr = false;
  saw_lf = false;
  broken = false;
  buffer = [];
  lines = [];
}

-- Where the line ends whose end has been seen. There are as many characters before.
unfoldable pub line_end : Reader → ℕ
line_end r = if r.saw_lf && r.saw_cr then r.num_chars - 2 else r.num_chars - 1

abbrev pub close_line : Reader → Reader
close_line r = record r { lines = r.lines ++ ((r.line_start, line_end r) ∷ []) }

abbrev pub see : ℕ → Reader → Reader
see ch r = record r { saw_cr = ch == 13 || r.saw_cr; saw_lf = ch == 10 || r.saw_lf }

abbrev pub begin_line : Reader → Reader
begin_line r = record r { line_start = r.num_chars; saw_lf = false; saw_cr = false }

-- The body of the loop.
unfoldable pub read_char : ℕ → Reader → Reader
read_char ch r =
    let stored = record r { buffer = r.buffer ++ (ch ∷ []) } in
    if r.saw_lf
    then (if leb max_number_of_lines (length r.lines + 1)
        then record (close_line stored) { broken = true }
        else see ch (begin_line (close_line stored)))
    else see ch stored

abbrev pub count_char : Reader → Reader
count_char r = if r.broken then r else record r { num_chars = r.num_chars + 1 }

-- The loop, over the characters of the file that are left.
unfoldable pub read_chars : List ℕ → Reader → Reader
read_chars [] r = if ltb r.num_chars text_buffer_size then count_char (read_char eof r) else r
read_chars (ch ∷ file) r =
    let next = count_char (read_char ch r) in
    let rest = read_chars file next in
    if ltb r.num_chars text_buffer_size then if next.broken || ch == eof then next else rest else r

-- The whole: the last line is closed after the loop.
unfoldable pub read_lines : List ℕ → Reader
read_lines file = close_line (read_chars file first_reader)

-- The characters that the loop of `print_line` puts out, from a place of the buffer on. `outside` is
-- read outside the buffer.
unfoldable pub put_chars : ℕ → List ℕ → ℕ → ℕ → List ℕ
put_chars outside buffer i zero = []
put_chars outside buffer i (suc left) =
    get_or buffer i outside ∷ put_chars outside buffer (i + 1) left

-- The characters of the line that is the entry `i` of the arrays, which are 0 where no line has been
-- stored. `outside` is read outside the buffer.
abbrev pub chars_of : ℕ → Reader → ℕ × ℕ → List ℕ
chars_of outside r (start, end) = put_chars outside r.buffer start (end - start)

-- `print_line`. An index that is negative counts as 0, where C reads outside the arrays.
unfoldable pub print_line : ℕ → Reader → ℤ → List ℕ
print_line outside r line_num =
    pad_2 (int_text line_num)
    ++ (codes " "
        ++ (chars_of outside r (get_or r.lines (pos_part (line_num -ℤ pos 1)) (0, 0)) ++ (10 ∷ [])))

-- The loop at the end of `set_print_lines`, from line number `i` on.
unfoldable pub print_lines : ℕ → Reader → ℕ → ℕ → List ℕ
print_lines outside r i zero = []
print_lines outside r i (suc left) =
    print_line outside r (pos i) ++ print_lines outside r (i + 1) left

-- `set_print_lines` on the file that is opened, if it is: what it prints and what it leaves in the
-- static variables, or `none` where it exits.
unfoldable pub set_print_lines : ℕ → Option (List ℕ) → Option (List ℕ × Reader)
set_print_lines outside none = none
set_print_lines outside (some file) =
    let r = read_lines file in
    some (
      (if r.broken
            then codes "ERROR: file size exceeds max number of lines!!!" ++ (10 ∷ [])
            else [])
          ++ ((if r.num_chars == text_buffer_size
                then codes "ERROR: file size exceeds buffer size!!!" ++ (10 ∷ [])
                else [])
              ++ print_lines outside r 0 (length r.lines)),
      r,
    )
