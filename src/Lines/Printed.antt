-- ===== src/Lines/Printed.antt =====
-- `print_line` of src/print.c prints the lines of the file, as `set_print_lines` has read them.
use mathlib.Core.List.{append_assoc}
use simpio.Base.{
  pos_part, ◌-ℤ◌, ◌≡◌, arith, refl, ap, ap₂, sym, ◌∙◌, ℕ, zero, suc, ◌+◌, ◌-◌, ◌<◌, ◌≤◌, pos, List,
  [], ◌∷◌, ◌++◌, length, length-append, All, map, get_or, codes, pad_2, int_text,
}
use simpio.Lines.{Reader, read_lines, put_chars, chars_of, print_line}
use simpio.Lines.Read.{Line, Plain, PlainLine, text_of, spans, end_of, read-text}

get_or-length :
    (pre : List ℕ) (c : ℕ) (post : List ℕ) (outside : ℕ)
    → get_or (pre ++ (c ∷ post)) (length pre) outside ≡ c
get_or-length [] c post outside = refl
get_or-length (p ∷ pre) c post outside = get_or-length pre c post outside

abbrev pub line_texts : List Line → List ℕ → List (List ℕ)
line_texts lines last = map (λ (l : Line). l.0) lines ++ (last ∷ [])

module _ (outside : ℕ) where
  put_chars-middle :
      (l pre post : List ℕ) → put_chars outside (pre ++ (l ++ post)) (length pre) (length l) ≡ l
  unfolding put_chars
  put_chars-middle [] pre post = refl
  put_chars-middle (c ∷ l) pre post = ap₂ ◌∷◌ (get_or-length pre c (l ++ post) outside) (
      (λ i.
        put_chars outside (sym (append_assoc pre (c ∷ []) (l ++ post)) i) (sym count i) (length l))
      ∙ put_chars-middle l (pre ++ (c ∷ [])) post)
    where
      count : length (pre ++ (c ∷ [])) ≡ length pre + 1
      count = length-append pre (c ∷ [])

  abbrev slice : List ℕ → ℕ × ℕ → List ℕ
  slice buffer (start, end) = put_chars outside buffer start (end - start)

  slice-middle :
      (pre l post : List ℕ) → slice (pre ++ (l ++ post)) (length pre, length pre + length l) ≡ l
  slice-middle pre l post =
      ap (λ (k : ℕ). put_chars outside (pre ++ (l ++ post)) (length pre) k) size
      ∙ put_chars-middle l pre post
    where
      size : length pre + length l - length pre ≡ length l
      size = omega arith

  slices :
      (lines : List Line) (last pre post : List ℕ)
      → map (slice (pre ++ (text_of lines last ++ post))) (spans (length pre) lines last)
        ≡ line_texts lines last
  unfolding text_of spans
  slices [] last pre post = ap (λ (l : List ℕ). l ∷ []) (slice-middle pre last post)
  slices ((l, cr) ∷ lines) last pre post =
      ap₂ ◌∷◌
        (ap (λ (b : List ℕ). slice b (length pre, length pre + length l)) (sym whole)
          ∙ slice-middle pre l (end_of cr ++ (text_of lines last ++ post)))
        ((λ i. map (slice (parted i)) (spans (sym count i) lines last))
          ∙ slices lines last (pre ++ l ++ end_of cr) post)
    where
      whole :
          pre ++ (l ++ (end_of cr ++ (text_of lines last ++ post)))
          ≡ pre ++ (l ++ (end_of cr ++ text_of lines last) ++ post)
      whole = simp append_assoc

      parted :
          pre ++ (l ++ (end_of cr ++ text_of lines last) ++ post)
          ≡ pre ++ l ++ end_of cr ++ (text_of lines last ++ post)
      parted = simp append_assoc

      count : length (pre ++ l ++ end_of cr) ≡ length pre + length l + length (end_of cr)
      count = omega (arith, length-append (pre ++ l) (end_of cr), length-append pre l)

  entry :
      (f : ℕ × ℕ → List ℕ) (xs : List (ℕ × ℕ)) (k : ℕ)
      → k < length xs
      → f (get_or xs k (0, 0)) ≡ get_or (map f xs) k []
  entry f [] k h = absurd (omega arith)
  entry f (x ∷ xs) zero h = refl
  entry f (x ∷ xs) (suc k) h = entry f xs k (omega arith)

pub length-spans :
    (lines : List Line) (n : ℕ) (last : List ℕ) → length (spans n lines last) ≡ suc (length lines)
unfolding spans
length-spans [] n last = refl
length-spans ((l, cr) ∷ lines) n last =
    ap suc (length-spans lines (n + length l + length (end_of cr)) last)

-- Of a text of plain lines that fits into the arrays, print_line prints each line with its number: the
-- characters of the line without the CR and the LF that end it.
pub print_line_lem :
    (outside : ℕ) (lines : List Line) (last : List ℕ) (k : ℕ)
    → All PlainLine lines
    → All Plain last
    → length (text_of lines last) < 80000
    → length lines < 1000
    → k ≤ length lines
    → print_line outside (read_lines (text_of lines last)) (pos (suc k))
      ≡ pad_2 (int_text (pos (suc k)))
        ++ (codes " " ++ (get_or (line_texts lines last) k [] ++ (10 ∷ [])))
unfolding print_line read_lines
print_line_lem outside lines last k p q h m l =
    ap (λ (t : List ℕ). pad_2 (int_text (pos (suc k))) ++ (codes " " ++ (t ++ (10 ∷ []))))
      (ap (λ (i : ℕ). chars_of outside r (get_or r.lines i (0, 0))) index
        ∙ ap (λ (xs : List (ℕ × ℕ)). chars_of outside r (get_or xs k (0, 0))) spanned
        ∙ ap (λ (b : List ℕ). slice outside b (get_or (spans 0 lines last) k (0, 0))) kept
        ∙ entry outside (slice outside (text_of lines last ++ (255 ∷ []))) (spans 0 lines last) k
            (omega (arith, l, length-spans lines 0 last))
        ∙ ap (λ (ls : List (List ℕ)). get_or ls k []) (slices outside lines last [] (255 ∷ [])))
  where
    r : Reader
    r = read_lines (text_of lines last)

    index : pos_part (pos (suc k) -ℤ pos 1) ≡ k
    index = ground arith

    spanned : r.lines ≡ spans 0 lines last
    spanned = (read-text lines last 0 [] [] p q (omega (arith, h)) (omega (arith, m))).0

    kept : r.buffer ≡ text_of lines last ++ (255 ∷ [])
    kept = (read-text lines last 0 [] [] p q (omega (arith, h)) (omega (arith, m))).1
