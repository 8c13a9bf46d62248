-- ===== src/Lines/Read.antt =====
-- Where the lines of a text start and end.
use simpio.Base.{
  ◌≢◌, ◌≡◌, arith, refl, ap, sym, ◌∙◌, ℕ, suc, ◌+◌, ◌-◌, ◌<◌, ◌≤◌, Bool, true, false, if◌then◌else◌,
  List, [], ◌∷◌, ◌++◌, length, length-append, All,
}
use mathlib.Core.List.{append-nil, append_assoc}
use native.Mathlib.Nat.{add-zero}
use simpio.Lines.{Reader, line_end, close_line, read_char, read_chars}

-- A character that is neither a CR nor a LF nor taken for EOF.
abbrev pub Plain : ℕ → Type 0
Plain c = (c ≢ 10) × (c ≢ 13) × (c ≢ 255)

-- A line with its end: CR and LF, or only LF.
abbrev pub Line : Type 0
Line = List ℕ × Bool

abbrev pub PlainLine : Line → Type 0
PlainLine l = All Plain l.0

abbrev pub end_of : Bool → List ℕ
end_of true = 13 ∷ 10 ∷ []
end_of false = 10 ∷ []

-- The text of lines that end, and of a last line that does not.
unfoldable pub text_of : List Line → List ℕ → List ℕ
text_of [] last = last
text_of ((l, cr) ∷ ls) last = l ++ (end_of cr ++ text_of ls last)

-- Where the lines of the text are, if it starts at `n`.
unfoldable pub spans : ℕ → List Line → List ℕ → List (ℕ × ℕ)
spans n [] last = (n, n + length last) ∷ []
spans n ((l, cr) ∷ ls) last = (n, n + length l) ∷ spans (n + length l + length (end_of cr)) ls last

abbrev pub reader : ℕ → ℕ → Bool → Bool → List ℕ → List (ℕ × ℕ) → Reader
reader n start cr lf buffer lines = record {
  num_chars = n;
  line_start = start;
  saw_cr = cr;
  saw_lf = lf;
  broken = false;
  buffer = buffer;
  lines = lines;
}

read-Plain :
    (c : ℕ) (rest : List ℕ) (n start : ℕ) (b : List ℕ) (ls : List (ℕ × ℕ))
    → Plain c
    → n < 80000
    → read_chars (c ∷ rest) (reader n start false false b ls)
      ≡ read_chars rest (reader (n + 1) start false false (b ++ (c ∷ [])) ls)
unfolding read_chars read_char
read-Plain c rest n start b ls (p, q, e) l = ground arith

read-line :
    (l rest : List ℕ) (n start : ℕ) (b : List ℕ) (ls : List (ℕ × ℕ))
    → All Plain l
    → n + length l ≤ 80000
    → read_chars (l ++ rest) (reader n start false false b ls)
      ≡ read_chars rest (reader (n + length l) start false false (b ++ l) ls)
read-line [] rest n start b ls p h = rw (add-zero, append-nil) refl
read-line (c ∷ l) rest n start b ls (p, ps) h =
    read-Plain c (l ++ rest) n start b ls p (omega (arith, h))
    ∙ read-line l rest (n + 1) start (b ++ (c ∷ [])) ls ps (omega (arith, h))
    ∙ (λ i. read_chars rest (reader (moved i) start false false (append_assoc b (c ∷ []) l i) ls))
  where
    moved : n + 1 + length l ≡ n + suc (length l)
    moved = omega arith

read_cr :
    (rest : List ℕ) (n start : ℕ) (b : List ℕ) (ls : List (ℕ × ℕ))
    → n < 80000
    → read_chars (13 ∷ rest) (reader n start false false b ls)
      ≡ read_chars rest (reader (n + 1) start true false (b ++ (13 ∷ [])) ls)
unfolding read_chars read_char
read_cr rest n start b ls l = ground arith

read_lf :
    (cr : Bool) (rest : List ℕ) (n start : ℕ) (b : List ℕ) (ls : List (ℕ × ℕ))
    → n < 80000
    → read_chars (10 ∷ rest) (reader n start cr false b ls)
      ≡ read_chars rest (reader (n + 1) start cr true (b ++ (10 ∷ [])) ls)
unfolding read_chars read_char
read_lf true rest n start b ls l = ground arith
read_lf false rest n start b ls l = ground arith

-- The character after a LF, or the end of the file, closes the line.
settled :
    (cr : Bool) (ch n start : ℕ) (b : List ℕ) (ls : List (ℕ × ℕ))
    → length ls < 999
    → read_char ch (reader n start cr true b ls)
      ≡ read_char ch (reader n n false false b (ls ++ ((start, if cr then n - 2 else n - 1) ∷ [])))
unfolding read_char line_end
settled true ch n start b ls l = ground arith
settled false ch n start b ls l = ground arith

settled_all :
    (cr : Bool) (rest : List ℕ) (n start : ℕ) (b : List ℕ) (ls : List (ℕ × ℕ))
    → n < 80000
    → length ls < 999
    → read_chars rest (reader n start cr true b ls)
      ≡ read_chars rest
          (reader n n false false b (ls ++ ((start, if cr then n - 2 else n - 1) ∷ [])))
unfolding read_chars
settled_all cr [] n start b ls h l = ground (arith, settled cr 255 n start b ls l)
settled_all cr (c ∷ rest) n start b ls h l = ground (arith, settled cr c n start b ls l)

read-end :
    (cr : Bool) (rest : List ℕ) (n start : ℕ) (b : List ℕ) (ls : List (ℕ × ℕ))
    → n + length (end_of cr) < 80000
    → length ls < 999
    → read_chars (end_of cr ++ rest) (reader n start false false b ls)
      ≡ read_chars rest (
          reader
            (n + length (end_of cr))
            (n + length (end_of cr))
            false
            false
            (b ++ end_of cr)
            (ls ++ ((start, n) ∷ [])))
read-end true rest n start b ls h l =
    read_cr (10 ∷ rest) n start b ls (omega (arith, h))
    ∙ read_lf true rest (n + 1) start (b ++ (13 ∷ [])) ls (omega (arith, h))
    ∙ settled_all true rest (n + 1 + 1) start (b ++ (13 ∷ []) ++ (10 ∷ [])) ls (omega (arith, h)) l
    ∙ (λ i. read_chars rest (
        reader (two i) (two i) false false (append_assoc b (13 ∷ []) (10 ∷ []) i)
          (ls ++ ((start, back i) ∷ []))))
  where
    two : n + 1 + 1 ≡ n + 2
    two = omega arith

    back : n + 1 + 1 - 2 ≡ n
    back = omega arith
read-end false rest n start b ls h l =
    read_lf false rest n start b ls (omega (arith, h))
    ∙ settled_all false rest (n + 1) start (b ++ (10 ∷ [])) ls (omega (arith, h)) l
    ∙ (λ i.
        read_chars rest
          (reader (n + 1) (n + 1) false false (b ++ (10 ∷ [])) (ls ++ ((start, back i) ∷ []))))
  where
    back : n + 1 - 1 ≡ n
    back = omega arith

read_eof :
    (n start : ℕ) (b : List ℕ) (ls : List (ℕ × ℕ))
    → n < 80000
    → read_chars [] (reader n start false false b ls)
      ≡ reader (n + 1) start false false (b ++ (255 ∷ [])) ls
unfolding read_chars read_char
read_eof n start b ls l = ground arith

read_last :
    (last : List ℕ) (n : ℕ) (b : List ℕ) (ls : List (ℕ × ℕ))
    → All Plain last
    → n + length last < 80000
    → read_chars last (reader n n false false b ls)
      ≡ reader (n + length last + 1) n false false (b ++ last ++ (255 ∷ [])) ls
read_last last n b ls q h =
    ap (λ (t : List ℕ). read_chars t (reader n n false false b ls)) (sym (append-nil last))
    ∙ read-line last [] n n b ls q (omega (arith, h))
    ∙ read_eof (n + length last) n (b ++ last) ls h

ends_last :
    (n k : ℕ) (b : List ℕ) (ls : List (ℕ × ℕ)) → line_end (reader (k + 1) n false false b ls) ≡ k
unfolding line_end
ends_last n k b ls = omega arith

-- The lines of a text of plain lines, whose characters and lines fit into the arrays.
pub read-text :
    (lines : List Line) (last : List ℕ) (n : ℕ) (b : List ℕ) (ls : List (ℕ × ℕ))
    → All PlainLine lines
    → All Plain last
    → n + length (text_of lines last) < 80000
    → length ls + length lines < 1000
    → let r = close_line (read_chars (text_of lines last) (reader n n false false b ls)) in
      (r.lines ≡ ls ++ spans n lines last) × (r.buffer ≡ b ++ (text_of lines last ++ (255 ∷ [])))
unfolding text_of spans
read-text [] last n b ls p q h k = rw (read_last last n b ls q h) (
  ap (λ (e : ℕ). ls ++ ((n, e) ∷ [])) (ends_last n (n + length last) (b ++ last ++ (255 ∷ [])) ls),
  append_assoc b last (255 ∷ []),
)
read-text ((l, cr) ∷ lines) last n b ls (p, ps) q h k =
    let n' : ℕ = n + length l + length (end_of cr) in
    let size = length-append l (end_of cr ++ text_of lines last) in
    let size' = length-append (end_of cr) (text_of lines last) in
    let first =
      read-line l (end_of cr ++ text_of lines last) n n b ls p (omega (arith, h, size))
      ∙ read-end cr (text_of lines last) (n + length l) n (b ++ l) ls
          (omega (arith, h, size, size')) (omega (arith, k)) in
    let (spanned, kept) =
      read-text lines last n' (b ++ l ++ end_of cr) (ls ++ ((n, n + length l) ∷ [])) ps q
        (omega (arith, h, size, size'))
        (omega (arith, k, length-append ls ((n, n + length l) ∷ []))) in
    (
      ap (λ (r : Reader). (close_line r).lines) first
          ∙ spanned
          ∙ append_assoc ls ((n, n + length l) ∷ []) (spans n' lines last),
      ap (λ (r : Reader). (close_line r).buffer) first ∙ kept ∙ simp append_assoc,
    )
