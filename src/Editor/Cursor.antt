-- ===== src/Editor/Cursor.antt =====
-- The cursor of the editor stays in the window and on the line that it edits.
use simpio.Base.{
  subst, Bool-cases, inl, inr, ltb, ◌==◌, ℕ, zero, suc, ◌+◌, ◌<◌, ◌≡◌, refl, arith, List, [], ◌∷◌,
  pos, ap, sym,
}
use simpio.Editor.{Editor, adjust_cursor, ed_home, ed_up, ed_down, ed_right, ed_left, decrease}

pub data Move : Type 0 where
  home up down right left : Move

unfoldable pub move : Move → Editor → Editor
move home = ed_home
move up = ed_up
move down = ed_down
move right = ed_right
move left = ed_left

unfoldable pub moves : List Move → Editor → Editor
unfolding move
moves [] ed = ed
moves (m ∷ ms) ed = moves ms (move m ed)

-- The window shows `r` of the `n` lines, from `f` to `l`; the cursor is in row `y` and on line `f + y`.
abbrev pub InWindow : ℕ → ℕ → Editor → Type 0
InWindow r n ed =
    (f : ℕ) × (y : ℕ) × (l : ℕ) × (ed.first_displayed_line ≡ pos f)
    × (ed.cursor_y ≡ pos y)
    × (ed.last_displayed_line ≡ pos l)
    × (ed.current_line ≡ pos (f + y))
    × (ed.window_num_rows ≡ pos r)
    × (ed.num_lines ≡ pos n)
    × (y < r)
    × (suc l ≡ f + r)
    × (l < n)

decrease-suc : (k : ℕ) → decrease (pos (suc k)) ≡ pos k
decrease-suc k = ground arith

-- The view of an editor with its numbers in place.
abbrev view : Editor → ℕ → ℕ → ℕ → ℕ → ℕ → Editor
view ed r n f y l = record ed {
  first_displayed_line = pos f;
  cursor_y = pos y;
  last_displayed_line = pos l;
  current_line = pos (f + y);
  window_num_rows = pos r;
  num_lines = pos n;
}

module _ (r n : ℕ) (ed : Editor) where
  up-view : (f y l : ℕ) → y < r → suc l ≡ f + r → l < n → InWindow r n (ed_up (view ed r n f y l))
  unfolding ed_up adjust_cursor
  up-view zero zero l a b c = (0, 0, l, refl, refl, refl, refl, refl, refl, a, b, c)
  up-view (suc f) zero zero a b c = absurd (omega arith)
  up-view (suc f) zero (suc l) a b c = (
    f,
    0,
    l,
    ground arith,
    ground arith,
    ground arith,
    ground arith,
    ground arith,
    ground arith,
    a,
    omega arith,
    omega arith,
  )
  up-view f (suc y) l a b c = (
    f,
    y,
    l,
    ground arith,
    ground arith,
    ground arith,
    ground arith,
    ground arith,
    ground arith,
    omega arith,
    b,
    c,
  )

  down-view :
      (f y l : ℕ) → y < r → suc l ≡ f + r → l < n → InWindow r n (ed_down (view ed r n f y l))
  unfolding ed_down adjust_cursor
  down-view f y l a b c = elim (Bool-cases (ltb (f + y + 1) n)) [
    | inl more ↦ elim (Bool-cases (y + 1 == r)) [
      | inl edge ↦ (
        suc f,
        y,
        suc l,
        ground arith,
        ground arith,
        ground arith,
        ground arith,
        ground arith,
        ground arith,
        a,
        omega arith,
        ground arith,
      )
      | inr inside ↦ (
        f,
        suc y,
        l,
        ground arith,
        ground arith,
        ground arith,
        ground arith,
        ground arith,
        ground arith,
        ground arith,
        b,
        c,
      )
    ]
    | inr end ↦ (
      f,
      y,
      l,
      ground arith,
      ground arith,
      ground arith,
      ground arith,
      ground arith,
      ground arith,
      a,
      b,
      c,
    )
  ]

  left-view :
      (f y l : ℕ) → y < r → suc l ≡ f + r → l < n → InWindow r n (ed_left (view ed r n f y l))
  unfolding ed_left
  left-view f y l a b c = (
    f,
    y,
    l,
    ground arith,
    ground arith,
    ground arith,
    ground arith,
    ground arith,
    ground arith,
    a,
    b,
    c,
  )

  move-view :
      (m : Move) (f y l : ℕ)
      → y < r
      → suc l ≡ f + r
      → l < n
      → InWindow r n (move m (view ed r n f y l))
  unfolding move ed_home ed_right adjust_cursor
  move-view home f y l a b c =
      (f, 0, l, refl, refl, refl, ap pos (omega arith), refl, refl, omega arith, b, c)
  move-view up f y l a b c = up-view f y l a b c
  move-view down f y l a b c = down-view f y l a b c
  move-view right f y l a b c = (f, y, l, refl, refl, refl, refl, refl, refl, a, b, c)
  move-view left f y l a b c = left-view f y l a b c

move-InWindow : (r n : ℕ) (m : Move) (ed : Editor) → InWindow r n ed → InWindow r n (move m ed)
move-InWindow r n m ed (f, y, l, p, q, s, t, u, v, a, b, c) =
    subst (λ e. InWindow r n (move m e))
      (λ i. record ed {
        first_displayed_line = sym p i;
        cursor_y = sym q i;
        last_displayed_line = sym s i;
        current_line = sym t i;
        window_num_rows = sym u i;
        num_lines = sym v i;
      })
      (move-view r n ed m f y l a b c)

-- In a file that fills the window, any moves of the cursor by a line, by a column or to the first row
-- keep it in the window, and on the row of the line that it edits.
pub moves-InWindow :
    (r n : ℕ) (ms : List Move) (ed : Editor) → InWindow r n ed → InWindow r n (moves ms ed)
unfolding moves
moves-InWindow r n [] ed h = h
moves-InWindow r n (m ∷ ms) ed h = moves-InWindow r n ms (move m ed) (move-InWindow r n m ed h)
