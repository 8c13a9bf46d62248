-- ===== src/Fifo/Window.antt =====
-- The cells of a FIFO between two marks, oldest (topmost) first, and what the shifting loop of
-- src/fifo.c does to them.
use simpio.Base.{
  ℕ, zero, suc, ◌+◌, ◌≤◌, ◌<◌, ◌≡◌, refl, ap, ap₂, ◌∙◌, ◌⊎◌, List, [], ◌∷◌, ◌++◌, arith,
}
use simpio.Base.{length, get_or, set, length-set, get_or-set_self, get_or-set_ne}
use simpio.Fifo.{shift_up}

abbrev pub window : List ℕ → ℕ → ℕ → List ℕ
window buffer bottom zero = []
window buffer bottom (suc n) = get_or buffer (bottom + n) 0 ∷ window buffer bottom n

pub length-window : (buffer : List ℕ) (bottom n : ℕ) → length (window buffer bottom n) ≡ n
length-window buffer bottom zero = refl
length-window buffer bottom (suc n) = ap suc (length-window buffer bottom n)

-- A store outside a window leaves it.
pub window-set_ne :
    (buffer : List ℕ) (bottom n i v : ℕ)
    → (i < bottom) ⊎ (bottom + n ≤ i)
    → window (set buffer i v) bottom n ≡ window buffer bottom n
window-set_ne buffer bottom zero i v h = refl
window-set_ne buffer bottom (suc n) i v h =
    ap₂ ◌∷◌ (get_or-set_ne buffer i (bottom + n) v 0 (ground arith))
      (window-set_ne buffer bottom n i v (ground arith))

pub length-shift_up :
    (bottom n : ℕ) (buffer : List ℕ) → length (shift_up bottom n buffer) ≡ length buffer
unfolding shift_up
length-shift_up bottom zero buffer = refl
length-shift_up bottom (suc n) buffer = omega (
  arith,
  length-shift_up bottom n (set buffer (bottom + n + 1) (get_or buffer (bottom + n) 0)),
  length-set buffer (bottom + n + 1) (get_or buffer (bottom + n) 0),
)

-- The loop writes the cells from `bottom + 1` to `bottom + n` and no other.
pub get_or-shift_up :
    (bottom n : ℕ) (buffer : List ℕ) (j : ℕ)
    → (j ≤ bottom) ⊎ (bottom + n < j)
    → get_or (shift_up bottom n buffer) j 0 ≡ get_or buffer j 0
unfolding shift_up
get_or-shift_up bottom zero buffer j h = refl
get_or-shift_up bottom (suc n) buffer j h = ground (
  arith,
  get_or-shift_up bottom n (set buffer (bottom + n + 1) (get_or buffer (bottom + n) 0)) j,
  get_or-set_ne buffer (bottom + n + 1) j (get_or buffer (bottom + n) 0) 0,
)

pub window-shift_up :
    (bottom n : ℕ) (buffer : List ℕ) (b k : ℕ)
    → (b + k ≤ bottom) ⊎ (bottom + n < b)
    → window (shift_up bottom n buffer) b k ≡ window buffer b k
window-shift_up bottom n buffer b zero h = refl
window-shift_up bottom n buffer b (suc k) h =
    ap₂ ◌∷◌ (get_or-shift_up bottom n buffer (b + k) (ground arith))
      (window-shift_up bottom n buffer b k (ground arith))

-- Shifting a window up by one cell and storing below it appends the value to the queue.
pub window-shift_up-set :
    (bottom n : ℕ) (buffer : List ℕ) (v : ℕ)
    → bottom + n < length buffer
    → window (set (shift_up bottom n buffer) bottom v) bottom (suc n)
      ≡ window buffer bottom n ++ (v ∷ [])
unfolding shift_up
window-shift_up-set bottom zero buffer v h = ground (arith, get_or-set_self buffer bottom v 0)
window-shift_up-set bottom (suc n) buffer v h =
    ap₂ ◌∷◌ top (window-shift_up-set bottom n moved v fits ∙ ap (λ t. t ++ (v ∷ [])) below)
  where
    x : ℕ
    x = get_or buffer (bottom + n) 0

    moved : List ℕ
    moved = set buffer (bottom + n + 1) x

    fits : bottom + n < length moved
    fits = omega (arith, length-set buffer (bottom + n + 1) x)

    below : window moved bottom n ≡ window buffer bottom n
    below = window-set_ne buffer bottom n (bottom + n + 1) x (ground arith)

    top : get_or (set (shift_up bottom n moved) bottom v) (bottom + suc n) 0 ≡ x
    top = ground (
      arith,
      get_or-set_ne (shift_up bottom n moved) bottom (bottom + suc n) v 0,
      get_or-shift_up bottom n moved (bottom + suc n),
      get_or-set_self buffer (bottom + n + 1) x 0,
    )
