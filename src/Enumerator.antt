-- ===== src/Enumerator.antt =====
-- inc/enumerator.h: the macros that walk an array. A pointer into the array is its index, and NULL is
-- `none`; each function takes `*e` and returns it.
use simpio.Base.{
  ℕ, zero, suc, ◌+◌, ◌<◌, ◌≡◌, Option, none, some, List, [], ◌∷◌, ltb, if◌then◌else◌, arith,
}

-- `NAME_first` and `NAME_next` of an array of `max` elements.
abbrev pub enum_first : ℕ × ℕ
enum_first = (0, 1)

unfoldable pub enum_next : ℕ → ℕ → Option ℕ × ℕ
enum_next max e = if ltb e max then (some e, if ltb max (e + 1) then max else e + 1) else (none, e)

-- `FOR_ENUMERATION`: the elements that the body sees, from the one at hand on, in at most `fuel` rounds.
pub enum_loop : ℕ → ℕ → ℕ → ℕ → Option (List ℕ)
enum_loop zero max i e = none
enum_loop (suc fuel) max i e =
    let (next, e') = enum_next max e in
    elim next [
      | none ↦ some (i ∷ [])
      | some j ↦ elim (enum_loop fuel max j e') [ none ↦ none | some is ↦ some (i ∷ is) ]
    ]

pub for_enumeration : ℕ → ℕ → Option (List ℕ)
for_enumeration fuel max = enum_loop fuel max enum_first.0 enum_first.1

-- `count` numbers from `i` on.
unfoldable pub numbers_from : ℕ → ℕ → List ℕ
numbers_from i zero = []
numbers_from i (suc count) = i ∷ numbers_from (i + 1) count

enum_next-more : (max e : ℕ) → e < max → enum_next max e ≡ (some e, e + 1)
unfolding enum_next
enum_next-more max e h = ground arith

enum_next-end : (max : ℕ) → enum_next max max ≡ (none, max)
unfolding enum_next
enum_next-end max = ground arith

enum_loop_lem :
    (left fuel max i : ℕ)
    → i + 1 + left ≡ max
    → left < fuel
    → enum_loop fuel max i (i + 1) ≡ some (numbers_from i (suc left))
unfolding enum_loop numbers_from
enum_loop_lem left zero max i e h = absurd (omega arith)
enum_loop_lem zero (suc fuel) max i e h = ground (arith, enum_next-end (i + 1))
enum_loop_lem (suc left) (suc fuel) max i e h =
    ground (arith, enum_next-more max (i + 1), enum_loop_lem left fuel max (i + 1))

-- `FOR_ENUMERATION` over a nonempty array ends, and its body sees every element once, in order.
pub for_enumeration_lem : (max : ℕ) → 0 < max → for_enumeration max max ≡ some (numbers_from 0 max)
unfolding for_enumeration
for_enumeration_lem zero h = absurd (omega arith)
for_enumeration_lem (suc max) h =
    enum_loop_lem max (suc max) (suc max) 0 (omega arith) (omega arith)
