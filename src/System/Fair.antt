-- ===== src/System/Fair.antt =====
-- The round robin over the state machines leaves none of them out.
use simpio.Base.{
  ℕ, zero, suc, ◌+◌, ◌-◌, ◌<◌, ◌≤◌, ◌≡◌, ◌≢◌, refl, ap, Bool, true, false, Option, none, some,
  if◌then◌else◌, ltb, arith,
}
use simpio.Enumerator.{enum_next}
use simpio.System.{Turn}
use simpio.System.Turns.{turn_at, sm_round, find_sm}

-- The machine that the next round tries, the machine after `i`, and the rounds from `i` until `k`.
abbrev pub first_tried : Turn → ℕ
first_tried t = (sm_round t).0

abbrev pub after : ℕ → ℕ
after i = if ltb (i + 1) 8 then i + 1 else 0

abbrev pub distance : ℕ → ℕ → ℕ
distance i k = if ltb k i then k + 8 - i else k - i

pub sm_round-range : (t : Turn) → ((sm_round t).0 < 8) × ((sm_round t).1 ≡ (sm_round t).0 + 1)
unfolding sm_round enum_next
sm_round-range t = choose t.current
  where
    choose :
        (c : Option ℕ)
        → let r = sm_round (record { current = c; e = t.e }) in (r.0 < 8) × (r.1 ≡ r.0 + 1)
    choose none = ground arith
    choose (some _) = ground arith

sm_round-after : (t : Turn) → first_tried (turn_at (sm_round t)) ≡ after (first_tried t)
unfolding sm_round enum_next
sm_round-after t = next (sm_round t) (sm_round-range t)
  where
    next : (r : ℕ × ℕ) → (r.0 < 8) × (r.1 ≡ r.0 + 1) → first_tried (turn_at r) ≡ after r.0
    next (i, e) (h, p) = ground arith

nearer : (i k : ℕ) → i < 8 → k < 8 → i ≢ k → distance i k ≡ suc (distance (after i) k)
nearer i k h l d = ground arith

further :
    (i r : ℕ) → i < 8 → r < 8 → distance (after i) r < 7 → distance i r ≡ suc (distance (after i) r)
further i r h l d = ground arith

closer :
    (i j r k : ℕ)
    → j ≡ after i
    → i < 8
    → r < 8
    → k < 8
    → i ≢ k
    → distance j r ≤ distance j k
    → distance i r ≤ distance i k
closer i j r k e a b c d h = ground arith

here : (i k : ℕ) → distance i i ≤ distance i k
here i k = ground arith

-- The machine `r` that a search has found, where `k` can run too.
abbrev pub Found : (ℕ → Bool) → Turn → ℕ → Option ℕ × Turn → Type 0
Found runnable t k found =
    (r : ℕ) × (found.0 ≡ some r)
    × (runnable r ≡ true)
    × (r < 8)
    × (distance (first_tried t) r ≤ distance (first_tried t) k)
    × (first_tried found.1 ≡ after r)

-- A search with enough rounds finds a machine that can run, at the latest `k`, if `k` can run.
pub find_sm-Found :
    (runnable : ℕ → Bool) (rounds : ℕ) (t : Turn) (k : ℕ)
    → runnable k ≡ true
    → k < 8
    → distance (first_tried t) k < rounds
    → Found runnable t k (find_sm runnable rounds t)
unfolding find_sm
find_sm-Found runnable zero t k can l h = absurd (omega arith)
find_sm-Found runnable (suc rounds) t k can l h =
    choose (runnable (first_tried t)) refl
      (find_sm-Found runnable rounds (turn_at (sm_round t)) k can l)
  where
    i : ℕ
    i = first_tried t

    -- What the search from the next machine on has found counts from this one.
    later :
        (j : ℕ)
        → j ≡ after i
        → i ≢ k
        → (found : Option ℕ × Turn)
        → (distance j k < rounds
            → (r : ℕ) × (found.0 ≡ some r)
              × (runnable r ≡ true)
              × (r < 8)
              × (distance j r ≤ distance j k)
              × (first_tried found.1 ≡ after r))
        → Found runnable t k found
    later j e d found ih =
        let (r, p, c, b, n, q) = ih (rw (e) (omega (arith, nearer i k (sm_round-range t).0 l d))) in
        (r, p, c, b, closer (first_tried t) j r k e (sm_round-range t).0 b l d n, q)

    choose :
        (can_run : Bool)
        → runnable (first_tried t) ≡ can_run
        → (distance (first_tried (turn_at (sm_round t))) k < rounds
            → Found runnable
                (turn_at (sm_round t))
                k
                (find_sm runnable rounds (turn_at (sm_round t))))
        → Found runnable t k (
            if can_run
            then (some (first_tried t), turn_at (sm_round t))
            else find_sm runnable rounds (turn_at (sm_round t)))
    choose true e ih =
        (first_tried t, refl, e, (sm_round-range t).0, here (first_tried t) k, sm_round-after t)
    choose false e ih = later _ (sm_round-after t) (λ p. ground (arith, can, e, ap runnable p)) _ ih
