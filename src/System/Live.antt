-- ===== src/System/Live.antt =====
-- Successive calls of `next_instruction`: every state machine gets its turn.
use simpio.Base.{
  ℕ, ◌<◌, ◌≤◌, ◌≡◌, ◌≢◌, Bool, true, inl, inr, ◌⊎◌, Option, some, List, [], ◌∷◌, arith, All, length,
  ap, ℕ_discrete, ◌∙◌, subst, sym,
}
use simpio.System.{Turn}
use simpio.System.Turns.{all_sms, find_sm}
use simpio.System.Fair.{first_tried, after, distance, Found, find_sm-Found, sm_round-range}

-- What the calls find, where at each of them other machines may be able to run.
unfoldable pub picks : List (ℕ → Bool) → Turn → List (Option ℕ)
picks [] t = []
picks (runnable ∷ later) t = let (found, t') = find_sm runnable all_sms t in found ∷ picks later t'

abbrev pub Picked : ℕ → List (Option ℕ) → Type 0
Picked k [] = ⊥
Picked k (x ∷ xs) = (x ≡ some k) ⊎ Picked k xs

sooner :
    (i r k : ℕ)
    → i < 8
    → r < 8
    → k < 8
    → r ≢ k
    → distance i r ≤ distance i k
    → distance (after r) k < distance i k
sooner i r k a b c d h = ground arith

within : (i k : ℕ) → i < 8 → k < 8 → distance i k < 8
within i k a b = ground arith

picks-within :
    (k : ℕ)
    → k < 8
    → (runnables : List (ℕ → Bool)) (t : Turn) → All (λ runnable. runnable k ≡ true) runnables
    → distance (first_tried t) k < length runnables
    → Picked k (picks runnables t)
unfolding picks
picks-within k l [] t can h = absurd (omega arith)
picks-within k l (runnable ∷ later) t (can, can_later) h =
    let found =
      find_sm-Found runnable all_sms t k can l (within (first_tried t) k (sm_round-range t).0 l) in
    next found (ℕ_discrete found.0 k)
      (picks-within k l later (find_sm runnable all_sms t).1 can_later)
  where
    next :
        (found : Found runnable t k (find_sm runnable all_sms t))
        → Dec (found.0 ≡ k)
        → (distance (first_tried (find_sm runnable all_sms t).1) k < length later
            → Picked k (picks later (find_sm runnable all_sms t).1))
        → Picked k (picks (runnable ∷ later) t)
    next (r, p, c, b, n, q) (yes e) ih = inl (p ∙ ap some e)
    next (r, p, c, b, n, q) (no d) ih =
        let s = sooner (first_tried t) r k (sm_round-range t).0 b l d n in
        inr (ih (subst (λ j. distance j k < length later) (sym q) (omega (arith, s, h))))

-- A state machine that can run at each of eight successive calls of `next_instruction` is found by
-- one of them, whatever the other machines do.
pub picks-All :
    (k : ℕ)
    → k < 8
    → (runnables : List (ℕ → Bool)) (t : Turn) → All (λ runnable. runnable k ≡ true) runnables
    → 8 ≤ length runnables
    → Picked k (picks runnables t)
picks-All k l runnables t can h =
    picks-within k l runnables t can
      (omega (arith, within (first_tried t) k (sm_round-range t).0 l))
