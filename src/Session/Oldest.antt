-- ===== src/Session/Oldest.antt =====
-- Which entries of the history the timeline shows.
use simpio.Base.{
  drop, ltb, if◌then◌else◌, ◌≡◌, arith, refl, ap, ap₂, sym, ◌∙◌, ℕ, zero, suc, ◌+◌, ◌-◌, ◌%◌, ◌^◌,
  ◌<◌, ◌≤◌, Bool, true, false, some, List, [], ◌∷◌, ◌++◌, map, get_or, length, length-append,
}
use simpio.Enumerator.{numbers_from}
use simpio.Hardware.{Gpio}
use simpio.History.{Entry, History, history_get, history_iteration, history_init}
use simpio.History.Stored.{
  updates, entry_at, Stored, updates-older, updates-Stored, updates-entries,
}
use simpio.Session.Shown.{seen, observed, length-map_values, map_values-set, map-seen, map-observed}
use simpio.Session.Timeline.{
  Timeline, timeline_callback_function, places, show_timeline, eat, place_of,
}

-- How many entries the next call of the callback eats.
abbrev due : Timeline → ℕ
due t = (t.gpio_history_num + 2 ^ 32 - t.num_places) % 2 ^ 32 - t.iteration_count

get-iterator :
    (h : History)
    → h.count < 50
    → h.current_iterator < 50
    → history_get h
      ≡ (some h.current_iterator, record h { current_iterator = h.current_iterator + 1 })
unfolding history_get
get-iterator h c l = ground arith

abbrev eaten : ℕ → Timeline → Timeline
eaten k t = record t {
  history = record t.history { current_iterator = t.history.current_iterator + k };
  iteration_count = t.iteration_count + k;
}

eat-eaten :
    (k : ℕ) (t : Timeline)
    → t.history.count < 50
    → t.history.current_iterator + k ≤ 50
    → eat k t ≡ eaten k t
unfolding eat
eat-eaten zero t c l = λ i. eaten_nothing i
  where
    it : t.history.current_iterator ≡ t.history.current_iterator + 0
    it = omega arith

    ic : t.iteration_count ≡ t.iteration_count + 0
    ic = omega arith

    eaten_nothing : t ≡ eaten 0 t
    eaten_nothing = λ i. record t {
      history = record t.history { current_iterator = it i };
      iteration_count = ic i;
    }
eat-eaten (suc k) t c l = rw (get-iterator t.history c (omega (arith, l))) (
    eat-eaten k (eaten 1 t) c (omega (arith, l)) ∙ λ i. record t {
      history = record t.history { current_iterator = it i };
      iteration_count = ic i;
    })
  where
    it : t.history.current_iterator + 1 + k ≡ t.history.current_iterator + suc k
    it = omega arith

    ic : t.iteration_count + 1 + k ≡ t.iteration_count + suc k
    ic = omega arith

module _ (outside : Entry) where
  abbrev next : Timeline → Timeline
  next t =
      place_of outside (get_or t.history.gpio_history t.history.current_iterator outside)
        (record t {
          history = record t.history { current_iterator = t.history.current_iterator + 1 };
        })

  callback-next :
      (t : Timeline)
      → t.history.count < 50
      → t.history.current_iterator + due t < 50
      → timeline_callback_function outside t ≡ (true, next (eaten (due t) t))
  unfolding timeline_callback_function
  callback-next t c l =
      ground (
        arith,
        eat-eaten (due t) t c (omega (arith, l)),
        get-iterator (eaten (due t) t).history c l,
      )

  -- After a call nothing is left to eat.
  due-next : (t : Timeline) → due (next (eaten (due t) t)) ≡ 0
  due-next t = omega arith

  -- What the field `j` shows, if it is set to the GPIO `g`.
  module _ (j g : ℕ) where
    places-seen :
        (left : ℕ) (t : Timeline) (d : ℕ)
        → get_or t.dialog.gpio_set j false ≡ true
        → get_or t.dialog.gpio_values j 0 ≡ g
        → j < length t.dialog.gpio_values
        → j < length t.ui_history.values
        → due t ≡ d
        → t.history.count < 50
        → t.history.current_iterator + d + left ≤ 50
        → map (seen j) (places outside left t)
          ≡ map
              (λ (i : ℕ). seen g (entry_at outside t.history i))
              (numbers_from (t.history.current_iterator + d) left)
    unfolding places numbers_from
    places-seen zero t d on pin fields values e c l = refl
    places-seen (suc left) t d on pin fields values e c l =
        rw (callback-next t c (omega (arith, e, l))) (
          ap₂ ◌∷◌
            ((λ k. (
              map_values-set t.dialog.gpio_set t.dialog.gpio_values t.ui_history.values
                  (now t).values j g on pin fields values k,
              (now t).clock_tick,
            ))
              ∙ ap (λ (i : ℕ). seen g (entry_at outside t.history i)) here)
            (places-seen left (next (eaten (due t) t)) 0 on pin fields
                (omega (
                  arith,
                  values,
                  length-map_values t.dialog.gpio_set t.dialog.gpio_values t.ui_history.values
                      (now t).values,
                ))
                (due-next t) c (omega (arith, e, l))
              ∙ ap
                  (λ (i : ℕ).
                    map (λ (n : ℕ). seen g (entry_at outside t.history n)) (numbers_from i left))
                  there))
      where
        now : Timeline → Entry
        now t = entry_at outside t.history (t.history.current_iterator + due t)

        here : t.history.current_iterator + due t ≡ t.history.current_iterator + d
        here = omega (arith, e)

        there : t.history.current_iterator + due t + 1 + 0 ≡ t.history.current_iterator + d + 1
        there = omega (arith, e)

drop-numbers :
    (f : ℕ → Bool × ℕ) (d i n : ℕ)
    → drop d (map f (numbers_from i (d + n))) ≡ map f (numbers_from (i + d) n)
unfolding numbers_from
drop-numbers f zero i n = ap₂ (λ (j m : ℕ). map f (numbers_from j m)) (omega arith) (omega arith)
drop-numbers f (suc d) i n =
    ap (λ (m : ℕ). drop (suc d) (map f (numbers_from i m))) more
    ∙ drop-numbers f d (i + 1) n
    ∙ ap (λ (j : ℕ). map f (numbers_from j n)) (omega arith)
  where
    more : suc d + n ≡ suc (d + n)
    more = omega arith

-- Of at least one and fewer than 50 updates since the history was started, the timeline would show the
-- entry of the array that no update has stored, and then the updates but the last, the oldest first. It
-- shows as many of these as fit into its window, which has at least one place, from the end: at each
-- place the clock and, in a field that is set to a GPIO, the level of that line.
pub show_timeline-levels :
    (outside : Entry) (max_places j g : ℕ) (before : List (List Gpio × ℕ)) (last : List Gpio × ℕ)
    (h : History) (t : Timeline)
    → 0 < max_places
    → length before < 49
    → length h.gpio_history ≡ 50
    → t.history ≡ updates (before ++ (last ∷ [])) (history_init h).1
    → get_or t.dialog.gpio_set j false ≡ true
    → get_or t.dialog.gpio_values j 0 ≡ g
    → g < 32
    → j < length t.dialog.gpio_values
    → j < length t.ui_history.values
    → map (seen j) (show_timeline outside max_places t)
      ≡ drop
          (suc (length before) - max_places)
          (seen g (entry_at outside h 0) ∷ map (observed g) before)
unfolding show_timeline history_iteration history_init numbers_from
show_timeline-levels outside max_places j g before last h t room l s e on pin gpio fields values =
    ap (λ (es : List Entry). map (seen j) es) shown
    ∙ places-seen outside j g (suc (n - 1)) started d on pin fields values due_d
        (omega (arith, count, l)) (omega (arith, n_lem, l))
    ∙ sym (drop-numbers (level t.history) d 0 (suc (n - 1)))
    ∙ ap (λ (m : ℕ). drop d (map (level t.history) (numbers_from 0 m))) total
    ∙ ap (λ (ts : List (Bool × ℕ)). drop d ts)
        (ap₂ ◌∷◌
          (ap (λ (k : History). level k 0) e
            ∙ ap (seen g) (updates-older outside us 0 0 h0 long s0 (omega arith)))
          (ap (λ (k : History). map (level k) (numbers_from 1 (length before))) e
            ∙ map-seen g (entry_at outside (updates us h0)) (numbers_from 1 (length before))
            ∙ ap (λ (es : List Entry). map (seen g) es)
                (updates-entries outside before (last ∷ []) 0 h0 (omega (arith, l)) s0)
            ∙ map-observed g before gpio))
  where
    level : History → ℕ → Bool × ℕ
    level k i = seen g (entry_at outside k i)

    us : List (List Gpio × ℕ)
    us = before ++ (last ∷ [])

    h0 : History
    h0 = (history_init h).1

    s0 : Stored outside 0 h0
    s0 = (refl, refl, s)

    long : 0 + length us < 50
    long = omega (arith, l, length-append before (last ∷ []))

    count : t.history.count ≡ suc (length before)
    count =
        ap (λ (g : History). g.count) e
        ∙ (updates-Stored outside us 0 h0 long s0).0
        ∙ omega (arith, length-append before (last ∷ []))

    d : ℕ
    d = suc (length before) - max_places

    n : ℕ
    n = if ltb max_places t.history.count then max_places else t.history.count

    started : Timeline
    started = record t {
      history = record t.history { current_iterator = 0 };
      gpio_history_num = t.history.count;
      num_places = n;
      iteration_count = 0;
    }

    n_lem : suc (n - 1) + d ≡ suc (length before)
    n_lem = ground (arith, count, room)

    total : d + suc (n - 1) ≡ suc (length before)
    total = omega (arith, n_lem)

    due_d : due started ≡ d
    due_d = ground (arith, count, room, l)

    shown : show_timeline outside max_places t ≡ places outside (suc (n - 1)) started
    shown = ground (arith, count)
