-- ===== src/Session/Timeline.antt =====
-- The timeline of GPIO values: `show_timeline` and its callback in src/main.c, and the calls of the
-- callback in `show_timeline` of src/ui.c, without those that draw.
use simpio.Base.{
  ltb, ◌==◌, ℕ, zero, suc, ◌+◌, ◌-◌, ◌%◌, ◌^◌, Bool, true, false, none, some, List, [], ◌∷◌, get_or,
  if◌then◌else◌,
}
use simpio.History.{Entry, History, history_get, history_iteration}

-- `ui_timeline_dialog_data_t`: which of the fields are set, and the GPIO of each.
pub record Dialog : Type 0 where
  pub gpio_set : List Bool
  pub gpio_values : List ℕ

-- The static variables: the dialog, the history of the hardware, what the callback returns a pointer to
-- (`ui_history`), and its counts.
pub record Timeline : Type 0 where
  pub dialog : Dialog
  pub history : History
  pub ui_history : Entry
  pub gpio_history_num : ℕ
  pub num_places : ℕ
  pub iteration_count : ℕ

-- The loop that maps GPIO numbers to fields, over the fields that are left.
unfoldable pub map_values : List Bool → List ℕ → List Bool → List Bool → List Bool
map_values (true ∷ sets) (gpio ∷ gpios) (old ∷ olds) values =
    get_or values gpio false ∷ map_values sets gpios olds values
map_values (false ∷ sets) (gpio ∷ gpios) (old ∷ olds) values =
    old ∷ map_values sets gpios olds values
map_values _ _ olds values = olds

-- The loop that eats the values before the places that are shown, with `left` rounds left.
unfoldable pub eat : ℕ → Timeline → Timeline
eat zero t = t
eat (suc left) t =
    eat left
      (record t { history = (history_get t.history).1; iteration_count = t.iteration_count + 1 })

-- `outside` is what stands outside the array of the history.
module _ (outside : Entry) where
  abbrev pub place_of : Entry → Timeline → Timeline
  place_of e t = record t {
    ui_history = record {
      values = map_values t.dialog.gpio_set t.dialog.gpio_values t.ui_history.values e.values;
      clock_tick = e.clock_tick;
    };
  }

  -- `timeline_callback_function`: whether it returns a pointer, and the state after it.
  unfoldable pub timeline_callback_function : Timeline → Bool × Timeline
  timeline_callback_function t =
      let pad = (t.gpio_history_num + 2 ^ 32 - t.num_places) % 2 ^ 32 in
      let t1 = eat (pad - t.iteration_count) t in
      let (found, history) = history_get t1.history in
      let t2 = record t1 { history = history } in
      elim found [
        | none ↦ (false, t2)
        | some i ↦ (true, place_of (get_or history.gpio_history i outside) t2)
      ]

  -- The places of the window from the next one on, with `left` of them left.
  unfoldable pub places : ℕ → Timeline → List Entry
  places zero t = []
  places (suc left) t =
      let (found, t') = timeline_callback_function t in
      let rest = places left t' in if found then t'.ui_history ∷ rest else []

  -- What `show_timeline` shows, in a window of `max_places` places: `ui_show_timeline_window` lowers
  -- their number, and the first place is always filled.
  unfoldable pub show_timeline : ℕ → Timeline → List Entry
  show_timeline max_places t =
      let (num, history) = history_iteration t.history in
      let num_places = if ltb max_places num then max_places else num in
      if num == 0
      then []
      else places (suc (num_places - 1)) (record t {
        history = history;
        gpio_history_num = num;
        num_places = num_places;
        iteration_count = 0;
      })
