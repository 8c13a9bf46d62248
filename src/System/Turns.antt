-- ===== src/System/Turns.antt =====
-- The searches of src/execution.c for the next instruction, which go round the state machines and
-- round the user processors. Each returns what it found and whose turn it was.
use simpio.Base.{ℕ, zero, suc, ◌*◌, Bool, Option, none, some, if◌then◌else◌}
use simpio.Enumerator.{enum_first, enum_next}
use simpio.System.{Turn, num_pios, num_sms, num_user_processors}

abbrev pub all_sms : ℕ
all_sms = num_pios * num_sms

abbrev pub turn_at : ℕ × ℕ → Turn
turn_at (i, e) = record { current = some i; e = e }

-- A round of `next_instruction` before its test: the machine whose turn it is, and the enumerator.
unfoldable pub sm_round : Turn → ℕ × ℕ
unfolding enum_next
sm_round t = elim t.current [
  | none ↦ enum_first
  | some _ ↦
      let (next, e) = enum_next all_sms t.e in elim next [ none ↦ enum_first | some i ↦ (i, e) ]
]

-- The loop of `next_instruction`, with `rounds` rounds left. `runnable` is its test of a machine.
unfoldable pub find_sm : (ℕ → Bool) → ℕ → Turn → Option ℕ × Turn
find_sm runnable zero t = (none, t)
find_sm runnable (suc rounds) t =
    let rest = find_sm runnable rounds (turn_at (sm_round t)) in
    if runnable (sm_round t).0 then (some (sm_round t).0, turn_at (sm_round t)) else rest

-- A round of `next_user_instruction` before its test: no processor if the enumerator is at its end.
unfoldable pub user_round : Bool → Turn → Turn
unfolding enum_next
user_round dont_switch t = elim t.current [
  | none ↦ turn_at enum_first
  | some _ ↦
      if dont_switch
      then t
      else let (next, e) = enum_next num_user_processors t.e in record { current = next; e = e }
]

-- The loop of `next_user_instruction`; its `continue` takes up a round.
unfoldable pub find_user : (ℕ → Bool) → Bool → ℕ → Turn → Option ℕ × Turn
find_user runnable dont_switch zero t = (none, t)
find_user runnable dont_switch (suc rounds) t =
    let t' = user_round dont_switch t in
    let rest = find_user runnable dont_switch rounds t' in
    elim t'.current [ none ↦ rest | some i ↦ if runnable i then (some i, t') else rest ]
