-- ===== src/Button/Gesture.antt =====
-- internal/button/button.go, `MultiPress`: downs, ups and timers become press, multi press and long
-- press reports. A callback of `time.AfterFunc` is a `Timer` with the generation that it closes
-- over. Each method holds the lock `out` or is one critical section, so it is one step here.
-- Durations are numbers of nanoseconds.
pub mod Counts
pub mod Traces
mod Examples
use overdub.Base.{
  ℕ, zero, suc, ◌+◌, ◌%◌, ◌^◌, Bool, true, false, Option, none, some, List, [], ◌∷◌, ◌++◌, leb,
  ◌==◌, if◌then◌else◌,
}

pub data Gesture : Type 0 where
  press_end multi_end long_start long_end : Gesture

-- A call of `fire`.
pub record Fire : Type 0 where
  pub gesture : Gesture
  pub count : ℕ
  pub hold_for : ℕ

-- The callbacks that the two timers run.
pub data Timer : Type 0 where
  hold_timer : ℕ → Timer
  gap_timer : ℕ → Timer

-- The struct, its locks left out. A timer field holds the generation of the callback.
pub record MultiPress : Type 0 where
  pub hold_time : ℕ
  pub count : ℕ
  pub holding : Bool
  pub gap_armed : Option ℕ
  pub hold_armed : Option ℕ
  pub gen : ℕ

unfoldable pub new_multi_press : ℕ → MultiPress
new_multi_press hold_time = record {
  hold_time = hold_time;
  count = 0;
  holding = false;
  gap_armed = none;
  hold_armed = none;
  gen = 0;
}

-- `m.gen++` on a uint64.
abbrev pub next_gen : ℕ → ℕ
next_gen g = (g + 1) % 2 ^ 64

abbrev fire : Gesture → ℕ → ℕ → Fire
fire g n d = record { gesture = g; count = n; hold_for = d }

unfoldable pub report : ℕ → List Fire
report zero = []
report (suc zero) = fire press_end 0 0 ∷ []
report (suc (suc n)) = fire multi_end (suc (suc n)) 0 ∷ []

-- `Down`: the gap timer stops and the hold timer starts.
unfoldable pub down : MultiPress → MultiPress
down m = record m { gen = next_gen m.gen; gap_armed = none; hold_armed = some (next_gen m.gen) }

-- `Up`, after the key was held for `held`.
unfoldable pub up : ℕ → MultiPress → MultiPress × List Fire
up held m =
    let m' : MultiPress = record m { gen = next_gen m.gen; hold_armed = none } in
    if m.holding
    then (record m' { holding = false }, fire long_end 0 held ∷ [])
    else if leb m.hold_time held
    then (
      record m' { count = 0 },
      report m.count ++ (fire long_start 0 0 ∷ fire long_end 0 held ∷ []),
    )
    else (record m' { count = m.count + 1; gap_armed = some (next_gen m.gen) }, [])

-- `held`, the hold timer's callback of generation `g`.
unfoldable pub held : ℕ → MultiPress → MultiPress × List Fire
held g m =
    if g == m.gen
    then (
      record m { count = 0; holding = true; hold_armed = none },
      report m.count ++ (fire long_start 0 0 ∷ []),
    )
    else (m, [])

-- `closed`, the gap timer's callback of generation `g`.
unfoldable pub closed : ℕ → MultiPress → MultiPress × List Fire
closed g m =
    if g == m.gen then (record m { count = 0; gap_armed = none }, report m.count) else (m, [])

-- What can happen next: the key moves, or a callback runs. A callback that was on its way when
-- its timer was stopped still runs, so any generation may come.
pub data Event : Type 0 where
  key_down : Event
  key_up : ℕ → Event
  expires : Timer → Event

unfoldable pub step : Event → MultiPress → MultiPress × List Fire
step key_down m = (down m, [])
step (key_up d) m = up d m
step (expires (hold_timer g)) m = held g m
step (expires (gap_timer g)) m = closed g m

unfoldable pub run : List Event → MultiPress → MultiPress × List Fire
run [] m = (m, [])
run (e ∷ es) m = let (m', out) = step e m in let (m'', more) = run es m' in (m'', out ++ more)
