-- ===== src/Button/Gesture/Examples.antt =====
-- Runs of `MultiPress` of internal/button/button.go, and its theorems at concrete inputs.
use overdub.Base.{◌+◌, ◌≡◌, refl, true, false, some, List, [], ◌∷◌, ◌++◌, arith}
use overdub.Button.Gesture.{
  multi_end, long_start, long_end, hold_timer, gap_timer, MultiPress, new_multi_press, down, up,
  held, closed, report, Event, key_down, key_up, expires, step, run,
}
use overdub.Button.Gesture.Counts.{ups, presses, run-presses}
use overdub.Button.Gesture.Traces.{
  World, mark, mark_armed, press, hold_fires, here, next, follows, idle, Moves-follows,
}

abbrev rest : MultiPress
rest = new_multi_press 500

-- Two clicks, the gap closes, a long press that its timer reports, and late callbacks of both.
abbrev clicks : List Event
clicks =
    key_down
    ∷ key_up 100
    ∷ key_down
    ∷ key_up 90
    ∷ expires (hold_timer 1)
    ∷ expires (gap_timer 4)
    ∷ key_down
    ∷ expires (hold_timer 5)
    ∷ key_up 800
    ∷ expires (gap_timer 2)
    ∷ []

two_clicks :
    (run clicks rest).1
    ≡ record { gesture = multi_end; count = 2; hold_for = 0 }
      ∷ record { gesture = long_start; count = 0; hold_for = 0 }
      ∷ record { gesture = long_end; count = 0; hold_for = 800 }
      ∷ []
unfolding run step down up held closed report new_multi_press
two_clicks = refl

run-presses_example :
    presses (run clicks rest).1 + (run clicks rest).0.count ≡ ups clicks + rest.count
run-presses_example = run-presses clicks rest

abbrev pressed : World
pressed = record (idle 500) {
  m = down (idle 500).m;
  is_down = true;
  holds = mark_armed (down (idle 500).m).hold_armed (idle 500).holds;
}

abbrev fired : World
fired = record pressed { m = (held 1 pressed.m).0; holds = mark 1 false pressed.holds }

Moves-follows_example : follows false ([] ++ [] ++ (held 1 pressed.m).1) ≡ some fired.m.holding
unfolding down new_multi_press
Moves-follows_example =
    Moves-follows 500 {v = fired} (omega arith) (next (next here (press refl)) (hold_fires 1 refl))
