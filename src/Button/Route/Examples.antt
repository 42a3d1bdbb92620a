-- ===== src/Button/Route/Examples.antt =====
-- Runs of `Interceptor.route` of internal/button/button.go, and its theorems at concrete inputs.
use overdub.Base.{
  if◌then◌else◌, ◌==◌, ℕ, ◌≡◌, refl, true, false, Option, none, some, List, [], ◌∷◌, ◌⊎◌,
}
use overdub.Base.Strings.{has_prefix}
use overdub.Button.Route.{
  Mode, intercept, monitor, Event, on_down, on_press, emit, open_with, set_mode, handle, Input,
  read_event, set_mode_of, route, press_of,
}
use overdub.Button.Route.Clone.{
  physical, cloned, emitted, delivered, route_not_stuck, route_verbatim, is_refused,
}
use overdub.Button.Route.Latch.{paired, waiting, route_pairs}

abbrev key : ℕ → ℕ → Event
key c v = record { kind = 1; code = c; value = v }

-- The action button (138) is monitored; its mode turns to intercept while it is down, and the program
-- presses it on the clone.
abbrev start : ℕ → Option Mode
start c = if c == 138 then some monitor else none

abbrev turned : List Input
turned =
    read_event 100 (key 138 1) true
    ∷ set_mode_of 138 intercept
    ∷ read_event 150 (key 30 1) true
    ∷ press_of 138 true true
    ∷ read_event 180 (key 138 0) true
    ∷ []

-- The release goes to the clone although the key is intercepted by then, and the press has the
-- mode of the down.
turned_run :
    (route turned (open_with start)).outputs
    ≡ on_down 138 monitor
      ∷ emit 138 1
      ∷ emit 30 1
      ∷ emit 138 1
      ∷ emit 138 0
      ∷ on_press 138 monitor 80
      ∷ emit 138 0
      ∷ []
unfolding route handle open_with set_mode
turned_run = refl

route_not_stuck_example : cloned 138 (route turned (open_with start)).outputs false ≡ false
unfolding route handle open_with set_mode physical
route_not_stuck_example =
    route_not_stuck 138 turned start ((λ _ _. refl), ((λ a b. cc), ((λ a b. cc), tt))) refl refl

route_verbatim_example :
    (has_prefix (emitted 30 (route turned (open_with start)).outputs) (delivered 30 turned) ≡ true)
    × ((emitted 30 (route turned (open_with start)).outputs ≡ delivered 30 turned)
        ⊎ (is_refused (route turned (open_with start)).reason ≡ true))
unfolding open_with
route_verbatim_example = route_verbatim 30 turned (open_with start) refl

route_pairs_example :
    paired 138 none (route turned (open_with start)).outputs
    ≡ some (waiting ((route turned (open_with start)).state.watched 138))
route_pairs_example = route_pairs 138 turned start ((λ _ _. refl), ((λ a b. cc), ((λ a b. cc), tt)))
