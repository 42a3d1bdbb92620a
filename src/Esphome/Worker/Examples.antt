-- ===== src/Esphome/Worker/Examples.antt =====
-- A microphone that is muted while it is being opened.
use overdub.Base.{Bool, true, false, some, List, [], ◌∷◌, ◌≡◌, refl, arith}
use overdub.Esphome.State.{same_bool}
use overdub.Esphome.Worker.{Errand, wishes, observes, takes, idle, errands, fresh_desk, apply_mic}
use overdub.Esphome.Worker.Honours.{rest_of, errands-done}

same_bool_eq : (a b : Bool) → same_bool a b ≡ true → a ≡ b
unfolding same_bool
same_bool_eq true b e = ground arith
same_bool_eq false b e = ground arith

abbrev open_then_mute : List (Errand Bool)
open_then_mute = wishes false ∷ takes ∷ wishes true ∷ observes true ∷ []

errands-done_example :
    let before = errands same_bool open_then_mute (fresh_desk false) in
    let d = errands same_bool (rest_of same_bool same_bool_eq false true true true) before in
    (d.hand ≡ idle) × (d.done ≡ before.wished)
errands-done_example = errands-done same_bool same_bool_eq false open_then_mute false true true true

muted_last : (errands same_bool open_then_mute (fresh_desk false)).wished ≡ some true
unfolding errands
muted_last = refl

mic_pressed :
    apply_mic true
      (record { muted = false; known = true })
      false
      (record { muted = true; known = true })
    ≡ (true, true)
unfolding apply_mic same_bool
mic_pressed = refl
