-- ===== src/Esphome/State/Examples.antt =====
-- Two readings, and a subscriber that comes between them.
use overdub.Base.{◌-◌, ◌≤◌, none, ℕ, true, false, List, [], ◌∷◌, ◌≡◌, refl, none, some, ◌≤◌}
use overdub.Base.Text.{bytes_eq}
use overdub.Esphome.State.Sound.{SoundSensor, read_sound, forget_sound}
use overdub.Esphome.State.Sound.Steady.{Steady, listen, read_sound-Steady}
use overdub.Esphome.State.{Reading, Publisher, sensor}
use overdub.Esphome.State.Agrees.{AreDistinct, AreTrue}
use overdub.Esphome.State.Coherent.{
  Deed, connects, subscribes, publishes, writes, forgets, deeds, IsCoherent, deeds-IsCoherent,
}

abbrev silent_server : Publisher
silent_server = record { published = []; conns = [] }

abbrev reading_of : ℕ → ℕ → Reading
reading_of key bits = record {
  key = key;
  value = bits;
  text = [];
  muted = false;
  state = 0;
  ok = true;
  kind = sensor;
}

abbrev two_readings : List Deed
two_readings =
    publishes (reading_of 1 1065353216 ∷ reading_of 2 0 ∷ [])
    ∷ connects 7
    ∷ subscribes 7
    ∷ publishes (reading_of 1 1073741824 ∷ reading_of 2 2147483648 ∷ [])
    ∷ writes 7
    ∷ forgets 2
    ∷ []

deeds-IsCoherent_example : IsCoherent (deeds two_readings silent_server)
unfolding IsCoherent AreDistinct AreTrue
deeds-IsCoherent_example = deeds-IsCoherent two_readings silent_server (tt, tt)

-- A zero that became a negative zero is not told again.
told_once : (deeds two_readings silent_server).published ≡ reading_of 1 1073741824 ∷ []
unfolding deeds bytes_eq
told_once = refl

abbrev sound_sensor : SoundSensor
sound_sensor = record {
  sound_on = false;
  since = none;
  last_on = 0;
  seen = none;
  gap = 40;
  on_delay = 10;
  off_delay = 10;
}

-- Sound at 5, 12 and 20 turns the sensor on.
read_sound-Steady_example :
    (t : ℕ) × Steady 40 t ((20, some true) ∷ (12, some true) ∷ (5, some true) ∷ []) × (10 ≤ 20 - t)
unfolding listen forget_sound read_sound
read_sound-Steady_example =
    read_sound-Steady ((5, some true) ∷ (7, some true) ∷ []) 0 12 8 (some true)
      ((12, some true) ∷ (5, some true) ∷ []) sound_sensor
      (record sound_sensor { since = some 5; last_on = 12; seen = some 12 }) refl refl refl
