-- ===== src/Esphome/State/Sound.antt =====
-- internal/esphome/state.go: whether sound is on, read at ticks, and the ticks themselves. A time that
-- was never set is none; the clock does not go back.
pub mod Steady
use overdub.Base.{ℕ, Bool, true, false, Option, none, some, ◌-◌, ◌&&◌, ltb, leb, if◌then◌else◌}

pub record SoundSensor : Type 0 where
  pub sound_on : Bool
  pub since : Option ℕ
  pub last_on : ℕ
  pub seen : Option ℕ
  pub gap : ℕ
  pub on_delay : ℕ
  pub off_delay : ℕ

unfoldable pub is_gapped : ℕ → SoundSensor → Bool
is_gapped now s = elim s.seen [ none ↦ false | some t ↦ ltb 0 s.gap && ltb s.gap (now - t) ]

-- The sensor once a gap in the readings is seen.
unfoldable pub after_gap : ℕ → SoundSensor → SoundSensor
unfolding is_gapped
after_gap now s = if is_gapped now s then record s { since = none; last_on = now } else s

unfoldable pub start_of : ℕ → Option ℕ → ℕ
start_of now none = now
start_of now (some t) = t

unfoldable pub heard_sound : ℕ → SoundSensor → SoundSensor
unfolding start_of
heard_sound now s =
    let since = start_of now s.since in
    record s {
      last_on = now;
      since = some since;
      sound_on = if leb s.on_delay (now - since) then true else s.sound_on;
    }

unfoldable pub heard_silence : ℕ → SoundSensor → SoundSensor
heard_silence now s = record s {
  since = none;
  sound_on = if s.sound_on && leb s.off_delay (now - s.last_on) then false else s.sound_on;
}

-- `readSound`, from what the mixer says, if it can be read.
unfoldable pub read_sound : ℕ → Option Bool → SoundSensor → SoundSensor
unfolding after_gap heard_sound heard_silence
read_sound now none s = record s { seen = some now; since = none }
read_sound now (some playing) s =
    let s' = record (after_gap now s) { seen = some now } in
    if playing then heard_sound now s' else heard_silence now s'

-- `forgetSound`, without the key that is forgotten.
unfoldable pub forget_sound : SoundSensor → SoundSensor
forget_sound s = record s { sound_on = false; since = none; last_on = 0; seen = none }
