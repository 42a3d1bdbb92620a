-- ===== src/Esphome/State/Sound/Steady.antt =====
-- internal/esphome/state.go: sound is on only once it was heard for long enough.
use mathlib.Core.Path.{subst}
use overdub.Base.{
  if_case, sym, ℕ, Bool, true, false, Option, none, some, List, [], ◌∷◌, ◌+◌, ◌-◌, ◌≡◌, ◌≤◌, ◌⊎◌,
  inl, inr, refl, arith,
}
use overdub.Esphome.State.Sound.{
  SoundSensor, is_gapped, after_gap, start_of, heard_sound, heard_silence, read_sound, forget_sound,
}

-- A reading at a time, the newest first in a history.
abbrev pub History : Type 0
History = List (ℕ × Option Bool)

-- The reading before came at most the gap earlier, if there is a limit.
unfoldable pub InStep : ℕ → ℕ → History → Type 0
InStep gap t [] = Unit
InStep gap t ((t', o) ∷ h) = (gap ≡ 0) ⊎ (t - t' ≤ gap)

-- Sound was heard at each reading since one at the time `start`, with no gap between them.
unfoldable pub Steady : ℕ → ℕ → History → Type 0
unfolding InStep
Steady gap start [] = ⊥
Steady gap start ((t, o) ∷ h) =
    (o ≡ some true) × ((t ≡ start) ⊎ (InStep gap t h × Steady gap start h))

unfoldable pub Began : ℕ → Option ℕ → History → Type 0
unfolding Steady
Began gap none h = Unit
Began gap (some t) h = Steady gap t h

-- The sensor has seen the newest reading, and its run of sound is steady.
unfoldable pub Follows : History → SoundSensor → Type 0
unfolding Began
Follows h s = (elim h [ [] ↦ s.seen ≡ none | x ∷ rest ↦ s.seen ≡ some x.0 ]) × Began s.gap s.since h

another-Steady :
    (gap now : ℕ) (h : History) (since : Option ℕ)
    → InStep gap now h
    → Began gap since h
    → Steady gap (start_of now since) ((now, some true) ∷ h)
unfolding Steady Began start_of
another-Steady gap now h none step f = (refl, inl refl)
another-Steady gap now h (some t) step f = (refl, inr (step, f))

in_step :
    (now : ℕ) (h : History) (s : SoundSensor)
    → Follows h s
    → is_gapped now s ≡ false
    → InStep s.gap now h
unfolding InStep Follows is_gapped
in_step now [] s f e = tt
in_step now ((t, o) ∷ h) s f e = ground arith

first_one-Steady : (gap now : ℕ) (h : History) → Steady gap now ((now, some true) ∷ h)
unfolding Steady
first_one-Steady gap now h = (refl, inl refl)

sound_on-after_gap :
    (now : ℕ) (s : SoundSensor)
    → ((after_gap now s).sound_on ≡ s.sound_on) × ((after_gap now s).on_delay ≡ s.on_delay)
unfolding after_gap
sound_on-after_gap now s = ground arith

-- The run of sound that a reading continues or begins.
start-Steady :
    (now : ℕ) (h : History) (s : SoundSensor)
    → Follows h s
    → Steady s.gap (start_of now (after_gap now s).since) ((now, some true) ∷ h)
unfolding Follows after_gap start_of
start-Steady now h s f =
    if_case {A = SoundSensor} (λ x. Steady s.gap (start_of now x.since) ((now, some true) ∷ h))
      (is_gapped now s) (record s { since = none; last_on = now }) s
      (λ _. first_one-Steady s.gap now h)
      (λ e. another-Steady s.gap now h s.since (in_step now h s f e) f.1)

gap-after_gap : (now : ℕ) (s : SoundSensor) → (after_gap now s).gap ≡ s.gap
unfolding after_gap
gap-after_gap now s = ground arith

read_sound-Follows :
    (now : ℕ) (o : Option Bool) (h : History) (s : SoundSensor)
    → Follows h s
    → Follows ((now, o) ∷ h) (read_sound now o s)
unfolding Follows read_sound heard_sound heard_silence
read_sound-Follows now none h s f = (refl, tt)
read_sound-Follows now (some false) h s f = (refl, tt)
read_sound-Follows now (some true) h s f = (
  refl,
  subst (λ g. Steady g (start_of now (after_gap now s).since) ((now, some true) ∷ h))
      (sym (gap-after_gap now s)) (start-Steady now h s f),
)

-- A run of readings, each some time after the one before, with the clock and the history.
unfoldable pub listen :
    List (ℕ × Option Bool) → ℕ × History × SoundSensor → ℕ × History × SoundSensor
unfolding read_sound
listen [] x = x
listen ((d, o) ∷ more) (now, h, s) =
    listen more (now + d, (now + d, o) ∷ h, read_sound (now + d) o s)

listen-Follows :
    (rs : List (ℕ × Option Bool)) (now : ℕ) (h : History) (s : SoundSensor)
    → Follows h s
    → let (now', h', s') = listen rs (now, h, s) in Follows h' s'
unfolding listen
listen-Follows [] now h s f = f
listen-Follows ((d, o) ∷ more) now h s f =
    listen-Follows more (now + d) ((now + d, o) ∷ h) (read_sound (now + d) o s)
      (read_sound-Follows (now + d) o h s f)

on_for :
    (now : ℕ) (o : Option Bool) (h : History) (s : SoundSensor)
    → Follows h s
    → s.sound_on ≡ false
    → (read_sound now o s).sound_on ≡ true
    → (t : ℕ) × Steady s.gap t ((now, o) ∷ h) × (s.on_delay ≤ now - t)
unfolding read_sound heard_sound heard_silence
on_for now none h s f off on = absurd (ground arith)
on_for now (some false) h s f off on = absurd (ground (arith, sound_on-after_gap now s))
on_for now (some true) h s f off on = (
  start_of now (after_gap now s).since,
  start-Steady now h s f,
  ground (arith, sound_on-after_gap now s),
)

-- The sensor turns on only for sound that lasts. However it was read since it was forgotten, a reading
-- that turns it on is the last of readings which all heard sound, which came at most the gap apart, if
-- there is a limit, and of which the first came the delay before it at least.
pub read_sound-Steady :
    (rs : List (ℕ × Option Bool)) (start now d : ℕ) (o : Option Bool) (h : History)
    (s s' : SoundSensor)
    → listen rs (start, [], forget_sound s) ≡ (now, h, s')
    → s'.sound_on ≡ false
    → (read_sound (now + d) o s').sound_on ≡ true
    → (t : ℕ) × Steady s'.gap t ((now + d, o) ∷ h) × (s'.on_delay ≤ (now + d) - t)
unfolding forget_sound Follows Began
read_sound-Steady rs start now d o h s s' e off on =
    let run = listen-Follows rs start [] (forget_sound s) (refl, tt) in
    let kept : Follows h s' = subst (λ x. Follows x.1 x.2) e run in
    on_for (now + d) o h s' kept off on
