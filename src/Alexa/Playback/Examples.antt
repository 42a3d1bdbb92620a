-- ===== src/Alexa/Playback/Examples.antt =====
-- Runs of the playback watcher.
use overdub.Base.{List, [], ◌∷◌, ◌≡◌, ◌≤◌, ◌+◌, refl, false}
use overdub.Base.Text.{codes}
use overdub.Base.Strings.{has, after_prefix}
use overdub.Alexa.Playback.{PlaybackWatcher}
use overdub.Alexa.Playback.Tally.{
  PlaybackCall, expects, hears, expires, follow_all, follow_all-ends, pending,
}

abbrev idle : PlaybackWatcher
idle = record { expecting = false; last_error = []; deadline = 0 }

abbrev two_clips : List PlaybackCall
two_clips =
    expects 0 100
    ∷ hears 5 (codes "Playback started: SpeechSynthesizer")
    ∷ hears 6 (codes "Playback ended: SpeechSynthesizer SUCCESS")
    ∷ expires 7
    ∷ expects 8 100
    ∷ expires 200
    ∷ []

follow_all-ends_example :
    (follow_all two_clips idle).2 + pending (follow_all two_clips idle).0
    ≤ (follow_all two_clips idle).1 + pending idle
follow_all-ends_example = follow_all-ends two_clips idle

-- The first clip ends with its line and the second one with the sweep.
two_clips_end : (follow_all two_clips idle).2 ≡ 2
unfolding follow_all has after_prefix
two_clips_end = refl
