-- ===== src/Alexa/Playback.antt =====
-- internal/alexa/playback.go: whether a clip that Alexa was handed has started, has ended, or was never
-- heard of again. Each call holds the watcher's lock; the clock's reading is an argument.
pub mod Tally
mod Examples
use overdub.Base.{
  ℕ, Bool, true, false, Option, none, some, List, [], ◌+◌, ◌&&◌, ◌||◌, leb, ltb, if◌then◌else◌,
}
use overdub.Base.Text.{codes}
use overdub.Base.Strings.{has, trim}

-- 10 seconds and 15 minutes, in nanoseconds.
abbrev pub watch_retry : ℕ
watch_retry = 10000000000

abbrev pub playing_for : ℕ
playing_for = 900000000000

pub record PlaybackWatcher : Type 0 where
  pub expecting : Bool
  pub last_error : List ℕ
  pub deadline : ℕ

-- What the callbacks are told: `OnStart`, and `OnEnd` with its arguments.
pub data Heard : Type 0 where
  started : Heard
  ended : Bool → List ℕ → Heard
  nothing : Heard

unfoldable pub expect : ℕ → ℕ → PlaybackWatcher → PlaybackWatcher
expect now timeout w = record { expecting = true; last_error = []; deadline = now + timeout }

unfoldable pub extend : ℕ → ℕ → PlaybackWatcher → PlaybackWatcher
extend now timeout w = if w.expecting then record w { deadline = now + timeout } else w

unfoldable pub cancel : PlaybackWatcher → PlaybackWatcher
cancel w = record w { expecting = false }

abbrev pub timed_out : List ℕ
timed_out = codes "timed out waiting for Alexa to report playback"

unfoldable pub expire : ℕ → PlaybackWatcher → PlaybackWatcher × Heard
expire now w =
    if w.expecting && ltb w.deadline now
    then (record w { expecting = false }, ended false timed_out)
    else (w, nothing)

-- The error a line tells of is kept for the end of the clip.
unfoldable pub note_error : List ℕ → PlaybackWatcher → PlaybackWatcher
note_error text w =
    if has text (codes "cannot estimate length") || has text (codes "Exception")
    then record w { last_error = trim text }
    else w

-- The `switch` of `line`.
unfoldable pub hear_playback : ℕ → List ℕ → PlaybackWatcher → PlaybackWatcher × Heard
hear_playback now text w =
    if has text (codes "Playback started:") && has text (codes "SpeechSynthesizer")
    then (record w { deadline = now + playing_for }, started)
    else if has text (codes "Playback ended:") && has text (codes "SpeechSynthesizer")
    then (record w { expecting = false }, ended (has text (codes "SUCCESS")) w.last_error)
    else (w, nothing)

unfoldable pub line : ℕ → List ℕ → PlaybackWatcher → PlaybackWatcher × Heard
unfolding note_error hear_playback
line now text w = if w.expecting then hear_playback now text (note_error text w) else (w, nothing)

-- Whether a failure of the follower is logged, and whether it counts as logged from here on.
unfoldable pub should_say : Bool → ℕ → Bool → Bool × Bool
should_say said ran_for failed =
    let said' = if leb watch_retry ran_for then false else said in
    if failed then if said' then (false, true) else (true, true) else (false, said')
