-- ===== src/Alexa/Playback/Tally.antt =====
-- internal/alexa/playback.go: each clip that is expected ends at most once.
use overdub.Base.{ℕ, List, [], ◌∷◌, ◌≤◌, ◌+◌, arith, if◌then◌else◌}
use overdub.Alexa.Playback.{
  PlaybackWatcher, Heard, started, ended, nothing, expect, extend, cancel, expire, line, note_error,
  hear_playback,
}

pub data PlaybackCall : Type 0 where
  expects extends : ℕ → ℕ → PlaybackCall
  cancels : PlaybackCall
  expires : ℕ → PlaybackCall
  hears : ℕ → List ℕ → PlaybackCall

unfoldable pub follow : PlaybackCall → PlaybackWatcher → PlaybackWatcher × Heard
unfolding expect extend cancel expire line
follow (expects now timeout) w = (expect now timeout w, nothing)
follow (extends now timeout) w = (extend now timeout w, nothing)
follow cancels w = (cancel w, nothing)
follow (expires now) w = expire now w
follow (hears now text) w = line now text w

-- The clips that were expected, and how often `OnEnd` was called.
unfoldable pub expected : PlaybackCall → ℕ
expected (expects now timeout) = 1
expected (extends now timeout) = 0
expected cancels = 0
expected (expires now) = 0
expected (hears now text) = 0

unfoldable pub ends : Heard → ℕ
ends started = 0
ends (ended ok detail) = 1
ends nothing = 0

unfoldable pub pending : PlaybackWatcher → ℕ
pending w = if w.expecting then 1 else 0

-- The counts after a run: the watcher, the clips expected, and the ends told.
unfoldable pub follow_all : List PlaybackCall → PlaybackWatcher → PlaybackWatcher × ℕ × ℕ
unfolding follow expected ends
follow_all [] w = (w, 0, 0)
follow_all (c ∷ cs) w =
    let (w', heard) = follow c w in
    let (last, wanted, told) = follow_all cs w' in (last, wanted + expected c, told + ends heard)

follow-ends :
    (c : PlaybackCall) (w : PlaybackWatcher)
    → ends (follow c w).1 + pending (follow c w).0 ≤ expected c + pending w
unfolding follow ends expected pending expect extend cancel expire line note_error hear_playback
follow-ends (expects now timeout) w = ground arith
follow-ends (extends now timeout) w = ground arith
follow-ends cancels w = ground arith
follow-ends (expires now) w = ground arith
follow-ends (hears now text) w = ground arith

-- Whatever the callers and the log do, `OnEnd` is called at most once for every clip that is expected:
-- the ends told, and one more while a clip is awaited, are at most the clips expected since a state
-- that awaited at most one.
pub follow_all-ends :
    (cs : List PlaybackCall) (w : PlaybackWatcher)
    → (follow_all cs w).2 + pending (follow_all cs w).0 ≤ (follow_all cs w).1 + pending w
unfolding follow_all
follow_all-ends [] w = ground arith
follow_all-ends (c ∷ cs) w = ground (arith, follow-ends c w, follow_all-ends cs (follow c w).0)
