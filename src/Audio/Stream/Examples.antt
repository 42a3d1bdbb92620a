-- ===== src/Audio/Stream/Examples.antt =====
-- internal/audio/stream.go: the theorems of this folder at a stream of 48000 frames a second.
use overdub.Base.{none, ◌≡◌, refl, true, false, List, [], ◌∷◌, ◌++◌, All, arith}
use overdub.Base.Int.{pos, ◌+ℤ◌, ◌-ℤ◌, times_ℤ, quot_ℤ, rem_ℤ}
use overdub.Audio.Mixer.{decode}
use overdub.Audio.Stream.{Queued, Stream, write, frame_count, accepted, fresh, unease_head}
use overdub.Audio.Stream.Queue.{IsValid, left, Call, writes, finishes, clears, closes}
use overdub.Audio.Stream.Places.{Later, EndsSooner, write_places}

abbrev soon : Queued
soon = fresh (pos 100) (pos 1 ∷ pos 2 ∷ [])

abbrev late : Queued
late = fresh (pos 300) (pos 3 ∷ pos 4 ∷ [])

abbrev two_chunks : Stream
two_chunks = record {
  rate = 48000;
  queue = soon ∷ late ∷ [];
  held = 2;
  index = pos 0;
  blocks = 0;
  done = false;
  ended = 0;
  spent = false;
  closed = false;
  anchored = false;
  origin = pos 0;
  origin_index = pos 0;
  ref = pos 0;
  candidates = [];
  bursty = false;
  slip_mean = pos 0;
  first_sum = pos 0;
  first_taken = 0;
  jump = false;
  asked = 0;
  unread = 0;
  outside = 0;
  slips = 0;
  first = none;
  placed = 0;
  silence = 0;
  late = 0;
  eased = 0;
  last_out = pos 0 ∷ pos 0 ∷ [];
  began = false;
  smooth = pos 0;
  eased_at = pos 0;
}

two_chunks-IsValid : IsValid two_chunks
unfolding left
two_chunks-IsValid = record { counts = refl; fits = omega arith; few = omega arith }

abbrev owner : List Call
owner = writes (pos 0) (pos 200) (1 ∷ 0 ∷ 2 ∷ 0 ∷ []) ∷ finishes ∷ closes ∷ clears ∷ []

abbrev shut : Stream
shut = record two_chunks { closed = true }

write_accepts : (write (pos 0) (pos 200) (1 ∷ 0 ∷ 2 ∷ 0 ∷ []) two_chunks).1 ≡ accepted
unfolding write frame_count times_ℤ quot_ℤ rem_ℤ ◌+ℤ◌ ◌-ℤ◌
write_accepts = refl

write_places_example :
    (before : List Queued) × (after : List Queued) × (two_chunks.queue ≡ before ++ after)
    × ((write (pos 0) (pos 200) (1 ∷ 0 ∷ 2 ∷ 0 ∷ []) two_chunks).0.queue
        ≡ before ++ (fresh (pos 200) (decode (1 ∷ 0 ∷ 2 ∷ 0 ∷ [])) ∷ unease_head after))
    × EndsSooner (pos 200) before
    × All (Later (pos 200)) after
write_places_example = write_places (pos 0) (pos 200) (1 ∷ 0 ∷ 2 ∷ 0 ∷ []) two_chunks write_accepts
