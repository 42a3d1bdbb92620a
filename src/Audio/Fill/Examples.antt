-- ===== src/Audio/Fill/Examples.antt =====
-- internal/audio/stream.go: a stream that is anchored, and a chunk that is due in the block.
use overdub.Base.{◌≡◌, refl, true, false, none, some, List, [], ◌∷◌, arith}
use overdub.Base.Int.{times_ℤ, quot_ℤ, rem_ℤ, shift_right_ℤ, ◌-ℤ◌, ℤ, pos, ◌+ℤ◌}
use overdub.Audio.Stream.{frame_count, Stream, fresh}
use overdub.Audio.Stream.Queue.{IsValid, left, writes, finishes}
use overdub.Audio.Anchor.{smoothed, ease, frame_at}
use overdub.Audio.Fill.{read, fill_round, settle, place_chunk, put_samples, ReadEnd, goes_on}
use overdub.Audio.Fill.Blocks.{Reads, read-Reads}
use overdub.Audio.Fill.Runs.{Act, owner, player, mixer, run, run-IsValid}

abbrev undimmed : List ℤ → List ℤ
undimmed block = block

abbrev anchored : Stream
anchored = record {
  rate = 1000;
  queue = fresh (pos 1000000) (pos 1 ∷ pos 2 ∷ pos 3 ∷ pos 4 ∷ []) ∷ [];
  held = 2;
  index = pos 0;
  blocks = 0;
  done = false;
  ended = 0;
  spent = false;
  closed = false;
  anchored = true;
  origin = pos 0;
  origin_index = pos 0;
  ref = pos 0;
  candidates = [];
  bursty = false;
  slip_mean = pos 0;
  first_sum = pos 0;
  first_taken = 0;
  jump = false;
  asked = 0;
  unread = 0;
  outside = 0;
  slips = 0;
  first = none;
  placed = 0;
  silence = 0;
  late = 0;
  eased = 0;
  last_out = pos 0 ∷ pos 0 ∷ [];
  began = false;
  smooth = pos 0;
  eased_at = pos 0;
}

anchored-IsValid : IsValid anchored
unfolding left
anchored-IsValid = record { counts = refl; fits = omega arith; few = omega arith }

-- The block that `read` gave.
abbrev heard : ReadEnd → List ℤ
heard (goes_on s block) = block
heard _ = []

heard_block :
    heard (read undimmed (pos 0) 8 anchored)
    ≡ pos 0 ∷ pos 0 ∷ pos 1 ∷ pos 2 ∷ pos 3 ∷ pos 4 ∷ pos 0 ∷ pos 0 ∷ []
unfolding read fill_round settle smoothed ease frame_at frame_count times_ℤ quot_ℤ rem_ℤ
    shift_right_ℤ ◌+ℤ◌ ◌-ℤ◌ place_chunk put_samples
heard_block = refl

read-Reads_example : Reads 8 anchored (read undimmed (pos 0) 8 anchored)
read-Reads_example = read-Reads undimmed (pos 0) 8 anchored (λ block. refl) anchored-IsValid

abbrev acts : List Act
acts =
    owner (writes (pos 0) (pos 2000000) (5 ∷ 0 ∷ 6 ∷ 0 ∷ []))
    ∷ mixer (pos 0) 8
    ∷ player (record { ahead = pos 2; at = pos 3000000; bursty = false })
    ∷ owner finishes
    ∷ mixer (pos 4000000) 8
    ∷ []

run-IsValid_example : (s' : Stream) × (run undimmed acts anchored ≡ some s') × IsValid s'
run-IsValid_example = run-IsValid undimmed (λ block. refl) acts anchored anchored-IsValid
