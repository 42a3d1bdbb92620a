-- ===== src/Audio/Anchor/Examples.antt =====
-- internal/audio/stream.go: readings of a player that has not been met.
use overdub.Base.{none, ℕ, ◌+◌, ◌≡◌, ◌==◌, refl, false, List, [], ◌∷◌, length, arith}
use overdub.Base.Int.{pos}
use overdub.Audio.Stream.{Stream, anchor_take}
use overdub.Audio.Anchor.{Point}
use overdub.Audio.Anchor.Slips.{places}
use overdub.Audio.Anchor.Learns.{places_anchor}

abbrev unmet : Stream
unmet = record {
  rate = 48000;
  queue = [];
  held = 0;
  index = pos 960;
  blocks = 2;
  done = false;
  ended = 0;
  spent = false;
  closed = false;
  anchored = false;
  origin = pos 0;
  origin_index = pos 0;
  ref = pos 0;
  candidates = pos 5 ∷ pos 7 ∷ [];
  bursty = false;
  slip_mean = pos 0;
  first_sum = pos 0;
  first_taken = 0;
  jump = false;
  asked = 0;
  unread = 0;
  outside = 0;
  slips = 0;
  first = none;
  placed = 0;
  silence = 0;
  late = 0;
  eased = 0;
  last_out = pos 0 ∷ pos 0 ∷ [];
  began = false;
  smooth = pos 0;
  eased_at = pos 0;
}

abbrev reading : ℕ → Point
reading at = record { ahead = pos 480; at = pos at; bursty = false }

abbrev three : List Point
three = reading 10 ∷ reading 20 ∷ reading 30 ∷ []

places_anchor_example :
    (places three unmet).anchored ≡ (length unmet.candidates + length three == anchor_take)
places_anchor_example =
    places_anchor three unmet refl (refl, (refl, (refl, tt))) (omega arith) (omega arith)
