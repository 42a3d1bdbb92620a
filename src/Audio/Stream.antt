-- ===== src/Audio/Stream.antt =====
-- internal/audio/stream.go: audio that is due at a time, held until the mixer reads it. A time and a
-- duration are numbers of nanoseconds. What `read` does to a block is in Audio/Fill.
pub mod Queue
pub mod Places
mod Examples
use overdub.Base.{
  ℕ, zero, suc, ◌+◌, ◌-◌, ◌*◌, ◌/◌, ◌%◌, Bool, true, false, Option, none, some, List, [], ◌∷◌, ◌++◌,
  ◌&&◌, ◌||◌, not, length, take, drop, get_elem?, get_or, ltb, leb, ◌==◌, if◌then◌else◌,
}
use overdub.Base.Int.{
  ℤ, pos, negsuc, ◌+ℤ◌, ◌-ℤ◌, ltb_ℤ, leb_ℤ, eqb_ℤ, min_ℤ, max_ℤ, neg_ℕ, times_ℤ, quot_ℤ, rem_ℤ,
  shift_right_ℤ,
}
use overdub.Audio.Mixer.{decode}

abbrev pub second : ℕ
second = 1000000000

abbrev pub millisecond : ℕ
millisecond = 1000000

abbrev pub frame_bytes : ℕ
frame_bytes = 2 * 2

abbrev pub stream_ahead : ℕ
stream_ahead = 30 * second

abbrev pub stream_hold : ℕ
stream_hold = 30 * second

abbrev pub stream_chunks : ℕ
stream_chunks = 3000

abbrev pub anchor_take : ℕ
anchor_take = 5

abbrev pub anchor_slip : ℕ
anchor_slip = 50 * millisecond

abbrev pub slip_runs : ℕ
slip_runs = 3

abbrev pub bursty_first : ℕ
bursty_first = 20

abbrev pub bursty_over : ℕ
bursty_over = 128

abbrev pub bursty_band : ℕ
bursty_band = 4 * millisecond

abbrev pub bursty_slip : ℕ
bursty_slip = 150 * millisecond

-- `frameTime` and `frameCount`, which are inverse but for rounding.
unfoldable pub frame_time : ℕ → ℤ → ℤ
frame_time rate n = times_ℤ (quot_ℤ n rate) second +ℤ quot_ℤ (times_ℤ (rem_ℤ n rate) second) rate

unfoldable pub frame_count : ℕ → ℤ → ℤ
frame_count rate d = times_ℤ (quot_ℤ d second) rate +ℤ quot_ℤ (times_ℤ (rem_ℤ d second) rate) second

pub record Queued : Type 0 where
  pub at : ℤ
  pub pcm : List ℤ
  pub off : ℕ
  pub eased : Bool
  pub soft : Bool
  pub seam : Bool
  pub place : ℤ

abbrev pub frames : Queued → ℕ
frames c = length c.pcm / 2

-- The state of a stream, without the ducking. The counts stay at 0 or more: see Audio/Stream/Queue
-- and Audio/Fill.
pub record Stream : Type 0 where
  pub rate : ℕ
  pub queue : List Queued
  pub held : ℕ
  pub index : ℤ
  pub blocks : ℕ
  pub done : Bool
  pub ended : ℕ
  pub spent : Bool
  pub closed : Bool
  pub anchored : Bool
  pub origin : ℤ
  pub origin_index : ℤ
  pub ref : ℤ
  pub candidates : List ℤ
  pub bursty : Bool
  pub slip_mean : ℤ
  pub first_sum : ℤ
  pub first_taken : ℕ
  pub jump : Bool
  pub asked : ℕ
  pub unread : ℕ
  pub outside : ℕ
  pub slips : ℕ
  pub first : Option ℤ
  pub placed : ℕ
  pub silence : ℕ
  pub late : ℕ
  pub eased : ℕ
  pub last_out : List ℤ
  pub began : Bool
  pub smooth : ℤ
  pub eased_at : ℤ

pub data Refusal : Type 0 where
  not_whole stream_closed stream_done too_far too_long too_many : Refusal

pub data Accepted : Type 0 where
  accepted : Accepted
  refused : Refusal → Accepted

-- The place in the queue: behind what is due no later, and behind what has begun.
unfoldable pub place_from : List Queued → ℤ → ℕ → ℕ
place_from queue at zero = zero
place_from queue at (suc i) =
    let further = place_from queue at i in
    elim (get_elem? queue i) [
      | none ↦ suc i
      | some c ↦ if ltb_ℤ at c.at && (c.off == 0) then further else suc i
    ]

-- `s.queue[i].eased = false`, where there is a chunk behind the place.
unfoldable pub unease_head : List Queued → List Queued
unease_head [] = []
unease_head (c ∷ cs) = record c { eased = false } ∷ cs

-- `queued{at: at, pcm: pcm}`
abbrev pub fresh : ℤ → List ℤ → Queued
fresh at pcm = record {
  at = at;
  pcm = pcm;
  off = 0;
  eased = false;
  soft = false;
  seam = false;
  place = pos 0;
}

unfoldable pub insert_chunk : ℤ → List ℤ → List Queued → List Queued
unfolding place_from unease_head
insert_chunk at pcm queue =
    let i = place_from queue at (length queue) in
    take i queue ++ (fresh at pcm ∷ unease_head (drop i queue))

-- `Write`, at the time `now`.
unfoldable pub write : ℤ → ℤ → List ℕ → Stream → Stream × Accepted
write now at pcm s =
    let due = at -ℤ now in
    let count = length pcm / frame_bytes in
    if not (length pcm % frame_bytes == 0)
    then (s, refused not_whole)
    else if s.closed || s.spent
    then (s, refused stream_closed)
    else if s.done
    then (s, refused stream_done)
    else if ltb_ℤ (pos stream_ahead) due || ltb_ℤ due (neg_ℕ stream_ahead)
    then (s, refused too_far)
    else if ltb_ℤ (frame_count s.rate (pos stream_hold)) (pos (s.held + count))
    then (s, refused too_long)
    else if leb stream_chunks (length s.queue)
    then (s, refused too_many)
    else (
      record s { queue = insert_chunk at (decode pcm) s.queue; held = s.held + count },
      accepted,
    )

-- `discard`: the number of frames that were held.
unfoldable pub discard : Stream → Stream × ℕ
discard s =
    (record s { queue = []; held = 0; began = false; smooth = pos 0; eased_at = pos 0 }, s.held)

unfoldable pub finish : Stream → Stream
finish s =
    if s.closed || (s.spent || s.done)
    then s
    else record (discard (record s { done = true })).0 { ended = s.ended + s.held }

unfoldable pub resume : Stream → Stream × Bool
resume s = if s.closed || s.spent then (s, false) else (record s { done = false }, true)

unfoldable pub clear : Stream → Stream
clear s = (discard s).0

unfoldable pub is_spent : Stream → Bool
is_spent s = s.spent || s.closed

-- `Close`, without its report.
unfoldable pub close : Stream → Stream
close s = if s.closed then s else record s { closed = true }
