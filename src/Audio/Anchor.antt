-- ===== src/Audio/Anchor.antt =====
-- internal/audio/stream.go, `place`, `follow` and `unease`: how a stream learns from the player when
-- a frame of its index is heard, and when it corrects that.
pub mod Slips
pub mod Learns
mod Examples
use overdub.Base.{
  ℕ, zero, suc, ◌+◌, ◌-◌, ◌*◌, ◌/◌, ◌^◌, ◌<◌, Bool, true, false, List, [], ◌∷◌, ◌++◌, ◌&&◌, ◌||◌,
  not, length, get_or, ltb, leb, ◌==◌, if◌then◌else◌,
}
use overdub.Base.Int.{
  ℤ, pos, ◌+ℤ◌, ◌-ℤ◌, ltb_ℤ, leb_ℤ, neg_ℕ, quot_ℤ, times_ℤ, shift_right_ℤ, min_ℤ, max_ℤ,
}
use overdub.Audio.Stream.{
  Queued, Stream, frame_time, frame_count, millisecond, anchor_take, anchor_slip, slip_runs,
  bursty_first, bursty_over, bursty_band, bursty_slip,
}

abbrev pub dead_band : ℕ
dead_band = 5 * millisecond

abbrev pub soft_step : ℕ
soft_step = 21 * 1000

abbrev pub smooth_over : ℕ
smooth_over = 50

abbrev pub smooth_bits : ℕ
smooth_bits = 10

-- What the player says: at `at` it was `ahead` frames ahead of the speaker.
pub record Point : Type 0 where
  pub ahead : ℤ
  pub at : ℤ
  pub bursty : Bool

-- What `place` returns: depth, slip and whether the stream was placed again.
pub record Moved : Type 0 where
  pub depth : ℤ
  pub slip : ℤ
  pub again : Bool

abbrev pub nothing : Moved
nothing = record { depth = pos 0; slip = pos 0; again = false }

unfoldable pub unease_all : List Queued → List Queued
unease_all [] = []
unease_all (c ∷ cs) = (if c.off == 0 then record c { eased = false } else c) ∷ unease_all cs

unfoldable pub unease : Stream → Stream
unfolding unease_all
unease s = record s { queue = unease_all s.queue }

-- `slices.SortFunc(s.candidates, time.Time.Compare)`
insert_time : ℤ → List ℤ → List ℤ
insert_time t [] = t ∷ []
insert_time t (u ∷ us) = if leb_ℤ t u then t ∷ u ∷ us else u ∷ insert_time t us

sort_times : List ℤ → List ℤ
sort_times [] = []
sort_times (t ∷ ts) = insert_time t (sort_times ts)

unfoldable pub median : List ℤ → ℤ
unfolding insert_time sort_times
median ts = get_or (sort_times ts) (length ts / 2) (pos 0)

beyond : ℤ → ℕ → Bool
beyond slip bound = ltb_ℤ (pos bound) slip || ltb_ℤ slip (neg_ℕ bound)

is_empty : List ℤ → Bool
is_empty [] = true
is_empty (t ∷ ts) = false

-- `s.ref`, and the candidates with the one of this reading.
unfoldable pub ref_of : Stream → ℤ
unfolding is_empty
ref_of s = if is_empty s.candidates then s.index else s.ref

unfoldable pub candidates_with : ℤ → Stream → List ℤ
candidates_with due s = s.candidates ++ ((due -ℤ frame_time s.rate (s.index -ℤ ref_of s)) ∷ [])

-- The part of `place` before the stream is anchored.
unfoldable pub learn : ℤ → Point → Stream → Stream × Moved
learn due p s =
    let ref = ref_of s in
    let taken = candidates_with due s in
    if ltb (length taken) anchor_take
    then (record s { ref = ref; candidates = taken }, nothing)
    else (
      record s {
        ref = ref;
        origin = median taken;
        origin_index = ref;
        candidates = [];
        anchored = true;
        slip_mean = pos 0;
        first_sum = pos 0;
        first_taken = 0;
      },
      record { depth = due -ℤ p.at; slip = pos 0; again = false },
    )

-- `follow`, where the slip is beyond what a bursty player explains.
unfoldable pub follow_jump : ℤ → Stream → Stream × Moved
follow_jump slip s =
    if ltb (s.outside + 1) slip_runs then (record s { outside = s.outside + 1 }, nothing) else (
      unease (record s {
        outside = 0;
        origin = s.origin +ℤ slip;
        first_sum = pos 0;
        first_taken = 0;
        slip_mean = pos 0;
        jump = true;
        slips = s.slips + 1;
      }),
      record { depth = pos 0; slip = slip; again = true },
    )

-- `follow`, over the first readings, whose mean moves the origin once.
unfoldable pub follow_first : ℤ → Stream → Stream × Moved
follow_first slip s =
    let sum = s.first_sum +ℤ slip in
    if ltb (s.first_taken + 1) bursty_first
    then (record s { outside = 0; first_sum = sum; first_taken = s.first_taken + 1 }, nothing)
    else (
      unease (record s {
        outside = 0;
        first_sum = sum;
        first_taken = s.first_taken + 1;
        origin = s.origin +ℤ quot_ℤ sum bursty_first;
        jump = true;
      }),
      nothing,
    )

-- `follow`, on the running mean of the slips after those.
unfoldable pub follow_mean : ℤ → Stream → Stream × Moved
unfolding beyond
follow_mean slip s =
    let mean = s.slip_mean +ℤ quot_ℤ (slip -ℤ s.slip_mean) bursty_over in
    if not (beyond mean bursty_band)
    then (record s { outside = 0; slip_mean = mean }, nothing)
    else (unease (record s { outside = 0; slip_mean = pos 0; origin = s.origin +ℤ mean }), nothing)

unfoldable pub follow : ℤ → Stream → Stream × Moved
unfolding beyond
follow slip s =
    if beyond slip bursty_slip
    then follow_jump slip s
    else if ltb s.first_taken bursty_first
    then follow_first slip s
    else follow_mean slip s

-- The part of `place` for a player that is not bursty.
unfoldable pub hold_or_move : ℤ → ℤ → Stream → Stream × Moved
unfolding beyond
hold_or_move due slip s =
    if not (beyond slip anchor_slip)
    then (record s { outside = 0 }, nothing)
    else if ltb (s.outside + 1) slip_runs
    then (record s { outside = s.outside + 1 }, nothing)
    else (
      unease (record s { outside = 0; origin = due; origin_index = s.index; slips = s.slips + 1 }),
      record { depth = pos 0; slip = slip; again = true },
    )

same_kind : Bool → Bool → Bool
same_kind true b = b
same_kind false b = not b

-- The start of `place`: a player that turns bursty, or stops being so, is learnt anew.
unfoldable pub meet : Point → Stream → Stream
unfolding same_kind
meet p s =
    let asked = record s { asked = s.blocks; unread = 0 } in
    if same_kind p.bursty s.bursty
    then record asked { bursty = p.bursty }
    else record (unease (record asked { anchored = false; candidates = []; outside = 0 })) {
      bursty = p.bursty;
    }

unfoldable pub place_met : ℤ → Point → Stream → Stream × Moved
place_met due p s =
    let slip = due -ℤ (s.origin +ℤ frame_time s.rate (s.index -ℤ s.origin_index)) in
    if not s.anchored
    then learn due p s
    else if p.bursty
    then follow slip s
    else hold_or_move due slip s

unfoldable pub place : Point → Stream → Stream × Moved
place p s = place_met (p.at +ℤ frame_time s.rate p.ahead) p (meet p s)

-- `frameAt`: the index that is heard at a time.
unfoldable pub frame_at : ℤ → Stream → ℤ
frame_at when s = s.origin_index +ℤ frame_count s.rate (when -ℤ s.origin)

-- `smoothed` and `ease`: how far a chunk is moved towards its place, given how far off it is.
unfoldable pub smoothed : ℤ → Stream → Stream × ℤ
smoothed err s =
    let smooth = s.smooth +ℤ quot_ℤ (times_ℤ err (2 ^ smooth_bits) -ℤ s.smooth) smooth_over in
    (record s { smooth = smooth }, shift_right_ℤ smooth smooth_bits)

unfoldable pub ease : ℤ → Stream → ℤ
ease err s =
    let band = frame_count s.rate (pos dead_band) in
    let step = max_ℤ (pos 1) (frame_count s.rate (pos soft_step)) in
    if leb_ℤ band err
    then min_ℤ err step
    else if leb_ℤ err (pos 0 -ℤ band)
    then max_ℤ err (pos 0 -ℤ step)
    else pos 0
