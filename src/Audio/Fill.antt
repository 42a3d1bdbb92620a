-- ===== src/Audio/Fill.antt =====
-- internal/audio/stream.go, `read` and `fill`: how the queue of a stream becomes a block. A block is
-- its samples, two a frame. The ducking (`scale`), which is float arithmetic on the filled block and
-- on fields of its own, is a parameter.
pub mod Settle
pub mod Rounds
pub mod Blocks
pub mod Runs
mod Examples
use overdub.Base.{
  ℕ, zero, suc, ◌+◌, ◌-◌, ◌*◌, ◌/◌, ◌<◌, Bool, true, false, Option, none, some, List, [], ◌∷◌, ◌++◌,
  ◌&&◌, ◌||◌, not, length, take, drop, replicate, get_or, ltb, leb, ◌==◌, if◌then◌else◌, min,
}
use overdub.Base.Int.{ℤ, pos, ◌+ℤ◌, ◌-ℤ◌, ltb_ℤ, leb_ℤ, eqb_ℤ, times_ℤ, quot_ℤ, pos_part}
use overdub.Audio.Mixer.{to_int16, to_uint16}
use overdub.Audio.Stream.{Queued, Stream, frames, frame_count, millisecond}
use overdub.Audio.Anchor.{frame_at, smoothed, ease}

abbrev pub ease_apart : ℕ
ease_apart = 200

abbrev pub snap_above : ℕ
snap_above = 50 * millisecond

-- A chunk that meets the block for the first time is given its place.
unfoldable pub settle : ℤ → Queued → Stream → Queued × Stream
settle want c s =
    let err = frame_at c.at s -ℤ want in
    let snap = frame_count s.rate (pos snap_above) in
    let (s1, smooth) = smoothed err s in
    let apart = leb_ℤ (pos ease_apart) (s.index -ℤ s.eased_at) in
    let step = if apart then ease smooth s else pos 0 in
    let s2 = if eqb_ℤ step (pos 0) then s1 else record s1 { eased_at = s.index } in
    let far = not s.began || (s.jump || (ltb_ℤ snap err || ltb_ℤ err (pos 0 -ℤ snap))) in
    if far
    then (
      record c { eased = true; soft = false; place = want +ℤ err },
      record s2 { smooth = pos 0; jump = s.jump && leb_ℤ err (pos 0 -ℤ pos (frames c)) },
    )
    else (record c { eased = true; soft = not (eqb_ℤ step err); place = want +ℤ step }, s2)

-- What the loop of `fill` has done so far.
pub record Filling : Type 0 where
  pub stream : Stream
  pub block : List ℤ
  pub at : ℕ
  pub filled : ℕ
  pub blended : ℕ
  pub trimmed : ℕ

-- Samples written into a block from an index on.
unfoldable pub put_samples : ℕ → List ℤ → List ℤ → List ℤ
put_samples i ss block = take i block ++ (ss ++ drop (i + length ss) block)

-- `int16(v)` of an int64.
abbrev pub as_int16 : ℤ → ℤ
as_int16 v = to_int16 (to_uint16 v)

-- `blend`, from the frame `i` on, for `k` frames of a gap whose `n` is the number of its steps.
unfoldable pub blend_from : ℕ → ℕ → ℕ → List ℤ → List ℤ → List ℤ
blend_from i zero n from to = []
blend_from i (suc k) n from to =
    let step = λ (ch : ℕ). as_int16 (
      get_or from ch (pos 0)
      +ℤ quot_ℤ (times_ℤ (get_or to ch (pos 0) -ℤ get_or from ch (pos 0)) (i + 1)) n) in
    step 0 ∷ step 1 ∷ blend_from (i + 1) k n from to

unfoldable pub blend : ℕ → List ℤ → List ℤ → List ℤ
unfolding blend_from
blend k from to = blend_from 0 k (k + 1) from to

-- `c.frame(i)`
abbrev pub frame : ℕ → Queued → List ℤ
frame i c = take 2 (drop (i * 2) c.pcm)

-- The average that hides a seam, in the first frame that is copied.
unfoldable pub mend : List ℤ → List ℤ → List ℤ
mend last [] = []
mend last (a ∷ []) = a ∷ []
mend last (a ∷ b ∷ rest) =
    as_int16 (quot_ℤ (get_or last 0 (pos 0) +ℤ a) 2)
    ∷ as_int16 (quot_ℤ (get_or last 1 (pos 0) +ℤ b) 2)
    ∷ rest

-- The four cases of a round, for the chunk `c` in front of `rest`. First: it is over.
unfoldable pub drop_chunk : Queued → List Queued → Filling → Filling
drop_chunk c rest f =
    let s = f.stream in
    let gone = frames c - c.off in
    record f { stream = record s { queue = rest; held = s.held - gone; late = s.late + gone } }

-- It began `behind` frames ago: they are left out.
unfoldable pub cut_chunk : ℕ → Queued → List Queued → Filling → Filling
cut_chunk behind c rest f =
    let s = f.stream in
    let queue = record c { seam = true; off = c.off + behind } ∷ rest in
    if c.soft
    then record f {
      stream = record s { queue = queue; held = s.held - behind };
      trimmed = f.trimmed + behind;
    }
    else record f {
      stream = record s { queue = queue; held = s.held - behind; late = s.late + behind };
    }

-- It begins `ahead` frames from now: the block waits, or blends towards it.
unfoldable pub await_chunk : ℕ → ℕ → Queued → List Queued → Filling → Filling
await_chunk total ahead c rest f =
    let s = f.stream in
    let n = min ahead (total - f.at) in
    let stream = record s { queue = c ∷ rest } in
    if c.soft
    then record f {
      stream = stream;
      block = put_samples (f.at * 2) (blend n s.last_out (frame c.off c)) f.block;
      blended = f.blended + n;
      at = f.at + n;
    }
    else record f { stream = stream; at = f.at + n }

-- It is due now: it is copied, as far as both go.
unfoldable pub copy_chunk : ℕ → Queued → List Queued → Filling → Filling
copy_chunk total c rest f =
    let s = f.stream in
    let n = min (total - f.at) (frames c - c.off) in
    let raw = take (n * 2) (drop (c.off * 2) c.pcm) in
    let mended = c.soft && c.seam in
    let out = if mended then mend s.last_out raw else raw in
    let c' = record c { seam = if mended then false else c.seam; off = c.off + n } in
    record f {
      stream = record s {
        queue = if c.off + n == frames c then rest else c' ∷ rest;
        held = s.held - n;
        began = true;
        last_out = drop ((n - 1) * 2) out;
      };
      block = put_samples (f.at * 2) out f.block;
      at = f.at + n;
      filled = f.filled + n;
    }

-- The switch of `fill`.
unfoldable pub place_chunk : ℕ → ℤ → Queued → List Queued → Filling → Filling
unfolding drop_chunk cut_chunk await_chunk copy_chunk
place_chunk total want c rest f =
    let start = c.place +ℤ pos c.off in
    if leb_ℤ (start +ℤ pos (frames c - c.off)) want
    then drop_chunk c rest f
    else if ltb_ℤ start want
    then cut_chunk (pos_part (want -ℤ start)) c rest f
    else if ltb_ℤ want start
    then await_chunk total (pos_part (start -ℤ want)) c rest f
    else copy_chunk total c rest f

-- One round of the loop, on the chunk in front.
unfoldable pub fill_round : ℕ → Queued → List Queued → Filling → Filling
fill_round total c rest f =
    let s = f.stream in
    let want = s.index +ℤ pos f.at in
    let (c', s') = settle want c s in
    if length c.pcm == 0
    then record f { stream = record s { queue = rest } }
    else if c.eased
    then place_chunk total want c rest f
    else place_chunk total want c' rest (record f { stream = s' })

pub data FillEnd : Type 0 where
  filling : Filling → FillEnd
  out_of_fuel : FillEnd

unfoldable pub fill_from : ℕ → ℕ → Filling → List Queued → FillEnd
fill_from fuel total f [] = filling f
fill_from zero total f (c ∷ rest) = if leb total f.at then filling f else out_of_fuel
fill_from (suc fuel) total f (c ∷ rest) =
    let f' = fill_round total c rest f in
    let after = fill_from fuel total f' f'.stream.queue in
    if leb total f.at then filling f else after

abbrev pub silent_frame : List ℤ
silent_frame = pos 0 ∷ pos 0 ∷ []

-- The rounds that are enough: see Audio/Fill/Rounds.
abbrev pub enough : ℕ → Stream → ℕ
enough total s = total + s.held + length s.queue + 1

-- The end of `fill`: a block that was not filled to its end leaves nothing to blend from.
unfoldable pub finish_fill : ℕ → Filling → Filling
finish_fill total f =
    if ltb f.at total then record f { stream = record f.stream { last_out = silent_frame } } else f

abbrev pub begin_fill : List ℤ → Stream → Filling
begin_fill block s = record {
  stream = s;
  block = block;
  at = 0;
  filled = 0;
  blended = 0;
  trimmed = 0;
}

unfoldable pub end_fill : ℕ → FillEnd → FillEnd
unfolding finish_fill
end_fill total (filling f) = filling (finish_fill total f)
end_fill total out_of_fuel = out_of_fuel

-- `fill`, on a block of `total` frames.
unfoldable pub fill : ℕ → List ℤ → Stream → FillEnd
unfolding fill_from end_fill
fill total block s = end_fill total (fill_from (enough total s) total (begin_fill block s) s.queue)

-- How `read` returns: the stream, the block, and whether it goes on; a stream that is over leaves the
-- block alone.
pub data ReadEnd : Type 0 where
  over : Stream → ReadEnd
  goes_on : Stream → List ℤ → ReadEnd
  starved : ReadEnd

-- The counts that `read` keeps, after `fill` or without it.
unfoldable pub count_block : ℕ → Filling → Stream
count_block total f =
    let s = f.stream in
    record s {
      placed = s.placed + f.filled;
      silence = s.silence + (total - f.filled - f.blended);
      eased = s.eased + (f.blended + f.trimmed);
      index = s.index +ℤ pos total;
      blocks = s.blocks + 1;
    }

unfoldable pub end_read : (List ℤ → List ℤ) → ℕ → FillEnd → ReadEnd
unfolding count_block
end_read scale total (filling f) = goes_on (count_block total f) (scale f.block)
end_read scale total out_of_fuel = starved

-- `if s.first.IsZero() { s.first = time.Now() }`
unfoldable pub meet_reader : ℤ → Stream → Stream
meet_reader now s = record s { first = elim s.first [ none ↦ some now | some at ↦ some at ] }

unfoldable pub read : (List ℤ → List ℤ) → ℤ → ℕ → Stream → ReadEnd
unfolding fill end_read meet_reader
read scale now size s =
    let total = size / 2 in
    let block = replicate size (pos 0) in
    let met = meet_reader now s in
    if s.closed || s.spent
    then over s
    else if s.done
    then over (record s { spent = true })
    else end_read scale total
        (if s.anchored then fill total block met else filling (begin_fill block met))
