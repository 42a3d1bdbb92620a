-- ===== src/Audio/Stream/Queue.antt =====
-- internal/audio/stream.go: what the queue of a stream holds, and where a chunk is put.
use overdub.Base.{
  ℕ, suc, ◌+◌, ◌-◌, ◌*◌, ◌/◌, ◌≤◌, ◌≡◌, refl, ap, true, List, [], ◌∷◌, ◌++◌, length, take, drop,
  arith, take-append-drop, length-append,
}
use overdub.Base.Int.{ℤ, pos, ◌+ℤ◌, times_ℤ, quot_ℤ, rem_ℤ}
use overdub.Audio.Mixer.{decode}
use overdub.Audio.Stream.{
  Queued, Stream, frames, write, insert_chunk, place_from, unease_head, discard, finish, resume,
  clear, close, stream_chunks, stream_hold, frame_count, ◌+ℤ◌,
}

-- The frames of a queue that are still to be played.
unfoldable pub left : List Queued → ℕ
left [] = 0
left (c ∷ cs) = (frames c - c.off) + left cs

-- A stream counts the frames that its queue has left, and holds 30 s of them and 3000 chunks at most.
pub record IsValid (s : Stream) : Type 0 where
  pub counts : s.held ≡ left s.queue
  pub fits : s.held ≤ 30 * s.rate
  pub few : length s.queue ≤ stream_chunks

left-append : (front back : List Queued) → left (front ++ back) ≡ left front + left back
unfolding left
left-append [] back = omega arith
left-append (c ∷ front) back = omega (arith, left-append front back)

left-unease_head : (queue : List Queued) → left (unease_head queue) ≡ left queue
unfolding left unease_head
left-unease_head [] = refl
left-unease_head (c ∷ queue) = refl

length-unease_head : (queue : List Queued) → length (unease_head queue) ≡ length queue
unfolding unease_head
length-unease_head [] = refl
length-unease_head (c ∷ queue) = refl

length-decode : (pcm : List ℕ) → length (decode pcm) ≡ length pcm / 2
unfolding decode
length-decode [] = omega arith
length-decode (a ∷ []) = omega arith
length-decode (a ∷ b ∷ rest) = omega (arith, length-decode rest)

left-insert_chunk :
    (at : ℤ) (pcm : List ℤ) (queue : List Queued)
    → left (insert_chunk at pcm queue) ≡ left queue + length pcm / 2
unfolding insert_chunk left
left-insert_chunk at pcm queue =
    let i = place_from queue at (length queue) in
    omega (
      arith,
      left-append (take i queue) _,
      left-unease_head (drop i queue),
      left-append (take i queue) (drop i queue),
      ap left (take-append-drop i queue),
    )

length-insert_chunk :
    (at : ℤ) (pcm : List ℤ) (queue : List Queued)
    → length (insert_chunk at pcm queue) ≡ suc (length queue)
unfolding insert_chunk
length-insert_chunk at pcm queue =
    let i = place_from queue at (length queue) in
    omega (
      arith,
      length-append (take i queue) _,
      length-unease_head (drop i queue),
      length-append (take i queue) (drop i queue),
      ap length (take-append-drop i queue),
    )

hold_frames : (rate : ℕ) → frame_count rate (pos stream_hold) ≡ pos (30 * rate)
unfolding frame_count times_ℤ quot_ℤ rem_ℤ ◌+ℤ◌
hold_frames rate = ground arith

-- A write keeps the count of what is held right and within the bounds, whether it is accepted or not,
-- whatever is written and whenever it is due.
pub write-IsValid :
    (now at : ℤ) (pcm : List ℕ) (s : Stream) → IsValid s → IsValid (write now at pcm s).0
unfolding write left
write-IsValid now at pcm s v =
    let counts = v.counts in
    let fits = v.fits in
    let few = v.few in
    ground (
      arith,
      hold_frames s.rate,
      left-insert_chunk at (decode pcm) s.queue,
      length-insert_chunk at (decode pcm) s.queue,
      length-decode pcm,
    )

-- What the owner of a stream calls.
pub data Call : Type 0 where
  writes : ℤ → ℤ → List ℕ → Call
  finishes resumes clears closes : Call

unfoldable pub call : Call → Stream → Stream
call (writes now at pcm) s = (write now at pcm s).0
call finishes s = finish s
call resumes s = (resume s).0
call clears s = clear s
call closes s = close s

unfoldable pub calls : List Call → Stream → Stream
calls [] s = s
calls (c ∷ cs) s = calls cs (call c s)

call-IsValid : (c : Call) (s : Stream) → IsValid s → IsValid (call c s)
unfolding call finish resume clear close discard left
call-IsValid (writes now at pcm) s v = write-IsValid now at pcm s v
call-IsValid finishes s v =
    let counts = v.counts in let fits = v.fits in let few = v.few in ground arith
call-IsValid resumes s v =
    let counts = v.counts in let fits = v.fits in let few = v.few in ground arith
call-IsValid clears s v = ground arith
call-IsValid closes s v =
    let counts = v.counts in let fits = v.fits in let few = v.few in ground arith

-- A stream that counts the frames that its queue has left, and holds 30 s of them and 3000 chunks at
-- most, still does, whatever is written, finished, resumed, cleared and closed, in any order.
pub calls-IsValid : (cs : List Call) (s : Stream) → IsValid s → IsValid (calls cs s)
unfolding calls
calls-IsValid [] s v = v
calls-IsValid (c ∷ cs) s v = calls-IsValid cs (call c s) (call-IsValid c s v)

closed_stays :
    (c : Call) (s : Stream)
    → s.closed ≡ true
    → ((call c s).closed ≡ true) × (left (call c s).queue ≤ left s.queue)
unfolding call write finish resume clear close discard left
closed_stays (writes now at pcm) s h = ground arith
closed_stays finishes s h = ground arith
closed_stays resumes s h = ground arith
closed_stays clears s h = ground arith
closed_stays closes s h = ground arith

-- A stream that is closed stays closed and takes no more audio, whatever is called.
pub calls_closed :
    (cs : List Call) (s : Stream)
    → s.closed ≡ true
    → ((calls cs s).closed ≡ true) × (left (calls cs s).queue ≤ left s.queue)
unfolding calls
calls_closed [] s h = (h, omega arith)
calls_closed (c ∷ cs) s h =
    let (still, fewer) = closed_stays c s h in
    let (after, rest) = calls_closed cs (call c s) still in (after, omega arith)
