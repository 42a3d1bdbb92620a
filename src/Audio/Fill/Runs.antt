-- ===== src/Audio/Fill/Runs.antt =====
-- internal/audio/stream.go: the life of a stream, with its owner, the player and the mixer in any
-- order. Each call holds the stream's lock, so a run is a list of calls.
use overdub.Base.{ℕ, ◌≡◌, refl, Option, none, some, List, [], ◌∷◌, length}
use overdub.Base.Int.{ℤ}
use overdub.Audio.Stream.{Stream}
use overdub.Audio.Stream.Queue.{IsValid, Call, call, calls-IsValid, calls}
use overdub.Audio.Anchor.{Point, place}
use overdub.Audio.Anchor.Slips.{places, places-IsValid}
use overdub.Audio.Fill.{read, ReadEnd, over, goes_on, starved}
use overdub.Audio.Fill.Blocks.{Reads, read-Reads}

pub data Act : Type 0 where
  owner : Call → Act
  player : Point → Act
  mixer : ℤ → ℕ → Act

-- The stream after a read; `none` is a read that does not end.
unfoldable pub after_read : ReadEnd → Option Stream
after_read (over s) = some s
after_read (goes_on s block) = some s
after_read starved = none

and_then : Option Stream → (Stream → Option Stream) → Option Stream
and_then none k = none
and_then (some s) k = k s

module _ (scale : List ℤ → List ℤ) where
  unfoldable pub act : Act → Stream → Option Stream
  unfolding after_read
  act (owner c) s = some (call c s)
  act (player p) s = some (place p s).0
  act (mixer now size) s = after_read (read scale now size s)

  unfoldable pub run : List Act → Stream → Option Stream
  unfolding and_then
  run [] s = some s
  run (a ∷ acts) s = and_then (act a s) (run acts)

Lives : Option Stream → Type 0
Lives none = ⊥
Lives (some s) = IsValid s

and_then-Lives :
    (o : Option Stream) (k : Stream → Option Stream)
    → Lives o
    → ((s : Stream) → IsValid s → Lives (k s))
    → Lives (and_then o k)
unfolding and_then Lives
and_then-Lives none k h hk = h
and_then-Lives (some s) k h hk = hk s h

Lives-some : (o : Option Stream) → Lives o → (s : Stream) × (o ≡ some s) × IsValid s
unfolding Lives
Lives-some none h = absurd h
Lives-some (some s) h = (s, refl, h)

after_read-Lives : (size : ℕ) (s : Stream) (e : ReadEnd) → Reads size s e → Lives (after_read e)
unfolding after_read Lives Reads
after_read-Lives size s (over s') r = r.0
after_read-Lives size s (goes_on s' block) r = r.0
after_read-Lives size s starved r = r

module _ (scale : List ℤ → List ℤ)
    (keeps : (block : List ℤ) → length (scale block) ≡ length block) where
  act-Lives : (a : Act) (s : Stream) → IsValid s → Lives (act scale a s)
  unfolding act Lives calls places
  act-Lives (owner c) s v = calls-IsValid (c ∷ []) s v
  act-Lives (player p) s v = places-IsValid (p ∷ []) s v
  act-Lives (mixer now size) s v =
      after_read-Lives size s (read scale now size s) (read-Reads scale now size s keeps v)

  run-Lives : (acts : List Act) (s : Stream) → IsValid s → Lives (run scale acts s)
  unfolding run Lives
  run-Lives [] s v = v
  run-Lives (a ∷ acts) s v =
      and_then-Lives (act scale a s) (run scale acts) (act-Lives a s v) (run-Lives acts)

  -- Whatever the owner, the player and the mixer do with a valid stream, in any order, every read ends
  -- and the stream stays valid: it counts the frames that its queue has left, at most 30 s of them, in
  -- at most 3000 chunks. The ducking is assumed to keep the length of a block.
  pub run-IsValid :
      (acts : List Act) (s : Stream)
      → IsValid s
      → (s' : Stream) × (run scale acts s ≡ some s') × IsValid s'
  run-IsValid acts s v = Lives-some (run scale acts s) (run-Lives acts s v)
