-- ===== src/Audio/Fill/Settle.antt =====
-- internal/audio/stream.go, `fill`: what placing a chunk leaves alone.
use overdub.Base.{◌≡◌, true, arith}
use overdub.Base.Int.{ℤ}
use overdub.Audio.Stream.{Queued, Stream}
use overdub.Audio.Anchor.{smoothed}
use overdub.Audio.Fill.{settle}

-- A chunk is placed without losing samples, and nothing of the stream but how it eases changes.
pub record Settles (c c' : Queued) (s s' : Stream) : Type 0 where
  pub pcm : c'.pcm ≡ c.pcm
  pub off : c'.off ≡ c.off
  pub eased : c'.eased ≡ true
  pub held : s'.held ≡ s.held
  pub late : s'.late ≡ s.late
  pub index : s'.index ≡ s.index
  pub rate : s'.rate ≡ s.rate
  pub placed : s'.placed ≡ s.placed
  pub silence : s'.silence ≡ s.silence
  pub eased_so_far : s'.eased ≡ s.eased

pub settle-Settles :
    (want : ℤ) (c : Queued) (s : Stream) → Settles c (settle want c s).0 s (settle want c s).1
unfolding settle smoothed
settle-Settles want c s = ground arith
