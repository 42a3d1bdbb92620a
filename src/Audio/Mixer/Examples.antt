-- ===== src/Audio/Mixer/Examples.antt =====
-- internal/audio/mixer.go: the theorems of this folder at blocks of four samples.
use overdub.Base.{ℕ, ◌≡◌, ◌≤◌, List, [], ◌∷◌, ◌++◌, All, replicate, arith}
use overdub.Base.Int.{ℤ, pos, negsuc}
use overdub.Audio.Mixer.{IsSample, Clip, start}
use overdub.Audio.Mixer.Clips.{drain, drain-start}

abbrev block : List ℤ
block = pos 7 ∷ negsuc 0 ∷ pos 32767 ∷ negsuc 32767 ∷ []

block-IsSample : All IsSample block
block-IsSample = (
  (ground arith, ground arith),
  (
    (ground arith, ground arith),
    ((ground arith, ground arith), ((ground arith, ground arith), tt)),
  ),
)

abbrev chime : Clip
chime = record { pcm = block ++ (pos 5 ∷ []); at = 3 }

drain-start_example :
    (k : ℕ) × (k ≤ 2) × (drain 6 2 (start 1 chime []) ≡ chime.pcm ++ replicate k (pos 0))
drain-start_example =
    drain-start 2 1 chime
      (
        (ground arith, ground arith),
        (
          (ground arith, ground arith),
          (
            (ground arith, ground arith),
            ((ground arith, ground arith), ((ground arith, ground arith), tt)),
          ),
        ),
      )
      (omega arith)
