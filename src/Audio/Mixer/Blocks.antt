-- ===== src/Audio/Mixer/Blocks.antt =====
-- internal/audio/mixer.go: the blocks that the mixer plays.
use overdub.Base.{
  ℕ, zero, suc, ◌≡◌, refl, ap, ◌∙◌, List, [], ◌∷◌, All, arith, length, replicate, length-replicate,
}
use overdub.Base.Int.{ℤ, pos}
use overdub.Audio.Mixer.{IsSample, Reading, add_samples, mix, next}
use overdub.Audio.Mixer.Samples.{sum-IsSample}

length-add_samples : (block ss : List ℤ) → length (add_samples block ss) ≡ length block
unfolding add_samples
length-add_samples block [] = refl
length-add_samples [] (s ∷ ss) = refl
length-add_samples (b ∷ block) (s ∷ ss) = ap suc (length-add_samples block ss)

add_samples-IsSample :
    (block ss : List ℤ) → All IsSample block → All IsSample (add_samples block ss)
unfolding add_samples
add_samples-IsSample block [] h = h
add_samples-IsSample [] (s ∷ ss) h = h
add_samples-IsSample (b ∷ block) (s ∷ ss) (hb, h) =
    (sum-IsSample b s, add_samples-IsSample block ss h)

silence-IsSample : (n : ℕ) → All IsSample (replicate n (pos 0))
silence-IsSample zero = tt
silence-IsSample (suc n) = (ground arith, silence-IsSample n)

module _ {A : Type 0} (read : ℕ → A → Reading A) where
  mix_block :
      (size : ℕ) (srcs : List (ℕ × A)) (block : List ℤ)
      → All IsSample block
      → (length (mix read size srcs block).0 ≡ length block)
        × All IsSample (mix read size srcs block).0
  unfolding mix
  mix_block size [] block h = (refl, h)
  mix_block size ((id, s) ∷ srcs) block h =
      let more = add_samples block (read size s).samples in
      let (l, hs) = mix_block size srcs more (add_samples-IsSample block (read size s).samples h) in
      (l ∙ length-add_samples block (read size s).samples, hs)

  -- `next` leaves a block as long as the one it is given, with samples that fit an int16 if those that
  -- it is given do, whatever the sources read and however many they are.
  pub next_block :
      (block : List ℤ) (srcs : List (ℕ × A))
      → All IsSample block
      → (length (next read block srcs).1 ≡ length block) × All IsSample (next read block srcs).1
  unfolding next
  next_block block [] h = (refl, h)
  next_block block (s ∷ srcs) h =
      let (l, hs) =
        mix_block (length block) (s ∷ srcs) (replicate (length block) (pos 0))
          (silence-IsSample (length block)) in
      (l ∙ length-replicate (length block) (pos 0), hs)
