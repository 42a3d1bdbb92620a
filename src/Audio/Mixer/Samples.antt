-- ===== src/Audio/Mixer/Samples.antt =====
-- internal/audio/mixer.go: the arithmetic of samples, and their bytes.
use overdub.Base.{◌/◌, ◌%◌, ◌<◌, ◌≡◌, refl, ap, List, [], ◌∷◌, All, arith}
use overdub.Base.Bytes.{le_number}
use overdub.Base.Int.{ℤ, min_ℤ, max_ℤ, pos, negsuc, ◌+ℤ◌}
use overdub.Audio.Mixer.{sum, IsSample, max_int16, min_int16, encode, decode, to_int16, to_uint16}

-- `sum` is the exact sum, clamped to the range of an int16: it never wraps, for any two numbers.
pub sum_lem : (a b : ℤ) → sum a b ≡ max_ℤ min_int16 (min_ℤ max_int16 (a +ℤ b))
unfolding sum ◌+ℤ◌
sum_lem a b = ground arith

pub sum-IsSample : (a b : ℤ) → IsSample (sum a b)
unfolding sum ◌+ℤ◌
sum-IsSample a b = ground arith

to_int16-to_uint16 : (s : ℤ) → IsSample s → to_int16 (to_uint16 s) ≡ s
unfolding to_int16 to_uint16
to_int16-to_uint16 (pos n) h = ground arith
to_int16-to_uint16 (negsuc n) h = ground arith

to_uint16_lt : (s : ℤ) → to_uint16 s < 65536
unfolding to_uint16
to_uint16_lt (pos n) = omega arith
to_uint16_lt (negsuc n) = omega arith

-- What `encode` writes for a block of int16 samples, `decode` reads as the block.
pub decode-encode : (ss : List ℤ) → All IsSample ss → decode (encode ss) ≡ ss
unfolding decode encode
decode-encode [] h = refl
decode-encode (s ∷ ss) (hs, h) =
    let u = to_uint16 s in
    let number : le_number (u % 256 ∷ (u / 256) % 256 ∷ []) ≡ u = omega (arith, to_uint16_lt s) in
    rw (number, to_int16-to_uint16 s hs) (ap (λ l. s ∷ l) (decode-encode ss h))
