-- ===== src/Audio/Mixer.antt =====
-- internal/audio/mixer.go, the mixer: sources that are read block by block and added up. A sample is
-- an int16, a signed number from -2^15 to 2^15 - 1. A source is held with a number for its address,
-- by which the code compares sources.
pub mod Samples
pub mod Blocks
pub mod Clips
mod Examples
use overdub.Base.{
  ℕ, zero, suc, ◌+◌, ◌-◌, ◌*◌, ◌/◌, ◌%◌, ◌≤◌, Bool, true, false, List, [], ◌∷◌, ◌++◌, ◌&&◌, not,
  length, take, drop, replicate, ltb, ◌==◌, if◌then◌else◌, min,
}
use overdub.Base.Int.{ℤ, pos, negsuc, ◌+ℤ◌, ltb_ℤ, ◌≤ℤ◌}
use overdub.Base.Bytes.{le_bytes, le_number}

abbrev pub max_int16 : ℤ
max_int16 = pos 32767

abbrev pub min_int16 : ℤ
min_int16 = negsuc 32767

abbrev pub IsSample : ℤ → Type 0
IsSample v = (min_int16 ≤ℤ v) × (v ≤ℤ max_int16)

-- `sum`: the int32 sum of two int16 cannot wrap.
unfoldable pub sum : ℤ → ℤ → ℤ
sum a b =
    let s = a +ℤ b in
    if ltb_ℤ max_int16 s then max_int16 else if ltb_ℤ s min_int16 then min_int16 else s

-- `uint16(s)` and `int16(u)`.
unfoldable pub to_uint16 : ℤ → ℕ
to_uint16 (pos n) = n % 65536
to_uint16 (negsuc n) = (65535 - n % 65536) % 65536

unfoldable pub to_int16 : ℕ → ℤ
to_int16 u = if ltb u 32768 then pos u else negsuc (65535 - u)

-- `encode`, into a buffer of two bytes a sample.
unfoldable pub encode : List ℤ → List ℕ
encode [] = []
encode (s ∷ ss) = le_bytes 2 (to_uint16 s) ++ encode ss

-- `decode`: an odd byte at the end is left out.
unfoldable pub decode : List ℕ → List ℤ
decode [] = []
decode (a ∷ []) = []
decode (a ∷ b ∷ rest) = to_int16 (le_number (a ∷ b ∷ [])) ∷ decode rest

-- A source of the mixer: reading it gives at most as many samples as the block has, the source
-- after, and whether there is more.
pub record Reading (A : Type 0) : Type 0 where
  pub samples : List ℤ
  pub more : Bool
  pub after : A

pub record Clip : Type 0 where
  pub pcm : List ℤ
  pub at : ℕ

unfoldable pub read_clip : ℕ → Clip → Reading Clip
read_clip size c =
    let samples = take size (drop c.at c.pcm) in
    record {
      samples = samples;
      more = ltb (c.at + length samples) (length c.pcm);
      after = record c { at = c.at + length samples };
    }

-- `block[i] = sum(block[i], m.scratch[i])` for the samples that were read.
unfoldable pub add_samples : List ℤ → List ℤ → List ℤ
add_samples block [] = block
add_samples [] (s ∷ ss) = []
add_samples (b ∷ block) (s ∷ ss) = sum b s ∷ add_samples block ss

module _ {A : Type 0} where
  pub holds : List (ℕ × A) → ℕ → Bool
  holds [] id = false
  holds ((i, s) ∷ srcs) id = if i == id then true else holds srcs id

  -- `add`: a source that is held already is not added again.
  unfoldable pub add : ℕ → A → List (ℕ × A) → List (ℕ × A)
  unfolding holds
  add id s srcs = if holds srcs id then srcs else srcs ++ ((id, s) ∷ [])

  unfoldable pub remove : ℕ → List (ℕ × A) → List (ℕ × A)
  remove id [] = []
  remove id ((i, s) ∷ srcs) = let rest = remove id srcs in if i == id then rest else (i, s) ∷ rest

  unfoldable pub sounding : List (ℕ × A) → Bool
  sounding [] = false
  sounding (s ∷ srcs) = true

module _ {A : Type 0} (read : ℕ → A → Reading A) where
  -- The loop of `next` over the sources: the block, and the sources that are kept.
  unfoldable pub mix : ℕ → List (ℕ × A) → List ℤ → List ℤ × List (ℕ × A)
  mix size [] block = (block, [])
  mix size ((id, s) ∷ srcs) block =
      let r = read size s in
      let (out, kept) = mix size srcs (add_samples block r.samples) in
      (out, if r.more then (id, r.after) ∷ kept else kept)

  -- `next`: the flag is false, and the block is left alone, where there is no source.
  unfoldable pub next : List ℤ → List (ℕ × A) → Bool × List ℤ × List (ℕ × A)
  next block [] = (false, block, [])
  next block (s ∷ srcs) =
      let (out, kept) = mix (length block) (s ∷ srcs) (replicate (length block) (pos 0)) in
      (true, out, kept)

-- `start`: the clip begins anew, also where it is playing already.
unfoldable pub rewind : ℕ → List (ℕ × Clip) → List (ℕ × Clip)
rewind id [] = []
rewind id ((i, c) ∷ srcs) = (i, if i == id then record c { at = 0 } else c) ∷ rewind id srcs

unfoldable pub start : ℕ → Clip → List (ℕ × Clip) → List (ℕ × Clip)
unfolding rewind
start id c srcs = add id (record c { at = 0 }) (rewind id srcs)
