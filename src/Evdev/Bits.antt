-- ===== src/Evdev/Bits.antt =====
-- The bits of a bitmap of internal/evdev/evdev.go in their order, for the loop of `keysFromBitmap`.
use Prim.Native.Nat.{bit_and, ◌/◌}
use overdub.Base.{
  inl, inr, Bool-cases, if◌then◌else◌, ℕ, zero, suc, ◌+◌, ◌%◌, ◌^◌, ◌<◌, ◌≡◌, refl, ap, ◌==◌, Bool,
  true, false, List, [], ◌∷◌, ◌++◌, length, arith, ◌∙◌, not,
}

-- A bitmap as the sequence of its bits: each byte's by halving it, the lowest first.
unfoldable pub byte_bits : ℕ → ℕ → List Bool
byte_bits zero b = []
byte_bits (suc n) b = (b % 2 == 1) ∷ byte_bits n (b / 2)

unfoldable pub bits_of : List ℕ → List Bool
unfolding byte_bits
bits_of [] = []
bits_of (b ∷ bs) = byte_bits 8 b ++ bits_of bs

unfoldable pub bit_at : List Bool → ℕ → Bool
bit_at [] k = false
bit_at (x ∷ xs) zero = x
bit_at (x ∷ xs) (suc k) = bit_at xs k

pub bit_at-front : (xs ys : List Bool) (k : ℕ) → k < length xs → bit_at (xs ++ ys) k ≡ bit_at xs k
unfolding bit_at
bit_at-front [] ys k h = absurd (omega arith)
bit_at-front (x ∷ xs) ys zero h = refl
bit_at-front (x ∷ xs) ys (suc k) h = bit_at-front xs ys k (omega arith)

pub bit_at-back : (xs ys : List Bool) (k : ℕ) → bit_at (xs ++ ys) (length xs + k) ≡ bit_at ys k
unfolding bit_at
bit_at-back [] ys k = ap (bit_at ys) (let e : 0 + k ≡ k = omega arith in e)
bit_at-back (x ∷ xs) ys k =
    ap (bit_at (x ∷ xs ++ ys))
      (let e : suc (length xs) + k ≡ suc (length xs + k) = omega arith in e)
    ∙ bit_at-back xs ys k

-- A test that every number under a bound passes, so that the bits of all bytes are compared by
-- evaluation.
passes : (ℕ → Bool) → ℕ → Bool
passes test zero = true
passes test (suc top) = let below = passes test top in if test top then below else false

passes_at : (test : ℕ → Bool) (bound i : ℕ) → i < bound → passes test bound ≡ true → test i ≡ true
unfolding passes
passes_at test zero i under ok = absurd (omega arith)
passes_at test (suc top) i under ok = elim (Bool-cases (i == top)) [
  | inl last ↦ ground (arith, ap test (let e : i ≡ top = ground arith in e))
  | inr other ↦ ground (arith, passes_at test top i)
]

abbrev same_bit : ℕ → ℕ → Bool
same_bit b j =
    if bit_at (byte_bits 8 b) j then not (bit_and b (2 ^ j) == 0) else bit_and b (2 ^ j) == 0

bit_table : passes (λ b. passes (same_bit b) 8) 256 ≡ true
unfolding passes bit_at byte_bits
bit_table = refl

pub byte_bit : (b j : ℕ) → b < 256 → j < 8 → not (bit_and b (2 ^ j) == 0) ≡ bit_at (byte_bits 8 b) j
byte_bit b j hb hj =
    let byte : passes (same_bit b) 8 ≡ true =
      passes_at (λ x. passes (same_bit x) 8) 256 b hb bit_table in
    ground (arith, passes_at (same_bit b) 8 j hj byte)
