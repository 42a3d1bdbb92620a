-- ===== src/Base/Bytes.antt =====
-- Numbers as bytes in either order, and writes into a buffer.
use Prim.Native.Nat.{ℕ, zero, suc, ◌+◌, ◌*◌, ◌/◌, ◌%◌, ◌^◌, ◌≤◌, ◌<◌}
use mathlib.Core.Path.{◌≡◌, refl, ap, ◌∙◌}
use mathlib.Core.List.{List, [], ◌∷◌, ◌++◌}
use native.Mathlib.Omega.{arith}
use native.Mathlib.Nat.{pow-suc}
use overdub.Base.Lists.{length, length-append, take, drop, length-take, length-drop, All}

abbrev pub IsByte : ℕ → Type 0
IsByte b = b < 256

-- `v` in `k` bytes, the lowest first, as `binary.LittleEndian` writes it.
abbrev pub le_bytes : ℕ → ℕ → List ℕ
le_bytes zero v = []
le_bytes (suc k) v = (v % 256) ∷ le_bytes k (v / 256)

abbrev pub le_number : List ℕ → ℕ
le_number [] = 0
le_number (b ∷ bs) = b + 256 * le_number bs

-- `v` in `k` bytes, the highest first, as `binary.BigEndian` writes it.
abbrev pub be_bytes : ℕ → ℕ → List ℕ
be_bytes zero v = []
be_bytes (suc k) v = be_bytes k (v / 256) ++ ((v % 256) ∷ [])

abbrev pub be_number_from : ℕ → List ℕ → ℕ
be_number_from acc [] = acc
be_number_from acc (b ∷ bs) = be_number_from (acc * 256 + b) bs

abbrev pub be_number : List ℕ → ℕ
be_number bs = be_number_from 0 bs

-- `copy(buf[off:], bs)`, for bytes that fit.
abbrev pub write_at : ℕ → List ℕ → List ℕ → List ℕ
write_at off bs buf = take off buf ++ (bs ++ drop (off + length bs) buf)

-- `buf[from : from+n]`
abbrev pub slice : ℕ → ℕ → List ℕ → List ℕ
slice from n buf = take n (drop from buf)

pub length-le_bytes : (k v : ℕ) → length (le_bytes k v) ≡ k
length-le_bytes zero v = refl
length-le_bytes (suc k) v = ap suc (length-le_bytes k (v / 256))

pub length-be_bytes : (k v : ℕ) → length (be_bytes k v) ≡ k
length-be_bytes zero v = refl
length-be_bytes (suc k) v = rw length-append (omega (arith, length-be_bytes k (v / 256)))

pub le_number-le_bytes : (k v : ℕ) → v < 256 ^ k → le_number (le_bytes k v) ≡ v
le_number-le_bytes zero v h = omega arith
le_number-le_bytes (suc k) v h =
    omega (arith, pow-suc 256 k, le_number-le_bytes k (v / 256) (omega (arith, pow-suc 256 k)))

be_number_from-snoc :
    (acc b : ℕ) (bs : List ℕ)
    → be_number_from acc (bs ++ (b ∷ [])) ≡ be_number_from acc bs * 256 + b
be_number_from-snoc acc b [] = refl
be_number_from-snoc acc b (x ∷ bs) = be_number_from-snoc (acc * 256 + x) b bs

pub be_number-be_bytes : (k v : ℕ) → v < 256 ^ k → be_number (be_bytes k v) ≡ v
be_number-be_bytes zero v h = omega arith
be_number-be_bytes (suc k) v h =
    be_number_from-snoc 0 (v % 256) (be_bytes k (v / 256))
    ∙ omega (arith, pow-suc 256 k, be_number-be_bytes k (v / 256) (omega (arith, pow-suc 256 k)))

pub le_bytes-IsByte : (k v : ℕ) → All IsByte (le_bytes k v)
le_bytes-IsByte zero v = tt
le_bytes-IsByte (suc k) v = (omega arith, le_bytes-IsByte k (v / 256))

pub le_number-lt : (bs : List ℕ) → All IsByte bs → le_number bs < 256 ^ length bs
le_number-lt [] h = omega arith
le_number-lt (b ∷ bs) (hb, hs) = omega (arith, pow-suc 256 (length bs), le_number-lt bs hs)

pub le_bytes-le_number : (bs : List ℕ) → All IsByte bs → le_bytes (length bs) (le_number bs) ≡ bs
le_bytes-le_number [] h = refl
le_bytes-le_number (b ∷ bs) (hb, hs) =
    let low : (b + 256 * le_number bs) % 256 ≡ b = omega arith in
    let high : (b + 256 * le_number bs) / 256 ≡ le_number bs = omega arith in
    rw low (rw high (ap (λ l. b ∷ l) (le_bytes-le_number bs hs)))

pub length-write_at :
    (off : ℕ) (bs buf : List ℕ)
    → off + length bs ≤ length buf
    → length (write_at off bs buf) ≡ length buf
length-write_at off bs buf h =
    rw length-append
      (rw length-append (omega (arith, length-take off buf, length-drop (off + length bs) buf)))
