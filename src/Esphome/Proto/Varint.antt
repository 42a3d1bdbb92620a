-- ===== src/Esphome/Proto/Varint.antt =====
-- internal/esphome/proto.go, `uvarint`: what it writes is read back by `binary.Uvarint`.
use Prim.Native.Nat.{bit_and, bit_or}
use mathlib.Core.WellFounded.{Acc}
use mathlib.Core.List.{append_assoc}
use native.Mathlib.Numerals.{towards_suc}
use overdub.Base.{
  ℕ, zero, suc, ◌+◌, ◌*◌, ◌/◌, ◌%◌, ◌^◌, ◌≤◌, ◌<◌, ◌≡◌, ap, ◌∙◌, some, List, [], ◌∷◌, ◌++◌, length,
  All, ltb, if◌then◌else◌, arith,
}
use overdub.Base.Bytes.{IsByte}
use overdub.Base.Order.{lt_wf, and_0x7f, or_0x80}
use overdub.Esphome.Proto.{uvarint_loop, uvarint, read_uvarint_from, read_uvarint}

-- The groups of seven bits of `v`, lowest first, for `v` below 128 ^ (k + 1).
unfoldable pub groups : ℕ → ℕ → List ℕ
groups zero v = v ∷ []
groups (suc k) v =
    let rest = groups k (v / 128) in if ltb v 128 then v ∷ [] else (v % 128 + 128) ∷ rest

uvarint_loop-groups :
    (k : ℕ) (b : List ℕ) (v : ℕ) (w : Acc ◌<◌ v)
    → v < 128 ^ suc k
    → uvarint_loop b v w ≡ b ++ groups k v
unfolding uvarint_loop groups
uvarint_loop-groups zero b v (Acc.intro _ smaller) h = ground arith
uvarint_loop-groups (suc k) b v (Acc.intro _ smaller) h =
    let head : List ℕ = (v % 128 + 128) ∷ [] in
    let group : bit_or (v % 256) 0x80 ≡ v % 128 + 128 =
      or_0x80 (v % 256) (omega arith) ∙ omega arith in
    grind (
      arith,
      group,
      λ (w : Acc ◌<◌ (v / 128)). uvarint_loop-groups k (b ++ head) (v / 128) w (omega arith),
      append_assoc b head (groups k (v / 128)),
    )

pub uvarint-groups : (v : ℕ) (b : List ℕ) → v < 2 ^ 64 → uvarint v b ≡ b ++ groups 9 v
unfolding uvarint
uvarint-groups v b h = uvarint_loop-groups 9 b v (lt_wf.apply v) (omega arith)

shift_seven : (s : ℕ) → 2 ^ (s + 7) ≡ 128 * 2 ^ s
shift_seven s = simp towards_suc (omega arith)

-- The lowest group of `w` and the groups above it, both counted from bit `s`.
split_groups : (w s : ℕ) → w * 2 ^ s ≡ w % 128 * 2 ^ s + w / 128 * 2 ^ (s + 7)
split_groups w s =
    let above : w / 128 * 2 ^ (s + 7) ≡ w / 128 * (128 * 2 ^ s) =
      ap (λ (t : ℕ). w / 128 * t) (shift_seven s) in
    let whole : w * 2 ^ s ≡ (128 * (w / 128) + w % 128) * 2 ^ s =
      ap (λ (t : ℕ). t * 2 ^ s) (omega arith) in
    omega (arith, above, whole)

-- The tenth byte starts at bit 63.
top_byte : (i x w : ℕ) → i ≡ 9 → x + w * 2 ^ (7 * i) < 2 ^ 64 → w ≤ 1
top_byte i x w e h = let e' : x + w * 2 ^ 63 < 2 ^ 64 = rw e at h in omega arith

last_group :
    (i w x : ℕ) (rest : List ℕ)
    → i ≤ 9
    → w < 128
    → x + w * 2 ^ (7 * i) < 2 ^ 64
    → read_uvarint_from i x (7 * i) (w ∷ rest) ≡ some (x + w * 2 ^ (7 * i), rest)
unfolding read_uvarint_from
last_group i w x rest hi hw fits = ground (arith, top_byte i x w)

inner_group :
    (i g x : ℕ) (rest : List ℕ)
    → i ≤ 8
    → g < 128
    → read_uvarint_from i x (7 * i) ((g + 128) ∷ rest)
      ≡ read_uvarint_from (i + 1) (x + g * 2 ^ (7 * i)) (7 * (i + 1)) rest
unfolding read_uvarint_from
inner_group i g x rest hi hg =
    let low : bit_and (g + 128) 0x7f ≡ g = and_0x7f (g + 128) (omega arith) ∙ omega arith in
    let shift : 7 * i + 7 ≡ 7 * (i + 1) = omega arith in ground (arith, low, shift)

read-groups :
    (k i w x : ℕ) (rest : List ℕ)
    → i + k ≡ 9
    → w < 128 ^ suc k
    → x + w * 2 ^ (7 * i) < 2 ^ 64
    → read_uvarint_from i x (7 * i) (groups k w ++ rest) ≡ some (x + w * 2 ^ (7 * i), rest)
unfolding groups
read-groups zero i w x rest e hw fits = last_group i w x rest (omega arith) (omega arith) fits
read-groups (suc k) i w x rest e hw fits =
    let shift : 7 * i + 7 ≡ 7 * (i + 1) = omega arith in
    let split : w * 2 ^ (7 * i) ≡ w % 128 * 2 ^ (7 * i) + w / 128 * 2 ^ (7 * (i + 1)) =
      rw shift at (split_groups w (7 * i)) in
    ground (
      arith,
      last_group i w x rest,
      split,
      inner_group i (w % 128) x (groups k (w / 128) ++ rest),
      read-groups k (i + 1) (w / 128) (x + w % 128 * 2 ^ (7 * i)) rest (omega arith) (omega arith),
    )

pub read-groups_nine :
    (v : ℕ) (rest : List ℕ) → v < 2 ^ 64 → read_uvarint (groups 9 v ++ rest) ≡ some (v, rest)
unfolding read_uvarint
read-groups_nine v rest h = ground (arith, read-groups 9 0 v 0 rest)

-- A uint64 that is written is read back, with the bytes that follow it left over.
pub read_uvarint-uvarint :
    (v : ℕ) (rest : List ℕ) → v < 2 ^ 64 → read_uvarint (uvarint v [] ++ rest) ≡ some (v, rest)
read_uvarint-uvarint v rest h = rw (uvarint-groups v [] h) (read-groups_nine v rest h)

length-groups : (k v : ℕ) → (1 ≤ length (groups k v)) × (length (groups k v) ≤ k + 1)
unfolding groups
length-groups zero v = omega arith
length-groups (suc k) v = ground (arith, length-groups k (v / 128))

groups-IsByte : (k v : ℕ) → v < 128 ^ suc k → All IsByte (groups k v)
unfolding groups
groups-IsByte zero v h = omega arith
groups-IsByte (suc k) v h = ground (arith, groups-IsByte k (v / 128) (omega arith))

-- `uvarint` writes a uint64 in 1 to 10 elements, each a byte.
pub uvarint_shape :
    (v : ℕ)
    → v < 2 ^ 64
    → All IsByte (uvarint v []) × (1 ≤ length (uvarint v [])) × (length (uvarint v []) ≤ 10)
uvarint_shape v h =
    let (lo, hi) = length-groups 9 v in
    rw (uvarint-groups v [] h) (groups-IsByte 9 v (omega arith), lo, hi)

-- What a read takes: at least one byte.
read_from_shorter :
    (i x s : ℕ) (bs : List ℕ) (v : ℕ) (rest : List ℕ)
    → read_uvarint_from i x s bs ≡ some (v, rest)
    → length rest < length bs
unfolding read_uvarint_from
read_from_shorter i x s [] v rest e = cc
read_from_shorter i x s (b ∷ bs) v rest e =
    ground (arith, read_from_shorter (i + 1) (x + bit_and b 0x7f * 2 ^ s) (s + 7) bs v rest)

pub read_uvarint_shorter :
    (bs : List ℕ) (v : ℕ) (rest : List ℕ)
    → read_uvarint bs ≡ some (v, rest)
    → length rest < length bs
unfolding read_uvarint
read_uvarint_shorter bs v rest e = read_from_shorter 0 0 0 bs v rest e
