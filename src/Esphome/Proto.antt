-- ===== src/Esphome/Proto.antt =====
-- internal/esphome/proto.go: protocol buffer fields in bytes, and the walk over a message.
-- A byte slice is a list of numbers; a uint64 is a number below 2^64.
pub mod Varint
pub mod Walk
pub mod RoundTrip
mod Examples
use Prim.Native.Nat.{bit_or, bit_and}
use mathlib.Core.Logic.{dite}
use mathlib.Core.WellFounded.{Acc}
use native.Mathlib.Decide.{dec_le}
use overdub.Base.{
  ℕ, zero, suc, ◌+◌, ◌-◌, ◌*◌, ◌/◌, ◌%◌, ◌^◌, ◌≤◌, ◌<◌, Bool, true, false, Option, none, some, List,
  [], ◌∷◌, ◌++◌, ◌&&◌, length, take, drop, ltb, leb, ◌==◌, if◌then◌else◌, arith,
}
use overdub.Base.Bytes.{le_bytes, le_number}
use overdub.Base.Order.{lt_wf}

abbrev pub wire_varint : ℕ
wire_varint = 0

abbrev pub wire_fixed32 : ℕ
wire_fixed32 = 5

abbrev pub wire_bytes : ℕ
wire_bytes = 2

pub shift_falls : (v : ℕ) → 0x80 ≤ v → v / 128 < v
shift_falls v h = omega arith

-- `for v >= 0x80 { append(byte(v)|0x80); v >>= 7 }`, and the last byte.
unfoldable pub uvarint_loop : List ℕ → (v : ℕ) → Acc ◌<◌ v → List ℕ
uvarint_loop b v (Acc.intro _ smaller) =
    dite (dec_le 0x80 v)
      (λ more.
        uvarint_loop (b ++ (bit_or (v % 256) 0x80 ∷ [])) (v / 128) (smaller _ (shift_falls v more)))
      (λ _. b ++ ((v % 256) ∷ []))

-- The writers append to the buffer `b` of the struct `pb`.
unfoldable pub uvarint : ℕ → List ℕ → List ℕ
unfolding uvarint_loop lt_wf dec_le
uvarint v b = uvarint_loop b v (lt_wf.apply v)

-- The wire type is below 8, so `|` adds it to the shifted field number.
unfoldable pub tag : ℕ → ℕ → List ℕ → List ℕ
tag field wire b = uvarint (bit_or (field * 8 % 2 ^ 64) wire) b

unfoldable pub u32 : ℕ → ℕ → List ℕ → List ℕ
u32 field v b = uvarint v (tag field wire_varint b)

unfoldable pub boolean : ℕ → Bool → List ℕ → List ℕ
boolean field v b = uvarint (if v then 1 else 0) (tag field wire_varint b)

unfoldable pub str : ℕ → List ℕ → List ℕ → List ℕ
str field s b = uvarint (length s) (tag field wire_bytes b) ++ s

unfoldable pub sub : ℕ → List ℕ → List ℕ → List ℕ
sub field msg b = uvarint (length msg) (tag field wire_bytes b) ++ msg

unfoldable pub fixed32 : ℕ → ℕ → List ℕ → List ℕ
fixed32 field v b = tag field wire_fixed32 b ++ le_bytes 4 v

-- A float32 is its bits, which is what `math.Float32bits` gives.
unfoldable pub float : ℕ → ℕ → List ℕ → List ℕ
unfolding fixed32
float field bits b = fixed32 field bits b

pub record PbField : Type 0 where
  pub field : ℕ
  pub wire : ℕ
  pub num : ℕ
  pub bytes : List ℕ

-- The standard library's `binary.Uvarint`, which reads at most ten bytes: the number and the bytes
-- that follow, or `none` where Go's count is not positive. `x` is what is read so far, and byte `i`
-- counts from bit `s` on, so `|` adds its seven bits.
unfoldable pub read_uvarint_from : ℕ → ℕ → ℕ → List ℕ → Option (ℕ × List ℕ)
read_uvarint_from i x s [] = none
read_uvarint_from i x s (b ∷ bs) =
    let more = read_uvarint_from (i + 1) (x + bit_and b 0x7f * 2 ^ s) (s + 7) bs in
    if i == 10
    then none
    else if ltb b 0x80
    then if i == 9 && ltb 1 b then none else some (x + b * 2 ^ s, bs)
    else more

unfoldable pub read_uvarint : List ℕ → Option (ℕ × List ℕ)
unfolding read_uvarint_from
read_uvarint bs = read_uvarint_from 0 0 0 bs

pub data Error : Type 0 where
  bad_tag : Error
  field_out_of_range : Error
  bad_varint : ℕ → Error
  short_fixed32 : ℕ → Error
  short_bytes : ℕ → Error
  short_fixed64 : ℕ → Error
  unsupported_wire : ℕ → ℕ → Error

-- The outcome of reading one field: the field and the bytes that follow, or the error.
pub data Entry : Type 0 where
  entry : PbField → List ℕ → Entry
  refused : Error → Entry

read_varint : ℕ → List ℕ → Entry
read_varint f msg = elim (read_uvarint msg) [
  | none ↦ refused (bad_varint f)
  | some (v, rest) ↦ entry (record { field = f; wire = 0; num = v; bytes = [] }) rest
]

read_fixed32 : ℕ → List ℕ → Entry
read_fixed32 f msg =
    if ltb (length msg) 4
    then refused (short_fixed32 f)
    else entry (record { field = f; wire = 5; num = le_number (take 4 msg); bytes = [] })
        (drop 4 msg)

read_bytes : ℕ → List ℕ → Entry
read_bytes f msg = elim (read_uvarint msg) [
  | none ↦ refused (short_bytes f)
  | some (l, rest) ↦
      if ltb (length rest) l
      then refused (short_bytes f)
      else entry (record { field = f; wire = 2; num = 0; bytes = take l rest }) (drop l rest)
]

read_fixed64 : ℕ → List ℕ → Entry
read_fixed64 f msg =
    if ltb (length msg) 8
    then refused (short_fixed64 f)
    else entry (record { field = f; wire = 1; num = le_number (take 8 msg); bytes = [] })
        (drop 8 msg)

-- The `switch entry.wire`.
unfoldable pub read_value : ℕ → ℕ → List ℕ → Entry
unfolding read_varint read_fixed32 read_bytes read_fixed64
read_value f wire msg =
    if wire == wire_varint
    then read_varint f msg
    else if wire == wire_fixed32
    then read_fixed32 f msg
    else if wire == wire_bytes
    then read_bytes f msg
    else if wire == 1
    then read_fixed64 f msg
    else refused (unsupported_wire f wire)

-- One round of `pbWalk` on a message that is not empty.
unfoldable pub read_field : List ℕ → Entry
read_field msg = elim (read_uvarint msg) [
  | none ↦ refused bad_tag
  | some (key, rest) ↦
      if ltb 0x1fffffff (key / 8)
      then refused field_out_of_range
      else read_value (key / 8) (key % 8) rest
]

-- How a walk ends. `stuck` is no outcome of the code: the fuel ran out.
pub data End : Type 0 where
  done : End
  failed : Error → End
  stuck : End

-- `pbWalk` with fuel: the fields handed to `visit`, and how it ended.
unfoldable pub walk_fuel : ℕ → List ℕ → List PbField × End
walk_fuel n [] = ([], done)
walk_fuel zero (b ∷ bs) = ([], stuck)
walk_fuel (suc n) (b ∷ bs) = elim (read_field (b ∷ bs)) [
  | refused e ↦ ([], failed e)
  | entry f rest ↦ let (fs, end) = walk_fuel n rest in (f ∷ fs, end)
]

-- Each round takes a byte at least, so the length of the message is fuel enough.
unfoldable pub pb_walk : List ℕ → List PbField × End
unfolding walk_fuel
pb_walk msg = walk_fuel (length msg) msg
