-- ===== src/Esphome/Proto/RoundTrip.antt =====
-- internal/esphome/proto.go: `pbWalk` visits the fields that the writers wrote.
use mathlib.Core.List.{append_assoc, append-nil}
use overdub.Base.{
  ℕ, ◌+◌, ◌*◌, ◌/◌, ◌%◌, ◌^◌, ◌≤◌, ◌<◌, ◌≡◌, refl, sym, ◌∙◌, Bool, true, false, List, [], ◌∷◌, ◌++◌,
  map, length, All, if◌then◌else◌, arith, length-append, take_append_length, drop_append_length,
}
use overdub.Base.Bits.{bit_or_shift3}
use overdub.Base.Bytes.{le_bytes, le_number-le_bytes}
use overdub.Esphome.Proto.{
  tag, u32, boolean, str, sub, fixed32, float, PbField, entry, read_varint, read_fixed32,
  read_bytes, read_value, read_field, done, pb_walk, wire_varint, wire_bytes, walk_fuel,
}
use overdub.Esphome.Proto.Varint.{groups, uvarint-groups, read-groups_nine}
use overdub.Esphome.Proto.Walk.{pb_walk_step}

-- What a caller writes: one call of a writer.
pub data Field : Type 0 where
  as_u32 : ℕ → ℕ → Field
  as_boolean : ℕ → Bool → Field
  as_str : ℕ → List ℕ → Field
  as_sub : ℕ → List ℕ → Field
  as_fixed32 : ℕ → ℕ → Field
  as_float : ℕ → ℕ → Field

pub write : Field → List ℕ → List ℕ
write (as_u32 f v) b = u32 f v b
write (as_boolean f v) b = boolean f v b
write (as_str f s) b = str f s b
write (as_sub f msg) b = sub f msg b
write (as_fixed32 f v) b = fixed32 f v b
write (as_float f bits) b = float f bits b

pub write_all : List Field → List ℕ → List ℕ
write_all [] b = b
write_all (f ∷ fs) b = write_all fs (write f b)

-- What the walk is to visit for it.
abbrev pub visited : Field → PbField
visited (as_u32 f v) = record { field = f; wire = 0; num = v; bytes = [] }
visited (as_boolean f v) = record { field = f; wire = 0; num = if v then 1 else 0; bytes = [] }
visited (as_str f s) = record { field = f; wire = 2; num = 0; bytes = s }
visited (as_sub f msg) = record { field = f; wire = 2; num = 0; bytes = msg }
visited (as_fixed32 f v) = record { field = f; wire = 5; num = v; bytes = [] }
visited (as_float f bits) = record { field = f; wire = 5; num = bits; bytes = [] }

-- Field numbers are the protocol's, numbers are uint32s, and slices are addressable.
abbrev pub IsField : Field → Type 0
IsField (as_u32 f v) = (f ≤ 0x1fffffff) × (v < 2 ^ 32)
IsField (as_boolean f v) = f ≤ 0x1fffffff
IsField (as_str f s) = (f ≤ 0x1fffffff) × (length s < 2 ^ 64)
IsField (as_sub f msg) = (f ≤ 0x1fffffff) × (length msg < 2 ^ 64)
IsField (as_fixed32 f v) = (f ≤ 0x1fffffff) × (v < 2 ^ 32)
IsField (as_float f bits) = (f ≤ 0x1fffffff) × (bits < 2 ^ 32)

tag-groups :
    (f wire : ℕ) (b : List ℕ)
    → f ≤ 0x1fffffff
    → wire < 8
    → tag f wire b ≡ b ++ groups 9 (f * 8 + wire)
unfolding tag
tag-groups f wire b hf hw =
    let fits : f * 8 % 2 ^ 64 ≡ f * 8 = omega arith in
    rw fits (rw (bit_or_shift3 f wire hw) (uvarint-groups (f * 8 + wire) b (omega arith)))

-- The bytes of a field: its tag and its value.
payload : Field → List ℕ
payload (as_u32 f v) = groups 9 (f * 8 + 0) ++ groups 9 v
payload (as_boolean f v) = groups 9 (f * 8 + 0) ++ groups 9 (if v then 1 else 0)
payload (as_str f s) = groups 9 (f * 8 + 2) ++ (groups 9 (length s) ++ s)
payload (as_sub f msg) = groups 9 (f * 8 + 2) ++ (groups 9 (length msg) ++ msg)
payload (as_fixed32 f v) = groups 9 (f * 8 + 5) ++ le_bytes 4 v
payload (as_float f bits) = groups 9 (f * 8 + 5) ++ le_bytes 4 bits

bit-lt : (v : Bool) → (if v then 1 else 0) < 2 ^ 64
bit-lt true = omega arith
bit-lt false = omega arith

write-payload : (f : Field) (b : List ℕ) → IsField f → write f b ≡ b ++ payload f
unfolding write payload u32 boolean str sub fixed32 float
write-payload (as_u32 f v) b (hf, hv) =
    uvarint-groups v (tag f wire_varint b) (omega arith)
    ∙ rw (tag-groups f 0 b hf (omega arith)) (append_assoc b _ _)
write-payload (as_boolean f v) b hf =
    uvarint-groups (if v then 1 else 0) (tag f wire_varint b) (bit-lt v)
    ∙ rw (tag-groups f 0 b hf (omega arith)) (append_assoc b _ _)
write-payload (as_str f s) b (hf, hs) =
    rw (uvarint-groups (length s) (tag f wire_bytes b) hs)
      (rw (tag-groups f 2 b hf (omega arith)) (simp append_assoc))
write-payload (as_sub f msg) b (hf, hs) =
    rw (uvarint-groups (length msg) (tag f wire_bytes b) hs)
      (rw (tag-groups f 2 b hf (omega arith)) (simp append_assoc))
write-payload (as_fixed32 f v) b (hf, hv) =
    rw (tag-groups f 5 b hf (omega arith)) (append_assoc b _ _)
write-payload (as_float f v) b (hf, hv) =
    rw (tag-groups f 5 b hf (omega arith)) (append_assoc b _ _)

module _ (f v : ℕ) (rest : List ℕ) where
  read_varint-groups :
      v < 2 ^ 64
      → read_varint f (groups 9 v ++ rest)
        ≡ entry (record { field = f; wire = 0; num = v; bytes = [] }) rest
  unfolding read_varint
  read_varint-groups h = rw (read-groups_nine v rest h, read_varint)

  read_fixed32-le_bytes :
      v < 2 ^ 32
      → read_fixed32 f (le_bytes 4 v ++ rest)
        ≡ entry (record { field = f; wire = 5; num = v; bytes = [] }) rest
  unfolding read_fixed32
  read_fixed32-le_bytes h = rw (le_number-le_bytes 4 v h) (ground arith)

read_bytes-groups :
    (f : ℕ) (s rest : List ℕ)
    → length s < 2 ^ 64
    → read_bytes f (groups 9 (length s) ++ (s ++ rest))
      ≡ entry (record { field = f; wire = 2; num = 0; bytes = s }) rest
unfolding read_bytes
read_bytes-groups f s rest h =
    rw (read-groups_nine (length s) (s ++ rest) h, read_bytes)
      (ground (
        arith,
        length-append s rest,
        take_append_length s rest (length s) refl,
        drop_append_length s rest (length s) refl,
      ))

read_tag :
    (f wire : ℕ) (rest : List ℕ)
    → f ≤ 0x1fffffff
    → wire < 8
    → read_field (groups 9 (f * 8 + wire) ++ rest) ≡ read_value f wire rest
unfolding read_field
read_tag f wire rest hf hw =
    let number : (f * 8 + wire) / 8 ≡ f = omega arith in
    let kind : (f * 8 + wire) % 8 ≡ wire = omega arith in
    rw (read-groups_nine (f * 8 + wire) rest (omega arith), read_field)
      (rw number (rw kind (ground arith)))

read_field-payload :
    (f : Field) (rest : List ℕ)
    → IsField f
    → read_field (payload f ++ rest) ≡ entry (visited f) rest
unfolding payload
read_field-payload (as_u32 f v) rest (hf, hv) = rw append_assoc (
    read_tag f 0 (groups 9 v ++ rest) hf (omega arith)
    ∙ unfold read_value in read_varint-groups f v rest (omega arith))
read_field-payload (as_boolean f v) rest hf = rw append_assoc (
    read_tag f 0 (groups 9 (if v then 1 else 0) ++ rest) hf (omega arith)
    ∙ unfold read_value in read_varint-groups f (if v then 1 else 0) rest (bit-lt v))
read_field-payload (as_str f s) rest (hf, hs) = simp append_assoc (
    read_tag f 2 (groups 9 (length s) ++ (s ++ rest)) hf (omega arith)
    ∙ unfold read_value in read_bytes-groups f s rest hs)
read_field-payload (as_sub f s) rest (hf, hs) = simp append_assoc (
    read_tag f 2 (groups 9 (length s) ++ (s ++ rest)) hf (omega arith)
    ∙ unfold read_value in read_bytes-groups f s rest hs)
read_field-payload (as_fixed32 f v) rest (hf, hv) = rw append_assoc (
    read_tag f 5 (le_bytes 4 v ++ rest) hf (omega arith)
    ∙ unfold read_value in read_fixed32-le_bytes f v rest hv)
read_field-payload (as_float f v) rest (hf, hv) = rw append_assoc (
    read_tag f 5 (le_bytes 4 v ++ rest) hf (omega arith)
    ∙ unfold read_value in read_fixed32-le_bytes f v rest hv)

payloads : List Field → List ℕ
payloads [] = []
payloads (f ∷ fs) = payload f ++ payloads fs

write_all-payloads :
    (fs : List Field) (b : List ℕ) → All IsField fs → write_all fs b ≡ b ++ payloads fs
unfolding write_all payloads
write_all-payloads [] b h = sym (append-nil b)
write_all-payloads (f ∷ fs) b (hf, hs) =
    write_all-payloads fs (write f b) hs ∙ rw (write-payload f b hf) (append_assoc b _ _)

pb_walk-payloads :
    (fs : List Field) → All IsField fs → pb_walk (payloads fs) ≡ (map visited fs, done)
unfolding payloads
pb_walk-payloads [] h = unfold pb_walk walk_fuel in refl
pb_walk-payloads (f ∷ fs) (hf, hs) =
    pb_walk_step (payload f ++ payloads fs) (visited f) (payloads fs)
      (read_field-payload f (payloads fs) hf)
    ∙ rw (pb_walk-payloads fs hs) refl

-- The walk over what the writers wrote visits each field, in order and with its value, and ends
-- with no error: for field numbers of the protocol, uint32 values and slices below 2^64 bytes.
pub pb_walk-write_all :
    (fs : List Field) → All IsField fs → pb_walk (write_all fs []) ≡ (map visited fs, done)
pb_walk-write_all fs h = rw (write_all-payloads fs [] h) (pb_walk-payloads fs h)
