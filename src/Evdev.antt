-- ===== src/Evdev.antt =====
-- internal/evdev/evdev.go: the events of an input node, its key bitmap and the uinput device record.
-- A signed field is its bit pattern. The ioctls and files are not modelled.
pub mod Codec
pub mod Device
pub mod Bits
pub mod Bitmap
mod Examples
use overdub.Base.{
  ℕ, zero, suc, ◌+◌, ◌*◌, ◌/◌, ◌%◌, ◌^◌, ◌==◌, Bool, true, false, Option, none, some, List, [], ◌∷◌,
  ◌++◌, ◌&&◌, ◌||◌, length, take, get_or, replicate, if◌then◌else◌, not,
}
use overdub.Base.Bytes.{le_bytes, le_number, write_at, slice}
use Prim.Native.Nat.{bit_and}

pub record Event : Type 0 where
  pub sec : ℕ
  pub usec : ℕ
  pub kind : ℕ
  pub code : ℕ
  pub value : ℕ

abbrev pub event_size : ℕ
event_size = 16

unfoldable pub marshal : Event → List ℕ
marshal e = write_at 12 (le_bytes 4 e.value) (
    write_at 10 (le_bytes 2 e.code) (
      write_at 8 (le_bytes 2 e.kind)
        (write_at 4 (le_bytes 4 e.usec) (write_at 0 (le_bytes 4 e.sec) (replicate event_size 0)))))

unfoldable pub unmarshal : List ℕ → Event
unmarshal b = record {
  sec = le_number (slice 0 4 b);
  usec = le_number (slice 4 4 b);
  kind = le_number (slice 8 2 b);
  code = le_number (slice 10 2 b);
  value = le_number (slice 12 4 b);
}

pub record InputId : Type 0 where
  pub bus : ℕ
  pub vendor : ℕ
  pub product : ℕ
  pub version : ℕ

unfoldable pub id_from_bytes : List ℕ → InputId
id_from_bytes buf = record {
  bus = le_number (slice 0 2 buf);
  vendor = le_number (slice 2 2 buf);
  product = le_number (slice 4 2 buf);
  version = le_number (slice 6 2 buf);
}

-- The bit of the keycode `i`: `buf[i/8]&(1<<uint(i%8)) != 0`.
unfoldable pub key_bit : List ℕ → ℕ → Bool
key_bit buf i = not (bit_and (get_or buf (i / 8) 0) (2 ^ (i % 8)) == 0)

-- The loop of `keysFromBitmap` with `n` rounds left, at the keycode `i`.
unfoldable pub keys_from : List ℕ → ℕ → ℕ → List ℕ
keys_from buf zero i = []
keys_from buf (suc n) i =
    let rest = keys_from buf n (i + 1) in if key_bit buf i then (i % 2 ^ 16) ∷ rest else rest

unfoldable pub keys_from_bitmap : List ℕ → List ℕ
keys_from_bitmap buf = keys_from buf (length buf * 8) 0

abbrev pub dev_size : ℕ
dev_size = 80 + 8 + 4 + 4 * 64 * 4

-- `userDev`: the name cut to 79 bytes, and the four numbers of the id behind it.
unfoldable pub named : List ℕ → List ℕ
named name = write_at 0 (take 79 name) (replicate dev_size 0)

unfoldable pub put_id : InputId → List ℕ → List ℕ
put_id id buf = write_at 86 (le_bytes 2 id.version) (
    write_at 84 (le_bytes 2 id.product)
      (write_at 82 (le_bytes 2 id.vendor) (write_at 80 (le_bytes 2 id.bus) buf)))

unfoldable pub user_dev : List ℕ → InputId → List ℕ
user_dev name id = put_id id (named name)

-- The writes of `emit`: the key's event and, if the first write succeeds, the report after it.
-- The flags say what the two writes answer; the result is what was written and whether it all was.
unfoldable pub emit : ℕ → ℕ → Bool → Bool → List (List ℕ) × Bool
emit code value first second =
    let key = marshal (record { sec = 0; usec = 0; kind = 1; code = code; value = value }) in
    let report = marshal (record { sec = 0; usec = 0; kind = 0; code = 0; value = 0 }) in
    if first then (if second then (key ∷ report ∷ [], true) else (key ∷ [], false)) else ([], false)

abbrev pub key_volume_down : ℕ
key_volume_down = 114

abbrev pub key_volume_up : ℕ
key_volume_up = 115

pub contains : List ℕ → ℕ → Bool
contains [] k = false
contains (x ∷ xs) k = x == k || contains xs k

-- internal/button/mute.go, `volumeKeysOn`: the first wanted key that the node does not declare.
unfoldable pub volume_keys_on : List ℕ → Option ℕ
unfolding contains
volume_keys_on keys =
    if contains keys key_volume_up
    then if contains keys key_volume_down then none else some key_volume_down
    else some key_volume_up

-- `waitForVolumeKey` over the events that the node delivers: the events left after the press that
-- ends the wait, or `none` if the reading fails first.
unfoldable pub wait_for_volume_key : List Event → Option (List Event)
wait_for_volume_key [] = none
wait_for_volume_key (e ∷ es) =
    let rest = wait_for_volume_key es in
    if not (e.kind == 1) || not (e.value == 1)
    then rest
    else if e.code == key_volume_up || e.code == key_volume_down
    then some es
    else rest
