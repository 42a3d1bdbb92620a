-- ===== src/Evdev/Examples.antt =====
-- Runs of internal/evdev/evdev.go and internal/button/mute.go, and their theorems at concrete inputs.
use overdub.Base.{◌≡◌, refl, true, false, [], ◌∷◌, arith, length, get_or, drop}
use overdub.Evdev.{
  Event, event_size, marshal, unmarshal, InputId, id_from_bytes, user_dev, contains, key_bit,
  keys_from, keys_from_bitmap, emit,
}
use overdub.Evdev.Codec.{unmarshal-marshal}
use overdub.Evdev.Device.{user_dev_layout}
use overdub.Evdev.Bits.{bit_at, bits_of}
use overdub.Evdev.Bitmap.{contains-keys_from_bitmap}
use overdub.Base.Text.{codes}

abbrev press_138 : Event
press_138 = record { sec = 7; usec = 300; kind = 1; code = 138; value = 1 }

abbrev volume_up : Event
volume_up = record { sec = 7; usec = 300; kind = 1; code = 115; value = 1 }

press_138_bytes :
    marshal press_138 ≡ 7 ∷ 0 ∷ 0 ∷ 0 ∷ 44 ∷ 1 ∷ 0 ∷ 0 ∷ 1 ∷ 0 ∷ 138 ∷ 0 ∷ 1 ∷ 0 ∷ 0 ∷ 0 ∷ []
unfolding marshal
press_138_bytes = refl

bitmap_keys : keys_from_bitmap (2 ∷ 128 ∷ []) ≡ 1 ∷ 15 ∷ []
unfolding keys_from_bitmap keys_from key_bit
bitmap_keys = refl

emit_stops : (emit 138 1 false true).1 ≡ false
unfolding emit
emit_stops = refl

unmarshal-marshal_example :
    (unmarshal (marshal press_138) ≡ press_138) × (length (marshal press_138) ≡ event_size)
unmarshal-marshal_example = unmarshal-marshal press_138 (omega arith)

abbrev keypad : InputId
keypad = record { bus = 25; vendor = 1; product = 2; version = 256 }

user_dev_layout_example :
    (length (user_dev (codes "overdub") keypad) ≡ 1116)
    × (get_or (user_dev (codes "overdub") keypad) 79 0 ≡ 0)
    × (id_from_bytes (drop 80 (user_dev (codes "overdub") keypad)) ≡ keypad)
user_dev_layout_example =
    user_dev_layout (codes "overdub") keypad (omega arith) (omega arith) (omega arith) (omega arith)

contains-keys_from_bitmap_example :
    contains (keys_from_bitmap (2 ∷ 128 ∷ [])) 15 ≡ bit_at (bits_of (2 ∷ 128 ∷ [])) 15
contains-keys_from_bitmap_example =
    contains-keys_from_bitmap (2 ∷ 128 ∷ []) 15 (omega arith) (omega arith, (omega arith, tt))
