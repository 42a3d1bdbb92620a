-- ===== src/Esphome/Commands/Media.antt =====
-- internal/esphome/server.go: a media command that is written as the protocol has it is read back.
use overdub.Base.{
  ℕ, true, false, List, [], ◌∷◌, ◌==◌, ◌^◌, ◌≡◌, ◌≤◌, ◌<◌, length, arith, ◌∙◌, if◌then◌else◌, All,
  map, if_case,
}
use overdub.Esphome.Proto.RoundTrip.{
  Field, as_u32, as_boolean, as_str, as_fixed32, as_float, IsField, write_all, visited,
  pb_walk-write_all,
}
use overdub.Esphome.Commands.{
  parsed, MediaWish, plays, sets_volume, mutes, steps_up, steps_down, no_wish, media_field,
  media_wish, is_finite, fold_fields, ended, walk, wish_of, read_media, no_command,
}

-- The fields of a wish. A volume of 0 is left out.
unfoldable pub fields_of : ℕ → MediaWish → List Field
fields_of key (plays url announcement) =
    as_fixed32 1 key ∷ as_boolean 6 true ∷ as_str 7 url ∷ as_boolean 9 announcement ∷ []
fields_of key (sets_volume bits) =
    if bits == 0
    then as_fixed32 1 key ∷ as_boolean 4 true ∷ []
    else as_fixed32 1 key ∷ as_boolean 4 true ∷ as_float 5 bits ∷ []
fields_of key (mutes on) =
    as_fixed32 1 key ∷ as_boolean 2 true ∷ as_u32 3 (if on then 3 else 4) ∷ []
fields_of key steps_up = as_fixed32 1 key ∷ as_boolean 2 true ∷ as_u32 3 6 ∷ []
fields_of key steps_down = as_fixed32 1 key ∷ as_boolean 2 true ∷ as_u32 3 7 ∷ []
fields_of key no_wish = as_fixed32 1 key ∷ []

-- What can be written: a text that is not empty, and a finite float32.
unfoldable pub IsWish : MediaWish → Type 0
unfolding is_finite
IsWish (plays url announcement) = (1 ≤ length url) × (length url < 2 ^ 64)
IsWish (sets_volume bits) = (bits < 2 ^ 32) × (is_finite bits ≡ true)
IsWish (mutes on) = Unit
IsWish steps_up = Unit
IsWish steps_down = Unit
IsWish no_wish = Unit

fields_of-IsField :
    (key : ℕ) (w : MediaWish) → key < 2 ^ 32 → IsWish w → All IsField (fields_of key w)
unfolding fields_of IsWish
fields_of-IsField key (plays url a) k h =
    ((omega arith, k), (omega arith, ((omega arith, h.1), (omega arith, tt))))
fields_of-IsField key (sets_volume bits) k h =
    if_case (All IsField) (bits == 0) (as_fixed32 1 key ∷ as_boolean 4 true ∷ [])
      (as_fixed32 1 key ∷ as_boolean 4 true ∷ as_float 5 bits ∷ [])
      (λ _. ((omega arith, k), (omega arith, tt)))
      (λ _. ((omega arith, k), (omega arith, ((omega arith, h.0), tt))))
fields_of-IsField key (mutes true) k h =
    ((omega arith, k), (omega arith, ((omega arith, omega arith), tt)))
fields_of-IsField key (mutes false) k h =
    ((omega arith, k), (omega arith, ((omega arith, omega arith), tt)))
fields_of-IsField key steps_up k h =
    ((omega arith, k), (omega arith, ((omega arith, omega arith), tt)))
fields_of-IsField key steps_down k h =
    ((omega arith, k), (omega arith, ((omega arith, omega arith), tt)))
fields_of-IsField key no_wish k h = ((omega arith, k), tt)

folds :
    (key : ℕ) (w : MediaWish)
    → key < 2 ^ 32
    → IsWish w
    → media_wish key (fold_fields media_field (map visited (fields_of key w)) no_command) ≡ w
unfolding fields_of IsWish fold_fields media_field media_wish no_command
folds key (plays [] a) k h = ground arith
folds key (plays (b ∷ bs) a) k h = ground arith
folds key (sets_volume bits) k h = ground arith
folds key (mutes true) k h = ground arith
folds key (mutes false) k h = ground arith
folds key steps_up k h = ground arith
folds key steps_down k h = ground arith
folds key no_wish k h = ground arith

-- A wish that is written as the protocol has it, with a volume of 0 left out, is read back as that wish:
-- for the key of the player, a URL that is not empty, and a finite volume.
pub read_media-write_all :
    (key : ℕ) (w : MediaWish)
    → key < 2 ^ 32
    → IsWish w
    → read_media key (write_all (fields_of key w) []) ≡ parsed w
unfolding read_media walk ended wish_of
read_media-write_all key w k h =
    let fields = fields_of key w in
    (λ i.
      let (fs, end) = pb_walk-write_all fields (fields_of-IsField key w k h) i in
      wish_of key (ended end (fold_fields media_field fs no_command)))
    ∙ (λ i. parsed (folds key w k h i))
