-- ===== src/Esphome/Commands.antt =====
-- internal/esphome/server.go: what the messages of Home Assistant ask for, as `handle` reads them.
pub mod Media
mod Examples
use overdub.Base.{
  ℕ, Bool, true, false, Option, none, some, List, [], ◌∷◌, ◌&&◌, ◌||◌, not, ◌==◌, ◌/◌, ◌%◌, ◌^◌,
  if◌then◌else◌,
}
use overdub.Esphome.Proto.{PbField, End, Error, done, failed, stuck, pb_walk, wire_fixed32}

-- A message that was read, or the error that ends the connection.
pub data Parsed (A : Type 0) : Type 0 where
  parsed : A → Parsed A
  malformed : Error → Parsed A
  endless : Parsed A

-- The callbacks of a walk, on what they set.
unfoldable pub fold_fields : {A : Type 0} → (PbField → A → A) → List PbField → A → A
fold_fields f [] a = a
fold_fields f (x ∷ xs) a = fold_fields f xs (f x a)

unfoldable pub ended : {A : Type 0} → End → A → Parsed A
ended done a = parsed a
ended (failed e) a = malformed e
ended stuck a = endless

-- `walk`; a walk always ends, so `endless` is no outcome.
unfoldable pub walk : {A : Type 0} → (PbField → A → A) → A → List ℕ → Parsed A
unfolding fold_fields ended
walk f a payload = let (fields, end) = pb_walk payload in ended end (fold_fields f fields a)

-- `uint32(f.num)`
unfoldable pub low32 : ℕ → ℕ
low32 n = n % 2 ^ 32

-- `f.num != 0`
unfoldable pub nonzero : ℕ → Bool
nonzero n = not (n == 0)

-- A key with a text, as of `TextCommandRequest` and `SelectCommandRequest`.
pub record KeyText : Type 0 where
  pub key : ℕ
  pub text : List ℕ

unfoldable pub key_text_field : PbField → KeyText → KeyText
unfolding low32
key_text_field f m =
    if f.field == 1
    then record m { key = low32 f.num }
    else if f.field == 2
    then record m { text = f.bytes }
    else m

unfoldable pub read_key_text : List ℕ → Parsed KeyText
unfolding walk key_text_field
read_key_text payload = walk key_text_field (record { key = 0; text = [] }) payload

-- `SwitchCommandRequest`
pub record KeySwitch : Type 0 where
  pub key : ℕ
  pub on : Bool

unfoldable pub key_switch_field : PbField → KeySwitch → KeySwitch
unfolding low32 nonzero
key_switch_field f m =
    if f.field == 1
    then record m { key = low32 f.num }
    else if f.field == 2
    then record m { on = nonzero f.num }
    else m

unfoldable pub read_key_switch : List ℕ → Parsed KeySwitch
unfolding walk key_switch_field
read_key_switch payload = walk key_switch_field (record { key = 0; on = false }) payload

-- `NumberCommandRequest`; the float32 is its bits.
pub record KeyNumber : Type 0 where
  pub key : ℕ
  pub want : ℕ
  pub saw_state : Bool
  pub is_float : Bool

unfoldable pub key_number_field : PbField → KeyNumber → KeyNumber
unfolding low32
key_number_field f m =
    if f.field == 1
    then record m { key = low32 f.num }
    else if f.field == 2
    then (if f.wire == wire_fixed32
        then record m { saw_state = true; is_float = true; want = low32 f.num }
        else record m { saw_state = true; is_float = false })
    else m

-- A state that is left out is 0.
unfoldable pub default_number : KeyNumber → KeyNumber
default_number m = if m.saw_state then m else record m { want = 0; is_float = true }

unfoldable pub read_key_number : List ℕ → Parsed KeyNumber
unfolding walk key_number_field
read_key_number payload =
    walk key_number_field (record { key = 0; want = 0; saw_state = false; is_float = false })
      payload

-- `isFinite`
unfoldable pub is_finite : ℕ → Bool
is_finite bits = not (bits / 2 ^ 23 % 2 ^ 8 == 255)

-- `MediaPlayerCommandRequest`
pub record MediaCommand : Type 0 where
  pub key : ℕ
  pub command : ℕ
  pub has_command : Bool
  pub has_volume : Bool
  pub saw_volume : Bool
  pub volume_is_float : Bool
  pub has_url : Bool
  pub announcement : Bool
  pub volume : ℕ
  pub url : List ℕ

unfoldable pub media_field : PbField → MediaCommand → MediaCommand
unfolding low32 nonzero
media_field f m =
    if f.field == 1
    then record m { key = low32 f.num }
    else if f.field == 2
    then record m { has_command = nonzero f.num }
    else if f.field == 3
    then record m { command = f.num }
    else if f.field == 4
    then record m { has_volume = nonzero f.num }
    else if f.field == 5
    then (if f.wire == wire_fixed32
        then record m { saw_volume = true; volume_is_float = true; volume = low32 f.num }
        else record m { saw_volume = true; volume_is_float = false })
    else if f.field == 6
    then record m { has_url = nonzero f.num }
    else if f.field == 7
    then record m { url = f.bytes }
    else if f.field == 9
    then record m { announcement = nonzero f.num }
    else m

-- What a media command asks for.
pub data MediaWish : Type 0 where
  plays : List ℕ → Bool → MediaWish
  sets_volume : ℕ → MediaWish
  mutes : Bool → MediaWish
  steps_up steps_down : MediaWish
  no_wish : MediaWish

unfoldable pub is_no_text : List ℕ → Bool
is_no_text [] = true
is_no_text (b ∷ bs) = false

-- A volume that is left out is 0.
unfoldable pub default_volume : MediaCommand → MediaCommand
default_volume m =
    if m.has_volume && not m.saw_volume then record m { volume = 0; volume_is_float = true } else m

unfoldable pub media_switch : MediaCommand → MediaWish
unfolding is_no_text is_finite
media_switch m =
    if m.has_url && not (is_no_text m.url)
    then plays m.url m.announcement
    else if m.has_volume && m.volume_is_float && is_finite m.volume
    then sets_volume m.volume
    else if m.has_command && m.command == 3
    then mutes true
    else if m.has_command && m.command == 4
    then mutes false
    else if m.has_command && m.command == 6
    then steps_up
    else if m.has_command && m.command == 7
    then steps_down
    else no_wish

unfoldable pub media_wish : ℕ → MediaCommand → MediaWish
unfolding default_volume media_switch
media_wish key_speaker m = if m.key == key_speaker then media_switch (default_volume m) else no_wish

unfoldable pub no_command : MediaCommand
no_command = record {
  key = 0;
  command = 0;
  has_command = false;
  has_volume = false;
  saw_volume = false;
  volume_is_float = false;
  has_url = false;
  announcement = false;
  volume = 0;
  url = [];
}

unfoldable pub wish_of : ℕ → Parsed MediaCommand → Parsed MediaWish
unfolding media_wish
wish_of key_speaker (parsed m) = parsed (media_wish key_speaker m)
wish_of key_speaker (malformed e) = malformed e
wish_of key_speaker endless = endless

unfoldable pub read_media : ℕ → List ℕ → Parsed MediaWish
unfolding wish_of walk media_field no_command
read_media key_speaker payload = wish_of key_speaker (walk media_field no_command payload)
