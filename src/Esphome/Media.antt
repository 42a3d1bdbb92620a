-- ===== src/Esphome/Media.antt =====
-- internal/esphome/media.go: the media player's volume, and the commands that wait for Alexa.
pub mod Queues
pub mod Volumes
mod Examples
use overdub.Base.{
  ℕ, Bool, true, false, Option, none, some, List, [], ◌∷◌, ◌++◌, ◌+◌, ◌&&◌, ◌||◌, not, leb, ltb,
  if◌then◌else◌, length,
}
use overdub.Base.Int.{ℤ, pos, ◌+ℤ◌, ltb_ℤ}
use overdub.Base.Strings.{trim}

pub data Route : Type 0 where
  speaker jack bluetooth : Route

-- `device.MusicVolume`; a level is a float32 by its bits.
pub record MusicVolume : Type 0 where
  pub max : ℤ
  pub muted : Bool
  pub speaker_level : ℕ
  pub speaker_step : ℤ
  pub speaker_ok : Bool
  pub jack_level : ℕ
  pub jack_step : ℤ
  pub jack_ok : Bool
  pub bluetooth_level : ℕ
  pub bluetooth_step : ℤ
  pub bluetooth_ok : Bool
  pub bluetooth_route : Bool
  pub bluetooth_route_ok : Bool

unfoldable pub media_state_for : Bool → ℕ
media_state_for playing = if playing then 2 else 1

unfoldable pub active_route : MusicVolume → Bool → Bool → Option Route
active_route v occupied jack_known =
    if not v.bluetooth_route_ok
    then none
    else if v.bluetooth_route
    then some bluetooth
    else if not jack_known
    then none
    else if occupied
    then some jack
    else some speaker

unfoldable pub volume_by_jack : MusicVolume → Bool → Bool → ℤ × ℕ × Bool
volume_by_jack v occupied jack_known =
    if not jack_known
    then (pos 0, 0, false)
    else if occupied
    then (v.jack_step, v.jack_level, v.jack_ok)
    else (v.speaker_step, v.speaker_level, v.speaker_ok)

unfoldable pub active_volume : MusicVolume → Bool → Bool → ℤ × ℕ × Bool
unfolding active_route volume_by_jack
active_volume v occupied jack_known = elim (active_route v occupied jack_known) [
  | none ↦ volume_by_jack v occupied jack_known
  | some route ↦ elim route [
    | bluetooth ↦ (v.bluetooth_step, v.bluetooth_level, v.bluetooth_ok)
    | speaker ↦ volume_by_jack v occupied jack_known
    | jack ↦ volume_by_jack v occupied jack_known
  ]
]

pub record VolumeWant : Type 0 where
  pub fraction : ℕ
  pub absolute : Bool
  pub steps : ℤ

-- The pending volume, whether there is one, and whether a worker runs.
pub record VolumeSlot : Type 0 where
  pub want : VolumeWant
  pub has_pending : Bool
  pub working : Bool

unfoldable pub merge_want : Bool → VolumeWant → VolumeWant → VolumeWant
merge_want has_pending was want =
    if has_pending && not want.absolute
    then record was { steps = was.steps +ℤ want.steps }
    else want

-- `queueVolumeLocked`; true starts the worker.
unfoldable pub queue_volume : VolumeWant → VolumeSlot → VolumeSlot × Bool
unfolding merge_want
queue_volume want s = (
  record { want = merge_want s.has_pending s.want want; has_pending = true; working = true },
  not s.working,
)

-- A turn of `volumeWorker`.
unfoldable pub take_volume : VolumeSlot → VolumeSlot × Option VolumeWant
take_volume s =
    if s.has_pending
    then (record s { has_pending = false }, some s.want)
    else (record s { working = false }, none)

-- `target`, where `scale` is the rounded part of the highest step that a fraction is.
unfoldable pub target : (ℕ → ℤ → ℤ) → VolumeWant → ℤ → ℤ → ℤ
target scale w step max = (if w.absolute then scale w.fraction max else step) +ℤ w.steps

unfoldable pub clamp_step : ℤ → ℤ → ℤ
clamp_step step max = if ltb_ℤ step (pos 0) then pos 0 else if ltb_ℤ max step then max else step

abbrev pub command_max_length : ℕ
command_max_length = 255

abbrev pub command_queue : ℕ
command_queue = 4

pub record CommandQueue : Type 0 where
  pub queue : List (List ℕ)
  pub working : Bool

-- `commandLocked`, with the number of runes of a text and whether there is a sender. The text that was
-- queued is told; a worker is started with it, if none runs.
unfoldable pub command_locked :
    (List ℕ → ℕ) → Bool → List ℕ → CommandQueue → CommandQueue × Option (List ℕ)
command_locked runes can_send text s =
    if ltb command_max_length (runes (trim text))
      || not can_send
      || leb command_queue (length s.queue)
    then (s, none)
    else (record { queue = s.queue ++ (trim text ∷ []); working = true }, some (trim text))

-- A turn of `commandWorker`.
unfoldable pub take_command : CommandQueue → CommandQueue × Option (List ℕ)
take_command s = elim s.queue [
  | [] ↦ (record { queue = []; working = false }, none)
  | text ∷ rest ↦ (record s { queue = rest }, some text)
]
