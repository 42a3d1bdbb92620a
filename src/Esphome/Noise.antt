-- ===== src/Esphome/Noise.antt =====
-- internal/esphome/noise.go: the frames of the encrypted connection. The cipher of the package noise is
-- an argument, with its nonce, which counts the frames; the handshake's state is too.
pub mod Stream
mod Examples
use overdub.Base.{
  ℕ, Bool, true, false, Option, none, some, List, [], ◌∷◌, ◌++◌, ◌+◌, ◌*◌, ◌/◌, ◌%◌, not, ◌==◌, ltb,
  if◌then◌else◌, length, take, drop,
}

abbrev pub lead_encrypted : ℕ
lead_encrypted = 1

abbrev pub max_handshake_frame : ℕ
max_handshake_frame = 128

abbrev pub max_data_frame : ℕ
max_data_frame = 32768

abbrev pub max_noise_message : ℕ
max_noise_message = 32748

-- The two bytes of a number, the high one first.
unfoldable pub two_bytes : ℕ → List ℕ
two_bytes n = n / 256 % 256 ∷ n % 256 ∷ []

unfoldable pub write_noise_frame : List ℕ → Option (List ℕ)
unfolding two_bytes
write_noise_frame payload =
    if ltb 65535 (length payload)
    then none
    else some (lead_encrypted ∷ two_bytes (length payload) ++ payload)

-- What a read of a frame comes to: a frame with what follows, the end of the stream between two frames,
-- or `errMidFrame`.
pub data NoiseFrame : Type 0 where
  frame_of : List ℕ → List ℕ → NoiseFrame
  no_frame : NoiseFrame
  mid_frame : NoiseFrame

unfoldable pub read_noise_frame : ℕ → List ℕ → NoiseFrame
read_noise_frame limit [] = no_frame
read_noise_frame limit (lead ∷ []) = mid_frame
read_noise_frame limit (lead ∷ high ∷ []) = mid_frame
read_noise_frame limit (lead ∷ high ∷ low ∷ rest) =
    let size = high * 256 + low in
    if not (lead == lead_encrypted)
    then mid_frame
    else if ltb limit size
    then mid_frame
    else if ltb (length rest) size
    then mid_frame
    else frame_of (take size rest) (drop size rest)

-- A message that was read, with its type and what follows, or why none was.
pub data NoiseMessage : Type 0 where
  message_of : ℕ → List ℕ → List ℕ → NoiseMessage
  no_message : NoiseMessage
  cut_off : NoiseMessage
  undecrypted : NoiseMessage
  too_short : NoiseMessage

unfoldable pub open_plain : List ℕ → List ℕ → NoiseMessage
open_plain (a ∷ b ∷ c ∷ d ∷ payload) rest = message_of (a * 256 + b) payload rest
open_plain (a ∷ b ∷ c ∷ []) rest = too_short
open_plain (a ∷ b ∷ []) rest = too_short
open_plain (a ∷ []) rest = too_short
open_plain [] rest = too_short

unfoldable pub seal_plain : ℕ → List ℕ → List ℕ
unfolding two_bytes
seal_plain kind payload = two_bytes kind ++ two_bytes (length payload) ++ payload

unfoldable pub open_decrypted : Option (List ℕ) → List ℕ → NoiseMessage
unfolding open_plain
open_decrypted none rest = undecrypted
open_decrypted (some plain) rest = open_plain plain rest

unfoldable pub open_frame : (List ℕ → Option (List ℕ)) → NoiseFrame → NoiseMessage
unfolding open_decrypted
open_frame decrypt (frame_of sealed rest) = open_decrypted (decrypt sealed) rest
open_frame decrypt no_frame = no_message
open_frame decrypt mid_frame = cut_off

-- `read`, with the count of the frames before.
unfoldable pub read : (ℕ → List ℕ → Option (List ℕ)) → ℕ → List ℕ → NoiseMessage
unfolding open_frame read_noise_frame
read decrypt n bytes = open_frame (decrypt n) (read_noise_frame max_data_frame bytes)

-- `write`: the bytes of the frame, if the message fits one.
unfoldable pub write : (ℕ → List ℕ → List ℕ) → ℕ → ℕ → List ℕ → Option (List ℕ)
unfolding write_noise_frame seal_plain
write encrypt n kind payload =
    if ltb max_noise_message (length payload)
    then none
    else write_noise_frame (encrypt n (seal_plain kind payload))
