-- ===== src/Sendspin/Stream.antt =====
-- internal/sendspin/stream.go, command.go, hello.go and chunk.go: what a session does with the
-- server's messages. A payload is what `json.Unmarshal` makes of it, `none` where that fails; a text
-- is the list of its bytes. Decoding base64 and FLAC are parameters.
pub mod Invariant
pub mod Chunks
mod Examples
use overdub.Base.{
  ℕ, zero, suc, ◌+◌, ◌-◌, ◌*◌, ◌/◌, ◌%◌, ◌^◌, Bool, true, false, Option, none, some, List, [], ◌∷◌,
  ◌++◌, ◌&&◌, ◌||◌, not, length, take, drop, ltb, leb, ◌==◌, if◌then◌else◌, ◌⊎◌, inl, inr,
}
use overdub.Base.Int.{ℤ, pos, negsuc, min_ℤ, max_ℤ, leb_ℤ, eqb_ℤ}
use overdub.Base.Bytes.{be_number, slice}
use overdub.Base.Text.{codes, bytes_eq, contains}
use overdub.Sendspin.Activate.{
  Category, ServerActivate, Decision, Goodbye, goodbye, pair_abort, roles_are, decide_activate,
}

abbrev pub stream_channels : ℕ
stream_channels = 2

abbrev pub stream_bit_depth : ℕ
stream_bit_depth = 16

abbrev pub stream_rate : ℕ
stream_rate = 48000

abbrev pub bluetooth_rate : ℕ
bluetooth_rate = 44100

abbrev pub frame_bytes : ℕ
frame_bytes = stream_channels * stream_bit_depth / 8

abbrev pub codec_pcm : List ℕ
codec_pcm = codes "pcm"

abbrev pub codec_flac : List ℕ
codec_flac = codes "flac"

abbrev pub family_player : List ℕ
family_player = codes "player"

pub record StreamPlayer : Type 0 where
  pub codec : List ℕ
  pub sample_rate : ℤ
  pub channels : ℤ
  pub bit_depth : ℤ
  pub codec_header : List ℕ

-- The part of a `Session` that these messages read and write.
pub record Session : Type 0 where
  pub matched : Category
  pub unpaired : Bool
  pub offered : List (List ℕ)
  pub roles : List (List ℕ)
  pub streaming : Bool
  pub flac : Bool
  pub rate : ℤ

unfoldable pub playable_rate : ℤ → Bool
playable_rate r = eqb_ℤ r (pos stream_rate) || eqb_ℤ r (pos bluetooth_rate)

-- `family`: the role up to its first `@`.
unfoldable pub family : List ℕ → List ℕ
family [] = []
family (c ∷ cs) = let rest = family cs in if c == b'@' then [] else c ∷ rest

unfoldable pub holds_player : List (List ℕ) → Bool
holds_player [] = false
holds_player (r ∷ rs) = bytes_eq (family r) family_player || holds_player rs

unfoldable pub names_player : Option (List (List ℕ)) → Bool
names_player none = true
names_player (some roles) = holds_player roles

-- `flacHeaderPlayable`, on the header that base64 gives. The STREAMINFO block alone is 34 bytes; after
-- the magic it has a head of 4 bytes.
unfoldable pub packed_playable : ℤ → List ℕ → Bool
packed_playable rate header =
    let packed = be_number (slice 10 8 header) in
    eqb_ℤ (pos (packed / 2 ^ 44)) rate
    && (packed / 2 ^ 41 % 8 + 1 == stream_channels
        && (packed / 2 ^ 36 % 32 + 1 == stream_bit_depth))

unfoldable pub flac_block_playable : ℤ → List ℕ → Bool
flac_block_playable rate block =
    if ltb (length block) 38
      || (not (be_number (slice 0 1 block) % 128 == 0) || not (be_number (slice 1 3 block) == 34))
    then false
    else packed_playable rate (slice 4 34 block)

unfoldable pub flac_header_playable : (List ℕ → Option (List ℕ)) → List ℕ → ℤ → Bool
flac_header_playable base64 encoded rate = elim (base64 encoded) [
  | none ↦ false
  | some header ↦
      if bytes_eq (take 4 header) (codes "fLaC")
      then flac_block_playable rate (drop 4 header)
      else if length header == 34
      then packed_playable rate header
      else false
]

unfoldable pub playable : (List ℕ → Option (List ℕ)) → StreamPlayer → Bool
playable base64 p =
    if not (playable_rate p.sample_rate)
      || (not (eqb_ℤ p.channels (pos stream_channels))
          || not (eqb_ℤ p.bit_depth (pos stream_bit_depth)))
    then false
    else if bytes_eq p.codec codec_pcm
    then true
    else if bytes_eq p.codec codec_flac
    then flac_header_playable base64 p.codec_header p.sample_rate
    else false

-- What a call answers: an error or a value. The session beside it is the one after the call.
pub data Answer (A : Type 0) : Type 0 where
  err : Answer A
  ok : A → Answer A

-- `StartStream`. The payload names a player, or none.
unfoldable pub start_stream :
    (List ℕ → Option (List ℕ))
    → Option (Option StreamPlayer)
    → Session
    → Session × Answer (Option StreamPlayer)
start_stream base64 none s = (s, err)
start_stream base64 (some none) s = (s, ok none)
start_stream base64 (some (some p)) s =
    if not (playable base64 p) || not (holds_player s.roles)
    then (record s { streaming = false }, ok (some p))
    else (
      record s { streaming = true; flac = bytes_eq p.codec codec_flac; rate = p.sample_rate },
      ok (some p),
    )

-- `EndStream`: whether it ended a stream. The payload names roles, or none.
unfoldable pub end_stream : Option (Option (List (List ℕ))) → Session → Session × Answer Bool
end_stream none s = (s, err)
end_stream (some roles) s =
    if not (names_player roles)
    then (s, ok false)
    else (record s { streaming = false }, ok s.streaming)

unfoldable pub clear_stream : Option (Option (List (List ℕ))) → Session → Answer Bool
clear_stream none s = err
clear_stream (some roles) s = ok (names_player roles && (holds_player s.roles && s.streaming))

-- What `Activate` sends or fails with besides the roles: the write of an abort may fail.
pub data Activated : Type 0 where
  refused : Goodbye → Activated
  aborted : Bool → Activated
  active : List (List ℕ) → Activated
  malformed : Activated

unfoldable pub activate : Bool → Option ServerActivate → Session → Session × Activated
activate writes none s = (s, malformed)
activate writes (some act) s = elim (decide_activate s.matched s.unpaired s.offered act s.roles) [
  | goodbye reason ↦ (s, refused reason)
  | pair_abort ↦ (s, aborted writes)
  | roles_are roles ↦
      let s' : Session = record s { roles = roles } in
      (if holds_player roles then s' else record s' { streaming = false }, active roles)
]

-- `server/command`, decoded.
pub record PlayerCommand : Type 0 where
  pub command : List ℕ
  pub static_delay_ms : Option ℤ
  pub volume : Option ℤ
  pub mute : Option Bool

-- What a command's reader answers: it is not this command, an error, or its value.
pub data Command (A : Type 0) : Type 0 where
  bad_payload not_ours role_not_held no_value : Command A
  ours : A → Command A

-- The steps that `Volume`, `StaticDelay` and `Mute` share: `name` is the command and `value` its field.
read_command :
    {A : Type 0}
    → List ℕ
    → (PlayerCommand → Option A)
    → Option (Option PlayerCommand)
    → Session
    → Command A
read_command name value none s = bad_payload
read_command name value (some none) s = not_ours
read_command name value (some (some c)) s =
    if not (bytes_eq c.command name)
    then not_ours
    else if not (holds_player s.roles)
    then role_not_held
    else elim (value c) [ none ↦ no_value | some v ↦ ours v ]

abbrev pub max_static_delay_ms : ℕ
max_static_delay_ms = 5000

unfoldable pub hold_delay_ms : ℤ → ℤ
hold_delay_ms ms = max_ℤ (pos 0) (min_ℤ ms (pos max_static_delay_ms))

unfoldable pub hold_volume : ℤ → ℤ
hold_volume percent = max_ℤ (pos 0) (min_ℤ percent (pos 100))

unfoldable pub volume_of : Option (Option PlayerCommand) → Session → Command ℤ
unfolding read_command
volume_of payload s = read_command (codes "volume") (λ c. c.volume) payload s

-- The delay that is held, in milliseconds, and the one that was asked for.
held_delay : Command ℤ → Command (ℤ × ℤ)
held_delay bad_payload = bad_payload
held_delay not_ours = not_ours
held_delay role_not_held = role_not_held
held_delay no_value = no_value
held_delay (ours asked) = ours (hold_delay_ms asked, asked)

unfoldable pub static_delay_of : Option (Option PlayerCommand) → Session → Command (ℤ × ℤ)
unfolding read_command held_delay
static_delay_of payload s =
    held_delay (read_command (codes "set_static_delay") (λ c. c.static_delay_ms) payload s)

unfoldable pub mute_of : Option (Option PlayerCommand) → Session → Command Bool
unfolding read_command
mute_of payload s = read_command (codes "mute") (λ c. c.mute) payload s

-- `audioChunk`, and what `AudioChunk` answers: nothing where no stream runs.
pub record AudioChunk : Type 0 where
  pub server_time : ℕ
  pub pcm : List ℕ

pub data ChunkError : Type 0 where
  too_short off_clock half_frame undecodable : ChunkError

pub data Chunk : Type 0 where
  no_stream : Chunk
  chunk_error : ChunkError → Chunk
  chunk : AudioChunk → Chunk

abbrev pub stamp_ceiling : ℕ
stamp_ceiling = 2 ^ 50

-- `chunkStamp`: the stamp is an int64, so one of 2^63 or more is negative and on no clock.
unfoldable pub chunk_stamp : List ℕ → ChunkError ⊎ ℕ
chunk_stamp body =
    if ltb (length body) 8
    then inl too_short
    else let stamp = be_number (take 8 body) in
      if leb stamp stamp_ceiling then inr stamp else inl off_clock

unfoldable pub parse_chunk : List ℕ → Chunk
parse_chunk body = elim (chunk_stamp body) [
  | inl e ↦ chunk_error e
  | inr stamp ↦
      if not (length (drop 8 body) % frame_bytes == 0)
      then chunk_error half_frame
      else chunk (record { server_time = stamp; pcm = drop 8 body })
]

module _ (decode_flac : List ℕ → ℤ → Option (List ℕ)) where
  unfoldable pub parse_flac_chunk : List ℕ → ℤ → Chunk
  parse_flac_chunk body rate = elim (chunk_stamp body) [
    | inl e ↦ chunk_error e
    | inr stamp ↦ elim (decode_flac (drop 8 body) rate) [
      | none ↦ chunk_error undecodable
      | some pcm ↦ chunk (record { server_time = stamp; pcm = pcm })
    ]
  ]

  unfoldable pub audio_chunk : List ℕ → Session → Chunk
  audio_chunk body s =
      if not s.streaming
      then no_stream
      else if s.flac
      then parse_flac_chunk body s.rate
      else parse_chunk body
