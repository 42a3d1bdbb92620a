-- ===== src/Sendspin/Stream/Examples.antt =====
-- Runs of a session of internal/sendspin, and its theorems at concrete inputs.
use overdub.Base.{
  ◌↔◌, All, ℕ, ◌%◌, ◌^◌, ◌≤◌, ◌≡◌, refl, true, false, Option, none, some, List, [], ◌∷◌, ◌++◌,
  length, arith,
}
use overdub.Base.Int.{ℤ, pos}
use overdub.Base.Bytes.{be_bytes, IsByte}
use overdub.Base.Text.{codes, bytes_eq, contains}
use overdub.Sendspin.Activate.{
  sentinel, activity_playback, role_player_v1, ServerActivate, decide_activate, keep_supported,
  keep_supported_from, activities_allowed, playback_capable, allowed_activity_sets, any_same_set,
  same_set, sort, insert_sorted, lex_le, texts_eq, pairing_method_ok,
}
use overdub.Sendspin.Activate.Access.{may_play}
use overdub.Sendspin.Stream.{
  StreamPlayer, Session, codec_pcm, playable_rate, playable, family, holds_player, start_stream,
  activate, chunk, chunk_stamp, parse_chunk, audio_chunk, PlayerCommand,
}
use overdub.Sendspin.Stream.Invariant.{
  Message, stream_start, server_activate, take_message, take_all, audio_needs_key,
}
use overdub.Sendspin.Stream.Chunks.{parse_chunk_iff}

abbrev fresh : Session
fresh = record {
  matched = sentinel;
  unpaired = true;
  offered = [];
  roles = [];
  streaming = false;
  flac = false;
  rate = pos 0;
}

abbrev plays : ServerActivate
plays = record {
  activities = activity_playback ∷ [];
  active_roles = some (role_player_v1 ∷ []);
  pairing = none;
}

abbrev pcm_48k : StreamPlayer
pcm_48k = record {
  codec = codec_pcm;
  sample_rate = pos 48000;
  channels = pos 2;
  bit_depth = pos 16;
  codec_header = [];
}

abbrev opening : List Message
opening = server_activate true (some plays) ∷ stream_start (some (some pcm_48k)) ∷ []

abbrev one_pcm : List ℕ
one_pcm = 1 ∷ 2 ∷ 3 ∷ 4 ∷ []

abbrev no_base64 : List ℕ → Option (List ℕ)
no_base64 s = none

abbrev no_flac : List ℕ → ℤ → Option (List ℕ)
no_flac body rate = none

opened :
    take_all no_base64 opening fresh
    ≡ record fresh { roles = role_player_v1 ∷ []; streaming = true; rate = pos 48000 }
unfolding take_all take_message start_stream activate playable playable_rate holds_player family
    decide_activate keep_supported keep_supported_from activities_allowed playback_capable
    allowed_activity_sets any_same_set same_set sort insert_sorted lex_le texts_eq pairing_method_ok
    contains bytes_eq
opened = refl

one_frame :
    audio_chunk no_flac (be_bytes 8 1000 ++ one_pcm) (take_all no_base64 opening fresh)
    ≡ chunk (record { server_time = 1000; pcm = one_pcm })
unfolding take_all take_message start_stream activate playable playable_rate holds_player family
    decide_activate keep_supported keep_supported_from activities_allowed playback_capable
    allowed_activity_sets any_same_set same_set sort insert_sorted lex_le texts_eq pairing_method_ok
    contains bytes_eq audio_chunk parse_chunk chunk_stamp
one_frame = refl

audio_needs_key_example :
    (may_play sentinel true ≡ true) × (playable_rate (take_all no_base64 opening fresh).rate ≡ true)
audio_needs_key_example =
    audio_needs_key no_base64 no_flac opening fresh (be_bytes 8 1000 ++ one_pcm)
      (record { server_time = 1000; pcm = one_pcm }) refl refl one_frame

sent_bytes : All IsByte (be_bytes 8 1000 ++ one_pcm)
sent_bytes = ground arith

parse_chunk_iff_example :
    (parse_chunk (be_bytes 8 1000 ++ one_pcm)
      ≡ chunk (record { server_time = 1000; pcm = one_pcm }))
    ↔ ((be_bytes 8 1000 ++ one_pcm ≡ be_bytes 8 1000 ++ one_pcm)
        × (◌≤◌ 1000 (2 ^ 50))
        × (length one_pcm % 4 ≡ 0))
parse_chunk_iff_example =
    parse_chunk_iff (be_bytes 8 1000 ++ one_pcm) (record { server_time = 1000; pcm = one_pcm })
      sent_bytes

abbrev playing : Session
playing = record fresh { roles = role_player_v1 ∷ [] }

abbrev far_delay : PlayerCommand
far_delay = record {
  command = codes "set_static_delay";
  static_delay_ms = some (pos 9000);
  volume = none;
  mute = none;
}
