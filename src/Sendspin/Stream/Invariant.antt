-- ===== src/Sendspin/Stream/Invariant.antt =====
-- internal/sendspin: over any messages of the server, a session takes audio only from a server whose
-- key lets it play, and only in a format that the player has.
use overdub.Base.{
  ℕ, ◌≡◌, ◌⊎◌, refl, inl, inr, Bool, true, false, Option, none, some, List, [], ◌∷◌, arith,
}
use overdub.Base.Int.{ℤ}
use overdub.Sendspin.Activate.{
  Category, ServerActivate, Decision, goodbye, pair_abort, roles_are, decide_activate,
}
use overdub.Sendspin.Activate.Access.{may_play, decide_activate_roles}
use overdub.Sendspin.Stream.{
  StreamPlayer, Session, playable_rate, holds_player, playable, start_stream, end_stream, activate,
  AudioChunk, chunk, audio_chunk,
}

-- A message that changes the session.
pub data Message : Type 0 where
  stream_start : Option (Option StreamPlayer) → Message
  stream_end : Option (Option (List (List ℕ))) → Message
  server_activate : Bool → Option ServerActivate → Message

pub record IsValid (s : Session) : Type 0 where
  pub role_held : holds_player s.roles ≡ true → may_play s.matched s.unpaired ≡ true
  pub stream_held : s.streaming ≡ true → holds_player s.roles ≡ true
  pub rate_known : s.streaming ≡ true → playable_rate s.rate ≡ true

roles_allow :
    (m : Category) (u : Bool) (offered : List (List ℕ)) (act : ServerActivate)
    (persisted roles : List (List ℕ))
    → decide_activate m u offered act persisted ≡ roles_are roles
    → holds_player roles ≡ true
    → may_play m u ≡ true
unfolding holds_player
roles_allow m u offered act persisted [] h p = absurd (ground arith)
roles_allow m u offered act persisted (r ∷ rs) h p =
    (decide_activate_roles m u offered act persisted r rs h).0

Decision-cases :
    (d : Decision)
    → ((roles : List (List ℕ)) × (d ≡ roles_are roles))
      ⊎ ((d ≡ pair_abort) ⊎ ((g : _) × (d ≡ goodbye g)))
Decision-cases (roles_are roles) = inl (roles, refl)
Decision-cases pair_abort = inr (inl refl)
Decision-cases (goodbye g) = inr (inr (g, refl))

activate-IsValid :
    (writes : Bool) (payload : Option ServerActivate) (s : Session)
    → IsValid s
    → IsValid (activate writes payload s).0
unfolding activate
activate-IsValid writes none s v = v
activate-IsValid writes (some act) s v =
    elim (Decision-cases (decide_activate s.matched s.unpaired s.offered act s.roles)) [
      | inl (roles, e) ↦
          let allow = roles_allow s.matched s.unpaired s.offered act s.roles roles e in
          rw (e, activate) (ground (arith, allow))
      | inr (inl e) ↦ rw (e, activate) v
      | inr (inr (g, e)) ↦ rw (e, activate) v
    ]

playable-rate :
    (base64 : List ℕ → Option (List ℕ)) (p : StreamPlayer)
    → playable base64 p ≡ true
    → playable_rate p.sample_rate ≡ true
unfolding playable
playable-rate base64 p h = ground arith

start_stream-IsValid :
    (base64 : List ℕ → Option (List ℕ)) (payload : Option (Option StreamPlayer)) (s : Session)
    → IsValid s
    → IsValid (start_stream base64 payload s).0
unfolding start_stream
start_stream-IsValid base64 none s v = v
start_stream-IsValid base64 (some none) s v = v
start_stream-IsValid base64 (some (some p)) s v = ground (arith, playable-rate base64 p)

end_stream-IsValid :
    (payload : Option (Option (List (List ℕ)))) (s : Session)
    → IsValid s
    → IsValid (end_stream payload s).0
unfolding end_stream
end_stream-IsValid none s v = v
end_stream-IsValid (some roles) s v = ground arith

module _ (base64 : List ℕ → Option (List ℕ)) where
  unfoldable pub take_message : Message → Session → Session
  take_message (stream_start payload) s = (start_stream base64 payload s).0
  take_message (stream_end payload) s = (end_stream payload s).0
  take_message (server_activate writes payload) s = (activate writes payload s).0

  unfoldable pub take_all : List Message → Session → Session
  take_all [] s = s
  take_all (m ∷ ms) s = take_all ms (take_message m s)

  take_message-IsValid : (m : Message) (s : Session) → IsValid s → IsValid (take_message m s)
  unfolding take_message
  take_message-IsValid (stream_start payload) s v = start_stream-IsValid base64 payload s v
  take_message-IsValid (stream_end payload) s v = end_stream-IsValid payload s v
  take_message-IsValid (server_activate writes payload) s v = activate-IsValid writes payload s v

  pub take_all-IsValid : (ms : List Message) (s : Session) → IsValid s → IsValid (take_all ms s)
  unfolding take_all
  take_all-IsValid [] s v = v
  take_all-IsValid (m ∷ ms) s v =
      take_all-IsValid ms (take_message m s) (take_message-IsValid m s v)

  take_message-same :
      (m : Message) (s : Session)
      → ((take_message m s).matched ≡ s.matched) × ((take_message m s).unpaired ≡ s.unpaired)
  unfolding take_message start_stream end_stream activate
  take_message-same (stream_start none) s = (refl, refl)
  take_message-same (stream_start (some none)) s = (refl, refl)
  take_message-same (stream_start (some (some p))) s = ground arith
  take_message-same (stream_end none) s = (refl, refl)
  take_message-same (stream_end (some roles)) s = ground arith
  take_message-same (server_activate writes none) s = (refl, refl)
  take_message-same (server_activate writes (some act)) s = ground arith

  take_all-same :
      (ms : List Message) (s : Session)
      → ((take_all ms s).matched ≡ s.matched) × ((take_all ms s).unpaired ≡ s.unpaired)
  unfolding take_all
  take_all-same [] s = (refl, refl)
  take_all-same (m ∷ ms) s =
      ground (arith, take_message-same m s, take_all-same ms (take_message m s))

  audio_chunk_needs :
      (decode_flac : List ℕ → ℤ → Option (List ℕ)) (body : List ℕ) (s : Session) (c : AudioChunk)
      → audio_chunk decode_flac body s ≡ chunk c
      → s.streaming ≡ true
  unfolding audio_chunk
  audio_chunk_needs decode_flac body s c h = ground arith

  -- Whatever messages a server sends to a session that starts with no role and no stream, a chunk of
  -- audio is taken only if its key may play (a long-term key, or the sentinel's while unpaired access
  -- is on), and the stream's rate is one of the two that the player has.
  pub audio_needs_key :
      (decode_flac : List ℕ → ℤ → Option (List ℕ)) (ms : List Message) (s : Session) (body : List ℕ)
      (c : AudioChunk)
      → s.roles ≡ []
      → s.streaming ≡ false
      → audio_chunk decode_flac body (take_all ms s) ≡ chunk c
      → (may_play s.matched s.unpaired ≡ true) × (playable_rate (take_all ms s).rate ≡ true)
  audio_needs_key decode_flac ms s body c r q h =
      let start : IsValid s = unfold holds_player in ground arith in
      let on = audio_chunk_needs decode_flac body (take_all ms s) c h in
      let v = take_all-IsValid ms s start in
      ground (arith, take_all-same ms s, v.role_held, v.stream_held, v.rate_known)
