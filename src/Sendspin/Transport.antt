-- ===== src/Sendspin/Transport.antt =====
-- internal/sendspin/transport.go: messages in sealed WebSocket frames, split where one frame is too
-- small for them. The two cipher states of github.com/flynn/noise and the connection are parameters.
-- After an error the caller drops the session, so an error carries no state.
pub mod Frames
pub mod RoundTrip
pub mod Bounds
mod Examples
use Prim.Native.Nat.{bit_and, bit_or}
use overdub.Base.{
  ℕ, zero, suc, ◌+◌, ◌-◌, Bool, true, false, Option, none, some, List, [], ◌∷◌, ◌++◌, length, take,
  drop, min, ltb, leb, ◌==◌, not, if◌then◌else◌,
}

abbrev pub msg_json : ℕ
msg_json = 0

abbrev pub msg_fragment : ℕ
msg_fragment = 1

abbrev pub max_noise_message : ℕ
max_noise_message = 65535

abbrev pub aead_tag_len : ℕ
aead_tag_len = 16

abbrev pub max_frame_body : ℕ
max_frame_body = max_noise_message - aead_tag_len - 1

abbrev pub frag_last : ℕ
frag_last = 1

abbrev pub frag_first : ℕ
frag_first = 2

-- Of ws.go and handshake.go.
abbrev pub max_message : ℕ
max_message = 65535

abbrev pub max_message_frames : ℕ
max_message_frames = 4096

-- The sending half of a session: the cipher's state and the connection.
pub record Sender (S W : Type 0) : Type 0 where
  pub cipher : S
  pub wire : W

-- How `WriteTyped` returns. `stuck` is no outcome of the code: the fuel ran out.
pub data Written (S W : Type 0) : Type 0 where
  written : Sender S W → Written S W
  fragment_kind : Written S W
  not_sealed : Written S W
  stuck : Written S W

-- The room for a part of the body in a fragment, its flags, and the fragment.
abbrev pub room : Bool → ℕ
room first = if first then max_frame_body - 1 - 1 else max_frame_body - 1

abbrev pub flags_of : Bool → Bool → ℕ
flags_of first last = bit_or (if first then frag_first else 0) (if last then frag_last else 0)

abbrev pub fragment_frame : Bool → ℕ → ℕ → List ℕ → List ℕ
fragment_frame first kind n body =
    msg_fragment
    ∷ flags_of first (n == length body)
    ∷ (if first then kind ∷ take n body else take n body)

module _ {S W : Type 0} (encrypt : S → List ℕ → Option (List ℕ × S))
    (put : W → List ℕ → Option W) where
  -- `seal`: encrypt one frame and write it as a binary message.
  unfoldable pub seal : Sender S W → List ℕ → Option (Sender S W)
  seal s plain = elim (encrypt s.cipher plain) [
    | none ↦ none
    | some (sealed, c) ↦ elim (put s.wire sealed) [
      | none ↦ none
      | some w ↦ some (record { cipher = c; wire = w })
    ]
  ]

  -- The loop of `WriteTyped` with fuel for its rounds.
  unfoldable pub write_fragments : ℕ → Bool → ℕ → List ℕ → Sender S W → Written S W
  write_fragments fuel first kind [] s = written s
  write_fragments zero first kind (b ∷ bs) s = stuck
  write_fragments (suc fuel) first kind (b ∷ bs) s =
      let n = min (room first) (length (b ∷ bs)) in
      elim (seal s (fragment_frame first kind n (b ∷ bs))) [
        | none ↦ not_sealed
        | some s' ↦ write_fragments fuel false kind (drop n (b ∷ bs)) s'
      ]

  -- `WriteTyped`: each round takes a byte of the body at least.
  unfoldable pub write_typed : ℕ → List ℕ → Sender S W → Written S W
  write_typed kind body s =
      if kind == msg_fragment
      then fragment_kind
      else if leb (length body) max_frame_body
      then elim (seal s (kind ∷ body)) [ none ↦ not_sealed | some s' ↦ written s' ]
      else write_fragments (length body) true kind body s

-- What the connection's `Read` returns: the kind of the message and its bytes. The list ends where
-- reading fails.
pub record Incoming : Type 0 where
  pub is_binary : Bool
  pub bytes : List ℕ

-- The receiving half of a session.
pub record Reader (R : Type 0) : Type 0 where
  pub cipher : R
  pub in_fragment : Bool
  pub fragment_type : ℕ
  pub fragment : List ℕ

pub data Error : Type 0 where
  too_many_frames read_failed cleartext decrypt_failed empty_plaintext interleaved : Error
  no_flags reserved_flags first_in_flight no_type names_itself none_in_flight too_big : Error

-- How `reassemble` returns: the state and whether the message is whole.
pub data Reassembled (R : Type 0) : Type 0 where
  so_far : Bool → Reader R → Reassembled R
  broken : Error → Reassembled R

-- How `Read` returns, with the messages that it has not read.
pub data Received (R : Type 0) : Type 0 where
  received : ℕ → List ℕ → Reader R → List Incoming → Received R
  failed : Error → Received R

module _ {R : Type 0} where
  -- The end of `reassemble`: the limit on the whole message.
  unfoldable pub finish_fragment : ℕ → Reader R → Reassembled R
  finish_fragment flags r =
      if ltb max_message (length r.fragment)
      then broken too_big
      else so_far (not (bit_and flags frag_last == 0)) r

  unfoldable pub first_fragment : ℕ → List ℕ → Reader R → Reassembled R
  unfolding finish_fragment
  first_fragment flags [] r = if r.in_fragment then broken first_in_flight else broken no_type
  first_fragment flags (kind ∷ bytes) r =
      if r.in_fragment
      then broken first_in_flight
      else if kind == msg_fragment
      then broken names_itself
      else finish_fragment flags
          (record r { in_fragment = true; fragment_type = kind; fragment = bytes })

  unfoldable pub next_fragment : ℕ → List ℕ → Reader R → Reassembled R
  unfolding finish_fragment
  next_fragment flags bytes r =
      if r.in_fragment
      then finish_fragment flags (record r { fragment = r.fragment ++ bytes })
      else broken none_in_flight

  -- `reassemble`, on the plaintext behind its first byte.
  unfoldable pub reassemble : List ℕ → Reader R → Reassembled R
  unfolding first_fragment next_fragment
  reassemble [] r = broken no_flags
  reassemble (flags ∷ bytes) r =
      if not (bit_and flags 0xfc == 0)
      then broken reserved_flags
      else if not (bit_and flags frag_first == 0)
      then first_fragment flags bytes r
      else next_fragment flags bytes r

  abbrev pub clean : Reader R → Reader R
  clean r = record r { in_fragment = false; fragment_type = 0; fragment = [] }

-- One round of `Read` on a message: it returns, goes on in a new state, or fails.
pub data Round (R : Type 0) : Type 0 where
  returns : ℕ → List ℕ → Reader R → Round R
  goes_on : Reader R → Round R
  fails : Error → Round R

module _ {R : Type 0} where
  unfoldable pub read_plain : List ℕ → Reader R → Round R
  read_plain [] r = fails empty_plaintext
  read_plain (kind ∷ body) r =
      if kind == msg_fragment
      then elim (reassemble body r) [
        | broken e ↦ fails e
        | so_far whole r' ↦
            if whole then returns r'.fragment_type r'.fragment (clean r') else goes_on r'
      ]
      else if r.in_fragment
      then fails interleaved
      else returns kind body r

module _ {R : Type 0} (decrypt : R → List ℕ → Option (List ℕ × R)) where
  unfoldable pub read_round : Incoming → Reader R → Round R
  read_round m r =
      if m.is_binary
      then elim (decrypt r.cipher m.bytes) [
        | none ↦ fails decrypt_failed
        | some (plain, c) ↦ read_plain plain (record r { cipher = c })
      ]
      else fails cleartext

  -- `Read`, after `frames` rounds.
  unfoldable pub read_from : ℕ → List Incoming → Reader R → Received R
  read_from frames [] r =
      if ltb max_message_frames (frames + 1) then failed too_many_frames else failed read_failed
  read_from frames (m ∷ ms) r =
      if ltb max_message_frames (frames + 1)
      then failed too_many_frames
      else elim (read_round m r) [
        | fails e ↦ failed e
        | returns kind body r' ↦ received kind body r' ms
        | goes_on r' ↦ read_from (frames + 1) ms r'
      ]

  unfoldable pub read : List Incoming → Reader R → Received R
  unfolding read_from
  read ms r = read_from 0 ms r
