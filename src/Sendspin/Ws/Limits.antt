-- ===== src/Sendspin/Ws/Limits.antt =====
-- internal/sendspin/ws.go: what a peer can make `Read` take.
use Prim.Native.Nat.{bit_and}
use mathlib.Core.Path.{subst}
use overdub.Base.{
  ℕ, zero, suc, ◌≤◌, ◌<◌, ◌≡◌, refl, Bool, true, false, Option, List, [], ◌∷◌, ◌&&◌, ◌||◌, not,
  length, take, drop, ltb, arith, length-drop, some,
}
use overdub.Base.Bytes.{be_number}
use overdub.Sendspin.Ws.{
  WsError, end_round, on_payload, on_header, FrameHeader, HeaderRead, bad_header, header, read_full,
  read_mask, read_length16, read_length64, read_header, is_control, max_control_payload,
  PayloadRead, payload, bad_payload, read_payload, read_message, read_message_from, handle_frame,
  MessageRead, message, bad_message, Gathered, Round, fails, passes, gathers, max_ws_frames,
  parse_close, close_payload,
}

-- A header that is accepted left room for what was read, and is fit for a control frame.
Accepts : List ℕ → HeaderRead → Type 0
Accepts bytes (bad_header e) = Unit
Accepts bytes (header h rest) =
    (length rest < length bytes)
    × (((is_control h.op) && (not h.fin || ltb max_control_payload h.length)) ≡ false)

read_mask-Accepts :
    (first second size : ℕ) (rest bytes : List ℕ)
    → length rest < length bytes
    → Accepts bytes (read_mask first second size rest)
unfolding Accepts read_mask read_full
read_mask-Accepts first second size rest bytes h = ground (arith, length-drop 4 rest)

read_length16-Accepts :
    (first second : ℕ) (rest bytes : List ℕ)
    → length rest < length bytes
    → Accepts bytes (read_length16 first second rest)
unfolding read_length16 read_full Accepts
read_length16-Accepts first second rest bytes h = ground (
  arith,
  length-drop 2 rest,
  read_mask-Accepts first second (be_number (take 2 rest)) (drop 2 rest) bytes,
)

read_length64-Accepts :
    (first second : ℕ) (rest bytes : List ℕ)
    → length rest < length bytes
    → Accepts bytes (read_length64 first second rest)
unfolding read_length64 read_full Accepts
read_length64-Accepts first second rest bytes h = ground (
  arith,
  length-drop 8 rest,
  read_mask-Accepts first second (be_number (take 8 rest)) (drop 8 rest) bytes,
)

read_header-Accepts : (bytes : List ℕ) → Accepts bytes (read_header bytes)
unfolding read_header Accepts
read_header-Accepts [] = tt
read_header-Accepts (first ∷ []) = tt
read_header-Accepts (first ∷ second ∷ rest) = ground (
  arith,
  read_mask-Accepts first second (bit_and second 0x7f) rest (first ∷ second ∷ rest) (omega arith),
  read_length16-Accepts first second rest (first ∷ second ∷ rest) (omega arith),
  read_length64-Accepts first second rest (first ∷ second ∷ rest) (omega arith),
)

-- The code and the reason that `Close` writes are what the other side reads of them.
pub parse_close-close_payload :
    (code : ℕ) (reason : List ℕ)
    → code < 65536
    → parse_close (close_payload code reason) ≡ some (code, reason)
unfolding parse_close close_payload
parse_close-close_payload code reason h = ground arith

-- A control frame whose header is accepted is whole, and has at most 125 bytes.
pub read_header_control :
    (bytes rest : List ℕ) (h : FrameHeader)
    → read_header bytes ≡ header h rest
    → is_control h.op ≡ true
    → (h.fin ≡ true) × (h.length ≤ max_control_payload)
unfolding Accepts
read_header_control bytes rest h e control =
    let (l, fit) = subst (Accepts bytes) e (read_header-Accepts bytes) in ground arith

module _ {W : Type 0} (put : W → List ℕ → Option W) where
  -- What `Read` returns is within the limit, and used up a byte at least.
  Within : ℕ → List ℕ → MessageRead W → Type 0
  Within limit bytes (bad_message e w) = Unit
  Within limit bytes (message b msg rest w) = (length msg ≤ limit) × (length rest < length bytes)

  Within-bad_message :
      (limit : ℕ) (bytes : List ℕ) (e : WsError) (w : W) → Within limit bytes (bad_message e w)
  unfolding Within
  Within-bad_message limit bytes e w = tt

  Within-weaken :
      (limit : ℕ) (rest bytes : List ℕ) (r : MessageRead W)
      → length rest ≤ length bytes
      → Within limit rest r
      → Within limit bytes r
  unfolding Within
  Within-weaken limit rest bytes (bad_message e w) h v = tt
  Within-weaken limit rest bytes (message b msg left w) h (small, v) = (small, omega arith)

  end_round-Within :
      (limit : ℕ) (again : Gathered → W → MessageRead W) (h : FrameHeader) (g : Gathered)
      (rest bytes : List ℕ) (w : W) (r : Round W)
      → ((g' : Gathered) (w' : W) → Within limit bytes (again g' w'))
      → length rest < length bytes
      → Within limit bytes (end_round put limit again h g rest w r)
  unfolding end_round Within
  end_round-Within limit again h g rest bytes w (fails e w') a l = tt
  end_round-Within limit again h g rest bytes w (passes w') a l = a g w'
  end_round-Within limit again h g rest bytes w (gathers g') a l =
      ground (arith, a (record g' { fragmented = true }) w)

  payload_left :
      (limit : ℕ) (h : FrameHeader) (after body rest : List ℕ)
      → read_payload limit h after ≡ payload body rest
      → length rest ≤ length after
  unfolding read_payload read_full
  payload_left limit h after body rest e = ground (arith, length-drop h.length after)

  on_payload-Within :
      (limit : ℕ) (again : List ℕ → Gathered → W → MessageRead W) (h : FrameHeader) (g : Gathered)
      (bytes : List ℕ) (w : W) (p : PayloadRead)
      → ((rest : List ℕ) (g' : Gathered) (w' : W) → Within limit rest (again rest g' w'))
      → ((body rest : List ℕ) → p ≡ payload body rest → length rest < length bytes)
      → Within limit bytes (on_payload put limit again h g w p)
  unfolding on_payload
  on_payload-Within limit again h g bytes w (bad_payload e) a l = Within-bad_message limit bytes e w
  on_payload-Within limit again h g bytes w (payload body rest) a l =
      let fewer = l body rest refl in
      end_round-Within limit (again rest) h g rest bytes w (handle_frame put h body g w)
        (λ g' w'. Within-weaken limit rest bytes (again rest g' w') (omega arith) (a rest g' w'))
        fewer

  on_header-Within :
      (limit : ℕ) (again : List ℕ → Gathered → W → MessageRead W) (g : Gathered) (bytes : List ℕ)
      (w : W) (r : HeaderRead)
      → ((rest : List ℕ) (g' : Gathered) (w' : W) → Within limit rest (again rest g' w'))
      → Accepts bytes r
      → Within limit bytes (on_header put limit again g w r)
  unfolding on_header Accepts
  on_header-Within limit again g bytes w (bad_header e) a l = Within-bad_message limit bytes e w
  on_header-Within limit again g bytes w (header h after) a (l, fit) =
      on_payload-Within limit again h g bytes w (read_payload limit h after) a
        (λ body rest e. let left = payload_left limit h after body rest e in omega arith)

  read_message_from-Within :
      (frames limit : ℕ) (bytes : List ℕ) (g : Gathered) (w : W)
      → Within limit bytes (read_message_from put frames limit bytes g w)
  unfolding read_message_from
  read_message_from-Within zero limit bytes g w = Within-bad_message limit bytes _ w
  read_message_from-Within (suc frames) limit bytes g w =
      on_header-Within limit (λ rest g' w'. read_message_from put frames limit rest g' w') g bytes w
        (read_header bytes) (λ rest g' w'. read_message_from-Within frames limit rest g' w')
        (read_header-Accepts bytes)

  -- Whatever a peer sends, in however many frames, a message that `Read` returns has at most as many
  -- bytes as the read limit, and reading it has used up a part of what the peer sent.
  pub read_message_bounded :
      (limit : ℕ) (bytes : List ℕ) (w w' : W) (binary : Bool) (msg rest : List ℕ)
      → read_message put limit bytes w ≡ message binary msg rest w'
      → (length msg ≤ limit) × (length rest < length bytes)
  unfolding read_message Within
  read_message_bounded limit bytes w w' binary msg rest e = subst (Within limit bytes) e (
      read_message_from-Within max_ws_frames limit bytes
        (record { kind = 0; fragmented = false; msg = [] }) w)
