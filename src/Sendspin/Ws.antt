-- ===== src/Sendspin/Ws.antt =====
-- internal/sendspin/ws.go: the frames of a websocket, on the side that takes connections. What has
-- not been read is a list of bytes, which ends where the connection does. The upgrade request and the
-- deadlines are not modelled.
pub mod Limits
mod Examples
use Prim.Native.Nat.{bit_and, bit_or, bit_xor}
use overdub.Base.{
  ℕ, zero, suc, ◌+◌, ◌-◌, ◌*◌, ◌/◌, ◌%◌, ◌^◌, Bool, true, false, Option, none, some, List, [], ◌∷◌,
  ◌++◌, ◌&&◌, ◌||◌, not, length, take, drop, get_or, ltb, leb, ◌==◌, if◌then◌else◌,
}
use overdub.Base.Bytes.{be_number, be_bytes}

abbrev pub max_ws_frames : ℕ
max_ws_frames = 4096

abbrev pub op_continuation : ℕ
op_continuation = 0

abbrev pub op_text : ℕ
op_text = 1

abbrev pub op_binary : ℕ
op_binary = 2

abbrev pub op_close : ℕ
op_close = 8

abbrev pub op_ping : ℕ
op_ping = 9

abbrev pub op_pong : ℕ
op_pong = 10

abbrev pub close_no_status : ℕ
close_no_status = 1005

abbrev pub max_control_payload : ℕ
max_control_payload = 125

pub data WsError : Type 0 where
  broken reserved_bits not_minimal high_bit split_control long_control unmasked : WsError
  too_long too_many_ws_frames began_in_flight nothing_in_flight unknown_opcode short_close : WsError
  closed_with : ℕ → List ℕ → WsError

pub record FrameHeader : Type 0 where
  pub fin : Bool
  pub op : ℕ
  pub length : ℕ
  pub mask : List ℕ

pub data HeaderRead : Type 0 where
  bad_header : WsError → HeaderRead
  header : FrameHeader → List ℕ → HeaderRead

-- `io.ReadFull` of `n` bytes.
unfoldable pub read_full : ℕ → List ℕ → Option (List ℕ × List ℕ)
read_full n bytes = if ltb (length bytes) n then none else some (take n bytes, drop n bytes)

abbrev pub is_control : ℕ → Bool
is_control op = leb op_close op

-- The end of `readHeader`: the limits on a control frame, and the mask.
unfoldable pub read_mask : ℕ → ℕ → ℕ → List ℕ → HeaderRead
read_mask first second size rest =
    let fin = not (bit_and first 0x80 == 0) in
    let op = bit_and first 0x0f in
    if is_control op && not fin
    then bad_header split_control
    else if is_control op && ltb max_control_payload size
    then bad_header long_control
    else if bit_and second 0x80 == 0
    then bad_header unmasked
    else elim (read_full 4 rest) [
      | none ↦ bad_header broken
      | some (mask, after) ↦
          header (record { fin = fin; op = op; length = size; mask = mask }) after
    ]

unfoldable pub read_length16 : ℕ → ℕ → List ℕ → HeaderRead
read_length16 first second rest = elim (read_full 2 rest) [
  | none ↦ bad_header broken
  | some (e, after) ↦
      if ltb (be_number e) 126
      then bad_header not_minimal
      else read_mask first second (be_number e) after
]

unfoldable pub read_length64 : ℕ → ℕ → List ℕ → HeaderRead
read_length64 first second rest = elim (read_full 8 rest) [
  | none ↦ bad_header broken
  | some (e, after) ↦
      if leb (2 ^ 63) (be_number e)
      then bad_header high_bit
      else if leb (be_number e) 0xffff
      then bad_header not_minimal
      else read_mask first second (be_number e) after
]

unfoldable pub read_header : List ℕ → HeaderRead
read_header [] = bad_header broken
read_header (first ∷ []) = bad_header broken
read_header (first ∷ second ∷ rest) =
    let n = bit_and second 0x7f in
    if not (bit_and first 0x70 == 0)
    then bad_header reserved_bits
    else if n == 126
    then read_length16 first second rest
    else if n == 127
    then read_length64 first second rest
    else read_mask first second n rest

-- `payload[i] ^= h.mask[i%4]`, from the place `i` on.
unfoldable pub unmask : List ℕ → ℕ → List ℕ → List ℕ
unmask mask i [] = []
unmask mask i (b ∷ bytes) = bit_xor b (get_or mask (i % 4) 0) ∷ unmask mask (i + 1) bytes

pub data PayloadRead : Type 0 where
  bad_payload : WsError → PayloadRead
  payload : List ℕ → List ℕ → PayloadRead

unfoldable pub read_payload : ℕ → FrameHeader → List ℕ → PayloadRead
read_payload limit h bytes =
    if ltb limit h.length then bad_payload too_long else elim (read_full h.length bytes) [
      | none ↦ bad_payload broken
      | some (body, after) ↦ payload (unmask h.mask 0 body) after
    ]

-- The frame that `write` puts on the connection.
unfoldable pub frame : ℕ → List ℕ → List ℕ
frame op body =
    let n = length body in
    let first = bit_or op 0x80 in
    if leb n max_control_payload
    then first ∷ n ∷ body
    else if leb n 0xffff
    then first ∷ 126 ∷ be_bytes 2 n ++ body
    else first ∷ 127 ∷ be_bytes 8 n ++ body

-- `WriteText`, `WriteBinary` and `Ping`, and the frame that `Close` writes before it closes.
unfoldable pub text_frame : List ℕ → List ℕ
unfolding frame
text_frame body = frame op_text body

unfoldable pub binary_frame : List ℕ → List ℕ
unfolding frame
binary_frame body = frame op_binary body

unfoldable pub ping_frame : List ℕ
unfolding frame
ping_frame = frame op_ping []

unfoldable pub close_payload : ℕ → List ℕ → List ℕ
close_payload code reason = be_bytes 2 (code % 2 ^ 16) ++ reason

unfoldable pub parse_close : List ℕ → Option (ℕ × List ℕ)
parse_close [] = some (close_no_status, [])
parse_close (a ∷ []) = none
parse_close (a ∷ b ∷ reason) = some (be_number (a ∷ b ∷ []), reason)

-- The message so far, and whether one is in flight.
pub record Gathered : Type 0 where
  pub kind : ℕ
  pub fragmented : Bool
  pub msg : List ℕ

pub data MessageRead (W : Type 0) : Type 0 where
  bad_message : WsError → W → MessageRead W
  message : Bool → List ℕ → List ℕ → W → MessageRead W

-- What `Read` does with the frame that it has read.
pub data Round (W : Type 0) : Type 0 where
  fails : WsError → W → Round W
  passes : W → Round W
  gathers : Gathered → Round W

module _ {W : Type 0} (put : W → List ℕ → Option W) where
  -- A write of a close is tried, and its failure left aside.
  try_put : W → List ℕ → W
  try_put w bytes = elim (put w bytes) [ none ↦ w | some w' ↦ w' ]

  unfoldable pub handle_close : List ℕ → W → Round W
  unfolding try_put frame parse_close
  handle_close body w = elim (parse_close body) [
    | none ↦ fails short_close w
    | some (code, reason) ↦ fails (closed_with code reason) (try_put w (frame op_close body))
  ]

  -- The switch of `Read` on the opcode.
  unfoldable pub handle_frame : FrameHeader → List ℕ → Gathered → W → Round W
  unfolding handle_close frame
  handle_frame h body g w =
      if h.op == op_ping
      then elim (put w (frame op_pong body)) [ none ↦ fails broken w | some w' ↦ passes w' ]
      else if h.op == op_pong
      then passes w
      else if h.op == op_close
      then handle_close body w
      else if (h.op == op_text) || (h.op == op_binary)
      then if g.fragmented
        then fails began_in_flight w
        else gathers (record g { kind = h.op; msg = body })
      else if h.op == op_continuation
      then if g.fragmented
        then gathers (record g { msg = g.msg ++ body })
        else fails nothing_in_flight w
      else fails unknown_opcode w

  -- The end of a round of `Read`: `again` reads the rounds that follow.
  unfoldable pub end_round :
      ℕ
      → (Gathered → W → MessageRead W)
      → FrameHeader
      → Gathered
      → List ℕ
      → W
      → Round W
      → MessageRead W
  end_round limit again h g rest w (fails e w') = bad_message e w'
  end_round limit again h g rest w (passes w') = again g w'
  end_round limit again h g rest w (gathers g') =
      let next = again (record g' { fragmented = true }) w in
      if ltb limit (length g'.msg)
      then bad_message too_long w
      else if h.fin
      then message (g'.kind == op_binary) g'.msg rest w
      else next

  unfoldable pub on_payload :
      ℕ
      → (List ℕ → Gathered → W → MessageRead W)
      → FrameHeader
      → Gathered
      → W
      → PayloadRead
      → MessageRead W
  unfolding end_round
  on_payload limit again h g w (bad_payload e) = bad_message e w
  on_payload limit again h g w (payload body rest) =
      end_round limit (again rest) h g rest w (handle_frame h body g w)

  unfoldable pub on_header :
      ℕ → (List ℕ → Gathered → W → MessageRead W) → Gathered → W → HeaderRead → MessageRead W
  unfolding on_payload
  on_header limit again g w (bad_header e) = bad_message e w
  on_header limit again g w (header h after) =
      on_payload limit again h g w (read_payload limit h after)

  -- The loop of `Read`, with the frames that it may still read.
  unfoldable pub read_message_from : ℕ → ℕ → List ℕ → Gathered → W → MessageRead W
  unfolding on_header
  read_message_from zero limit bytes g w = bad_message too_many_ws_frames w
  read_message_from (suc frames) limit bytes g w =
      on_header limit (λ rest g' w'. read_message_from frames limit rest g' w') g w
        (read_header bytes)

  unfoldable pub read_message : ℕ → List ℕ → W → MessageRead W
  unfolding read_message_from
  read_message limit bytes w =
      read_message_from max_ws_frames limit bytes
        (record { kind = 0; fragmented = false; msg = [] }) w
