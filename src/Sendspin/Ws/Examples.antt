-- ===== src/Sendspin/Ws/Examples.antt =====
-- internal/sendspin/ws.go: a ping and then a message in two frames.
use overdub.Base.{ℕ, ◌≤◌, ◌<◌, ◌≡◌, refl, true, Option, some, List, [], ◌∷◌, ◌++◌, length}
use overdub.Sendspin.Ws.{
  FrameHeader, read_header, read_message, message, read_full, read_mask, unmask, read_payload,
  frame, handle_frame, end_round, on_payload, on_header, read_message_from,
}
use overdub.Sendspin.Ws.Limits.{read_message_bounded}

abbrev ping : List ℕ
ping = 0x89 ∷ 0x81 ∷ 0 ∷ 0 ∷ 0 ∷ 0 ∷ 7 ∷ []

abbrev fragmented : List ℕ
fragmented = 0x02 ∷ 0x82 ∷ 1 ∷ 2 ∷ 3 ∷ 4 ∷ 65 ∷ 66 ∷ (0x80 ∷ 0x81 ∷ 0 ∷ 0 ∷ 0 ∷ 0 ∷ 67 ∷ 99 ∷ [])

abbrev record_frame : List ℕ → List ℕ → Option (List ℕ)
record_frame sent bytes = some (sent ++ bytes)

abbrev ping_header : FrameHeader
ping_header = record { fin = true; op = 9; length = 1; mask = 0 ∷ 0 ∷ 0 ∷ 0 ∷ [] }

fragmented_read :
    read_message record_frame 100 (ping ++ fragmented) []
    ≡ message true (64 ∷ 64 ∷ 67 ∷ []) (99 ∷ []) (0x8a ∷ 1 ∷ 7 ∷ [])
unfolding read_message read_message_from on_header on_payload end_round handle_frame read_header
    read_mask read_full read_payload unmask frame
fragmented_read = refl

read_message_bounded_example :
    (length {A = ℕ} (64 ∷ 64 ∷ 67 ∷ []) ≤ 100)
    × (length {A = ℕ} (99 ∷ []) < length (ping ++ fragmented))
read_message_bounded_example =
    read_message_bounded record_frame 100 (ping ++ fragmented) [] (0x8a ∷ 1 ∷ 7 ∷ []) true
      (64 ∷ 64 ∷ 67 ∷ []) (99 ∷ []) fragmented_read
