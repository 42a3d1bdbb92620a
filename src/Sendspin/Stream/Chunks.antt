-- ===== src/Sendspin/Stream/Chunks.antt =====
-- internal/sendspin/chunk.go and command.go: what a chunk and a command may hold.
use Prim.Native.Nat.{◌/◌}
use mathlib.Core.List.{append_assoc, append-nil}
use overdub.Base.{
  sym, length-take, take-append-drop, ◌*◌, ◌+◌, suc, zero, All, refl, ◌↔◌, [], ◌∷◌, ℕ, ◌%◌, ◌^◌,
  ◌≤◌, ◌≡◌, ap, ◌∙◌, List, ◌++◌, length, take, drop, arith, take_append_length, drop_append_length,
}
use overdub.Base.Bytes.{
  IsByte, be_number_from, be_bytes, be_number, be_number-be_bytes, length-be_bytes,
}
use overdub.Sendspin.Stream.{AudioChunk, chunk, chunk_stamp, parse_chunk}

-- A chunk that a server stamps on the clock and fills with whole frames is taken as it was sent.
parse_chunk_sent :
    (stamp : ℕ) (pcm : List ℕ)
    → stamp ≤ 2 ^ 50
    → length pcm % 4 ≡ 0
    → parse_chunk (be_bytes 8 stamp ++ pcm) ≡ chunk (record { server_time = stamp; pcm = pcm })
unfolding parse_chunk chunk_stamp
parse_chunk_sent stamp pcm h w =
    let head : List ℕ = be_bytes 8 stamp in
    let number : be_number (take 8 (head ++ pcm)) ≡ stamp =
      ap be_number (take_append_length head pcm 8 (length-be_bytes 8 stamp))
      ∙ be_number-be_bytes 8 stamp (omega arith) in
    let body : drop 8 (head ++ pcm) ≡ pcm =
      drop_append_length head pcm 8 (length-be_bytes 8 stamp) in
    ground (arith, number, body)

parse_chunk_takes :
    (body : List ℕ) (c : AudioChunk)
    → parse_chunk body ≡ chunk c
    → (c.server_time ≤ 2 ^ 50)
      × (length c.pcm % 4 ≡ 0)
      × (c.pcm ≡ drop 8 body)
      × (c.server_time ≡ be_number (take 8 body))
      × (8 ≤ length body)
unfolding parse_chunk chunk_stamp
parse_chunk_takes body c h = ground arith

be_bytes-be_number_from :
    (bs : List ℕ) (k acc : ℕ)
    → All IsByte bs
    → be_bytes (length bs + k) (be_number_from acc bs) ≡ be_bytes k acc ++ bs
be_bytes-be_number_from [] k acc h =
    ap (λ n. be_bytes n acc) (let e : 0 + k ≡ k = omega arith in e)
    ∙ sym (append-nil (be_bytes k acc))
be_bytes-be_number_from (b ∷ bs) k acc (hb, hs) =
    let low : (acc * 256 + b) % 256 ≡ b = omega arith in
    let high : (acc * 256 + b) / 256 ≡ acc = omega arith in
    let here : be_bytes (suc k) (acc * 256 + b) ≡ be_bytes k acc ++ (b ∷ []) =
      rw low (rw high refl) in
    ap (λ n. be_bytes n (be_number_from (acc * 256 + b) bs))
      (let e : suc (length bs) + k ≡ length bs + suc k = omega arith in e)
    ∙ be_bytes-be_number_from bs (suc k) (acc * 256 + b) hs
    ∙ ap (λ x. x ++ bs) here
    ∙ append_assoc (be_bytes k acc) (b ∷ []) bs

take-All : (n : ℕ) (bs : List ℕ) → All IsByte bs → All IsByte (take n bs)
take-All zero bs h = tt
take-All (suc n) [] h = tt
take-All (suc n) (b ∷ bs) (hb, hs) = (hb, take-All n bs hs)

stamped_body :
    (body : List ℕ)
    → All IsByte body
    → 8 ≤ length body
    → body ≡ be_bytes 8 (be_number (take 8 body)) ++ drop 8 body
stamped_body body h long =
    let size : length (take 8 body) ≡ 8 = ground (arith, length-take 8 body) in
    let head : be_bytes 8 (be_number (take 8 body)) ≡ take 8 body =
      ap (λ n. be_bytes n (be_number (take 8 body)))
        (let e : 8 ≡ length (take 8 body) + 0 = omega (arith, size) in e)
      ∙ be_bytes-be_number_from (take 8 body) 0 0 (take-All 8 body h) in
    sym (take-append-drop 8 body) ∙ ap (λ x. x ++ drop 8 body) (sym head)

parse_chunk_from :
    (body : List ℕ) (c : AudioChunk)
    → All IsByte body
    → parse_chunk body ≡ chunk c
    → (body ≡ be_bytes 8 c.server_time ++ c.pcm) × (c.server_time ≤ 2 ^ 50) × (length c.pcm % 4 ≡ 0)
parse_chunk_from body c h e =
    let (clock, whole, pcm, stamp, long) = parse_chunk_takes body c e in
    (stamped_body body h long ∙ (λ i. be_bytes 8 (sym stamp i) ++ sym pcm i), clock, whole)

-- A body is taken as the chunk `c` of uncompressed audio exactly when it is the one that a server sends
-- for `c`: the 8 bytes of its stamp, the highest first, and then its audio; with the stamp on the clock
-- and whole frames of 4 bytes. Any other body is refused.
pub parse_chunk_iff :
    (body : List ℕ) (c : AudioChunk)
    → All IsByte body
    → (parse_chunk body ≡ chunk c) ↔ (
        (body ≡ be_bytes 8 c.server_time ++ c.pcm)
        × (c.server_time ≤ 2 ^ 50)
        × (length c.pcm % 4 ≡ 0))
parse_chunk_iff body c h = (
  parse_chunk_from body c h,
  λ (e, clock, whole). ap parse_chunk e ∙ parse_chunk_sent c.server_time c.pcm clock whole,
)
