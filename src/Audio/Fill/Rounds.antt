-- ===== src/Audio/Fill/Rounds.antt =====
-- internal/audio/stream.go, `fill`: what one round keeps, and what it makes smaller.
use overdub.Base.{
  ℕ, zero, suc, ◌+◌, ◌-◌, ◌*◌, ◌≤◌, ◌<◌, ◌≡◌, refl, true, false, List, [], ◌∷◌, ◌++◌, ◌==◌,
  Bool-cases, inl, inr, if_case, length, take, drop, arith, length-append, length-take, length-drop,
  min, if◌then◌else◌, Bool-cases, inl, inr,
}
use overdub.Base.Int.{ℤ, pos, ◌+ℤ◌, ◌-ℤ◌, leb_ℤ, ltb_ℤ, pos_part}
use overdub.Audio.Stream.{Queued, Stream, frames}
use overdub.Audio.Stream.Queue.{left}
use overdub.Audio.Fill.{
  Filling, put_samples, blend, blend_from, mend, drop_chunk, cut_chunk, await_chunk, copy_chunk,
  place_chunk, fill_round, settle, frame,
}
use overdub.Audio.Fill.Settle.{settle-Settles, Settles}

length-put_samples :
    (i : ℕ) (ss block : List ℤ)
    → i + length ss ≤ length block
    → length (put_samples i ss block) ≡ length block
unfolding put_samples
length-put_samples i ss block h = omega (
  arith,
  length-append (take i block) (ss ++ drop (i + length ss) block),
  length-append ss (drop (i + length ss) block),
  length-take i block,
  length-drop (i + length ss) block,
)

length-blend_from : (i k n : ℕ) (from to : List ℤ) → length (blend_from i k n from to) ≡ k * 2
unfolding blend_from
length-blend_from i zero n from to = refl
length-blend_from i (suc k) n from to = omega (arith, length-blend_from (i + 1) k n from to)

length-mend : (last ss : List ℤ) → length (mend last ss) ≡ length ss
unfolding mend
length-mend last [] = refl
length-mend last (a ∷ []) = refl
length-mend last (a ∷ b ∷ ss) = refl

-- The loop of `fill` on a block of `total` frames: the stream counts what its queue has left, and what
-- was written lies in the block.
pub record IsFilling (total : ℕ) (f : Filling) : Type 0 where
  pub counts : f.stream.held ≡ left f.stream.queue
  pub inside : f.at ≤ total
  pub shared : f.filled + f.blended ≤ f.at
  pub room : total * 2 ≤ length f.block

-- Every frame that the stream held is still held, was played, came too late or was trimmed.
abbrev pub account : Filling → ℕ
account f = f.stream.held + f.filled + f.trimmed + f.stream.late

-- What is left to do: each round makes it smaller.
abbrev pub todo : ℕ → Filling → ℕ
todo total f = (total - f.at) + f.stream.held + length f.stream.queue

-- What a round has to show, on a queue of `n` chunks.
pub record Rounds (total n : ℕ) (f f' : Filling) : Type 0 where
  pub filling : IsFilling total f'
  pub accounts : account f' ≡ account f
  pub block : length f'.block ≡ length f.block
  pub index : f'.stream.index ≡ f.stream.index
  pub placed : f'.stream.placed ≡ f.stream.placed
  pub silence : f'.stream.silence ≡ f.stream.silence
  pub late : f.stream.late ≤ f'.stream.late
  pub rate : f'.stream.rate ≡ f.stream.rate
  pub eased : f'.stream.eased ≡ f.stream.eased
  pub few : length f'.stream.queue ≤ n
  pub less : todo total f' < (total - f.at) + f.stream.held + n

behind_lt :
    (start want : ℤ) (n : ℕ)
    → leb_ℤ (start +ℤ pos n) want ≡ false
    → ltb_ℤ start want ≡ true
    → (0 < pos_part (want -ℤ start)) × (pos_part (want -ℤ start) < n)
unfolding ◌+ℤ◌ ◌-ℤ◌
behind_lt start want n p q = ground arith

ahead_pos : (start want : ℤ) → ltb_ℤ want start ≡ true → 0 < pos_part (start -ℤ want)
unfolding ◌-ℤ◌
ahead_pos start want p = ground arith

due_left :
    (start want : ℤ) (n : ℕ)
    → leb_ℤ (start +ℤ pos n) want ≡ false
    → ltb_ℤ start want ≡ false
    → ltb_ℤ want start ≡ false
    → 0 < n
unfolding ◌+ℤ◌
due_left start want n p q r = ground arith

module _ (total : ℕ) (c : Queued) (rest : List Queued) (f : Filling)
    (held : f.stream.held ≡ (frames c - c.off) + left rest) (at : f.at < total)
    (shared : f.filled + f.blended ≤ f.at) (room : total * 2 ≤ length f.block) where
  drop_chunk-Rounds : Rounds total (suc (length rest)) f (drop_chunk c rest f)
  unfolding drop_chunk left
  drop_chunk-Rounds = ground arith

  cut_chunk-Rounds :
      (behind : ℕ)
      → 0 < behind
      → behind < frames c - c.off
      → Rounds total (suc (length rest)) f (cut_chunk behind c rest f)
  unfolding cut_chunk left
  cut_chunk-Rounds behind p h = ground arith

  await_chunk-Rounds :
      (ahead : ℕ)
      → 0 < ahead
      → Rounds total (suc (length rest)) f (await_chunk total ahead c rest f)
  unfolding await_chunk blend left
  await_chunk-Rounds ahead p =
      let n = min ahead (total - f.at) in
      let gap = blend_from 0 n (n + 1) f.stream.last_out (frame c.off c) in
      ground (
        arith,
        length-put_samples (f.at * 2) gap f.block,
        length-blend_from 0 n (n + 1) f.stream.last_out (frame c.off c),
      )

  copy_chunk-Rounds :
      0 < frames c - c.off → Rounds total (suc (length rest)) f (copy_chunk total c rest f)
  unfolding copy_chunk left
  copy_chunk-Rounds whole =
      let n = min (total - f.at) (frames c - c.off) in
      let raw = take (n * 2) (drop (c.off * 2) c.pcm) in
      ground (
        arith,
        length-put_samples (f.at * 2) raw f.block,
        length-put_samples (f.at * 2) (mend f.stream.last_out raw) f.block,
        length-mend f.stream.last_out raw,
        length-take (n * 2) (drop (c.off * 2) c.pcm),
      )

  place_chunk-Rounds :
      (want : ℤ) → Rounds total (suc (length rest)) f (place_chunk total want c rest f)
  unfolding place_chunk
  place_chunk-Rounds want =
      elim (Bool-cases (leb_ℤ (c.place +ℤ pos c.off +ℤ pos (frames c - c.off)) want)) [
        | inl past ↦ rw past drop_chunk-Rounds
        | inr here ↦ elim (Bool-cases (ltb_ℤ (c.place +ℤ pos c.off) want)) [
          | inl late ↦
              let (p, h) = behind_lt (c.place +ℤ pos c.off) want (frames c - c.off) here late in
              rw (here, late) (cut_chunk-Rounds (pos_part (want -ℤ (c.place +ℤ pos c.off))) p h)
          | inr begun ↦ elim (Bool-cases (ltb_ℤ want (c.place +ℤ pos c.off))) [
            | inl early ↦
                rw (here, begun, early)
                  (await_chunk-Rounds _ (ahead_pos (c.place +ℤ pos c.off) want early))
            | inr due ↦
                rw (here, begun, due)
                  (copy_chunk-Rounds
                    (due_left (c.place +ℤ pos c.off) want (frames c - c.off) here begun due))
          ]
        ]
      ]

-- A round that starts after the chunk is placed is a round from before.
settled-Rounds :
    (total n : ℕ) (c c' : Queued) (f out : Filling) (s' : Stream)
    → Settles c c' f.stream s'
    → Rounds total n (record f { stream = s' }) out
    → Rounds total n f out
settled-Rounds total n c c' f out s' settles r = ground arith

skip_empty-Rounds :
    (total : ℕ) (c : Queued) (rest : List Queued) (f : Filling)
    → IsFilling total f
    → f.stream.held ≡ (frames c - c.off) + left rest
    → length c.pcm ≡ 0
    → Rounds total (suc (length rest)) f (record f { stream = record f.stream { queue = rest } })
skip_empty-Rounds total c rest f v held empty = ground arith

-- A round keeps the invariant of the loop and the account, and leaves less to do.
pub fill_round-Rounds :
    (total : ℕ) (c : Queued) (rest : List Queued) (f : Filling)
    → IsFilling total f
    → f.stream.held ≡ (frames c - c.off) + left rest
    → f.at < total
    → Rounds total (suc (length rest)) f (fill_round total c rest f)
unfolding fill_round
fill_round-Rounds total c rest f v held at =
    let want = f.stream.index +ℤ pos f.at in
    let n = suc (length rest) in
    let c' = (settle want c f.stream).0 in
    let s' = (settle want c f.stream).1 in
    let new : Filling = record f { stream = s' } in
    let settles = settle-Settles want c f.stream in
    let whole : frames c' - c'.off ≡ frames c - c.off = rw (settles.pcm, settles.off) refl in
    if_case (Rounds total n f) (length c.pcm == 0)
      (record f { stream = record f.stream { queue = rest } })
      (if c.eased then place_chunk total want c rest f else place_chunk total want c' rest new)
      (λ empty. skip_empty-Rounds total c rest f v held (ground arith))
      (λ _.
        if_case (Rounds total n f) c.eased (place_chunk total want c rest f)
          (place_chunk total want c' rest new)
          (λ _. place_chunk-Rounds total c rest f held at v.shared v.room want)
          (λ _. settled-Rounds total n c c' f (place_chunk total want c' rest new) s' settles (
            place_chunk-Rounds total c' rest new (omega (arith, settles.held, held, whole)) at
              v.shared v.room want)))
