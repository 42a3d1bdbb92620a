-- ===== src/Audio/Fill/Blocks.antt =====
-- internal/audio/stream.go, `fill` and `read`: a whole block.
use overdub.Base.{
  ℕ, zero, suc, ◌+◌, ◌*◌, ◌/◌, ◌≤◌, ◌<◌, ◌≡◌, ◌||◌, if◌then◌else◌, refl, ap, ◌∙◌, true, List, [],
  ◌∷◌, length, arith, leb, if_case, replicate, length-replicate,
}
use overdub.Base.Int.{ℤ, pos, ◌+ℤ◌}
use overdub.Audio.Stream.{Queued, Stream}
use overdub.Audio.Stream.Queue.{left, IsValid}
use overdub.Audio.Fill.{
  Filling, FillEnd, filling, out_of_fuel, fill_round, fill_from, fill, finish_fill, enough, read,
  ReadEnd, over, goes_on, starved, count_block, begin_fill, end_fill, end_read, meet_reader,
}
use overdub.Audio.Fill.Rounds.{IsFilling, Rounds, account, todo, fill_round-Rounds}

-- What the loop has to show when it ends.
pub record Fills (total : ℕ) (f f' : Filling) : Type 0 where
  pub filling : IsFilling total f'
  pub accounts : account f' ≡ account f
  pub block : length f'.block ≡ length f.block
  pub index : f'.stream.index ≡ f.stream.index
  pub placed : f'.stream.placed ≡ f.stream.placed
  pub silence : f'.stream.silence ≡ f.stream.silence
  pub late : f.stream.late ≤ f'.stream.late
  pub rate : f'.stream.rate ≡ f.stream.rate
  pub eased : f'.stream.eased ≡ f.stream.eased
  pub few : length f'.stream.queue ≤ length f.stream.queue

-- The loop ends by its own test, and not for want of fuel.
EndsWell : ℕ → Filling → FillEnd → Type 0
EndsWell total f (filling f') = Fills total f f'
EndsWell total f out_of_fuel = ⊥

Fills-refl : (total : ℕ) (f : Filling) → IsFilling total f → Fills total f f
Fills-refl total f v = ground arith

Fills-step :
    (total n : ℕ) (f g : Filling) (e : FillEnd)
    → Rounds total n f g
    → length f.stream.queue ≡ n
    → EndsWell total g e
    → EndsWell total f e
unfolding EndsWell
Fills-step total n f g (filling h) r q w = ground arith
Fills-step total n f g out_of_fuel r q w = w

fill_from-EndsWell :
    (fuel total : ℕ) (f : Filling) (queue : List Queued)
    → f.stream.queue ≡ queue
    → IsFilling total f
    → todo total f < fuel
    → EndsWell total f (fill_from fuel total f queue)
unfolding fill_from EndsWell left
fill_from-EndsWell fuel total f [] e v h = Fills-refl total f v
fill_from-EndsWell zero total f (c ∷ rest) e v h = absurd (omega arith)
fill_from-EndsWell (suc fuel) total f (c ∷ rest) e v h =
    let g = fill_round total c rest f in
    let held = v.counts ∙ ap left e in
    if_case (EndsWell total f) (leb total f.at) (filling f) (fill_from fuel total g g.stream.queue)
      (λ _. Fills-refl total f v)
      (λ more.
        let round = fill_round-Rounds total c rest f v held (ground arith) in
        Fills-step total (suc (length rest)) f g (fill_from fuel total g g.stream.queue) round
          (ap length e)
          (fill_from-EndsWell fuel total g g.stream.queue refl round.filling
            (omega (arith, round.less, ap length e))))

begin_fill-IsFilling :
    (total : ℕ) (block : List ℤ) (s : Stream)
    → s.held ≡ left s.queue
    → total * 2 ≤ length block
    → IsFilling total (begin_fill block s)
begin_fill-IsFilling total block s v room = ground arith

end_fill-EndsWell :
    (total : ℕ) (f : Filling) (e : FillEnd)
    → EndsWell total f e
    → EndsWell total f (end_fill total e)
unfolding EndsWell end_fill finish_fill
end_fill-EndsWell total f (filling g) w = ground arith
end_fill-EndsWell total f out_of_fuel w = w

-- `fill` ends by its own test, and what it did is accounted for.
fill-EndsWell :
    (total : ℕ) (block : List ℤ) (s : Stream)
    → s.held ≡ left s.queue
    → total * 2 ≤ length block
    → EndsWell total (begin_fill block s) (fill total block s)
unfolding fill
fill-EndsWell total block s v room =
    let f = begin_fill block s in
    end_fill-EndsWell total f (fill_from (enough total s) total f s.queue) (
      fill_from-EndsWell (enough total s) total f s.queue refl
        (begin_fill-IsFilling total block s v room) (omega arith))

-- What a stream has had: the frames that it holds, played, threw away as late, and eased over.
abbrev pub taken : Stream → ℕ
taken s = s.held + s.placed + s.late + s.eased

-- What a call of `read` for `size` samples has to show. Of the frames of a block some are blended,
-- which come from no chunk, and the others are played or silent.
unfoldable pub Reads : ℕ → Stream → ReadEnd → Type 0
Reads size s (over s') = IsValid s' × (taken s' ≡ taken s)
Reads size s (goes_on s' block) =
    IsValid s'
    × (length block ≡ size)
    × (s'.index ≡ s.index +ℤ pos (size / 2))
    × ((blended : ℕ) × (blended ≤ size / 2)
        × (taken s' ≡ taken s + blended)
        × (s'.placed + s'.silence + blended ≡ s.placed + s.silence + size / 2))
Reads size s starved = ⊥

end_read-Reads :
    (scale : List ℤ → List ℤ) (size : ℕ) (s met : Stream) (e : FillEnd)
    → ((block : List ℤ) → length (scale block) ≡ length block)
    → IsValid met
    → taken met ≡ taken s
    → met.index ≡ s.index
    → met.placed + met.silence ≡ s.placed + s.silence
    → EndsWell (size / 2) (begin_fill (replicate size (pos 0)) met) e
    → Reads size s (end_read scale (size / 2) e)
unfolding EndsWell Reads end_read count_block
end_read-Reads scale size s met (filling f) keeps v t i p w =
    let size_of : length (replicate size (pos 0)) ≡ size = length-replicate size (pos 0) in
    let same = keeps f.block in
    let ahead = w.index ∙ i in
    (
      ground arith,
      omega (arith, size_of, same, w.block),
      ap (λ (z : ℤ). z +ℤ pos (size / 2)) ahead,
      (f.blended, ground arith, ground arith, ground arith),
    )
end_read-Reads scale size s met out_of_fuel keeps v t i p w = w

-- A read of a stream that counts what its queue has left, and is within its bounds, ends. If it goes
-- on, it gives exactly the samples asked for and moves the index on by their frames, each of which was
-- played, silent or blended; and every frame that was held is still held, was played, came too late or
-- was eased away. The counts and the bounds hold afterwards. The ducking is assumed to keep the length
-- of the block.
pub read-Reads :
    (scale : List ℤ → List ℤ) (now : ℤ) (size : ℕ) (s : Stream)
    → ((block : List ℤ) → length (scale block) ≡ length block)
    → IsValid s
    → Reads size s (read scale now size s)
unfolding read meet_reader Reads EndsWell
read-Reads scale now size s keeps v =
    let total = size / 2 in
    let block = replicate size (pos 0) in
    let met = meet_reader now s in
    let room : total * 2 ≤ length block = omega (arith, length-replicate size (pos 0)) in
    let begun = begin_fill-IsFilling total block met v.counts room in
    if_case (Reads size s) (s.closed || s.spent) (over s)
      (if s.done
        then over (record s { spent = true })
        else end_read scale total
            (if s.anchored then fill total block met else filling (begin_fill block met)))
      (λ _. (v, refl))
      (λ _.
        if_case (Reads size s) s.done (over (record s { spent = true }))
          (end_read scale total
            (if s.anchored then fill total block met else filling (begin_fill block met)))
          (λ _. (record { counts = v.counts; fits = v.fits; few = v.few }, refl))
          (λ _.
            end_read-Reads scale size s met _ keeps
              (record { counts = v.counts; fits = v.fits; few = v.few }) refl refl refl
              (if_case (EndsWell total (begin_fill block met)) s.anchored (fill total block met)
                (filling (begin_fill block met)) (λ _. fill-EndsWell total block met v.counts room)
                (λ _. Fills-refl total (begin_fill block met) begun))))
