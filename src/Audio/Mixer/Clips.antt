-- ===== src/Audio/Mixer/Clips.antt =====
-- internal/audio/mixer.go: a clip that plays alone.
use mathlib.Core.List.{append_assoc, append-nil}
use overdub.Base.{
  ℕ, zero, suc, ◌+◌, ◌-◌, ◌≤◌, ◌<◌, ◌≡◌, refl, ap, sym, ◌∙◌, true, false, List, [], ◌∷◌, ◌++◌, All,
  arith, ltb, if◌then◌else◌, length, take, drop, replicate, length-replicate, take_all, length-take,
  length-drop, Bool-cases, inl, inr, take-append-drop,
}
use overdub.Base.Int.{ℤ, pos, ◌+ℤ◌}
use overdub.Audio.Mixer.{sum, IsSample, Clip, read_clip, add_samples, mix, next, add, start, rewind}

-- The blocks of `size` samples that the mixer plays until it has no source, at most `fuel` of them.
abbrev pub drain : ℕ → ℕ → List (ℕ × Clip) → List ℤ
drain zero size srcs = []
drain (suc fuel) size srcs =
    let r = next read_clip (replicate size (pos 0)) srcs in
    let rest = drain fuel size r.2 in if r.0 then r.1 ++ rest else []

sum_silence : (s : ℤ) → IsSample s → sum (pos 0) s ≡ s
unfolding sum ◌+ℤ◌
sum_silence s h = ground arith

add_to_silence :
    (n : ℕ) (ss : List ℤ)
    → length ss ≤ n
    → All IsSample ss
    → add_samples (replicate n (pos 0)) ss ≡ ss ++ replicate (n - length ss) (pos 0)
unfolding add_samples
add_to_silence n [] l h = let e : n - 0 ≡ n = omega arith in rw e refl
add_to_silence zero (s ∷ ss) l h = absurd (omega arith)
add_to_silence (suc n) (s ∷ ss) l (hs, h) =
    let e : suc n - suc (length ss) ≡ n - length ss = omega arith in
    rw (sum_silence s hs, e) (ap (λ t. s ∷ t) (add_to_silence n ss (omega arith) h))

All-take : (n : ℕ) (ss : List ℤ) → All IsSample ss → All IsSample (take n ss)
All-take zero ss h = tt
All-take (suc n) [] h = tt
All-take (suc n) (s ∷ ss) (hs, h) = (hs, All-take n ss h)

All-drop : (n : ℕ) (ss : List ℤ) → All IsSample ss → All IsSample (drop n ss)
All-drop zero ss h = h
All-drop (suc n) [] h = tt
All-drop (suc n) (s ∷ ss) (hs, h) = All-drop n ss h

drop_nil : (n : ℕ) → drop {A = ℤ} n [] ≡ []
drop_nil zero = refl
drop_nil (suc n) = refl

drop-drop : (m n : ℕ) (ss : List ℤ) → drop m (drop n ss) ≡ drop (n + m) ss
drop-drop m zero ss = let e : 0 + m ≡ m = omega arith in rw e refl
drop-drop m (suc n) [] = rw (drop_nil m) (rw (drop_nil (suc n + m)) refl)
drop-drop m (suc n) (s ∷ ss) =
    let e : suc n + m ≡ suc (n + m) = omega arith in rw e (drop-drop m n ss)

-- What a read takes, and the zeros that fill the block.
abbrev got : ℕ → Clip → List ℤ
got size c = take size (drop c.at c.pcm)

abbrev filled : ℕ → Clip → List ℤ
filled size c = got size c ++ replicate (size - length (got size c)) (pos 0)

next_clip :
    (size id : ℕ) (c : Clip)
    → All IsSample c.pcm
    → next read_clip (replicate size (pos 0)) ((id, c) ∷ []) ≡ (
      true,
      filled size c,
      if ltb (c.at + length (got size c)) (length c.pcm)
          then (id, record c { at = c.at + length (got size c) }) ∷ []
          else [],
    )
unfolding next mix read_clip
next_clip size id c h =
    let short : length (got size c) ≤ size = omega (arith, length-take size (drop c.at c.pcm)) in
    let sum_up =
      add_to_silence size (got size c) short
        (All-take size (drop c.at c.pcm) (All-drop c.at c.pcm h)) in
    rw (length-replicate size (pos 0)) (rw sum_up refl)

drain_none : (fuel size : ℕ) → drain fuel size [] ≡ []
unfolding next
drain_none zero size = refl
drain_none (suc fuel) size = refl

Plays : List ℤ → List ℤ → ℕ → Type 0
Plays out pcm size = (k : ℕ) × (k ≤ size) × (out ≡ pcm ++ replicate k (pos 0))

ltb-lt : (m n : ℕ) → ltb m n ≡ true → m < n
ltb-lt m n h = ground arith

ltb-le : (m n : ℕ) → ltb m n ≡ false → n ≤ m
ltb-le m n h = ground arith

more_blocks :
    (size : ℕ) (ss out zeros : List ℤ)
    → size - length (take size ss) ≡ 0
    → out ≡ drop size ss ++ zeros
    → (take size ss ++ replicate (size - length (take size ss)) (pos 0)) ++ out ≡ ss ++ zeros
more_blocks size ss out zeros full e = rw full (
    ap (λ l. l ++ out) (append-nil (take size ss))
    ∙ ap (λ l. take size ss ++ l) e
    ∙ sym (append_assoc (take size ss) (drop size ss) zeros)
    ∙ ap (λ l. l ++ zeros) (take-append-drop size ss))

module _ (fuel size id : ℕ) (c : Clip) (h : All IsSample c.pcm) where
  moved : Clip
  moved = record c { at = c.at + length (got size c) }

  drain_more :
      ltb (c.at + length (got size c)) (length c.pcm) ≡ true
      → Plays (drain fuel size ((id, moved) ∷ [])) (drop moved.at c.pcm) size
      → Plays (drain (suc fuel) size ((id, c) ∷ [])) (drop c.at c.pcm) size
  unfolding Plays moved
  drain_more going (k, small, e) =
      let lt : c.at + length (got size c) < length c.pcm = ltb-lt _ _ going in
      let full : size - length (got size c) ≡ 0 =
        omega (arith, length-take size (drop c.at c.pcm), length-drop c.at c.pcm) in
      let exact : length (got size c) ≡ size =
        omega (arith, length-take size (drop c.at c.pcm), length-drop c.at c.pcm) in
      (
        k,
        small,
        rw (next_clip size id c h, going)
            (more_blocks size (drop c.at c.pcm) _ _ full (
              e
              ∙ ap (λ l. l ++ replicate k (pos 0))
                  (sym (drop-drop (length (got size c)) c.at c.pcm)
                    ∙ ap (λ n. drop n (drop c.at c.pcm)) exact))),
      )

  drain_last :
      ltb (c.at + length (got size c)) (length c.pcm) ≡ false
      → Plays (drain (suc fuel) size ((id, c) ∷ [])) (drop c.at c.pcm) size
  unfolding Plays
  drain_last over =
      let short : length (drop c.at c.pcm) ≤ size =
        omega
          (arith, ltb-le _ _ over, length-take size (drop c.at c.pcm), length-drop c.at c.pcm) in
      let all = take_all size (drop c.at c.pcm) short in
      (
        size - length (got size c),
        omega arith,
        rw (next_clip size id c h, over, drain_none fuel size)
            (append-nil (filled size c)
              ∙ ap (λ l. l ++ replicate (size - length (got size c)) (pos 0)) all),
      )

shrinks :
    (fuel size : ℕ) (c : Clip)
    → 0 < size
    → length c.pcm - c.at < suc fuel
    → c.at + length (got size c) < length c.pcm
    → length c.pcm - (c.at + length (got size c)) < fuel
shrinks fuel size c p f lt =
    omega (arith, length-take size (drop c.at c.pcm), length-drop c.at c.pcm)

drain_clip :
    (fuel size id : ℕ) (c : Clip)
    → All IsSample c.pcm
    → 0 < size
    → length c.pcm - c.at < fuel
    → Plays (drain fuel size ((id, c) ∷ [])) (drop c.at c.pcm) size
unfolding moved
drain_clip zero size id c h p f = absurd (omega arith)
drain_clip (suc fuel) size id c h p f =
    elim (Bool-cases (ltb (c.at + length (got size c)) (length c.pcm))) [
      | inl going ↦ drain_more fuel size id c h going (
          drain_clip fuel size id (moved fuel size id c h) h p
            (shrinks fuel size c p f (ltb-lt _ _ going)))
      | inr over ↦ drain_last fuel size id c h over
    ]

-- A clip of int16 samples that is started in a mixer without sources, wherever it stopped before, is
-- played from its first sample to its last, each as it is, with zeros behind that are no more than a
-- block, in blocks of any size but 0: that is all that up to n + 1 blocks play, for n samples.
pub drain-start :
    (size id : ℕ) (c : Clip)
    → All IsSample c.pcm
    → 0 < size
    → (k : ℕ) × (k ≤ size)
      × (drain (length c.pcm + 1) size (start id c []) ≡ c.pcm ++ replicate k (pos 0))
unfolding start add rewind Plays
drain-start size id c h p =
    drain_clip (length c.pcm + 1) size id (record c { at = 0 }) h p (omega arith)
