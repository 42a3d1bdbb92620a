-- ===== src/Audio/Stream/Places.antt =====
-- internal/audio/stream.go, `Write`: where a chunk is put in the queue.
use mathlib.Core.Path.{subst}
use overdub.Base.{
  ℕ, zero, suc, ◌≤◌, ◌≡◌, refl, ap, sym, ◌∙◌, true, false, Option, none, some, List, [], ◌∷◌, ◌++◌,
  ◌&&◌, length, take, drop, get_elem?, ◌==◌, All, arith, Bool-cases, Option-cases, inl, inr,
  take-append-drop, ◌≢◌,
}
use overdub.Base.Int.{ℤ, ltb_ℤ}
use overdub.Audio.Mixer.{decode}
use overdub.Audio.Stream.{
  Queued, Stream, write, insert_chunk, place_from, unease_head, accepted, fresh,
}

-- A chunk that is due later than `at` and has not begun.
abbrev pub Later : ℤ → Queued → Type 0
Later at c = (ltb_ℤ at c.at && (c.off == 0)) ≡ true

abbrev pub Sooner : ℤ → Queued → Type 0
Sooner at c = (ltb_ℤ at c.at && (c.off == 0)) ≡ false

-- The last chunk of a list, if there is one, is due no later or has begun.
pub EndsSooner : ℤ → List Queued → Type 0
EndsSooner at [] = Unit
EndsSooner at (c ∷ []) = Sooner at c
EndsSooner at (c ∷ d ∷ cs) = EndsSooner at (d ∷ cs)

drop_elem :
    (i : ℕ) (queue : List Queued) (c : Queued)
    → get_elem? queue i ≡ some c
    → drop i queue ≡ c ∷ drop (suc i) queue
drop_elem i [] c e = absurd cc
drop_elem zero (d ∷ queue) c e = ground arith
drop_elem (suc i) (d ∷ queue) c e = drop_elem i queue c e

ends_at :
    (at : ℤ) (i : ℕ) (queue : List Queued) (c : Queued)
    → get_elem? queue i ≡ some c
    → Sooner at c
    → EndsSooner at (take (suc i) queue)
unfolding EndsSooner
ends_at at i [] c e h = tt
ends_at at zero (d ∷ queue) c e h =
    let same : d ≡ c = ap (λ (o : Option Queued). elim o [ none ↦ d | some x ↦ x ]) e in
    ap (λ (x : Queued). ltb_ℤ at x.at && (x.off == 0)) same ∙ h
ends_at at (suc i) (d ∷ []) c e h = absurd cc
ends_at at (suc i) (d ∷ d' ∷ queue) c e h = ends_at at i (d' ∷ queue) c e h

no_elem : (i : ℕ) (queue : List Queued) → suc i ≤ length queue → get_elem? queue i ≢ none
no_elem i [] h = absurd (omega arith)
no_elem zero (c ∷ queue) h = λ e. cc
no_elem (suc i) (c ∷ queue) h = no_elem i queue (omega arith)

place_past_end :
    (queue : List Queued) (at : ℤ) (i : ℕ)
    → get_elem? queue i ≡ none
    → place_from queue at (suc i) ≡ suc i
unfolding place_from
place_past_end queue at i e = ground arith

place_further :
    (queue : List Queued) (at : ℤ) (i : ℕ) (c : Queued)
    → get_elem? queue i ≡ some c
    → Later at c
    → place_from queue at (suc i) ≡ place_from queue at i
unfolding place_from
place_further queue at i c e later = ground arith

place_stays :
    (queue : List Queued) (at : ℤ) (i : ℕ) (c : Queued)
    → get_elem? queue i ≡ some c
    → Sooner at c
    → place_from queue at (suc i) ≡ suc i
unfolding place_from
place_stays queue at i c e sooner = ground arith

abbrev Behind : List Queued → ℤ → ℕ → Type 0
Behind queue at i = All (Later at) (drop i queue)

place_from-Behind :
    (queue : List Queued) (at : ℤ) (i : ℕ)
    → Behind queue at i
    → Behind queue at (place_from queue at i)
unfolding place_from
place_from-Behind queue at zero h = h
place_from-Behind queue at (suc i) h = elim (Option-cases (get_elem? queue i)) [
  | inl e ↦ subst (Behind queue at) (sym (place_past_end queue at i e)) h
  | inr (c, e) ↦ elim (Bool-cases (ltb_ℤ at c.at && (c.off == 0))) [
    | inl later ↦ subst (Behind queue at) (sym (place_further queue at i c e later)) (
        place_from-Behind queue at i
          (subst (All (Later at)) (sym (drop_elem i queue c e)) (later, h)))
    | inr sooner ↦ subst (Behind queue at) (sym (place_stays queue at i c e sooner)) h
  ]
]

abbrev Before : List Queued → ℤ → ℕ → Type 0
Before queue at i = EndsSooner at (take i queue)

place_from-Before :
    (queue : List Queued) (at : ℤ) (i : ℕ)
    → i ≤ length queue
    → Before queue at (place_from queue at i)
unfolding place_from EndsSooner
place_from-Before queue at zero h = tt
place_from-Before queue at (suc i) h = elim (Option-cases (get_elem? queue i)) [
  | inl e ↦ absurd (no_elem i queue h e)
  | inr (c, e) ↦ elim (Bool-cases (ltb_ℤ at c.at && (c.off == 0))) [
    | inl later ↦
        subst (Before queue at) (sym (place_further queue at i c e later))
          (place_from-Before queue at i (omega arith))
    | inr sooner ↦
        subst (Before queue at) (sym (place_stays queue at i c e sooner))
          (ends_at at i queue c e sooner)
  ]
]

drop_whole : (queue : List Queued) → drop (length queue) queue ≡ []
drop_whole [] = refl
drop_whole (c ∷ queue) = drop_whole queue

-- A chunk that `Write` accepts is put behind what is due no later or has begun, and in front of
-- chunks that are all due later and have not begun; of these the first is placed anew, and nothing
-- else of the queue changes.
pub write_places :
    (now at : ℤ) (pcm : List ℕ) (s : Stream)
    → (write now at pcm s).1 ≡ accepted
    → (before : List Queued) × (after : List Queued) × (s.queue ≡ before ++ after)
      × ((write now at pcm s).0.queue ≡ before ++ (fresh at (decode pcm) ∷ unease_head after))
      × EndsSooner at before
      × All (Later at) after
unfolding write insert_chunk
write_places now at pcm s h =
    let i = place_from s.queue at (length s.queue) in
    (
      take i s.queue,
      drop i s.queue,
      sym (take-append-drop i s.queue),
      ground arith,
      place_from-Before s.queue at (length s.queue) (omega arith),
      place_from-Behind s.queue at (length s.queue)
          (subst (All (Later at)) (sym (drop_whole s.queue)) tt),
    )
