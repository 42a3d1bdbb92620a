-- ===== src/Audio/Anchor/Learns.antt =====
-- internal/audio/stream.go, `place`: when it anchors a stream.
use mathlib.Core.Path.{subst}
use overdub.Base.{
  ℕ, ◌+◌, ◌≤◌, ◌<◌, ◌≡◌, ap, sym, ◌∙◌, Bool, true, false, List, [], ◌∷◌, length, All, ◌==◌, arith,
  length-append, Bool-cases, inl, inr,
}
use overdub.Base.Int.{ℤ, ◌+ℤ◌}
use overdub.Audio.Stream.{Stream, anchor_take, frame_time}
use overdub.Audio.Anchor.{Point, place, place_met, meet, learn, candidates_with}
use overdub.Audio.Anchor.Slips.{places}

abbrev pub Waits : Stream → Stream → Type 0
Waits s s' =
    (s'.anchored ≡ false)
    × (s'.bursty ≡ s.bursty)
    × (length s'.candidates ≡ length s.candidates + 1)

meet_same :
    (p : Point) (s : Stream)
    → p.bursty ≡ s.bursty
    → ((meet p s).anchored ≡ s.anchored)
      × ((meet p s).bursty ≡ s.bursty)
      × ((meet p s).candidates ≡ s.candidates)
unfolding meet
meet_same p s h = ground arith

length-candidates_with :
    (due : ℤ) (s : Stream) → length (candidates_with due s) ≡ length s.candidates + 1
unfolding candidates_with
length-candidates_with due s = length-append s.candidates _

learn_early :
    (due : ℤ) (p : Point) (s : Stream)
    → s.anchored ≡ false
    → length s.candidates + 1 < anchor_take
    → Waits s (place_met due p s).0
unfolding place_met learn
learn_early due p s a h = ground (arith, length-candidates_with due s)

learn_last :
    (due : ℤ) (p : Point) (s : Stream)
    → s.anchored ≡ false
    → length s.candidates + 1 ≡ anchor_take
    → (place_met due p s).0.anchored ≡ true
unfolding place_met learn
learn_last due p s a h = ground (arith, length-candidates_with due s)

place_early :
    (p : Point) (s : Stream)
    → s.anchored ≡ false
    → p.bursty ≡ s.bursty
    → length s.candidates + 1 < anchor_take
    → Waits s (place p s).0
unfolding place
place_early p s a k h =
    let (same, kind, taken) = meet_same p s k in
    let due = p.at +ℤ frame_time s.rate p.ahead in
    let counted = ap length taken in
    let (still, kind', grown) = learn_early due p (meet p s) (same ∙ a) (omega arith) in
    (still, kind' ∙ kind, omega arith)

place_last :
    (p : Point) (s : Stream)
    → s.anchored ≡ false
    → p.bursty ≡ s.bursty
    → length s.candidates + 1 ≡ anchor_take
    → (place p s).0.anchored ≡ true
unfolding place
place_last p s a k h =
    let (same, kind, taken) = meet_same p s k in
    learn_last (p.at +ℤ frame_time s.rate p.ahead) p (meet p s) (same ∙ a)
      (ap (λ (l : List ℤ). length l + 1) taken ∙ h)

-- A stream that is not anchored, whose player stays bursty or stays not so, is anchored by the reading
-- that gives it its fifth candidate, and by none before.
pub places_anchor :
    (ps : List Point) (s : Stream)
    → s.anchored ≡ false
    → All (λ (p : Point). p.bursty ≡ s.bursty) ps
    → length s.candidates + length ps ≤ anchor_take
    → length s.candidates < anchor_take
    → (places ps s).anchored ≡ (length s.candidates + length ps == anchor_take)
unfolding places
places_anchor [] s a k h m = ground arith
places_anchor (p ∷ []) s a (k, ks) h m =
    elim (Bool-cases (length s.candidates + 1 == anchor_take)) [
      | inl e ↦ place_last p s a k (ground arith) ∙ sym e
      | inr e ↦ (place_early p s a k (ground arith)).0 ∙ sym e
    ]
places_anchor (p ∷ q ∷ ps) s a (k, ks) h m =
    let early = place_early p s a k (omega arith) in
    let same_kind =
      subst (λ (b : Bool). All (λ (r : Point). r.bursty ≡ b) (q ∷ ps)) (sym early.1) ks in
    let later =
      places_anchor (q ∷ ps) (place p s).0 early.0 same_kind (omega (arith, early.2))
        (omega (arith, early.2)) in
    later ∙ ap (λ (n : ℕ). n == anchor_take) (omega (arith, early.2))
