-- ===== src/Audio/Anchor/Slips.antt =====
-- internal/audio/stream.go, `place`: how often it places a stream again, and what it leaves alone.
use overdub.Base.{
  suc, ◌+◌, ◌*◌, ◌≤◌, ◌≡◌, refl, ap, Bool, true, false, List, [], ◌∷◌, not, length, if◌then◌else◌,
  arith,
}
use overdub.Base.Int.{ℤ}
use overdub.Audio.Stream.{Queued, Stream}
use overdub.Audio.Stream.Queue.{IsValid, left}
use overdub.Audio.Anchor.{
  Point, Moved, place, place_met, meet, learn, follow, follow_jump, follow_first, follow_mean,
  hold_or_move, unease, unease_all,
}

left-unease_all : (queue : List Queued) → left (unease_all queue) ≡ left queue
unfolding left unease_all
left-unease_all [] = refl
left-unease_all (c ∷ queue) = ground (arith, left-unease_all queue)

length-unease_all : (queue : List Queued) → length (unease_all queue) ≡ length queue
unfolding unease_all
length-unease_all [] = refl
length-unease_all (c ∷ queue) = ap suc (length-unease_all queue)

-- The readings of the player, one after the other.
unfoldable pub places : List Point → Stream → Stream
places [] s = s
places (p ∷ ps) s = places ps (place p s).0

meet-IsValid : (p : Point) (s : Stream) → IsValid s → IsValid (meet p s)
unfolding meet unease
meet-IsValid p s v =
    let counts = v.counts in
    let fits = v.fits in
    let few = v.few in ground (arith, left-unease_all s.queue, length-unease_all s.queue)

-- Each move of the origin by a jump takes three readings in a row that are out of step.
follow-slips :
    (slip : ℤ) (s : Stream)
    → (s.outside ≤ 2)
    → ((follow slip s).0.outside ≤ 2)
      × (3 * (follow slip s).0.slips + (follow slip s).0.outside ≤ 3 * s.slips + s.outside + 1)
unfolding follow follow_jump follow_first follow_mean unease
follow-slips slip s h = ground arith

hold_or_move-slips :
    (due slip : ℤ) (s : Stream)
    → (s.outside ≤ 2)
    → ((hold_or_move due slip s).0.outside ≤ 2)
      × (3 * (hold_or_move due slip s).0.slips + (hold_or_move due slip s).0.outside
          ≤ 3 * s.slips + s.outside + 1)
unfolding hold_or_move unease
hold_or_move-slips due slip s h = ground arith

learn-slips :
    (due : ℤ) (p : Point) (s : Stream)
    → ((learn due p s).0.slips ≡ s.slips) × ((learn due p s).0.outside ≡ s.outside)
unfolding learn
learn-slips due p s = ground arith

meet-slips :
    (p : Point) (s : Stream) → ((meet p s).slips ≡ s.slips) × ((meet p s).outside ≤ s.outside)
unfolding meet unease
meet-slips p s = ground arith

by_kind :
    (anchored bursty : Bool) (s : Stream) (a b c : Stream × Moved)
    → (a.0.slips ≡ s.slips) × (a.0.outside ≡ s.outside)
    → (b.0.outside ≤ 2) × (3 * b.0.slips + b.0.outside ≤ 3 * s.slips + s.outside + 1)
    → (c.0.outside ≤ 2) × (3 * c.0.slips + c.0.outside ≤ 3 * s.slips + s.outside + 1)
    → s.outside ≤ 2
    → ((if not anchored then a else if bursty then b else c).0.outside ≤ 2)
      × (3 * (if not anchored then a else if bursty then b else c).0.slips
            + (if not anchored then a else if bursty then b else c).0.outside
          ≤ 3 * s.slips + s.outside + 1)
by_kind false bursty s a b c (ha, ha') hb hc h = (omega arith, omega arith)
by_kind true true s a b c ha hb hc h = hb
by_kind true false s a b c ha hb hc h = hc

place_met-slips :
    (due : ℤ) (p : Point) (s : Stream)
    → s.outside ≤ 2
    → ((place_met due p s).0.outside ≤ 2)
      × (3 * (place_met due p s).0.slips + (place_met due p s).0.outside
          ≤ 3 * s.slips + s.outside + 1)
unfolding place_met
place_met-slips due p s h =
    by_kind s.anchored p.bursty s _ _ _ (learn-slips due p s) (follow-slips _ s h)
      (hold_or_move-slips due _ s h) h

place-slips :
    (p : Point) (s : Stream)
    → s.outside ≤ 2
    → ((place p s).0.outside ≤ 2)
      × (3 * (place p s).0.slips + (place p s).0.outside ≤ 3 * s.slips + s.outside + 1)
unfolding place
place-slips p s h =
    let (same, fewer) = meet-slips p s in
    let (small, bound) = place_met-slips _ p (meet p s) (omega arith) in (small, omega arith)

-- A stream is placed again for its slip at most once in three readings of the player, those that it
-- has counted out of step before, at most two, among them.
pub places-slips :
    (ps : List Point) (s : Stream)
    → s.outside ≤ 2
    → 3 * (places ps s).slips ≤ 3 * s.slips + s.outside + length ps
unfolding places
places-slips [] s h = omega arith
places-slips (p ∷ ps) s h =
    let (small, bound) = place-slips p s h in omega (arith, places-slips ps (place p s).0 small)

place_met-IsValid : (due : ℤ) (p : Point) (s : Stream) → IsValid s → IsValid (place_met due p s).0
unfolding place_met learn follow follow_jump follow_first follow_mean hold_or_move unease
place_met-IsValid due p s v =
    let counts = v.counts in
    let fits = v.fits in
    let few = v.few in ground (arith, left-unease_all s.queue, length-unease_all s.queue)

-- Reading the player never changes what a stream holds, however it is placed.
pub places-IsValid : (ps : List Point) (s : Stream) → IsValid s → IsValid (places ps s)
unfolding places place meet
places-IsValid [] s v = v
places-IsValid (p ∷ ps) s v =
    places-IsValid ps (place p s).0 (place_met-IsValid _ p (meet p s) (meet-IsValid p s v))
