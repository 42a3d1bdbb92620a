-- ===== src/Button/Gesture/Traces.antt =====
-- internal/button/button.go, `MultiPress` with the key and the timers that it can have: the reports
-- of long presses are paired, and nothing is reported inside one.
use overdub.Base.{
  ℕ, zero, suc, ◌^◌, ◌≤◌, ◌<◌, ◌≡◌, refl, Bool, true, false, Option, none, some, List, [], ◌∷◌,
  ◌++◌, arith, ◌==◌, if◌then◌else◌, ◌∙◌,
}
use overdub.Button.Gesture.{
  press_end, multi_end, long_start, long_end, Fire, MultiPress, report, down, up, held, closed,
  new_multi_press, next_gen,
}

-- A `MultiPress`, whether the key is down, and the callbacks that have not run yet, by generation.
pub record World : Type 0 where
  pub m : MultiPress
  pub is_down : Bool
  pub holds : ℕ → Bool
  pub gaps : ℕ → Bool

abbrev pub mark : ℕ → Bool → (ℕ → Bool) → ℕ → Bool
mark g v f k = if k == g then v else f k

abbrev pub mark_armed : Option ℕ → (ℕ → Bool) → ℕ → Bool
mark_armed none f = f
mark_armed (some g) f = mark g true f

-- The key alternates, and a callback runs once, at any time after its timer was made: also after
-- the timer was stopped.
pub data Move (w : World) : World → List Fire → Type 0 where
  press :
      w.is_down ≡ false
      → Move w
          (record w {
            m = down w.m;
            is_down = true;
            holds = mark_armed (down w.m).hold_armed w.holds;
          })
          []
  release :
      (d : ℕ)
      → w.is_down ≡ true
      → Move w
          (record w {
            m = (up d w.m).0;
            is_down = false;
            gaps = mark_armed (up d w.m).0.gap_armed w.gaps;
          })
          (up d w.m).1
  hold_fires :
      (g : ℕ)
      → w.holds g ≡ true
      → Move w (record w { m = (held g w.m).0; holds = mark g false w.holds }) (held g w.m).1
  gap_fires :
      (g : ℕ)
      → w.gaps g ≡ true
      → Move w (record w { m = (closed g w.m).0; gaps = mark g false w.gaps }) (closed g w.m).1

-- `n` moves, with all that was reported.
pub data Moves (w : World) : ℕ → World → List Fire → Type 0 where
  here : Moves w 0 w []
  next :
      {n : ℕ} {u v : World} {out more : List Fire}
      → Moves w n u out
      → Move u v more
      → Moves w (suc n) v (out ++ more)

-- Reads reports from a state in which a long press is or is not under way; `none` if they are not
-- in order.
pub follows : Bool → List Fire → Option Bool
follows b [] = some b
follows b (f ∷ fs) = elim f.gesture [
  | press_end ↦ if b then none else follows false fs
  | multi_end ↦ if b then none else follows false fs
  | long_start ↦ if b then none else follows true fs
  | long_end ↦ if b then follows false fs else none
]

follows-append :
    (b c : Bool) (xs ys : List Fire) → follows b xs ≡ some c → follows b (xs ++ ys) ≡ follows c ys
unfolding follows
follows-append b c [] ys h = ground arith
follows-append b c (x ∷ xs) ys h =
    ground (arith, follows-append true c xs ys, follows-append false c xs ys)

follows-report : (n : ℕ) → follows false (report n) ≡ some false
unfolding follows report
follows-report zero = refl
follows-report (suc zero) = refl
follows-report (suc (suc n)) = refl

pub record Inv (n : ℕ) (w : World) : Type 0 where
  pub gen_le : w.m.gen ≤ n
  pub up_quiet : w.is_down ≡ false → w.m.holding ≡ false
  pub gap_off : w.is_down ≡ true → w.m.gap_armed ≡ none
  pub hold_old : (g : ℕ) → w.holds g ≡ true → g ≤ w.m.gen
  pub hold_now : w.holds w.m.gen ≡ true → (w.is_down ≡ true) × (w.m.holding ≡ false)
  pub gap_old : (g : ℕ) → w.gaps g ≡ true → g ≤ w.m.gen
  pub gap_now : w.gaps w.m.gen ≡ true → w.is_down ≡ false

Move-Inv :
    {n : ℕ} {w v : World} {out : List Fire}
    → suc n < 2 ^ 64
    → Inv n w
    → Move w v out
    → Inv (suc n) v
unfolding down up held closed
Move-Inv {w} lt h (press e) = record {
  gen_le = ground arith;
  up_quiet = ground arith;
  gap_off = ground arith;
  hold_old = λ g p. ground (arith, h.hold_old g);
  hold_now = ground arith;
  gap_old = λ g p. ground (arith, h.gap_old g);
  gap_now = λ p. ground (arith, h.gap_old (next_gen w.m.gen));
}
Move-Inv {w} lt h (release d e) = record {
  gen_le = ground arith;
  up_quiet = ground arith;
  gap_off = ground arith;
  hold_old = λ g p. ground (arith, h.hold_old g);
  hold_now = λ p. ground (arith, h.hold_old (next_gen w.m.gen));
  gap_old = λ g p. ground (arith, h.gap_old g);
  gap_now = ground arith;
}
Move-Inv {w} lt h (hold_fires g e) = record {
  gen_le = ground arith;
  up_quiet = ground arith;
  gap_off = ground arith;
  hold_old = λ k p. ground (arith, h.hold_old k);
  hold_now = ground arith;
  gap_old = λ k p. ground (arith, h.gap_old k);
  gap_now = ground arith;
}
Move-Inv {w} lt h (gap_fires g e) = record {
  gen_le = ground arith;
  up_quiet = ground arith;
  gap_off = ground arith;
  hold_old = λ k p. ground (arith, h.hold_old k);
  hold_now = ground arith;
  gap_old = λ k p. ground (arith, h.gap_old k);
  gap_now = ground arith;
}

-- What one move reports takes the reader from the state of the long press before to that after.
Move-follows :
    {n : ℕ} {w v : World} {out : List Fire}
    → Inv n w
    → Move w v out
    → follows w.m.holding out ≡ some v.m.holding
unfolding down up held closed follows
Move-follows {w} h (press e) = refl
Move-follows {w} h (release d e) = ground (
  arith,
  follows-report w.m.count,
  follows-append false false (report w.m.count) (
      record { gesture = long_start; count = 0; hold_for = 0 }
      ∷ record { gesture = long_end; count = 0; hold_for = d }
      ∷ []),
)
Move-follows {w} h (hold_fires g e) = ground (
  arith,
  follows-report w.m.count,
  follows-append false false (report w.m.count)
      (record { gesture = long_start; count = 0; hold_for = 0 } ∷ []),
)
Move-follows {w} h (gap_fires g e) = ground (arith, follows-report w.m.count)

abbrev pub idle : ℕ → World
idle hold_time = record {
  m = new_multi_press hold_time;
  is_down = false;
  holds = λ _. false;
  gaps = λ _. false;
}

idle-Inv : (t : ℕ) → Inv 0 (idle t)
unfolding new_multi_press
idle-Inv t = record {
  gen_le = omega arith;
  up_quiet = λ _. refl;
  gap_off = λ _. refl;
  hold_old = λ g p. cc;
  hold_now = λ p. cc;
  gap_old = λ g p. cc;
  gap_now = λ p. cc;
}

Moves-Inv :
    (t : ℕ) {n : ℕ} {v : World} {out : List Fire} → n < 2 ^ 64 → Moves (idle t) n v out → Inv n v
Moves-Inv t lt here = idle-Inv t
Moves-Inv t lt (next r s) = Move-Inv lt (Moves-Inv t (omega arith) r) s

-- In every run from rest of fewer than 2^64 moves, the reports are in order: a long press starts
-- when none is under way and ends when one is, no press or multi press is reported in between, and
-- one is still under way at the end exactly when the struct says `holding`.
pub Moves-follows :
    (t : ℕ) {n : ℕ} {v : World} {out : List Fire}
    → n < 2 ^ 64
    → Moves (idle t) n v out
    → follows false out ≡ some v.m.holding
Moves-follows t lt here = unfold follows new_multi_press in refl
Moves-follows t lt (next r s) =
    follows-append _ _ _ _ (Moves-follows t (omega arith) r)
    ∙ Move-follows (Moves-Inv t (omega arith) r) s
