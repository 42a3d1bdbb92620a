-- ===== src/Button/Gesture/Counts.antt =====
-- internal/button/button.go, `MultiPress`: each press is reported exactly once.
use overdub.Base.{
  ℕ, zero, suc, ◌+◌, ◌≡◌, ◌≢◌, refl, List, [], ◌∷◌, ◌++◌, arith, leb, ◌==◌, Bool-cases, inl, inr,
}
use overdub.Button.Gesture.{
  press_end, multi_end, long_start, long_end, Fire, hold_timer, gap_timer, MultiPress, report, down,
  up, held, closed, Event, key_down, key_up, expires, step, run,
}

-- The releases of the key that a report stands for. A long press is counted when it ends.
abbrev pub presses_of : Fire → ℕ
presses_of f = elim f.gesture [
  | press_end ↦ 1
  | multi_end ↦ f.count
  | long_start ↦ 0
  | long_end ↦ 1
]

abbrev pub presses : List Fire → ℕ
presses [] = 0
presses (f ∷ fs) = presses_of f + presses fs

abbrev pub ups : List Event → ℕ
ups [] = 0
ups (key_up d ∷ es) = 1 + ups es
ups (key_down ∷ es) = ups es
ups (expires t ∷ es) = ups es

pub presses-append : (xs ys : List Fire) → presses (xs ++ ys) ≡ presses xs + presses ys
presses-append [] ys = omega arith
presses-append (x ∷ xs) ys = omega (arith, presses-append xs ys)

pub presses-report : (n : ℕ) → presses (report n) ≡ n
unfolding report
presses-report zero = refl
presses-report (suc zero) = refl
presses-report (suc (suc n)) = omega arith

step-presses :
    (e : Event) (m : MultiPress)
    → presses (step e m).1 + (step e m).0.count ≡ ups (e ∷ []) + m.count
unfolding step down up held closed
step-presses key_down m = omega arith
step-presses (key_up d) m = elim (Bool-cases m.holding) [
  | inl h ↦ rw h (omega arith)
  | inr h ↦ elim (Bool-cases (leb m.hold_time d)) [
    | inl long ↦ rw h (rw long (rw presses-append (omega (arith, presses-report m.count))))
    | inr short ↦ rw h (rw short (omega arith))
  ]
]
step-presses (expires (hold_timer g)) m = elim (Bool-cases (g == m.gen)) [
  | inl h ↦ rw h (rw presses-append (omega (arith, presses-report m.count)))
  | inr h ↦ rw h (omega arith)
]
step-presses (expires (gap_timer g)) m = elim (Bool-cases (g == m.gen)) [
  | inl h ↦ rw h (omega (arith, presses-report m.count))
  | inr h ↦ rw h (omega arith)
]

ups-cons : (e : Event) (es : List Event) → ups (e ∷ es) ≡ ups (e ∷ []) + ups es
ups-cons key_down es = omega arith
ups-cons (key_up d) es = omega arith
ups-cons (expires t) es = omega arith

-- Over any events, in any order and with any late callbacks, the reports and the count that waits
-- for the gap add up to the releases of the key.
pub run-presses :
    (es : List Event) (m : MultiPress)
    → presses (run es m).1 + (run es m).0.count ≡ ups es + m.count
unfolding run
run-presses [] m = omega arith
run-presses (e ∷ es) m =
    rw presses-append (omega (arith, step-presses e m, run-presses es (step e m).0, ups-cons e es))

-- A callback of another generation changes nothing and reports nothing.
pub step_stale :
    (g : ℕ) (m : MultiPress)
    → g ≢ m.gen
    → (step (expires (hold_timer g)) m ≡ (m, [])) × (step (expires (gap_timer g)) m ≡ (m, []))
unfolding step held closed
step_stale g m h = ground arith
