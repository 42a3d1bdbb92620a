-- ===== src/Esphome/Media/Volumes.antt =====
-- internal/esphome/media.go: the volume that waits while the worker sets another.
use mathlib.Core.List.{append-nil}
use overdub.Base.{
  ℕ, Bool, true, false, Option, none, some, List, [], ◌∷◌, ◌++◌, if◌then◌else◌, ◌≡◌, ◌⊎◌, inl, inr,
  refl, sym, ◌∙◌, arith, ap,
}
use overdub.Base.Int.{ℤ, pos, ◌+ℤ◌}
use overdub.Esphome.Media.{VolumeWant, VolumeSlot, merge_want, queue_volume, take_volume}

+ℤ_assoc : (a b c : ℤ) → (a +ℤ b) +ℤ c ≡ a +ℤ (b +ℤ c)
unfolding ◌+ℤ◌
+ℤ_assoc a b c = ground arith

-- A volume that is asked for, and a turn of the worker.
pub data VolumeStep : Type 0 where
  wants : VolumeWant → VolumeStep
  sets : VolumeStep

-- The slot, the volumes that were asked for, and those that the worker took, each the oldest first.
pub record VolumeLog : Type 0 where
  pub slot : VolumeSlot
  pub asked : List VolumeWant
  pub taken : List VolumeWant

unfoldable pub volume_step : VolumeStep → VolumeLog → VolumeLog
unfolding queue_volume take_volume
volume_step (wants want) l =
    let (s, starts) = queue_volume want l.slot in
    record l { slot = s; asked = l.asked ++ (want ∷ []) }
volume_step sets l =
    let (s, want) = take_volume l.slot in
    record l { slot = s; taken = elim want [ none ↦ l.taken | some w ↦ l.taken ++ (w ∷ []) ] }

unfoldable pub volume_steps : List VolumeStep → VolumeLog → VolumeLog
unfolding volume_step
volume_steps [] l = l
volume_steps (v ∷ vs) l = volume_steps vs (volume_step v l)

-- What a sequence of wants comes to: the fraction that was last asked for, if one was, and the steps
-- that were asked for since.
pub record Wish : Type 0 where
  pub fraction : Option ℕ
  pub steps : ℤ

abbrev pub wish_after : VolumeWant → Wish → Wish
wish_after w b =
    if w.absolute
    then record { fraction = some w.fraction; steps = w.steps }
    else record { fraction = b.fraction; steps = b.steps +ℤ w.steps }

unfoldable pub wish_of : List VolumeWant → Wish → Wish
wish_of [] b = b
wish_of (w ∷ ws) b = wish_of ws (wish_after w b)

abbrev pub no_wish : Wish
no_wish = record { fraction = none; steps = pos 0 }

wish_of-append :
    (xs ys : List VolumeWant) (b : Wish) → wish_of (xs ++ ys) b ≡ wish_of ys (wish_of xs b)
unfolding wish_of
wish_of-append [] ys b = refl
wish_of-append (x ∷ xs) ys b = wish_of-append xs ys (wish_after x b)

merge_want-wish_after :
    (was want : VolumeWant) (b : Wish)
    → wish_after (merge_want true was want) b ≡ wish_after want (wish_after was b)
unfolding merge_want
merge_want-wish_after was want b = ground (arith, +ℤ_assoc b.steps was.steps want.steps)

-- What waits in the slot.
abbrev pub pending : VolumeSlot → List VolumeWant
pending s = if s.has_pending then s.want ∷ [] else []

-- What was asked for comes to what was taken and what waits, and a worker runs while one waits.
IsHonoured : VolumeLog → Type 0
IsHonoured l =
    (wish_of (l.taken ++ pending l.slot) no_wish ≡ wish_of l.asked no_wish)
    × ((l.slot.has_pending ≡ false) ⊎ (l.slot.working ≡ true))

queued_wish :
    (has_pending : Bool) (was want : VolumeWant) (taken asked : List VolumeWant)
    → wish_of (taken ++ (if has_pending then was ∷ [] else [])) no_wish ≡ wish_of asked no_wish
    → wish_of (taken ++ (merge_want has_pending was want ∷ [])) no_wish
      ≡ wish_of (asked ++ (want ∷ [])) no_wish
unfolding wish_of
queued_wish true was want taken asked kept =
    wish_of-append taken (merge_want true was want ∷ []) no_wish
    ∙ merge_want-wish_after was want (wish_of taken no_wish)
    ∙ ap (wish_after want) (sym (wish_of-append taken (was ∷ []) no_wish) ∙ kept)
    ∙ sym (wish_of-append asked (want ∷ []) no_wish)
queued_wish false was want taken asked kept =
    let alone : merge_want false was want ≡ want = unfold merge_want in refl in
    wish_of-append taken (merge_want false was want ∷ []) no_wish
    ∙ ap (λ w. wish_after w (wish_of taken no_wish)) alone
    ∙ ap (wish_after want) (ap (λ ws. wish_of ws no_wish) (sym (append-nil taken)) ∙ kept)
    ∙ sym (wish_of-append asked (want ∷ []) no_wish)

taken_wish :
    (has_pending working : Bool) (want : VolumeWant) (taken asked : List VolumeWant)
    → wish_of (taken ++ (if has_pending then want ∷ [] else [])) no_wish ≡ wish_of asked no_wish
    → IsHonoured (
        volume_step sets (record {
          slot = record { want = want; has_pending = has_pending; working = working };
          asked = asked;
          taken = taken;
        }))
unfolding IsHonoured volume_step take_volume
taken_wish true working want taken asked kept =
    (ap (λ ws. wish_of ws no_wish) (append-nil (taken ++ (want ∷ []))) ∙ kept, inl refl)
taken_wish false working want taken asked kept = (kept, inl refl)

volume_step-IsHonoured :
    (v : VolumeStep) (l : VolumeLog) → IsHonoured l → IsHonoured (volume_step v l)
unfolding IsHonoured volume_step wish_of
volume_step-IsHonoured (wants want) l (kept, runs) =
    (queued_wish l.slot.has_pending l.slot.want want l.taken l.asked kept, inr refl)
volume_step-IsHonoured sets l (kept, runs) =
    taken_wish l.slot.has_pending l.slot.working l.slot.want l.taken l.asked kept

volume_steps-IsHonoured :
    (vs : List VolumeStep) (l : VolumeLog) → IsHonoured l → IsHonoured (volume_steps vs l)
unfolding volume_steps
volume_steps-IsHonoured [] l h = h
volume_steps-IsHonoured (v ∷ vs) l h =
    volume_steps-IsHonoured vs (volume_step v l) (volume_step-IsHonoured v l h)

settled :
    (l : VolumeLog)
    → wish_of (l.taken ++ pending l.slot) no_wish ≡ wish_of l.asked no_wish
    → (l.slot.has_pending ≡ false) ⊎ (l.slot.working ≡ true)
    → (l.slot.working ≡ true) ⊎ (wish_of l.taken no_wish ≡ wish_of l.asked no_wish)
settled l kept (inr runs) = inl runs
settled l kept (inl none_waits) = inr (
    ap (λ ws. wish_of ws no_wish) (sym (append-nil l.taken))
    ∙ ap (λ h. wish_of (l.taken ++ (if h then l.slot.want ∷ [] else [])) no_wish) (sym none_waits)
    ∙ kept)

-- However volumes are asked for and the worker takes turns, from a slot where none waits: what was
-- asked for comes to the same fraction and the same steps since as what the worker took and then what
-- waits, so nothing that was asked for is lost or counted twice; and a worker runs, or all of it was
-- taken. (Each want that is taken is kept within the range of the speaker by itself, in `applyVolume`.)
pub volume_steps-wish_of :
    (vs : List VolumeStep) (slot : VolumeSlot)
    → slot.has_pending ≡ false
    → let l = volume_steps vs (record { slot = slot; asked = []; taken = [] }) in
      (wish_of (l.taken ++ pending l.slot) no_wish ≡ wish_of l.asked no_wish)
      × ((l.slot.working ≡ true) ⊎ (wish_of l.taken no_wish ≡ wish_of l.asked no_wish))
unfolding IsHonoured wish_of
volume_steps-wish_of vs slot none_waits =
    let l : VolumeLog = volume_steps vs (record { slot = slot; asked = []; taken = [] }) in
    let (kept, runs) =
      volume_steps-IsHonoured vs (record { slot = slot; asked = []; taken = [] })
        (ap (λ h. wish_of (if h then slot.want ∷ [] else []) no_wish) none_waits, inl none_waits) in
    (kept, settled l kept runs)
