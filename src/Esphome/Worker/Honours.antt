-- ===== src/Esphome/Worker/Honours.antt =====
-- internal/esphome/server.go: no wish is lost.
use overdub.Base.{
  Bool, true, false, Option, some, List, [], ◌∷◌, ◌≡◌, ◌⊎◌, inl, refl, arith, if_case,
}
use overdub.Esphome.Worker.{
  Slot, Hand, idle, looping, applying, Desk, Errand, wishes, observes, takes, finishes, settle_slot,
  errand, errands, fresh_desk,
}

-- Between two turns the slot has the last wish, or it was carried out.
unfoldable pub Tends : {A : Type 0} → Hand A → Desk A → Type 0
Tends idle d = (d.slot.working ≡ false) × (d.slot.has_pending ≡ false) × (d.wished ≡ d.done)
Tends looping d =
    (d.slot.working ≡ true)
    × (((d.slot.has_pending ≡ true) × (d.wished ≡ some d.slot.pending))
        ⊎ ((d.slot.has_pending ≡ false) × (d.wished ≡ d.done) × (d.done ≡ some d.slot.pending)))
Tends (applying want) d =
    (d.slot.working ≡ true)
    × (d.wished ≡ some d.slot.pending)
    × ((d.slot.has_pending ≡ true) ⊎ (d.slot.pending ≡ want))

unfoldable pub IsKept : {A : Type 0} → Desk A → Type 0
unfolding Tends
IsKept d = Tends d.hand d × ((d.slot.settled ≡ false) ⊎ (d.done ≡ some d.slot.live))

desk_of : {A : Type 0} → Slot A → Hand A → Option A → Option A → Desk A
desk_of s hand wished did = record { slot = s; hand = hand; wished = wished; done = did }

module _ {A : Type 0} (same : A → A → Bool) (same_eq : (a b : A) → same a b ≡ true → a ≡ b) where
  wish-IsKept :
      (want : A) (s : Slot A) (hand : Hand A) (wished did : Option A)
      → IsKept (desk_of s hand wished did)
      → IsKept (errand same (wishes want) (desk_of s hand wished did))
  unfolding IsKept errand desk_of
  wish-IsKept want s idle wished did k = ground (arith, same_eq s.live want)
  wish-IsKept want s looping wished did k = ground (arith, same_eq s.pending want)
  wish-IsKept want s (applying v) wished did k = ground (arith, same_eq s.pending want)

  observe-IsKept :
      (live : A) (s : Slot A) (hand : Hand A) (wished did : Option A)
      → IsKept (desk_of s hand wished did)
      → IsKept (errand same (observes live) (desk_of s hand wished did))
  unfolding IsKept errand desk_of
  observe-IsKept live s idle wished did k = ground arith
  observe-IsKept live s looping wished did k = ground arith
  observe-IsKept live s (applying v) wished did k = ground arith

  take-IsKept :
      (s : Slot A) (hand : Hand A) (wished did : Option A)
      → IsKept (desk_of s hand wished did)
      → IsKept (errand same takes (desk_of s hand wished did))
  unfolding IsKept errand desk_of
  take-IsKept s idle wished did k = k
  take-IsKept s looping wished did k =
      if_case {A = Slot A × Hand A} (λ x. IsKept (desk_of x.0 x.1 wished did)) s.has_pending
        (record s { has_pending = false }, applying s.pending) (record s { working = false }, idle)
        (λ e. ground arith) (λ e. ground arith)
  take-IsKept s (applying v) wished did k = k

  finish-IsKept :
      (live : A) (ok : Bool) (s : Slot A) (hand : Hand A) (wished did : Option A)
      → IsKept (desk_of s hand wished did)
      → IsKept (errand same (finishes live ok) (desk_of s hand wished did))
  unfolding IsKept errand desk_of
  finish-IsKept live ok s idle wished did k = k
  finish-IsKept live ok s looping wished did k = k
  finish-IsKept live ok s (applying v) wished did k = ground (arith, same_eq live v)

  errand-IsKept : (e : Errand A) (d : Desk A) → IsKept d → IsKept (errand same e d)
  unfolding desk_of
  errand-IsKept (wishes want) d k = wish-IsKept want d.slot d.hand d.wished d.done k
  errand-IsKept (observes live) d k = observe-IsKept live d.slot d.hand d.wished d.done k
  errand-IsKept takes d k = take-IsKept d.slot d.hand d.wished d.done k
  errand-IsKept (finishes live ok) d k = finish-IsKept live ok d.slot d.hand d.wished d.done k

  errands-IsKept : (es : List (Errand A)) (d : Desk A) → IsKept d → IsKept (errands same es d)
  unfolding errands
  errands-IsKept [] d k = k
  errands-IsKept (e ∷ es) d k = errands-IsKept es (errand same e d) (errand-IsKept e d k)

  -- The worker by itself: it finishes what it has in hand, takes the next wish, finishes it, and finds
  -- no other.
  unfoldable pub rest_of : A → Bool → A → Bool → List (Errand A)
  rest_of live ok live' ok' = finishes live ok ∷ takes ∷ finishes live' ok' ∷ takes ∷ []

  loop_alone :
      (live : A) (ok : Bool) (s : Slot A) (wished did : Option A)
      → IsKept (desk_of s looping wished did)
      → let d =
          errands same (takes ∷ finishes live ok ∷ takes ∷ []) (desk_of s looping wished did) in
        (d.hand ≡ idle) × (d.done ≡ wished)
  unfolding IsKept errands desk_of
  loop_alone live ok s wished did k =
      if_case {A = Slot A × Hand A}
        (λ x.
          let d = errands same (finishes live ok ∷ takes ∷ []) (desk_of x.0 x.1 wished did) in
          (d.hand ≡ idle) × (d.done ≡ wished))
        s.has_pending (record s { has_pending = false }, applying s.pending)
        (record s { working = false }, idle) (λ e. ground arith) (λ e. ground arith)

  finish_alone :
      (live : A) (ok : Bool) (live' : A) (ok' : Bool) (s : Slot A) (hand : Hand A)
      (wished did : Option A)
      → IsKept (desk_of s hand wished did)
      → let d = errands same (rest_of live ok live' ok') (desk_of s hand wished did) in
        (d.hand ≡ idle) × (d.done ≡ wished)
  unfolding IsKept errands desk_of rest_of
  finish_alone live ok live' ok' s idle wished did k = ground arith
  finish_alone live ok live' ok' s looping wished did k = loop_alone live' ok' s wished did k
  finish_alone live ok live' ok' s (applying v) wished did k =
      loop_alone live' ok' (settle_slot same v live ok s) wished (some v)
        (finish-IsKept live ok s (applying v) wished did k)

  -- No wish is lost. However wishes, looks at the device and turns of the worker came before, the
  -- worker by itself finishes what it has in hand, takes a wish, finishes it and finds no other: it is
  -- then gone, and the last that was carried out is the last wish, whatever the device did.
  -- `same` is assumed to hold of equal wishes only.
  pub errands-done :
      (zero_value : A) (es : List (Errand A)) (live : A) (ok : Bool) (live' : A) (ok' : Bool)
      → let before = errands same es (fresh_desk zero_value) in
        let d = errands same (rest_of live ok live' ok') before in
        (d.hand ≡ idle) × (d.done ≡ before.wished)
  unfolding fresh_desk IsKept desk_of
  errands-done zero_value es live ok live' ok' =
      let before = errands same es (fresh_desk zero_value) in
      let kept = errands-IsKept es (fresh_desk zero_value) ((refl, refl, refl), inl refl) in
      finish_alone live ok live' ok' before.slot before.hand before.wished before.done kept
