-- ===== src/Sendspin/Transport/Bounds.antt =====
-- internal/sendspin/transport.go: `WriteTyped` ends, and its frames fit a Noise message.
use overdub.Base.{
  ℕ, zero, suc, ◌+◌, ◌≤◌, ◌≡◌, ◌≢◌, Bool, true, false, Option, some, List, [], ◌∷◌, ◌++◌, length,
  drop, min, leb, ◌==◌, arith, Bool-cases, Option-cases, inl, inr, length-take, length-drop, All,
  All-append,
}
use overdub.Sendspin.Transport.{
  msg_fragment, max_frame_body, max_noise_message, Sender, written, stuck, room, fragment_frame,
  seal, write_fragments, write_typed, Incoming,
}
use overdub.Sendspin.Transport.Frames.{deliver, written-injective}

module _ {S W : Type 0} (encrypt : S → List ℕ → Option (List ℕ × S))
    (put : W → List ℕ → Option W) where
  write_fragments-ne-stuck :
      (fuel : ℕ) (first : Bool) (kind : ℕ) (body : List ℕ) (s : Sender S W)
      → length body ≤ fuel
      → write_fragments encrypt put fuel first kind body s ≢ stuck
  unfolding write_fragments
  write_fragments-ne-stuck zero first kind [] s h = λ e. cc
  write_fragments-ne-stuck (suc fuel) first kind [] s h = λ e. cc
  write_fragments-ne-stuck zero first kind (b ∷ bs) s h = absurd (omega arith)
  write_fragments-ne-stuck (suc fuel) first kind (b ∷ bs) s h =
      let n : ℕ = min (room first) (length (b ∷ bs)) in
      let some_room : 65516 ≤ room first = ground arith in
      elim (Option-cases (seal encrypt put s (fragment_frame first kind n (b ∷ bs)))) [
        | inl e ↦ rw (e, write_fragments) (λ p. cc)
        | inr (s1, e) ↦
            rw (e, write_fragments)
              (write_fragments-ne-stuck fuel false kind (drop n (b ∷ bs)) s1
                (omega (arith, length-drop n (b ∷ bs))))
      ]

  -- `WriteTyped` ends on every message, whatever the cipher and the connection do.
  pub write_typed-ne-stuck :
      (kind : ℕ) (body : List ℕ) (s : Sender S W) → write_typed encrypt put kind body s ≢ stuck
  unfolding write_typed
  write_typed-ne-stuck kind body s h =
      ground (arith, write_fragments-ne-stuck (length body) true kind body s)

abbrev pub Fits : Incoming → Type 0
Fits m = length m.bytes ≤ max_noise_message

module _ {S : Type 0} (encrypt : S → List ℕ → Option (List ℕ × S))
    (grows : (s s' : S) (p c : List ℕ)
      → encrypt s p ≡ some (c, s')
      → length c ≤ length p + 16) where
  seal-Fits :
      (s s' : Sender S (List Incoming)) (p : List ℕ)
      → length p ≤ 65519
      → seal encrypt deliver s p ≡ some s'
      → All Fits s.wire
      → All Fits s'.wire
  unfolding seal
  seal-Fits s s' p le h a = elim (Option-cases (encrypt s.cipher p)) [
    | inl e ↦ absurd (ground arith)
    | inr ((c, sc), e) ↦
        let small : length c ≤ 65535 = omega (arith, grows s.cipher sc p c e) in
        let wire : s'.wire ≡ s.wire ++ (record { is_binary = true; bytes = c } ∷ []) =
          ground arith in
        rw wire (All-append Fits s.wire _ a (small, tt))
  ]

  length-fragment_frame :
      (first : Bool) (kind : ℕ) (body : List ℕ)
      → length (fragment_frame first kind (min (room first) (length body)) body) ≤ 65519
  length-fragment_frame true kind body =
      omega (arith, length-take (min (room true) (length body)) body)
  length-fragment_frame false kind body =
      omega (arith, length-take (min (room false) (length body)) body)

  write_fragments-Fits :
      (fuel : ℕ) (first : Bool) (kind : ℕ) (body : List ℕ) (s s' : Sender S (List Incoming))
      → write_fragments encrypt deliver fuel first kind body s ≡ written s'
      → All Fits s.wire
      → All Fits s'.wire
  unfolding write_fragments
  write_fragments-Fits zero first kind [] s s' h a = rw (written-injective h) at a
  write_fragments-Fits (suc fuel) first kind [] s s' h a = rw (written-injective h) at a
  write_fragments-Fits zero first kind (b ∷ bs) s s' h a = absurd (ground arith)
  write_fragments-Fits (suc fuel) first kind (b ∷ bs) s s' h a =
      let n : ℕ = min (room first) (length (b ∷ bs)) in
      let frame : List ℕ = fragment_frame first kind n (b ∷ bs) in
      elim (Option-cases (seal encrypt deliver s frame)) [
        | inl e ↦ absurd (let h' = rw (e, write_fragments) at h in cc)
        | inr (s1, e) ↦
            write_fragments-Fits fuel false kind (drop n (b ∷ bs)) s1 s'
              (rw (e, write_fragments) at h)
              (seal-Fits s s1 frame (length-fragment_frame first kind (b ∷ bs)) e a)
      ]

  -- Every frame that `WriteTyped` puts on the connection fits a Noise message of 65535 bytes, for
  -- messages of any length and a cipher that adds a tag of at most 16 bytes.
  pub write_typed-Fits :
      (kind : ℕ) (body : List ℕ) (s s' : Sender S (List Incoming))
      → write_typed encrypt deliver kind body s ≡ written s'
      → All Fits s.wire
      → All Fits s'.wire
  unfolding write_typed
  write_typed-Fits kind body s s' h a = elim (Bool-cases (kind == msg_fragment)) [
    | inl e ↦ absurd (ground arith)
    | inr other ↦ elim (Bool-cases (leb (length body) max_frame_body)) [
      | inl small ↦ seal-Fits s s' (kind ∷ body) (ground arith) (ground arith) a
      | inr big ↦ write_fragments-Fits (length body) true kind body s s' (ground arith) a
    ]
  ]
