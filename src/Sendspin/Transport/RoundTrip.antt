-- ===== src/Sendspin/Transport/RoundTrip.antt =====
-- internal/sendspin/transport.go: what `WriteTyped` writes, a peer's `Read` returns.
use mathlib.Core.List.{append_assoc}
use overdub.Base.{
  ℕ, zero, suc, ◌+◌, ◌≤◌, ◌<◌, ◌≡◌, ◌≢◌, refl, ap, sym, ◌∙◌, Bool, true, false, Option, some, List,
  [], ◌∷◌, ◌++◌, length, take, drop, min, leb, ◌==◌, arith, Bool-cases, Option-cases, inl, inr,
  length-append, length-take, length-drop, take-append-drop, take_all,
}
use overdub.Sendspin.Transport.{
  msg_fragment, max_frame_body, max_message, Sender, written, room, fragment_frame, seal,
  write_fragments, write_typed, Incoming, Reader, received, returns, goes_on, read_plain,
  read_round, read_from, read,
}
use overdub.Sendspin.Transport.Frames.{
  deliver, midway, at_rest, plain_next, plain_last, plain_first, drop_all, regroup,
  written-injective,
}

module _ {S R : Type 0} (encrypt : S → List ℕ → Option (List ℕ × S))
    (decrypt : R → List ℕ → Option (List ℕ × R)) (Paired : S → R → Type 0)
    (opens : (s : S) (r : R) (p c : List ℕ) (s' : S)
      → Paired s r
      → encrypt s p ≡ some (c, s')
      → (r' : R) × (decrypt r c ≡ some (p, r')) × Paired s' r') where
  -- What was sent from `s` to `s'` is, for a reader in state `r` after `frames` rounds, the message
  -- `kind`, `body`, whatever follows it.
  abbrev pub Delivers :
      ℕ → Reader R → ℕ → List ℕ → Sender S (List Incoming) → Sender S (List Incoming) → Type 0
  Delivers frames r kind body s s' =
      (out : List Incoming) × (rc : R) × (s'.wire ≡ s.wire ++ out)
      × Paired s'.cipher rc
      × ((more : List Incoming)
          → read_from decrypt frames (out ++ more) r ≡ received kind body (at_rest rc) more)

  seal_sends :
      (s s1 : Sender S (List Incoming)) (p : List ℕ)
      → seal encrypt deliver s p ≡ some s1
      → (c : List ℕ) × (encrypt s.cipher p ≡ some (c, s1.cipher))
        × (s1.wire ≡ s.wire ++ (record { is_binary = true; bytes = c } ∷ []))
  unfolding seal
  seal_sends s s1 p h = elim (Option-cases (encrypt s.cipher p)) [
    | inl e ↦ absurd (ground arith)
    | inr ((c, sc), e) ↦ (c, ground arith, ground arith)
  ]

  round_of :
      (r : Reader R) (rc : R) (c p : List ℕ)
      → decrypt r.cipher c ≡ some (p, rc)
      → read_round decrypt (record { is_binary = true; bytes = c }) r
        ≡ read_plain p (record r { cipher = rc })
  unfolding read_round
  round_of r rc c p e = rw (e, read_round)

  read_goes_on :
      (frames : ℕ) (m : Incoming) (ms : List Incoming) (r r' : Reader R)
      → frames < 4096
      → read_round decrypt m r ≡ goes_on r'
      → read_from decrypt frames (m ∷ ms) r ≡ read_from decrypt (frames + 1) ms r'
  unfolding read_from
  read_goes_on frames m ms r r' h e = rw (e, read_from) (ground arith)

  read_returns :
      (frames kind : ℕ) (body : List ℕ) (m : Incoming) (ms : List Incoming) (r r' : Reader R)
      → frames < 4096
      → read_round decrypt m r ≡ returns kind body r'
      → read_from decrypt frames (m ∷ ms) r ≡ received kind body r' ms
  unfolding read_from
  read_returns frames kind body m ms r r' h e = rw (e, read_from) (ground arith)

  -- A frame that ends the message.
  Delivers-last :
      (frames kind : ℕ) (body p : List ℕ) (r : Reader R) (s s' : Sender S (List Incoming))
      → frames < 4096
      → Paired s.cipher r.cipher
      → seal encrypt deliver s p ≡ some s'
      → ((rc : R) → read_plain p (record r { cipher = rc }) ≡ returns kind body (at_rest rc))
      → Delivers frames r kind body s s'
  Delivers-last frames kind body p r s s' lt pair e last =
      let (c, enc, wire) = seal_sends s s' p e in
      let (rc, dec, pair') = opens s.cipher r.cipher p c s'.cipher pair enc in
      (
        record { is_binary = true; bytes = c } ∷ [],
        rc,
        wire,
        pair',
        λ more.
            read_returns frames kind body _ more r (at_rest rc) lt
              (round_of r rc c p dec ∙ last rc),
      )

  -- A frame after which the message goes on.
  Delivers-next :
      (frames kind : ℕ) (body p : List ℕ) (r : Reader R) (next : R → Reader R)
      (s s1 s' : Sender S (List Incoming))
      → frames < 4096
      → Paired s.cipher r.cipher
      → seal encrypt deliver s p ≡ some s1
      → ((rc : R) → read_plain p (record r { cipher = rc }) ≡ goes_on (next rc))
      → ((rc : R) → Paired s1.cipher rc → Delivers (frames + 1) (next rc) kind body s1 s')
      → Delivers frames r kind body s s'
  Delivers-next frames kind body p r next s s1 s' lt pair e step rest =
      let (c, enc, wire) = seal_sends s s1 p e in
      let (rc, dec, pair1) = opens s.cipher r.cipher p c s1.cipher pair enc in
      let (out, rc', wire', pair', reads) = rest rc pair1 in
      (
        record { is_binary = true; bytes = c } ∷ out,
        rc',
        wire' ∙ rw wire (append_assoc s.wire _ out),
        pair',
        λ more.
            read_goes_on frames _ (out ++ more) r (next rc) lt (round_of r rc c p dec ∙ step rc)
            ∙ reads more,
      )

  write_fragments-nil :
      (fuel kind : ℕ) (first : Bool) (s : Sender S (List Incoming))
      → write_fragments encrypt deliver fuel first kind [] s ≡ written s
  unfolding write_fragments
  write_fragments-nil zero kind first s = refl
  write_fragments-nil (suc fuel) kind first s = refl

  -- A round of the loop that succeeds has sealed its frame.
  write_fragments_round :
      (fuel kind b : ℕ) (first : Bool) (bs : List ℕ) (s s' : Sender S (List Incoming))
      → write_fragments encrypt deliver (suc fuel) first kind (b ∷ bs) s ≡ written s'
      → let n = min (room first) (length (b ∷ bs)) in
        (s1 : Sender S (List Incoming)) × (seal encrypt deliver s
            (fragment_frame first kind n (b ∷ bs))
          ≡ some s1)
        × (write_fragments encrypt deliver fuel false kind (drop n (b ∷ bs)) s1 ≡ written s')
  unfolding write_fragments
  write_fragments_round fuel kind b first bs s s' h =
      let n : ℕ = min (room first) (length (b ∷ bs)) in
      elim (Option-cases (seal encrypt deliver s (fragment_frame first kind n (b ∷ bs)))) [
        | inl e ↦ absurd (let h' = rw (e, write_fragments) at h in cc)
        | inr (s1, e) ↦ (s1, e, rw (e, write_fragments) at h)
      ]

  -- The fragments after the first, at least one of them.
  Delivers-rest :
      (fuel frames kind : ℕ) (body acc : List ℕ) (rc : R) (s s' : Sender S (List Incoming))
      → 0 < length body
      → frames + length body ≤ 4096
      → length acc + length body ≤ 65535
      → Paired s.cipher rc
      → write_fragments encrypt deliver fuel false kind body s ≡ written s'
      → Delivers frames (midway rc kind acc) kind (acc ++ body) s s'
  Delivers-rest fuel frames kind [] acc rc s s' pos lt le pair h = absurd (omega arith)
  Delivers-rest zero frames kind (b ∷ bs) acc rc s s' pos lt le pair h =
      absurd (unfold write_fragments in cc)
  Delivers-rest (suc fuel) frames kind (b ∷ bs) acc rc s s' pos lt le pair h =
      let body : List ℕ = b ∷ bs in
      let n : ℕ = min (room false) (length body) in
      let (s1, e, h') = write_fragments_round fuel kind b false bs s s' h in
      let fits : length (acc ++ take n body) ≤ 65535 =
        rw length-append (omega (arith, length-take n body)) in
      elim (Bool-cases (n == length body)) [
        | inl whole ↦
            let all : take n body ≡ body = take_all n body (ground arith) in
            let none_left : drop n body ≡ [] = drop_all n body (ground arith) in
            let same : s1 ≡ s' =
              written-injective
                (sym (write_fragments-nil fuel kind false s1) ∙ (rw none_left at h')) in
            Delivers-last frames kind (acc ++ body) (fragment_frame false kind n body)
              (midway rc kind acc) s s' (omega arith) pair (rw same at e)
              (λ c.
                plain_last c kind n body acc whole fits
                ∙ ap (λ (l : List ℕ). returns kind (acc ++ l) (at_rest c)) all)
        | inr part ↦
            let more : n < length body = ground arith in
            let full : n ≡ 65517 = omega arith in
            rw (sym (regroup acc body n)) (
              Delivers-next frames kind ((acc ++ take n body) ++ drop n body)
                (fragment_frame false kind n body) (midway rc kind acc)
                (λ c. midway c kind (acc ++ take n body)) s s1 s' (omega arith) pair e
                (λ c. plain_next c kind n body acc part fits)
                (λ c pair1.
                  Delivers-rest fuel (frames + 1) kind (drop n body) (acc ++ take n body) c s1 s'
                    (omega (arith, length-drop n body)) (omega (arith, length-drop n body))
                    (rw length-append (omega (arith, length-drop n body, length-take n body))) pair1
                    h'))
      ]

  Delivers-fragmented :
      (kind : ℕ) (body : List ℕ) (rc : R) (s s' : Sender S (List Incoming))
      → kind ≢ 1
      → max_frame_body < length body
      → length body ≤ max_message
      → Paired s.cipher rc
      → write_fragments encrypt deliver (length body) true kind body s ≡ written s'
      → Delivers 0 (at_rest rc) kind body s s'
  Delivers-fragmented kind [] rc s s' k big le pair h = absurd (omega arith)
  Delivers-fragmented kind (b ∷ bs) rc s s' k big le pair h =
      let body : List ℕ = b ∷ bs in
      let n : ℕ = min (room true) (length body) in
      let full : n ≡ 65516 = omega arith in
      let part : (n == length body) ≡ false = ground arith in
      let (s1, e, h') = write_fragments_round (length bs) kind b true bs s s' h in
      rw (sym (take-append-drop n body)) (
        Delivers-next 0 kind (take n body ++ drop n body) (fragment_frame true kind n body)
          (at_rest rc) (λ c. midway c kind (take n body)) s s1 s' (omega arith) pair e
          (λ c. plain_first c kind n body [] part k (omega (arith, length-take n body)))
          (λ c pair1.
            Delivers-rest (length bs) 1 kind (drop n body) (take n body) c s1 s'
              (omega (arith, length-drop n body)) (omega (arith, length-drop n body))
              (omega (arith, length-drop n body, length-take n body)) pair1 h'))

  -- A message that `WriteTyped` writes, of at most 65535 bytes, is what the peer's `Read` returns,
  -- with the messages that follow left to read; the ciphers stay in step. This needs ciphers in step
  -- of which the receiver opens what the sender sealed, a connection that delivers every message,
  -- and a reader that is not in the middle of another message.
  pub read-write_typed :
      (kind : ℕ) (body : List ℕ) (s s' : Sender S (List Incoming)) (rc : R)
      → length body ≤ max_message
      → Paired s.cipher rc
      → write_typed encrypt deliver kind body s ≡ written s'
      → (out : List Incoming) × (rc' : R) × (s'.wire ≡ s.wire ++ out)
        × Paired s'.cipher rc'
        × ((more : List Incoming)
            → read decrypt (out ++ more) (at_rest rc) ≡ received kind body (at_rest rc') more)
  unfolding write_typed read
  read-write_typed kind body s s' rc le pair h = elim (Bool-cases (kind == msg_fragment)) [
    | inl e ↦ absurd (ground arith)
    | inr other ↦ elim (Bool-cases (leb (length body) max_frame_body)) [
      | inl small ↦
          let sent : seal encrypt deliver s (kind ∷ body) ≡ some s' = ground arith in
          Delivers-last 0 kind body (kind ∷ body) (at_rest rc) s s' (omega arith) pair sent
            (λ c. unfold read_plain in ground arith)
      | inr big ↦
          Delivers-fragmented kind body rc s s' (ground arith) (ground arith) le pair (ground arith)
    ]
  ]
