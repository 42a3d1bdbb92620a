-- ===== src/Sendspin/Transport/Examples.antt =====
-- Runs of internal/sendspin/transport.go with a small cipher, and its theorems at concrete inputs.
use overdub.Base.{
  ℕ, ◌+◌, ◌≤◌, ◌≡◌, refl, true, Option, none, some, List, [], ◌∷◌, ◌++◌, ◌==◌, if◌then◌else◌, arith,
  ap, length,
}
use overdub.Sendspin.Transport.{
  Sender, written, seal, write_typed, Incoming, received, failed, none_in_flight, read, read_round,
  read_plain, reassemble,
}
use overdub.Sendspin.Transport.Frames.{deliver, at_rest}
use overdub.Sendspin.Transport.RoundTrip.{read-write_typed}

-- A cipher that numbers its messages: the receiver opens the one that is next.
abbrev encrypt : ℕ → List ℕ → Option (List ℕ × ℕ)
encrypt n p = some (n ∷ p, n + 1)

abbrev decrypt : ℕ → List ℕ → Option (List ℕ × ℕ)
decrypt n [] = none
decrypt n (m ∷ p) = if m == n then some (p, n + 1) else none

encrypt-opens :
    (s r : ℕ) (p c : List ℕ) (s' : ℕ)
    → s ≡ r
    → encrypt s p ≡ some (c, s')
    → (r' : ℕ) × (decrypt r c ≡ some (p, r')) × (s' ≡ r')
encrypt-opens s r p [] s' e h = absurd (ground arith)
encrypt-opens s r p (m ∷ c) s' e h = (s + 1, ground arith, ground arith)

encrypt-grows : (s s' : ℕ) (p c : List ℕ) → encrypt s p ≡ some (c, s') → length c ≤ length p + 16
encrypt-grows s s' p c h = ground (arith, ap (λ o. length_of o) h)
  where
    length_of : Option (List ℕ × ℕ) → ℕ
    length_of none = 0
    length_of (some (c, s)) = length c

abbrev fresh : Sender ℕ (List Incoming)
fresh = record { cipher = 7; wire = [] }

abbrev sent : Sender ℕ (List Incoming)
sent = record { cipher = 8; wire = record { is_binary = true; bytes = 7 ∷ 0 ∷ 65 ∷ [] } ∷ [] }

fresh_sends : write_typed encrypt deliver 0 (65 ∷ []) fresh ≡ written sent
unfolding write_typed seal
fresh_sends = refl

abbrev fragments : List Incoming
fragments =
    record { is_binary = true; bytes = 7 ∷ 1 ∷ 2 ∷ 4 ∷ 10 ∷ 11 ∷ [] }
    ∷ record { is_binary = true; bytes = 8 ∷ 1 ∷ 1 ∷ 12 ∷ [] }
    ∷ []

fragments_join : read decrypt fragments (at_rest 7) ≡ received 4 (10 ∷ 11 ∷ 12 ∷ []) (at_rest 9) []
unfolding read read_round read_plain reassemble
fragments_join = refl

continuation_alone :
    read decrypt (record { is_binary = true; bytes = 7 ∷ 1 ∷ 0 ∷ [] } ∷ []) (at_rest 7)
    ≡ failed none_in_flight
unfolding read read_round read_plain reassemble
continuation_alone = refl

read-write_typed_example :
    (out : List Incoming) × (rc' : ℕ) × (sent.wire ≡ [] ++ out)
    × (sent.cipher ≡ rc')
    × ((more : List Incoming)
        → read decrypt (out ++ more) (at_rest 7) ≡ received 0 (65 ∷ []) (at_rest rc') more)
read-write_typed_example =
    read-write_typed encrypt decrypt ◌≡◌ encrypt-opens 0 (65 ∷ []) fresh sent 7 (omega arith) refl
      fresh_sends
