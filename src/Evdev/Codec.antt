-- ===== src/Evdev/Codec.antt =====
-- internal/evdev/evdev.go: events in bytes.
use overdub.Base.{ℕ, ◌^◌, ◌<◌, ◌≡◌, refl, List, [], ◌∷◌, length, All, arith}
use overdub.Base.Bytes.{IsByte, le_bytes, le_number, le_number-le_bytes, le_bytes-le_number}
use overdub.Evdev.{Event, event_size, marshal, unmarshal}

abbrev pub IsEvent : Event → Type 0
IsEvent e =
    (e.sec < 2 ^ 32)
    × (e.usec < 2 ^ 32)
    × (e.kind < 2 ^ 16)
    × (e.code < 2 ^ 16)
    × (e.value < 2 ^ 32)

four_bytes : (v : ℕ) → v < 2 ^ 32 → le_number (le_bytes 4 v) ≡ v
four_bytes v h = le_number-le_bytes 4 v h

pub two_bytes : (v : ℕ) → v < 2 ^ 16 → le_number (le_bytes 2 v) ≡ v
two_bytes v h = le_number-le_bytes 2 v h

-- An event whose parts fit their widths is the same event, written in 16 bytes and read back.
pub unmarshal-marshal :
    (e : Event) → IsEvent e → (unmarshal (marshal e) ≡ e) × (length (marshal e) ≡ event_size)
unfolding marshal unmarshal
unmarshal-marshal e h = (
  ground (
    arith,
    four_bytes e.sec,
    four_bytes e.usec,
    two_bytes e.kind,
    two_bytes e.code,
    four_bytes e.value,
  ),
  refl,
)

four :
    (a b c d : ℕ)
    → IsByte a
    → IsByte b
    → IsByte c
    → IsByte d
    → le_bytes 4 (le_number (a ∷ b ∷ c ∷ d ∷ [])) ≡ a ∷ b ∷ c ∷ d ∷ []
four a b c d ha hb hc hd = le_bytes-le_number (a ∷ b ∷ c ∷ d ∷ []) (ha, (hb, (hc, (hd, tt))))

two : (a b : ℕ) → IsByte a → IsByte b → le_bytes 2 (le_number (a ∷ b ∷ [])) ≡ a ∷ b ∷ []
two a b ha hb = le_bytes-le_number (a ∷ b ∷ []) (ha, (hb, tt))

-- Sixteen bytes that are read as an event are the bytes that the event is written as.
pub marshal-unmarshal :
    (a b c d e f g h i j k l m n o p : ℕ)
    → let bs : List ℕ = a ∷ b ∷ c ∷ d ∷ e ∷ f ∷ g ∷ h ∷ i ∷ j ∷ k ∷ l ∷ m ∷ n ∷ o ∷ p ∷ [] in
      All IsByte bs → marshal (unmarshal bs) ≡ bs
unfolding marshal unmarshal
marshal-unmarshal a b c d e f g h i j k l m n o p
      (
        ha,
        (hb, (hc, (hd, (he, (hf, (hg, (hh, (hi, (hj, (hk, (hl, (hm, (hn, (ho, (hp, _))))))))))))))),
      ) =
    ground (arith, four a b c d, four e f g h, two i j, two k l, four m n o p)
