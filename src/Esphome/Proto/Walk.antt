-- ===== src/Esphome/Proto/Walk.antt =====
-- internal/esphome/proto.go, `pbWalk`, on any bytes at all.
use overdub.Base.{
  ℕ, zero, suc, ◌+◌, ◌/◌, ◌%◌, ◌≤◌, ◌<◌, ◌≡◌, ◌≢◌, ◌⊎◌, inl, inr, refl, List, [], ◌∷◌, length,
  arith, Option-cases, length-take, length-drop,
}
use overdub.Esphome.Proto.{
  read_uvarint, PbField, Error, Entry, entry, refused, read_varint, read_fixed32, read_bytes,
  read_fixed64, read_value, read_field, stuck, walk_fuel, pb_walk,
}
use overdub.Esphome.Proto.Varint.{read_uvarint_shorter}

-- What a round takes from the message: a byte at least, besides the bytes that it hands over.
module _ (f : ℕ) (msg : List ℕ) (g : PbField) (rest : List ℕ) where
  read_varint_takes : read_varint f msg ≡ entry g rest → length g.bytes + length rest ≤ length msg
  unfolding read_varint
  read_varint_takes = elim (Option-cases (read_uvarint msg)) [
    | inl e ↦ rw (e, read_varint) (λ h. cc)
    | inr ((v, bs), e) ↦ rw (e, read_varint) (ground (arith, read_uvarint_shorter msg v bs e))
  ]

  read_bytes_takes : read_bytes f msg ≡ entry g rest → length g.bytes + length rest ≤ length msg
  unfolding read_bytes
  read_bytes_takes = elim (Option-cases (read_uvarint msg)) [
    | inl e ↦ rw (e, read_bytes) (λ h. cc)
    | inr ((l, bs), e) ↦
        rw (e, read_bytes)
          (ground (arith, read_uvarint_shorter msg l bs e, length-take l bs, length-drop l bs))
  ]

  read_value_takes :
      (wire : ℕ) → read_value f wire msg ≡ entry g rest → length g.bytes + length rest ≤ length msg
  unfolding read_value read_fixed32 read_fixed64
  read_value_takes wire h =
      ground (arith, read_varint_takes, read_bytes_takes, length-drop 4 msg, length-drop 8 msg)

read_field_takes :
    (msg : List ℕ) (g : PbField) (rest : List ℕ)
    → read_field msg ≡ entry g rest
    → length g.bytes + length rest < length msg
unfolding read_field
read_field_takes msg g rest = elim (Option-cases (read_uvarint msg)) [
  | inl e ↦ rw (e, read_field) (λ h. cc)
  | inr ((key, bs), e) ↦
      rw (e, read_field)
        (ground (
          arith,
          read_uvarint_shorter msg key bs e,
          read_value_takes (key / 8) bs g rest (key % 8),
        ))
]

Entry-cases :
    (e : Entry)
    → ((g : PbField) × (rest : List ℕ) × (e ≡ entry g rest)) ⊎ ((x : Error) × (e ≡ refused x))
Entry-cases (entry g rest) = inl (g, rest, refl)
Entry-cases (refused x) = inr (x, refl)

-- The bytes handed to `visit`, all fields together.
pub handed_over : List PbField → ℕ
handed_over [] = 0
handed_over (f ∷ fs) = length f.bytes + handed_over fs

walk_fuel_ends :
    (n : ℕ) (msg : List ℕ)
    → length msg ≤ n
    → ((walk_fuel n msg).1 ≢ stuck)
      × (handed_over (walk_fuel n msg).0 + length (walk_fuel n msg).0 ≤ length msg)
unfolding walk_fuel handed_over
walk_fuel_ends zero [] h = (λ e. cc, omega arith)
walk_fuel_ends (suc n) [] h = (λ e. cc, omega arith)
walk_fuel_ends zero (b ∷ bs) h = absurd (omega arith)
walk_fuel_ends (suc n) (b ∷ bs) h = elim (Entry-cases (read_field (b ∷ bs))) [
  | inr (x, e) ↦ rw (e, walk_fuel) (λ p. cc, omega arith)
  | inl (g, rest, e) ↦
      let short = read_field_takes (b ∷ bs) g rest e in
      let ih = walk_fuel_ends n rest (omega arith) in rw (e, walk_fuel) (ih.0, omega arith)
]

-- The walk ends on any bytes, with all of them read or with an error. It hands over fewer bytes than
-- the message has, and no more fields than it has bytes.
pub pb_walk_ends :
    (msg : List ℕ)
    → ((pb_walk msg).1 ≢ stuck)
      × (handed_over (pb_walk msg).0 + length (pb_walk msg).0 ≤ length msg)
unfolding pb_walk
pb_walk_ends msg = walk_fuel_ends (length msg) msg (omega arith)

-- More fuel than the message is long changes nothing.
pub walk_fuel_enough :
    (n m : ℕ) (msg : List ℕ) → length msg ≤ n → length msg ≤ m → walk_fuel n msg ≡ walk_fuel m msg
unfolding walk_fuel
walk_fuel_enough zero zero [] h k = refl
walk_fuel_enough zero (suc m) [] h k = refl
walk_fuel_enough (suc n) zero [] h k = refl
walk_fuel_enough (suc n) (suc m) [] h k = refl
walk_fuel_enough zero m (b ∷ bs) h k = absurd (omega arith)
walk_fuel_enough (suc n) zero (b ∷ bs) h k = absurd (omega arith)
walk_fuel_enough (suc n) (suc m) (b ∷ bs) h k = elim (Entry-cases (read_field (b ∷ bs))) [
  | inr (x, e) ↦ rw (e, walk_fuel) refl
  | inl (g, rest, e) ↦
      let short = read_field_takes (b ∷ bs) g rest e in
      rw (e, walk_fuel) (rw (walk_fuel_enough n m rest (omega arith) (omega arith)) refl)
]

-- One round, for messages of any length.
pub pb_walk_step :
    (msg : List ℕ) (g : PbField) (rest : List ℕ)
    → read_field msg ≡ entry g rest
    → pb_walk msg ≡ (g ∷ (pb_walk rest).0, (pb_walk rest).1)
unfolding pb_walk walk_fuel
pb_walk_step [] g rest e = absurd (omega (arith, read_field_takes [] g rest e))
pb_walk_step (b ∷ bs) g rest e =
    let short = read_field_takes (b ∷ bs) g rest e in
    rw (e, walk_fuel)
      (rw (walk_fuel_enough (length bs) (length rest) rest (omega arith) (omega arith)) refl)
