-- ===== src/Evdev/Bitmap.antt =====
-- internal/evdev/evdev.go, `keysFromBitmap`, and the waits of internal/button/mute.go.
use mathlib.Core.Path.{subst}
use Prim.Native.Nat.{◌/◌}
use overdub.Base.{
  sym, ◌-◌, ℕ, zero, suc, ◌+◌, ◌*◌, ◌%◌, ◌^◌, ◌<◌, ◌≤◌, ◌≡◌, ◌⊎◌, refl, ap, ◌&&◌, ◌||◌, ltb, ◌==◌,
  Bool, true, false, none, some, List, [], ◌∷◌, ◌++◌, length, All, arith, Bool-cases, inl, inr, ◌∙◌,
}
use overdub.Evdev.Bits.{byte_bits, bits_of, bit_at, bit_at-front, bit_at-back, byte_bit}
use overdub.Evdev.{
  Event, contains, key_bit, keys_from, keys_from_bitmap, key_volume_up, key_volume_down,
  volume_keys_on, wait_for_volume_key,
}

keys_from_above :
    (buf : List ℕ) (n i k : ℕ) → k < i → i + n ≤ 2 ^ 16 → contains (keys_from buf n i) k ≡ false
unfolding keys_from contains
keys_from_above buf zero i k h b = refl
keys_from_above buf (suc n) i k h b = ground (arith, keys_from_above buf n (i + 1) k)

keys_from-contains :
    (buf : List ℕ) (n i k : ℕ)
    → i + n ≤ 2 ^ 16
    → i ≤ k
    → contains (keys_from buf n i) k ≡ (ltb k (i + n) && key_bit buf k)
unfolding keys_from contains
keys_from-contains buf zero i k b h = ground arith
keys_from-contains buf (suc n) i k b h = elim (Bool-cases (i == k)) [
  | inl same ↦
      ground (
        arith,
        keys_from_above buf n (i + 1) k,
        ap (key_bit buf) (let e : i ≡ k = ground arith in e),
      )
  | inr other ↦ ground (arith, keys_from-contains buf n (i + 1) k)
]

key_bit_low :
    (b : ℕ) (bs : List ℕ) (j : ℕ) → b < 256 → j < 8 → key_bit (b ∷ bs) j ≡ bit_at (byte_bits 8 b) j
unfolding key_bit
key_bit_low b bs j hb hj =
    let at : j / 8 ≡ 0 = omega arith in
    let same : j % 8 ≡ j = omega arith in rw at (rw same (byte_bit b j hb hj))

key_bit_high :
    (b : ℕ) (bs : List ℕ) (j : ℕ)
    → (ltb j (length bs * 8) && key_bit bs j) ≡ bit_at (bits_of bs) j
    → (ltb (8 + j) (length (b ∷ bs) * 8) && key_bit (b ∷ bs) (8 + j))
      ≡ bit_at (bits_of (b ∷ bs)) (8 + j)
unfolding key_bit bits_of
key_bit_high b bs j h =
    let at : (8 + j) / 8 ≡ suc (j / 8) = omega arith in
    let same : (8 + j) % 8 ≡ j % 8 = omega arith in
    let bit : key_bit (b ∷ bs) (8 + j) ≡ key_bit bs j = rw at (rw same refl) in
    let limit : ltb (8 + j) (length (b ∷ bs) * 8) ≡ ltb j (length bs * 8) = ground arith in
    ap (λ x. x && key_bit (b ∷ bs) (8 + j)) limit
    ∙ ap (λ x. ltb j (length bs * 8) && x) bit
    ∙ h
    ∙ sym (bit_at-back (byte_bits 8 b) (bits_of bs) j)

key_bit-bits_of :
    (buf : List ℕ) (k : ℕ)
    → All (λ b. b < 256) buf
    → (ltb k (length buf * 8) && key_bit buf k) ≡ bit_at (bits_of buf) k
unfolding key_bit bits_of bit_at
key_bit-bits_of [] k h = ground arith
key_bit-bits_of (b ∷ bs) k (hb, hs) = elim (Bool-cases (ltb k 8)) [
  | inl low ↦ ground (arith, key_bit_low b bs k hb, bit_at-front (byte_bits 8 b) (bits_of bs) k)
  | inr high ↦
      let at : 8 + (k - 8) ≡ k = ground arith in
      subst (λ j. (ltb j (length (b ∷ bs) * 8) && key_bit (b ∷ bs) j) ≡ bit_at (bits_of (b ∷ bs)) j)
        at (key_bit_high b bs (k - 8) (key_bit-bits_of bs (k - 8) hs))
]

-- A keycode is in the list exactly when the bit at its place is set, the bitmap read as a sequence of
-- bits with the lowest of each byte first, for a bitmap of at most 8192 bytes.
pub contains-keys_from_bitmap :
    (buf : List ℕ) (k : ℕ)
    → length buf ≤ 8192
    → All (λ b. b < 256) buf
    → contains (keys_from_bitmap buf) k ≡ bit_at (bits_of buf) k
unfolding keys_from_bitmap
contains-keys_from_bitmap buf k h hs =
    keys_from-contains buf (length buf * 8) 0 k (omega arith) (omega arith)
    ∙ (let e : 0 + length buf * 8 ≡ length buf * 8 = omega arith in rw e refl)
    ∙ key_bit-bits_of buf k hs

-- The list ascends, so no keycode stands in it twice.
abbrev pub IsAscending : ℕ → List ℕ → Type 0
IsAscending lo [] = Unit
IsAscending lo (x ∷ xs) = (lo ≤ x) × IsAscending (x + 1) xs

IsAscending-weaken : (lo lo' : ℕ) (xs : List ℕ) → lo ≤ lo' → IsAscending lo' xs → IsAscending lo xs
IsAscending-weaken lo lo' [] h a = tt
IsAscending-weaken lo lo' (x ∷ xs) h (hx, hs) = (omega arith, hs)

keys_from-IsAscending :
    (buf : List ℕ) (n i : ℕ) → i + n ≤ 2 ^ 16 → IsAscending i (keys_from buf n i)
unfolding keys_from
keys_from-IsAscending buf zero i b = tt
keys_from-IsAscending buf (suc n) i b =
    let rest : IsAscending (i + 1) (keys_from buf n (i + 1)) =
      keys_from-IsAscending buf n (i + 1) (omega arith) in
    let same : i % 2 ^ 16 ≡ i = omega arith in
    elim (Bool-cases (key_bit buf i)) [
      | inl on ↦ rw on (rw same (omega arith, rest))
      | inr off ↦ rw off (IsAscending-weaken i (i + 1) _ (omega arith) rest)
    ]

-- The keycodes of a bitmap of at most 8192 bytes come in ascending order, so none comes twice.
pub keys_from_bitmap-IsAscending :
    (buf : List ℕ) → length buf ≤ 8192 → IsAscending 0 (keys_from_bitmap buf)
unfolding keys_from_bitmap
keys_from_bitmap-IsAscending buf h = keys_from-IsAscending buf (length buf * 8) 0 (omega arith)

-- `volumeKeysOn` accepts a node exactly when it declares both volume keys, and otherwise names one
-- that is missing.
pub volume_keys_on_iff :
    (keys : List ℕ)
    → ((volume_keys_on keys ≡ none)
        × (contains keys key_volume_up ≡ true)
        × (contains keys key_volume_down ≡ true))
      ⊎ ((k : ℕ) × (volume_keys_on keys ≡ some k)
          × ((k ≡ key_volume_up) ⊎ (k ≡ key_volume_down))
          × (contains keys k ≡ false))
unfolding volume_keys_on
volume_keys_on_iff keys = elim (Bool-cases (contains keys key_volume_up)) [
  | inr off ↦ inr (key_volume_up, rw off refl, inl refl, off)
  | inl up ↦ elim (Bool-cases (contains keys key_volume_down)) [
    | inl down ↦ inl (rw up (rw down refl), up, down)
    | inr off ↦ inr (key_volume_down, rw up (rw off refl), inr refl, off)
  ]
]

-- Whether an event ends the wait of the volume guard.
abbrev pub ends_wait : Event → Bool
ends_wait e =
    e.kind == 1 && (e.value == 1 && (e.code == key_volume_up || e.code == key_volume_down))

-- The wait ends at the first press of a volume key, and reads no further.
pub wait_for_volume_key_lem :
    (before after : List Event) (e : Event)
    → All (λ x. ends_wait x ≡ false) before
    → ends_wait e ≡ true
    → wait_for_volume_key (before ++ (e ∷ after)) ≡ some after
unfolding wait_for_volume_key
wait_for_volume_key_lem [] after e hs he = ground arith
wait_for_volume_key_lem (x ∷ before) after e (hx, hs) he =
    ground (arith, wait_for_volume_key_lem before after e hs he)
