-- ===== src/Evdev/Device.antt =====
-- internal/evdev/evdev.go: the record that makes a uinput device, byte by byte.
use overdub.Base.{
  ℕ, zero, suc, ◌+◌, ◌^◌, ◌<◌, ◌≤◌, ◌≡◌, refl, ◌∙◌, ap, List, [], ◌∷◌, ◌++◌, length, take, get_or,
  arith, length-take, length-replicate, replicate, drop, take_append_length,
}
use overdub.Base.Bytes.{le_bytes, le_number, write_at, slice, length-write_at}
use overdub.Evdev.{InputId, id_from_bytes, user_dev, dev_size, named, put_id}
use overdub.Evdev.Codec.{two_bytes}

-- What a write leaves alone, and what it puts in place.
drop_under : (off n x : ℕ) (buf : List ℕ) → drop (suc off + n) (x ∷ buf) ≡ drop (off + n) buf
drop_under off n x buf = let e : suc off + n ≡ suc (off + n) = omega arith in rw e refl

get_or-write_at_above :
    (off i : ℕ) (bs buf : List ℕ)
    → i < off
    → i < length buf
    → get_or (write_at off bs buf) i 0 ≡ get_or buf i 0
get_or-write_at_above zero i bs buf h b = absurd (omega arith)
get_or-write_at_above (suc off) i bs [] h b = absurd (omega arith)
get_or-write_at_above (suc off) zero bs (x ∷ buf) h b = refl
get_or-write_at_above (suc off) (suc i) bs (x ∷ buf) h b =
    rw (drop_under off (length bs) x buf)
      (get_or-write_at_above off i bs buf (omega arith) (omega arith))

slice-write_at_above :
    (from n off : ℕ) (bs buf : List ℕ)
    → from + n ≤ off
    → from + n ≤ length buf
    → slice from n (write_at off bs buf) ≡ slice from n buf
slice-write_at_above zero zero off bs buf h b = refl
slice-write_at_above zero (suc n) zero bs buf h b = absurd (omega arith)
slice-write_at_above zero (suc n) (suc off) bs [] h b = absurd (omega arith)
slice-write_at_above zero (suc n) (suc off) bs (x ∷ buf) h b =
    rw (drop_under off (length bs) x buf)
      (ap (λ l. x ∷ l) (slice-write_at_above zero n off bs buf (omega arith) (omega arith)))
slice-write_at_above (suc from) n zero bs buf h b = absurd (omega arith)
slice-write_at_above (suc from) n (suc off) bs [] h b = absurd (omega arith)
slice-write_at_above (suc from) n (suc off) bs (x ∷ buf) h b =
    rw (drop_under off (length bs) x buf)
      (slice-write_at_above from n off bs buf (omega arith) (omega arith))

slice-write_at_self :
    (off : ℕ) (bs buf : List ℕ)
    → off ≤ length buf
    → slice off (length bs) (write_at off bs buf) ≡ bs
slice-write_at_self zero bs buf h =
    take_append_length bs (drop (0 + length bs) buf) (length bs) refl
slice-write_at_self (suc off) bs [] h = absurd (omega arith)
slice-write_at_self (suc off) bs (x ∷ buf) h =
    rw (drop_under off (length bs) x buf) (slice-write_at_self off bs buf (omega arith))

length-named : (name : List ℕ) → length (named name) ≡ dev_size
unfolding named
length-named name =
    length-write_at 0 (take 79 name) (replicate dev_size 0)
      (omega (arith, length-take 79 name, length-replicate {A = ℕ} dev_size 0))

get_or-zeros : (n i : ℕ) → get_or {A = ℕ} (replicate n 0) i 0 ≡ 0
get_or-zeros zero i = refl
get_or-zeros (suc n) zero = refl
get_or-zeros (suc n) (suc i) = get_or-zeros n i

drop_nil : (k : ℕ) → drop {A = ℕ} k [] ≡ []
drop_nil zero = refl
drop_nil (suc k) = refl

get_or-behind :
    (xs : List ℕ) (n i : ℕ)
    → length xs ≤ i
    → get_or (xs ++ drop (length xs) (replicate n 0)) i 0 ≡ 0
get_or-behind [] n i h = get_or-zeros n i
get_or-behind (x ∷ xs) n zero h = absurd (omega arith)
get_or-behind (x ∷ xs) zero (suc i) h =
    rw (drop_nil (length xs)) at (get_or-behind xs zero i (omega arith))
get_or-behind (x ∷ xs) (suc n) (suc i) h = get_or-behind xs n i (omega arith)

named_end : (name : List ℕ) → get_or (named name) 79 0 ≡ 0
unfolding named
named_end name =
    let e : 0 + length (take 79 name) ≡ length (take 79 name) = omega arith in
    rw e (get_or-behind (take 79 name) dev_size 79 (omega (arith, length-take 79 name)))

drop-drop : (k off : ℕ) (buf : List ℕ) → drop k (drop off buf) ≡ drop (k + off) buf
drop-drop k zero buf = let e : k + 0 ≡ k = omega arith in rw e refl
drop-drop k (suc off) [] = rw (drop_nil k) (rw (drop_nil (k + suc off)) refl)
drop-drop k (suc off) (x ∷ buf) =
    let e : k + suc off ≡ suc (k + off) = omega arith in rw e (drop-drop k off buf)

module _ (id : InputId) (buf : List ℕ) (room : 88 ≤ length buf) where
  w1 : List ℕ
  w1 = write_at 80 (le_bytes 2 id.bus) buf

  w2 : List ℕ
  w2 = write_at 82 (le_bytes 2 id.vendor) w1

  w3 : List ℕ
  w3 = write_at 84 (le_bytes 2 id.product) w2

  put_id_writes : put_id id buf ≡ write_at 86 (le_bytes 2 id.version) w3
  unfolding put_id w1 w2 w3
  put_id_writes = refl

  length-w1 : length w1 ≡ length buf
  unfolding w1
  length-w1 = length-write_at 80 (le_bytes 2 id.bus) buf (omega arith)

  length-w2 : length w2 ≡ length buf
  unfolding w2
  length-w2 = length-write_at 82 (le_bytes 2 id.vendor) w1 (omega (arith, length-w1)) ∙ length-w1

  length-w3 : length w3 ≡ length buf
  unfolding w3
  length-w3 = length-write_at 84 (le_bytes 2 id.product) w2 (omega (arith, length-w2)) ∙ length-w2

  length-put_id : length (put_id id buf) ≡ length buf
  length-put_id =
      rw put_id_writes
        (length-write_at 86 (le_bytes 2 id.version) w3 (omega (arith, length-w3)) ∙ length-w3)

  put_id_below : (i : ℕ) → i < 80 → get_or (put_id id buf) i 0 ≡ get_or buf i 0
  unfolding put_id w1 w2 w3
  put_id_below i h =
      get_or-write_at_above 86 i (le_bytes 2 id.version) w3 (omega arith) (omega (arith, length-w3))
      ∙ get_or-write_at_above 84 i (le_bytes 2 id.product) w2 (omega arith)
          (omega (arith, length-w2))
      ∙ get_or-write_at_above 82 i (le_bytes 2 id.vendor) w1 (omega arith)
          (omega (arith, length-w1))
      ∙ get_or-write_at_above 80 i (le_bytes 2 id.bus) buf (omega arith) (omega arith)

  put_id_bus : slice 80 2 (put_id id buf) ≡ le_bytes 2 id.bus
  unfolding put_id w1 w2 w3
  put_id_bus =
      slice-write_at_above 80 2 86 (le_bytes 2 id.version) w3 (omega arith)
        (omega (arith, length-w3))
      ∙ slice-write_at_above 80 2 84 (le_bytes 2 id.product) w2 (omega arith)
          (omega (arith, length-w2))
      ∙ slice-write_at_above 80 2 82 (le_bytes 2 id.vendor) w1 (omega arith)
          (omega (arith, length-w1))
      ∙ slice-write_at_self 80 (le_bytes 2 id.bus) buf (omega arith)

  put_id_vendor : slice 82 2 (put_id id buf) ≡ le_bytes 2 id.vendor
  unfolding put_id w1 w2 w3
  put_id_vendor =
      slice-write_at_above 82 2 86 (le_bytes 2 id.version) w3 (omega arith)
        (omega (arith, length-w3))
      ∙ slice-write_at_above 82 2 84 (le_bytes 2 id.product) w2 (omega arith)
          (omega (arith, length-w2))
      ∙ slice-write_at_self 82 (le_bytes 2 id.vendor) w1 (omega (arith, length-w1))

  put_id_product : slice 84 2 (put_id id buf) ≡ le_bytes 2 id.product
  unfolding put_id w1 w2 w3
  put_id_product =
      slice-write_at_above 84 2 86 (le_bytes 2 id.version) w3 (omega arith)
        (omega (arith, length-w3))
      ∙ slice-write_at_self 84 (le_bytes 2 id.product) w2 (omega (arith, length-w2))

  put_id_version : slice 86 2 (put_id id buf) ≡ le_bytes 2 id.version
  unfolding put_id w1 w2 w3
  put_id_version = slice-write_at_self 86 (le_bytes 2 id.version) w3 (omega (arith, length-w3))

-- The record that the kernel is handed, for any name and an id of four uint16: its size is that of
-- `struct uinput_user_dev`, the last byte of the name is NUL, and the id stands behind the name.
pub user_dev_layout :
    (name : List ℕ) (id : InputId)
    → id.bus < 2 ^ 16
    → id.vendor < 2 ^ 16
    → id.product < 2 ^ 16
    → id.version < 2 ^ 16
    → (length (user_dev name id) ≡ 1116)
      × (get_or (user_dev name id) 79 0 ≡ 0)
      × (id_from_bytes (drop 80 (user_dev name id)) ≡ id)
unfolding user_dev id_from_bytes
user_dev_layout name id hb hv hp hr =
    let room : 88 ≤ length (named name) = omega (arith, length-named name) in
    let buf = named name in
    let dev : List ℕ = put_id id buf in
    let field : (k v : ℕ)
        → v < 2 ^ 16
        → slice (k + 80) 2 dev ≡ le_bytes 2 v
        → le_number (slice k 2 (drop 80 dev)) ≡ v =
      λ k v h e.
        ap (λ (l : List ℕ). le_number (take 2 l)) (drop-drop k 80 dev)
        ∙ ap le_number e
        ∙ two_bytes v h in
    (
      length-put_id id (named name) room ∙ length-named name,
      put_id_below id (named name) room 79 (omega arith) ∙ named_end name,
      λ i. record {
        bus = field 0 id.bus hb (put_id_bus id buf room) i;
        vendor = field 2 id.vendor hv (put_id_vendor id buf room) i;
        product = field 4 id.product hp (put_id_product id buf room) i;
        version = field 6 id.version hr (put_id_version id buf room) i;
      },
    )
