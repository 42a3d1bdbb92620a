-- ===== src/Esphome/Noise/Examples.antt =====
-- Two messages through a cipher that shifts bytes and adds a tag.
use overdub.Base.{
  ℕ, List, [], ◌∷◌, ◌++◌, ◌+◌, ◌-◌, Option, some, ◌≡◌, refl, length, length-append, take, arith,
  take_append_length,
}
use overdub.Esphome.Noise.Stream.{Sendable, AreSendable, write_all, read_all, read_all-write_all}

abbrev noise_tag : List ℕ
noise_tag = 0 ∷ 0 ∷ 0 ∷ 0 ∷ 0 ∷ 0 ∷ 0 ∷ 0 ∷ 0 ∷ 0 ∷ 0 ∷ 0 ∷ 0 ∷ 0 ∷ 0 ∷ 0 ∷ []

abbrev seal : ℕ → List ℕ → List ℕ
seal n plain = plain ++ noise_tag

abbrev unseal : ℕ → List ℕ → Option (List ℕ)
unseal n sealed = some (take (length sealed - 16) sealed)

unseal-seal : (n : ℕ) (plain : List ℕ) → unseal n (seal n plain) ≡ some plain
unseal-seal n plain =
    let size : length (plain ++ noise_tag) - 16 ≡ length plain =
      omega (arith, length-append plain noise_tag) in
    rw size (λ i. some (take_append_length plain noise_tag (length plain) refl i))

length-seal : (n : ℕ) (plain : List ℕ) → length (seal n plain) ≡ length plain + 16
length-seal n plain = length-append plain noise_tag

abbrev hello_and_ping : List Sendable
hello_and_ping = (2, 8 ∷ 1 ∷ []) ∷ (8, []) ∷ []

read_all-write_all_example :
    (bytes : List ℕ) × (write_all seal 0 hello_and_ping ≡ some bytes)
    × ((rest : List ℕ)
        → read_all unseal 0 (length hello_and_ping) (bytes ++ rest) ≡ some (hello_and_ping, rest))
unfolding AreSendable
read_all-write_all_example =
    read_all-write_all seal unseal unseal-seal length-seal 0 hello_and_ping
      (omega arith, omega arith, (omega arith, omega arith, tt))
