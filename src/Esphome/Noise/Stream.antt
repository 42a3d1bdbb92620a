-- ===== src/Esphome/Noise/Stream.antt =====
-- internal/esphome/noise.go: the messages of a stream are read as they were written.
use mathlib.Core.List.{append_assoc}
use overdub.Base.{
  ℕ, zero, suc, length-append, Option, none, some, List, [], ◌∷◌, ◌++◌, ◌+◌, ◌*◌, ◌/◌, ◌%◌, ltb,
  length, ◌≡◌, ◌≤◌, ◌<◌, refl, ◌∙◌, arith, take_append_length, drop_append_length, if_case,
}
use overdub.Esphome.Noise.{
  lead_encrypted, max_data_frame, max_noise_message, two_bytes, write_noise_frame, frame_of,
  read_noise_frame, message_of, no_message, cut_off, undecrypted, too_short, open_plain, seal_plain,
  open_frame, open_decrypted, read, write,
}

-- A message: its type and its payload.
abbrev pub Sendable : Type 0
Sendable = ℕ × List ℕ

-- The frames of messages, one after the other, if each fits.
unfoldable pub write_all : (ℕ → List ℕ → List ℕ) → ℕ → List Sendable → Option (List ℕ)
write_all encrypt n [] = some []
write_all encrypt n ((kind, payload) ∷ more) = elim (write encrypt n kind payload) [
  | none ↦ none
  | some bytes ↦ elim (write_all encrypt (suc n) more) [
    | none ↦ none
    | some rest ↦ some (bytes ++ rest)
  ]
]

-- The messages of a stream of the given number of frames, and what follows.
unfoldable pub read_all :
    (ℕ → List ℕ → Option (List ℕ)) → ℕ → ℕ → List ℕ → Option (List Sendable × List ℕ)
read_all decrypt n zero bytes = some ([], bytes)
read_all decrypt n (suc k) bytes = elim (read decrypt n bytes) [
  | message_of kind payload rest ↦ elim (read_all decrypt (suc n) k rest) [
    | none ↦ none
    | some (more, left) ↦ some ((kind, payload) ∷ more, left)
  ]
  | no_message ↦ none
  | cut_off ↦ none
  | undecrypted ↦ none
  | too_short ↦ none
]

-- Types of 16 bits, and payloads that fit a frame.
unfoldable pub AreSendable : List Sendable → Type 0
AreSendable [] = Unit
AreSendable ((kind, payload) ∷ more) =
    (kind < 65536) × (length payload ≤ max_noise_message) × AreSendable more

read_written_frame :
    (limit : ℕ) (payload rest : List ℕ)
    → length payload ≤ limit
    → limit ≤ 65535
    → read_noise_frame limit (lead_encrypted ∷ two_bytes (length payload) ++ payload ++ rest)
      ≡ frame_of payload rest
unfolding read_noise_frame two_bytes
read_written_frame limit payload rest fits small =
    let size : length payload / 256 % 256 * 256 + length payload % 256 ≡ length payload =
      omega arith in
    rw size (
      ground (
        arith,
        take_append_length payload rest (length payload) refl,
        drop_append_length payload rest (length payload) refl,
        length-append payload rest,
      ))

open_sealed :
    (kind : ℕ) (payload rest : List ℕ)
    → kind < 65536
    → open_plain (seal_plain kind payload) rest ≡ message_of kind payload rest
unfolding open_plain seal_plain two_bytes
open_sealed kind payload rest small =
    let number : kind / 256 % 256 * 256 + kind % 256 ≡ kind = omega arith in
    λ i. message_of (number i) payload rest

length-seal_plain :
    (kind : ℕ) (payload : List ℕ) → length (seal_plain kind payload) ≡ length payload + 4
unfolding seal_plain two_bytes
length-seal_plain kind payload = omega arith

module _ (encrypt : ℕ → List ℕ → List ℕ) (decrypt : ℕ → List ℕ → Option (List ℕ))
    (opens : (n : ℕ) (plain : List ℕ) → decrypt n (encrypt n plain) ≡ some plain)
    (tagged : (n : ℕ) (plain : List ℕ) → length (encrypt n plain) ≡ length plain + 16) where
  -- What `write` gives, and what `read` makes of it with anything behind.
  Carries : ℕ → ℕ → List ℕ → Option (List ℕ) → Type 0
  Carries n kind payload none = ⊥
  Carries n kind payload (some bytes) =
      (rest : List ℕ) → read decrypt n (bytes ++ rest) ≡ message_of kind payload rest

  write-Carries :
      (n kind : ℕ) (payload : List ℕ)
      → kind < 65536
      → length payload ≤ max_noise_message
      → Carries n kind payload (write encrypt n kind payload)
  unfolding Carries write write_noise_frame read open_frame open_decrypted
  write-Carries n kind payload small fits =
      let sealed = encrypt n (seal_plain kind payload) in
      let short : length sealed ≤ max_data_frame =
        ground (arith, tagged n (seal_plain kind payload), length-seal_plain kind payload) in
      if_case (Carries n kind payload) (ltb max_noise_message (length payload)) none
        (write_noise_frame sealed) (λ e. absurd (ground arith))
        (λ _.
          if_case (Carries n kind payload) (ltb 65535 (length sealed)) none
            (some (lead_encrypted ∷ two_bytes (length sealed) ++ sealed))
            (λ e. absurd (ground arith))
            (λ _ rest.
              (λ i.
                open_frame (decrypt n)
                  (read_written_frame max_data_frame sealed rest short (omega arith) i))
              ∙ (λ i. open_decrypted (opens n (seal_plain kind payload) i) rest)
              ∙ open_sealed kind payload rest small))

  -- What `write_all` gives, and what `read_all` makes of it.
  CarriesAll : ℕ → List Sendable → Option (List ℕ) → Type 0
  CarriesAll n messages none = ⊥
  CarriesAll n messages (some bytes) =
      (rest : List ℕ) → read_all decrypt n (length messages) (bytes ++ rest) ≡ some (messages, rest)

  both-Carries :
      (n kind : ℕ) (payload : List ℕ) (more : List Sendable) (o p : Option (List ℕ))
      → Carries n kind payload o
      → CarriesAll (suc n) more p
      → CarriesAll n ((kind, payload) ∷ more) (elim o [
        | none ↦ none
        | some bytes ↦ elim p [ none ↦ none | some rest ↦ some (bytes ++ rest) ]
      ])
  unfolding Carries CarriesAll read_all
  both-Carries n kind payload more none p c d = c
  both-Carries n kind payload more (some bytes) none c d = d
  both-Carries n kind payload more (some bytes) (some others) c d = λ rest.
      rw (append_assoc bytes others rest) (rw (read_all, c (others ++ rest)) (rw (d rest) refl))

  write_all-CarriesAll :
      (n : ℕ) (messages : List Sendable)
      → AreSendable messages
      → CarriesAll n messages (write_all encrypt n messages)
  unfolding CarriesAll write_all read_all AreSendable
  write_all-CarriesAll n [] h = λ rest. refl
  write_all-CarriesAll n ((kind, payload) ∷ more) (small, fits, h) =
      both-Carries n kind payload more (write encrypt n kind payload)
        (write_all encrypt (suc n) more) (write-Carries n kind payload small fits)
        (write_all-CarriesAll (suc n) more h)

  CarriesAll-some :
      (n : ℕ) (messages : List Sendable) (o : Option (List ℕ))
      → CarriesAll n messages o
      → (bytes : List ℕ) × (o ≡ some bytes)
        × ((rest : List ℕ)
            → read_all decrypt n (length messages) (bytes ++ rest) ≡ some (messages, rest))
  unfolding CarriesAll
  CarriesAll-some n messages none c = absurd c
  CarriesAll-some n messages (some bytes) c = (bytes, refl, c)

  -- Messages with types of 16 bits and payloads that fit a frame are written, and a reader that counts
  -- its frames as the writer did reads just them, in order, and leaves what follows. The cipher is
  -- assumed to open what it sealed under the same nonce, and to add 16 bytes.
  pub read_all-write_all :
      (n : ℕ) (messages : List Sendable)
      → AreSendable messages
      → (bytes : List ℕ) × (write_all encrypt n messages ≡ some bytes)
        × ((rest : List ℕ)
            → read_all decrypt n (length messages) (bytes ++ rest) ≡ some (messages, rest))
  read_all-write_all n messages h =
      CarriesAll-some n messages (write_all encrypt n messages) (write_all-CarriesAll n messages h)
