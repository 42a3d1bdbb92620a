-- ===== src/Sendspin/Transport/Frames.antt =====
-- internal/sendspin/transport.go: single frames as a peer reads them.
use mathlib.Core.List.{append_assoc}
use overdub.Base.{
  ℕ, zero, suc, ◌≤◌, ◌≡◌, ◌≢◌, refl, ap, ◌∙◌, true, false, Option, some, List, [], ◌∷◌, ◌++◌,
  length, take, drop, ◌==◌, arith, take-append-drop,
}
use overdub.Sendspin.Transport.{
  Sender, written, fragment_frame, Incoming, Reader, reassemble, returns, goes_on, read_plain,
}

-- A connection that delivers every message.
abbrev pub deliver : List Incoming → List ℕ → Option (List Incoming)
deliver w c = some (w ++ (record { is_binary = true; bytes = c } ∷ []))

-- A reader in the middle of a message.
abbrev pub midway : {R : Type 0} → R → ℕ → List ℕ → Reader R
midway c kind acc = record { cipher = c; in_fragment = true; fragment_type = kind; fragment = acc }

abbrev pub at_rest : {R : Type 0} → R → Reader R
at_rest c = record { cipher = c; in_fragment = false; fragment_type = 0; fragment = [] }

module _ {R : Type 0} (rc : R) (kind n : ℕ) (body acc : List ℕ) where
  pub plain_next :
      (n == length body) ≡ false
      → length (acc ++ take n body) ≤ 65535
      → read_plain (fragment_frame false kind n body) (midway rc kind acc)
        ≡ goes_on (midway rc kind (acc ++ take n body))
  unfolding read_plain reassemble
  plain_next e h = rw e (ground arith)

  pub plain_last :
      (n == length body) ≡ true
      → length (acc ++ take n body) ≤ 65535
      → read_plain (fragment_frame false kind n body) (midway rc kind acc)
        ≡ returns kind (acc ++ take n body) (at_rest rc)
  unfolding read_plain reassemble
  plain_last e h = rw e (ground arith)

  pub plain_first :
      (n == length body) ≡ false
      → kind ≢ 1
      → length (take n body) ≤ 65535
      → read_plain (fragment_frame true kind n body) (at_rest rc)
        ≡ goes_on (midway rc kind (take n body))
  unfolding read_plain reassemble
  plain_first e k h = rw e (ground arith)

pub drop_all : (n : ℕ) (xs : List ℕ) → length xs ≤ n → drop n xs ≡ []
drop_all zero [] h = refl
drop_all zero (x ∷ xs) h = absurd (omega arith)
drop_all (suc n) [] h = refl
drop_all (suc n) (x ∷ xs) h = drop_all n xs (omega arith)

pub regroup : (acc body : List ℕ) (n : ℕ) → (acc ++ take n body) ++ drop n body ≡ acc ++ body
regroup acc body n = append_assoc acc _ _ ∙ ap (λ l. acc ++ l) (take-append-drop n body)

pub written-injective : {S W : Type 0} {s s' : Sender S W} → written s ≡ written s' → s ≡ s'
written-injective h = cc
