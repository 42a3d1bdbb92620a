-- ===== src/Audio/Output/Ends.antt =====
-- internal/audio/mixer.go, `writeAll`: how it ends, and what it wrote.
use mathlib.Core.List.{append_assoc}
use overdub.Base.{
  ℕ, zero, suc, ◌+◌, ◌-◌, ◌*◌, ◌≤◌, ◌<◌, ◌≡◌, ◌≢◌, refl, ap, ◌∙◌, Bool, true, false, List, [], ◌∷◌,
  ◌++◌, length, take, drop, ltb, ◌==◌, if◌then◌else◌, arith, take-append-drop, length-drop,
}
use overdub.Base.Int.{pos, negsuc}
use overdub.Audio.Output.{
  Attempt, fails, takes, End, done, bad_count, stopped_draining, stopping, waiting, write_all_from,
  write_all, stuck_waits,
}

-- A write that ends well wrote the whole block.
done_writes :
    (refused : ℕ) (buf : List ℕ) (attempts : List Attempt)
    → (write_all_from refused buf attempts).1 ≡ done
    → (write_all_from refused buf attempts).0 ≡ buf
unfolding write_all_from
done_writes refused [] attempts e = refl
done_writes refused (b ∷ bs) [] e = absurd cc
done_writes refused (b ∷ bs) (fails ∷ attempts) e = absurd cc
done_writes refused (b ∷ bs) (takes (negsuc n) waits ∷ attempts) e = absurd (ground arith)
done_writes refused (b ∷ bs) (takes (pos zero) waits ∷ attempts) e =
    ground (arith, done_writes (refused + 1) (b ∷ bs) attempts)
done_writes refused (b ∷ bs) (takes (pos (suc k)) waits ∷ attempts) e =
    ground (arith, done_writes 0 (drop k bs) attempts, take-append-drop k bs)

module _ (P : List ℕ × End → Type 0) where
  if_case :
      (b : Bool) (x y : List ℕ × End)
      → (b ≡ true → P x)
      → (b ≡ false → P y)
      → P (if b then x else y)
  if_case true x y p q = p refl
  if_case false x y p q = q refl

abbrev IsFrontOf : List ℕ → List ℕ × End → Type 0
IsFrontOf buf x = (rest : List ℕ) × (x.0 ++ rest ≡ buf)

put_back :
    (k b : ℕ) (bs written rest : List ℕ)
    → written ++ rest ≡ drop k bs
    → (b ∷ take k bs ++ written) ++ rest ≡ b ∷ bs
put_back k b bs written rest e =
    ap (λ l. b ∷ l)
      (append_assoc (take k bs) written rest ∙ ap (λ l. take k bs ++ l) e ∙ take-append-drop k bs)

refused_again : (refused : ℕ) → ltb stuck_waits (refused + 1) ≡ false → refused + 1 ≤ stuck_waits
refused_again refused small = ground arith

fewer_left :
    (refused m n : ℕ)
    → ltb stuck_waits (refused + 1) ≡ false
    → suc m * 501 + (stuck_waits - refused) < suc n
    → suc m * 501 + (stuck_waits - (refused + 1)) < n
fewer_left refused m n small h = omega (arith, refused_again refused small)

-- What is written where `k + 1` bytes are taken.
abbrev some_taken : ℕ → ℕ → List ℕ → List Attempt → List ℕ × End
unfolding write_all_from
some_taken k b bs attempts = (
  b ∷ take k bs ++ (write_all_from 0 (drop k bs) attempts).0,
  (write_all_from 0 (drop k bs) attempts).1,
)

front_written :
    (refused : ℕ) (buf : List ℕ) (attempts : List Attempt)
    → IsFrontOf buf (write_all_from refused buf attempts)
unfolding write_all_from
front_written refused [] attempts = ([], refl)
front_written refused (b ∷ bs) [] = (b ∷ bs, refl)
front_written refused (b ∷ bs) (fails ∷ attempts) = (b ∷ bs, refl)
front_written refused (b ∷ bs) (takes (negsuc n) waits ∷ attempts) = (b ∷ bs, ground arith)
front_written refused (b ∷ bs) (takes (pos zero) waits ∷ attempts) =
    let again = front_written (refused + 1) (b ∷ bs) attempts in
    let not_bad : ltb (suc (length bs) + 0) 0 ≡ false = ground arith in
    rw not_bad (
      if_case (IsFrontOf (b ∷ bs)) (ltb stuck_waits (refused + 1)) ([], stopped_draining)
        (if waits then write_all_from (refused + 1) (b ∷ bs) attempts else ([], stopping))
        (λ _. (b ∷ bs, refl))
        (λ _.
          if_case (IsFrontOf (b ∷ bs)) waits (write_all_from (refused + 1) (b ∷ bs) attempts)
            ([], stopping) (λ _. again) (λ _. (b ∷ bs, refl))))
front_written refused (b ∷ bs) (takes (pos (suc k)) waits ∷ attempts) =
    let (rest, e) = front_written 0 (drop k bs) attempts in
    let positive : ((suc k + 0) == 0) ≡ false = ground arith in
    let not_negative : ltb (suc k + 0) 0 ≡ false = ground arith in
    rw (positive, not_negative)
      (if_case (IsFrontOf (b ∷ bs)) (ltb (suc (length bs) + 0) (suc k + 0)) ([], bad_count)
        (some_taken k b bs attempts) (λ _. (b ∷ bs, refl)) (λ _. (rest, put_back k b bs _ rest e)))

abbrev Returns : List ℕ × End → Type 0
Returns x = x.1 ≢ waiting

ends_soon :
    (refused : ℕ) (buf : List ℕ) (attempts : List Attempt)
    → refused ≤ stuck_waits
    → length buf * 501 + (stuck_waits - refused) < length attempts
    → Returns (write_all_from refused buf attempts)
unfolding write_all_from
ends_soon refused [] attempts r h = λ e. cc
ends_soon refused (b ∷ bs) [] r h = absurd (omega arith)
ends_soon refused (b ∷ bs) (fails ∷ attempts) r h = λ e. cc
ends_soon refused (b ∷ bs) (takes (negsuc n) waits ∷ attempts) r h =
    let negative : ltb (0 + 0) (0 + suc n) ≡ true = ground arith in rw negative (λ e. cc)
ends_soon refused (b ∷ bs) (takes (pos zero) waits ∷ attempts) r h =
    let not_bad : ltb (suc (length bs) + 0) 0 ≡ false = ground arith in
    rw not_bad (
      if_case Returns (ltb stuck_waits (refused + 1)) ([], stopped_draining)
        (if waits then write_all_from (refused + 1) (b ∷ bs) attempts else ([], stopping))
        (λ _. λ e. cc)
        (λ small.
          if_case Returns waits (write_all_from (refused + 1) (b ∷ bs) attempts) ([], stopping)
            (λ _.
              ends_soon (refused + 1) (b ∷ bs) attempts (refused_again refused small)
                (fewer_left refused (length bs) (length attempts) small h))
            (λ _. λ e. cc)))
ends_soon refused (b ∷ bs) (takes (pos (suc k)) waits ∷ attempts) r h =
    let positive : ((suc k + 0) == 0) ≡ false = ground arith in
    let not_negative : ltb (suc k + 0) 0 ≡ false = ground arith in
    rw (positive, not_negative)
      (if_case Returns (ltb (suc (length bs) + 0) (suc k + 0)) ([], bad_count)
        (some_taken k b bs attempts) (λ _. λ e. cc)
        (λ _. ends_soon 0 (drop k bs) attempts (omega arith) (omega (arith, length-drop k bs))))

-- If `writeAll` returns no error, the bytes that the player took are the whole block, in order.
pub write_all_whole :
    (buf : List ℕ) (attempts : List Attempt)
    → (write_all buf attempts).1 ≡ done
    → (write_all buf attempts).0 ≡ buf
unfolding write_all
write_all_whole buf attempts = done_writes 0 buf attempts

-- However `writeAll` ends, the bytes that the player took are the front of the block: none is
-- written twice or left out.
pub write_all_front :
    (buf : List ℕ) (attempts : List Attempt)
    → (rest : List ℕ) × ((write_all buf attempts).0 ++ rest ≡ buf)
unfolding write_all
write_all_front buf attempts = front_written 0 buf attempts

-- `writeAll` has returned once the player has answered more than 501 * (n + 1) times, for a block of
-- n bytes: a player that takes nothing is given up.
pub write_all_returns :
    (buf : List ℕ) (attempts : List Attempt)
    → 501 * (length buf + 1) < length attempts
    → (write_all buf attempts).1 ≢ waiting
unfolding write_all
write_all_returns buf attempts h = ends_soon 0 buf attempts (omega arith) (omega arith)
