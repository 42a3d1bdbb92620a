-- ===== src/Audio/Output.antt =====
-- internal/audio/mixer.go, `writeAll`: a block is written to a player that may take a part of it, or
-- nothing for now. What the player answers is a list of `Attempt`s.
pub mod Ends
mod Examples
use overdub.Base.{
  ℕ, suc, ◌+◌, ◌-◌, Bool, true, false, List, [], ◌∷◌, ◌++◌, length, take, drop, ltb, ◌||◌, ◌==◌,
  if◌then◌else◌,
}
use overdub.Base.Int.{ℤ, pos, negsuc, pos_part, ltb_ℤ, eqb_ℤ}

abbrev pub stuck_waits : ℕ
stuck_waits = 500

-- One call of `write`: an error, or a count, with what `wait` answers if the count is 0.
pub data Attempt : Type 0 where
  fails : Attempt
  takes : ℤ → Bool → Attempt

-- How `writeAll` returns. `waiting` is no return: the player has not answered any further.
pub data End : Type 0 where
  done write_failed bad_count stopped_draining stopping waiting : End

-- The loop, after `refused` refusals in a row: the bytes that the player took, and the end.
unfoldable pub write_all_from : ℕ → List ℕ → List Attempt → List ℕ × End
write_all_from refused [] attempts = ([], done)
write_all_from refused (b ∷ bs) [] = ([], waiting)
write_all_from refused (b ∷ bs) (fails ∷ attempts) = ([], write_failed)
write_all_from refused (b ∷ bs) (takes n waits ∷ attempts) =
    let buf = b ∷ bs in
    let again = write_all_from (refused + 1) buf attempts in
    let k = pos_part n in
    let rest = write_all_from 0 (drop k buf) attempts in
    if ltb_ℤ n (pos 0) || ltb_ℤ (pos (length buf)) n
    then ([], bad_count)
    else if eqb_ℤ n (pos 0)
    then if ltb stuck_waits (refused + 1)
      then ([], stopped_draining)
      else if waits
      then again
      else ([], stopping)
    else (take k buf ++ rest.0, rest.1)

unfoldable pub write_all : List ℕ → List Attempt → List ℕ × End
unfolding write_all_from
write_all buf attempts = write_all_from 0 buf attempts
