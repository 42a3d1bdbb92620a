-- ===== src/Audio/Output/Examples.antt =====
-- internal/audio/mixer.go, `writeAll`: a player that takes a part, refuses, and takes the rest.
use overdub.Base.{arith, replicate, length-replicate, ℕ, ◌≡◌, ◌≢◌, refl, true, List, [], ◌∷◌}
use overdub.Base.Int.{pos}
use overdub.Audio.Output.{Attempt, takes, done, waiting, write_all, write_all_from}
use overdub.Audio.Output.Ends.{write_all_returns}

abbrev samples : List ℕ
samples = 1 ∷ 2 ∷ 3 ∷ 4 ∷ []

abbrev player : List Attempt
player = takes (pos 2) true ∷ takes (pos 0) true ∷ takes (pos 2) true ∷ []

write_all_done : (write_all samples player).1 ≡ done
unfolding write_all write_all_from
write_all_done = refl

abbrev deaf : List Attempt
deaf = replicate 1003 (takes (pos 0) true)

write_all_returns_example : (write_all (9 ∷ []) deaf).1 ≢ waiting
write_all_returns_example =
    write_all_returns (9 ∷ []) deaf (omega (arith, length-replicate 1003 (takes (pos 0) true)))
