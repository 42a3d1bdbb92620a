-- ===== src/UntrustedLog/Examples.antt =====
-- Runs of the log of internal/untrustedlog/untrustedlog.go, and its theorems at concrete inputs.
use overdub.Base.{◌+◌, ◌≤◌, ◌≡◌, refl, none, some, [], ◌∷◌, arith, length, All, replicate}
use overdub.Base.Text.{codes, decimal}
use overdub.UntrustedLog.{
  Log, burst, max_string, cut, cut_line, prefix, allow, printf, printf_all, new,
}
use overdub.UntrustedLog.Bounds.{
  length-cut, printf_all_bounded, Tally, tally, tally_window, IsValid, allow-IsValid,
}

abbrev start : Log
start = record { subject = codes "mdns"; window_end = none; lines = 0; dropped = 0; written = 0 }

abbrev busy : Log
busy = record {
  subject = codes "mdns";
  window_end = some 100;
  lines = 20;
  dropped = 3;
  written = 40;
}

-- A new window reports the three drops of the old one, and then prints.
busy_rolls :
    (printf 101 (codes "hello") busy).1 ≡ codes "mdns: 3 lines suppressed" ∷ codes "hello" ∷ []
unfolding printf allow cut_line prefix decimal
busy_rolls = refl

busy_drops : (printf 100 (codes "hello") busy).1 ≡ []
unfolding printf allow cut_line prefix decimal
busy_drops = refl

length-cut_example : length (cut (replicate 100 65)) ≤ max_string + 3
length-cut_example = length-cut (replicate 100 65)

printf_all_bounded_example :
    (length (printf_all ((1, codes "a") ∷ (2, codes "b") ∷ []) (new (codes "mdns"))).1 ≤ 10001)
    × All
        (λ s. length s ≤ 515)
        (printf_all ((1, codes "a") ∷ (2, codes "b") ∷ []) (new (codes "mdns"))).1
printf_all_bounded_example =
    printf_all_bounded ((1, codes "a") ∷ (2, codes "b") ∷ []) (codes "mdns")

abbrev tally_busy : Tally
tally_busy = record { log = record busy { lines = 18 }; passed = 0; reported = 0 }

tally_window_example : (tally (90 ∷ 95 ∷ 100 ∷ []) tally_busy).passed + 18 ≤ 0 + burst
tally_window_example =
    tally_window (90 ∷ 95 ∷ 100 ∷ []) 100 tally_busy refl (omega arith) (omega arith)

allow-IsValid_example : IsValid (allow 100 busy).0
allow-IsValid_example = allow-IsValid 100 busy (omega arith)
