-- ===== src/UntrustedLog.antt =====
-- internal/untrustedlog/untrustedlog.go: the log that a remote party can make the daemon write.
-- A string is the list of its bytes. A time is a number of nanoseconds; `none` is Go's zero time,
-- which every clock reading is after. `log.Print` is the list of lines that a call prints.
pub mod Bounds
mod Examples
use Prim.Native.String.{String}
use overdub.Base.{
  ℕ, zero, suc, ◌+◌, ◌*◌, ◌/◌, ◌%◌, ◌^◌, Bool, true, false, Option, none, some, List, [], ◌∷◌, ◌++◌,
  length, take, ltb, leb, ◌==◌, if◌then◌else◌,
}
use overdub.Base.Text.{codes, decimal}

abbrev pub burst : ℕ
burst = 20

abbrev pub total : ℕ
total = 5000

-- `time.Minute`
abbrev pub window : ℕ
window = 60 * 10 ^ 9

abbrev pub max_string : ℕ
max_string = 64

abbrev pub max_line : ℕ
max_line = 512

unfoldable pub cut : List ℕ → List ℕ
cut s = if ltb max_string (length s) then take max_string s ++ codes "..." else s

unfoldable pub cut_line : List ℕ → List ℕ
cut_line s = if ltb max_line (length s) then take max_line s ++ codes "..." else s

pub record Log : Type 0 where
  pub subject : List ℕ
  pub window_end : Option ℕ
  pub lines : ℕ
  pub dropped : ℕ
  pub written : ℕ

-- `now.After(l.windowEnd)`
after : ℕ → Option ℕ → Bool
after now none = true
after now (some end) = ltb end now

-- The three results of `allow`.
pub record Verdict : Type 0 where
  pub suppressed : ℕ
  pub allowed : Bool
  pub last : Bool

-- The window that `allow` counts in, and the drops that it reports.
roll : ℕ → Log → Log × ℕ
unfolding after
roll now l =
    if after now l.window_end
    then (record l { window_end = some (now + window); lines = 0; dropped = 0 }, l.dropped)
    else (l, 0)

admit : Log → ℕ → Log × Verdict
admit l d =
    if leb burst l.lines
    then (
      record l { dropped = l.dropped + 1 },
      record { suppressed = d; allowed = false; last = false },
    )
    else (
      record l { lines = l.lines + 1; written = l.written + 1 },
      record { suppressed = d; allowed = true; last = l.written + 1 == total },
    )

unfoldable pub allow : ℕ → Log → Log × Verdict
unfolding roll admit
allow now l =
    if leb total l.written
    then (l, record { suppressed = 0; allowed = false; last = false })
    else admit (roll now l).0 (roll now l).1

unfoldable pub prefix : Log → List ℕ
prefix l = elim l.subject [ [] ↦ [] | c ∷ cs ↦ (c ∷ cs) ++ codes ": " ]

print_if : Bool → List ℕ → List (List ℕ) → List (List ℕ)
print_if true line rest = cut_line line ∷ rest
print_if false line rest = rest

-- `Printf`, with the text that `fmt.Sprintf` made of the format and its arguments.
unfoldable pub printf : ℕ → List ℕ → Log → Log × List (List ℕ)
unfolding print_if
printf now line l =
    let (l', v) = allow now l in
    (
      l',
      print_if (ltb 0 v.suppressed)
          (prefix l ++ (decimal v.suppressed ++ codes " lines suppressed"))
          (print_if v.allowed line (
            print_if v.last
              (prefix l
                ++ (decimal total
                    ++ codes
                        " lines this run; nothing a peer does is logged again until a restart"))
              [])),
    )

-- A run of the daemon: the calls of `Printf` in order, each with the clock's reading.
unfoldable pub printf_all : List (ℕ × List ℕ) → Log → Log × List (List ℕ)
printf_all [] l = (l, [])
printf_all ((now, line) ∷ calls) l =
    let (l', out) = printf now line l in let (l'', more) = printf_all calls l' in (l'', out ++ more)

-- A `Log` as its owner declares it.
unfoldable pub new : List ℕ → Log
new subject = record { subject = subject; window_end = none; lines = 0; dropped = 0; written = 0 }
