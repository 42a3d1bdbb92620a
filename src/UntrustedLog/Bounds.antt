-- ===== src/UntrustedLog/Bounds.antt =====
-- How much internal/untrustedlog/untrustedlog.go lets through: the length of a line, the lines of a
-- run, the lines of a window, and what becomes of each call.
use overdub.Base.{
  ℕ, ◌+◌, ◌-◌, ◌*◌, ◌≤◌, ◌<◌, ◌≡◌, Bool, true, false, some, List, [], ◌∷◌, arith, length,
  length-append, length-take, All, All-append, Bool-cases, ltb, if◌then◌else◌, inl, inr,
}
use overdub.UntrustedLog.{
  Log, burst, total, max_string, max_line, cut, cut_line, allow, print_if, printf, printf_all, new,
}

-- A text of a peer is cut to 64 bytes and three dots.
pub length-cut : (s : List ℕ) → length (cut s) ≤ max_string + 3
unfolding cut
length-cut s = elim (Bool-cases (ltb max_string (length s))) [
  | inl long ↦ rw (long, length-append) (omega (arith, length-take max_string s))
  | inr short ↦ rw short (ground arith)
]

pub length-cut_line : (s : List ℕ) → length (cut_line s) ≤ max_line + 3
unfolding cut_line
length-cut_line s = elim (Bool-cases (ltb max_line (length s))) [
  | inl long ↦ rw (long, length-append) (omega (arith, length-take max_line s))
  | inr short ↦ rw short (ground arith)
]

abbrev pub IsShort : List ℕ → Type 0
IsShort s = length s ≤ max_line + 3

print_if-IsShort :
    (b : Bool) (line : List ℕ) (rest : List (List ℕ))
    → All IsShort rest
    → All IsShort (print_if b line rest)
unfolding print_if
print_if-IsShort true line rest h = (length-cut_line line, h)
print_if-IsShort false line rest h = h

printf-IsShort : (now : ℕ) (line : List ℕ) (l : Log) → All IsShort (printf now line l).1
unfolding printf
printf-IsShort now line l = search (print_if-IsShort, tt)

pub printf_all-IsShort : (calls : List (ℕ × List ℕ)) (l : Log) → All IsShort (printf_all calls l).1
unfolding printf_all
printf_all-IsShort [] l = tt
printf_all-IsShort ((now, line) ∷ calls) l =
    All-append IsShort _ _ (printf-IsShort now line l)
      (printf_all-IsShort calls (printf now line l).0)

-- The lines that a log may still print: two for each call that it still allows, and the last notice.
abbrev pub budget : Log → ℕ
budget l = 2 * (total - l.written) + (if ltb l.written total then 1 else 0)

abbrev pub count : Bool → ℕ
count true = 1
count false = 0

length-print_if :
    (b : Bool) (line : List ℕ) (rest : List (List ℕ))
    → length (print_if b line rest) ≡ count b + length rest
unfolding print_if
length-print_if true line rest = ground arith
length-print_if false line rest = ground arith

allow-budget :
    (now : ℕ) (l : Log)
    → count (ltb 0 (allow now l).1.suppressed)
        + count (allow now l).1.allowed
        + count (allow now l).1.last
        + budget (allow now l).0
      ≤ budget l
unfolding allow
allow-budget now l = ground arith

printf-budget :
    (now : ℕ) (line : List ℕ) (l : Log)
    → length (printf now line l).1 + budget (printf now line l).0 ≤ budget l
unfolding printf
printf-budget now line l = simp length-print_if (omega (arith, allow-budget now l))

printf_all-budget :
    (calls : List (ℕ × List ℕ)) (l : Log)
    → length (printf_all calls l).1 + budget (printf_all calls l).0 ≤ budget l
unfolding printf_all
printf_all-budget [] l = omega arith
printf_all-budget ((now, line) ∷ calls) l =
    rw length-append
      (omega (arith, printf-budget now line l, printf_all-budget calls (printf now line l).0))

-- A peer makes a log write at most 10001 lines in a run of the daemon, none longer than 515 bytes.
pub printf_all_bounded :
    (calls : List (ℕ × List ℕ)) (subject : List ℕ)
    → (length (printf_all calls (new subject)).1 ≤ 10001)
      × All (λ s. length s ≤ 515) (printf_all calls (new subject)).1
unfolding new
printf_all_bounded calls subject =
    (omega (arith, printf_all-budget calls (new subject)), printf_all-IsShort calls (new subject))

-- A run of `allow` alone: the calls let through, and the drops that it reported.
pub record Tally : Type 0 where
  pub log : Log
  pub passed : ℕ
  pub reported : ℕ

unfoldable pub tally : List ℕ → Tally → Tally
tally [] t = t
tally (now ∷ nows) t =
    let (l, v) = allow now t.log in
    tally nows (record {
      log = l;
      passed = t.passed + count v.allowed;
      reported = t.reported + v.suppressed;
    })

-- What holds between two calls.
pub record IsValid (l : Log) : Type 0 where
  pub lines_le : l.lines ≤ burst
  pub written_le : l.written ≤ total

pub allow-IsValid : (now : ℕ) (l : Log) → IsValid l → IsValid (allow now l).0
unfolding allow
allow-IsValid now l h = ground arith

allow_in_window :
    (now end : ℕ) (l : Log)
    → l.window_end ≡ some end
    → now ≤ end
    → l.lines ≤ burst
    → ((allow now l).0.window_end ≡ some end)
      × ((allow now l).0.lines ≤ burst)
      × (count (allow now l).1.allowed + l.lines ≤ (allow now l).0.lines)
unfolding allow
allow_in_window now end l e h v = ground arith

-- While the clock stays inside one window, no more than 20 lines pass, those before included.
pub tally_window :
    (nows : List ℕ) (end : ℕ) (t : Tally)
    → t.log.window_end ≡ some end
    → All (λ now. now ≤ end) nows
    → t.log.lines ≤ burst
    → (tally nows t).passed + t.log.lines ≤ t.passed + burst
unfolding tally
tally_window [] end t e h v = omega arith
tally_window (now ∷ nows) end t e (hn, hs) v =
    let (l, w) = allow now t.log in
    let (same, le, grows) = allow_in_window now end t.log e hn v in
    omega (
      arith,
      tally_window nows end
          (record {
            log = l;
            passed = t.passed + count w.allowed;
            reported = t.reported + w.suppressed;
          })
          same hs le,
    )

allow_accounts :
    (now : ℕ) (l : Log)
    → l.written < total
    → count (allow now l).1.allowed + (allow now l).1.suppressed + (allow now l).0.dropped
      ≡ 1 + l.dropped
unfolding allow
allow_accounts now l h = ground arith

allow-written : (now : ℕ) (l : Log) → l.written ≤ (allow now l).0.written
unfolding allow
allow-written now l = ground arith

tally-written : (nows : List ℕ) (t : Tally) → t.log.written ≤ (tally nows t).log.written
unfolding tally
tally-written [] t = omega arith
tally-written (now ∷ nows) t =
    let (l, w) = allow now t.log in
    omega (
      arith,
      allow-written now t.log,
      tally-written nows (record {
        log = l;
        passed = t.passed + count w.allowed;
        reported = t.reported + w.suppressed;
      }),
    )

-- Until the run's limit is reached every call is accounted for: it passed, it was reported as
-- suppressed, or it waits to be reported.
pub tally_accounts :
    (nows : List ℕ) (t : Tally)
    → (tally nows t).log.written < total
    → (tally nows t).passed + (tally nows t).reported + (tally nows t).log.dropped
      ≡ length nows + t.passed + t.reported + t.log.dropped
unfolding tally
tally_accounts [] t h = omega arith
tally_accounts (now ∷ nows) t h =
    let (l, w) = allow now t.log in
    let t' : Tally = record {
      log = l;
      passed = t.passed + count w.allowed;
      reported = t.reported + w.suppressed;
    } in
    omega (
      arith,
      tally_accounts nows t' h,
      allow_accounts now t.log (omega (arith, allow-written now t.log, tally-written nows t')),
    )
