-- ===== src/Alexa/Focus.antt =====
-- internal/alexa/focus.go: who holds the audio focus, read from the log of Android, and how far the
-- stream is turned down for it. The map of holders is a list of clients that are all different. The
-- clock's reading is an argument.
pub mod Holders
pub mod Levels
pub mod Refines
mod Examples
use overdub.Base.{
  ℕ, zero, suc, ◌+◌, ◌-◌, ◌*◌, Bool, true, false, Option, none, some, List, [], ◌∷◌, ◌++◌, ◌&&◌,
  ◌||◌, not, ltb, leb, ◌==◌, if◌then◌else◌, min,
}
use overdub.Base.Text.{codes, bytes_eq}
use overdub.Base.Strings.{split_first, split_last, trim}

abbrev pub duck_percent : ℕ
duck_percent = 20

abbrev pub deep_duck_percent : ℕ
deep_duck_percent = 10

abbrev pub full_percent : ℕ
full_percent = 100

-- 15 minutes, in nanoseconds.
abbrev pub hold_for : ℕ
hold_for = 15 * 60 * 1000000000

abbrev pub request_mark : List ℕ
request_mark = codes "requestAudioFocus() from "

abbrev pub req_mark : List ℕ
req_mark = codes " req="

abbrev pub abandon_mark : List ℕ
abandon_mark = codes "abandonAudioFocus() from "

abbrev pub remove_mark : List ℕ
remove_mark = codes "removeFocusStackEntry(): removing entry for "

pub record FocusHolder : Type 0 where
  pub req : ℕ
  pub until : ℕ

abbrev pub Holding : Type 0
Holding = List (List ℕ × FocusHolder)

-- The watcher. A level of 0 is one that was never set.
pub record FocusWatcher : Type 0 where
  pub requested : List ℕ
  pub holders : Holding
  pub level : ℕ

unfoldable pub percent_for : ℕ → ℕ
percent_for req =
    if req == 3
    then duck_percent
    else if req == 2 || req == 4
    then deep_duck_percent
    else full_percent

-- `delete(w.holders, client)`
unfoldable pub delete : List ℕ → Holding → Holding
delete client [] = []
delete client ((k, h) ∷ m) =
    let rest = delete client m in if bytes_eq k client then rest else (k, h) ∷ rest

-- `w.holders[client] = h`
unfoldable pub put : List ℕ → FocusHolder → Holding → Holding
unfolding delete
put client h m = (client, h) ∷ delete client m

-- The loop of `change` over the holders.
unfoldable pub level_of : Holding → ℕ
level_of [] = full_percent
level_of ((k, h) ∷ m) = min (level_of m) (percent_for h.req)

-- `change`: the holders are `holders` after it, and the level is told if it is a new one.
unfoldable pub change : Holding → FocusWatcher → FocusWatcher × Option ℕ
unfolding level_of
change holders w =
    let level = level_of holders in
    let was = if w.level == 0 then full_percent else w.level in
    (record w { holders = holders; level = level }, if level == was then none else some level)

-- `leadingInt`, with the digits that may still come, the number so far and whether there was one.
unfoldable pub leading_int_from : ℕ → ℕ → Bool → List ℕ → Option ℕ
leading_int_from zero n any s = if any then some n else none
leading_int_from (suc left) n any [] = if any then some n else none
leading_int_from (suc left) n any (c ∷ cs) =
    let rest = leading_int_from left (n * 10 + (c - 48)) true cs in
    if leb 48 c && leb c 57 then rest else if any then some n else none

unfoldable pub leading_int : List ℕ → Option ℕ
unfolding leading_int_from
leading_int s = leading_int_from 9 0 false s

unfoldable pub is_empty : List ℕ → Bool
is_empty [] = true
is_empty (c ∷ cs) = false

unfoldable pub request : ℕ → List ℕ → ℕ → FocusWatcher → FocusWatcher × Option ℕ
unfolding change put is_empty
request now client req w =
    if is_empty client
    then (w, none)
    else change (put client (record { req = req; until = now + hold_for }) w.holders) w

unfoldable pub release : List ℕ → FocusWatcher → FocusWatcher × Option ℕ
unfolding change delete is_empty
release client w = if is_empty client then (w, none) else change (delete client w.holders) w

unfoldable pub unexpired : ℕ → Holding → Holding
unexpired now [] = []
unexpired now ((k, h) ∷ m) =
    let rest = unexpired now m in if ltb h.until now then rest else (k, h) ∷ rest

unfoldable pub expire : ℕ → FocusWatcher → FocusWatcher × Option ℕ
unfolding change unexpired
expire now w = change (unexpired now w.holders) w

unfoldable pub reset : FocusWatcher → FocusWatcher × Option ℕ
unfolding change
reset w = change [] (record w { requested = [] })

-- What a line of the log says.
pub data Said : Type 0 where
  requests : List ℕ → ℕ → Said
  abandons removes : List ℕ → Said
  unread : Said

unfoldable pub parse_request : List ℕ → Said
unfolding leading_int
parse_request rest = elim (split_last req_mark rest) [
  | none ↦ unread
  | some (client, number) ↦ elim (leading_int number) [
    | none ↦ unread
    | some req ↦ requests (trim client) req
  ]
]

unfoldable pub parse_line : List ℕ → Said
unfolding parse_request
parse_line line = elim (split_first request_mark line) [
  | some (before, rest) ↦ parse_request rest
  | none ↦ elim (split_first abandon_mark line) [
    | some (before, rest) ↦ abandons (trim rest)
    | none ↦ elim (split_first remove_mark line) [
      | some (before, rest) ↦ removes (trim rest)
      | none ↦ unread
    ]
  ]
]

-- The rest of `line`. An entry that is removed because its own client asks again is no release.
unfoldable pub hear : ℕ → Said → FocusWatcher → FocusWatcher × Option ℕ
unfolding request release
hear now (requests client req) w =
    let (w', told) = request now client req w in (record w' { requested = client }, told)
hear now (abandons client) w = release client (record w { requested = [] })
hear now (removes client) w =
    if bytes_eq client w.requested
    then (record w { requested = [] }, none)
    else release client (record w { requested = [] })
hear now unread w = (w, none)

unfoldable pub line : ℕ → List ℕ → FocusWatcher → FocusWatcher × Option ℕ
unfolding parse_line hear
line now text w = hear now (parse_line text) w
