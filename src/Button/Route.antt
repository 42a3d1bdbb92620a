-- ===== src/Button/Route.antt =====
-- internal/button/button.go, `Interceptor.route` and `Interceptor.Press`: what becomes of each event
-- of the grabbed node, and the presses that the program itself makes on the clone.
-- A time is a number of nanoseconds; `none` is Go's zero time. An int32 value is its bit pattern.
-- `watched` is the map: `none` where a keycode has no entry.
pub mod Clone
pub mod Latch
mod Examples
use overdub.Base.{
  ℕ, ◌-◌, Bool, true, false, Option, none, some, List, [], ◌∷◌, ◌++◌, ◌&&◌, ◌==◌, if◌then◌else◌,
}

pub data Mode : Type 0 where
  intercept monitor pass_through : Mode

pub record Watch : Type 0 where
  pub mode : Mode
  pub pressed_at : Option ℕ
  pub latched : Mode

pub record Interceptor : Type 0 where
  pub watched : ℕ → Option Watch

-- evdev's event, without the kernel's time stamp, which `route` does not read.
pub record Event : Type 0 where
  pub kind : ℕ
  pub code : ℕ
  pub value : ℕ

abbrev pub ev_key : ℕ
ev_key = 1

abbrev pub key_release : ℕ
key_release = 0

abbrev pub key_press : ℕ
key_press = 1

-- What `route` does: it calls `onDown` or `onPress`, or writes a key to the clone.
pub data Output : Type 0 where
  on_down : ℕ → Mode → Output
  on_press : ℕ → Mode → ℕ → Output
  emit : ℕ → ℕ → Output

abbrev pub is_intercept : Mode → Bool
is_intercept intercept = true
is_intercept _ = false

abbrev pub is_pass_through : Mode → Bool
is_pass_through pass_through = true
is_pass_through _ = false

-- `Mode`: a keycode that is not watched passes through.
unfoldable pub mode_of : ℕ → Interceptor → Mode
mode_of code i = elim (i.watched code) [ none ↦ pass_through | some w ↦ w.mode ]

abbrev pub put_watch : ℕ → Watch → Interceptor → Interceptor
put_watch code w i = record { watched = λ c. if c == code then some w else i.watched c }

-- `SetMode`
unfoldable pub set_mode : ℕ → Mode → Interceptor → Interceptor
set_mode code m i = elim (i.watched code) [
  | none ↦ i
  | some w ↦ put_watch code (record w { mode = m }) i
]

-- `Open`'s map: each keycode of `start` with its mode, and nothing pressed.
unfoldable pub open_with : (ℕ → Option Mode) → Interceptor
open_with start = record {
  watched = λ c. elim (start c) [
    | none ↦ none
    | some m ↦ some (record { mode = m; pressed_at = none; latched = intercept })
  ];
}

-- What a watched key's event does to its watch, with the call that it makes. The last part says
-- whether the event goes on to the clone.
pub record Handled : Type 0 where
  pub watch : Watch
  pub calls : List Output
  pub goes_on : Bool

on_key_press : ℕ → ℕ → Watch → Handled
on_key_press now code w = record {
  watch = record w { latched = w.mode; pressed_at = some now };
  calls = if is_pass_through w.mode then [] else on_down code w.mode ∷ [];
  goes_on = if is_intercept w.mode then false else true;
}

on_key_release : ℕ → ℕ → Watch → Handled
on_key_release now code w = elim w.pressed_at [
  | none ↦ record {
    watch = record w { latched = w.mode };
    calls = [];
    goes_on = if is_intercept w.mode then false else true;
  }
  | some at ↦ record {
    watch = record w { pressed_at = none };
    calls = if is_pass_through w.latched then [] else on_press code w.latched (now - at) ∷ [];
    goes_on = if is_intercept w.latched then false else true;
  }
]

on_key_other : Watch → Handled
on_key_other w = elim w.pressed_at [
  | none ↦ record { watch = w; calls = []; goes_on = false }
  | some at ↦ record {
    watch = w;
    calls = [];
    goes_on = if is_intercept w.latched then false else true;
  }
]

unfoldable pub handle_watched : ℕ → Event → Watch → Handled
unfolding on_key_press on_key_release on_key_other
handle_watched now e w =
    if e.value == key_press
    then on_key_press now e.code w
    else if e.value == key_release
    then on_key_release now e.code w
    else on_key_other w

-- One round of the loop: the new watches, the calls made, and whether the key goes to the clone.
unfoldable pub handle : ℕ → Event → Interceptor → Interceptor × List Output × Bool
unfolding handle_watched
handle now e i =
    if e.kind == ev_key
    then elim (i.watched e.code) [
      | none ↦ (i, [], true)
      | some w ↦ let h = handle_watched now e w in (put_watch e.code h.watch i, h.calls, h.goes_on)
    ]
    else (i, [], false)

-- `press`: a press and a release of a key on the clone, with what the clone answers to each write.
-- Its result is what was written and whether both writes were.
unfoldable pub press : ℕ → Bool → Bool → List Output × Bool
press code down_writes up_writes =
    if down_writes
    then if up_writes then (emit code 1 ∷ emit code 0 ∷ [], true) else (emit code 1 ∷ [], false)
    else ([], false)

-- What happens: the node delivers an event, with the clock and what a write to the clone would answer;
-- or another goroutine calls `SetMode` or `Press`. `Press` holds the lock of the clone's writes.
pub data Input : Type 0 where
  read_event : ℕ → Event → Bool → Input
  set_mode_of : ℕ → Mode → Input
  press_of : ℕ → Bool → Bool → Input

-- Why the run ended: the node's read failed; or the clone refused a key, and the loop returned; or it
-- refused a write of `Press` (`ErrKeyStuck`), and serveAPI of serve.go closed the clone and left.
pub data End : Type 0 where
  read_failed : End
  passthrough_failed key_stuck : ℕ → End

pub record Routed : Type 0 where
  pub state : Interceptor
  pub outputs : List Output
  pub reason : End

-- The loop over what happens, until reading fails at the end of the list.
unfoldable pub route : List Input → Interceptor → Routed
unfolding press
route [] i = record { state = i; outputs = []; reason = read_failed }
route (set_mode_of code m ∷ ins) i = route ins (set_mode code m i)
route (press_of code down_writes up_writes ∷ ins) i =
    let rest = route ins i in
    let (pressed, whole) = press code down_writes up_writes in
    if whole
    then record rest { outputs = pressed ++ rest.outputs }
    else record { state = i; outputs = pressed; reason = key_stuck code }
route (read_event now e writes ∷ ins) i =
    let (i', calls, goes_on) = handle now e i in
    let rest = route ins i' in
    if goes_on
    then if writes
      then record rest { outputs = calls ++ (emit e.code e.value ∷ rest.outputs) }
      else record { state = i'; outputs = calls; reason = passthrough_failed e.code }
    else record rest { outputs = calls ++ rest.outputs }
