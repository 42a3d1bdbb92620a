-- ===== src/Esphome/State.antt =====
-- internal/esphome/state.go: what the server tells its subscribers. A float32 is its bits. The map of
-- what was published is a list of readings with different keys, and the map of connections a list.
pub mod Agrees
pub mod Coherent
pub mod Sound
mod Examples
use overdub.Base.{
  ℕ, Bool, true, false, Option, none, some, List, [], ◌∷◌, ◌+◌, ◌-◌, ◌%◌, ◌&&◌, ◌||◌, not, ◌==◌,
  ltb, leb, if◌then◌else◌,
}
use overdub.Base.Text.{bytes_eq}
use overdub.Esphome.Proto.{u32, boolean, str, fixed32, float}

pub data Kind : Type 0 where
  sensor binary select switch media text_box text_sensor number : Kind

pub record Reading : Type 0 where
  pub key : ℕ
  pub value : ℕ
  pub text : List ℕ
  pub muted : Bool
  pub state : ℕ
  pub ok : Bool
  pub kind : Kind

unfoldable pub code_of : Kind → ℕ
code_of sensor = 0
code_of binary = 1
code_of select = 2
code_of switch = 3
code_of media = 4
code_of text_box = 5
code_of text_sensor = 6
code_of number = 7

-- The `==` of two float32: a NaN equals nothing, and the two zeros are equal.
unfoldable pub is_nan : ℕ → Bool
is_nan bits = ltb 2139095040 (bits % 2147483648)

unfoldable pub same_float : ℕ → ℕ → Bool
unfolding is_nan
same_float a b =
    not (is_nan a) && not (is_nan b) && (a == b || (a % 2147483648 == 0 && b % 2147483648 == 0))

unfoldable pub same_bool : Bool → Bool → Bool
same_bool true b = b
same_bool false b = not b

-- `was == r`
unfoldable pub same_reading : Reading → Reading → Bool
unfolding code_of same_float same_bool
same_reading a b =
    a.key == b.key
    && same_float a.value b.value
    && bytes_eq a.text b.text
    && same_bool a.muted b.muted
    && a.state == b.state
    && same_bool a.ok b.ok
    && code_of a.kind == code_of b.kind

unfoldable pub text_state : ℕ → List ℕ → Bool → List ℕ
text_state key text missing = boolean 3 missing (str 2 text (fixed32 1 key []))

unfoldable pub select_state : ℕ → List ℕ → List ℕ
select_state key choice = str 2 choice (fixed32 1 key [])

unfoldable pub switch_state : ℕ → Bool → List ℕ
switch_state key on = boolean 2 on (fixed32 1 key [])

unfoldable pub binary_state : ℕ → Bool → Bool → List ℕ
binary_state key on missing = boolean 3 missing (boolean 2 on (fixed32 1 key []))

unfoldable pub float_state : ℕ → ℕ → Bool → List ℕ
float_state key v missing = boolean 3 missing (float 2 v (fixed32 1 key []))

unfoldable pub media_state : ℕ → ℕ → ℕ → Bool → List ℕ
media_state key state volume muted =
    boolean 4 muted (float 3 volume (u32 2 state (fixed32 1 key [])))

-- `r.value != 0`
unfoldable pub is_on : Reading → Bool
unfolding same_float
is_on r = not (same_float r.value 0)

-- The message of a reading, with its type.
unfoldable pub state_frame : Reading → ℕ × List ℕ
unfolding text_state select_state switch_state binary_state float_state media_state is_on
state_frame r = elim r.kind [
  | sensor ↦ (25, float_state r.key r.value (not r.ok))
  | binary ↦ (21, binary_state r.key (is_on r) (not r.ok))
  | select ↦ (53, select_state r.key r.text)
  | switch ↦ (26, switch_state r.key (is_on r))
  | media ↦ (64, media_state r.key r.state r.value r.muted)
  | text_box ↦ (98, text_state r.key r.text false)
  | text_sensor ↦ (27, text_state r.key r.text (not r.ok))
  | number ↦ (50, float_state r.key r.value (not r.ok))
]

abbrev pub send_queue : ℕ
send_queue = 64

-- A connection: the readings it was sent, the newest first, whose messages are their frames, and how
-- many frames wait in its queue.
pub record Conn : Type 0 where
  pub id : ℕ
  pub states : Bool
  pub services : Bool
  pub told : List Reading
  pub waiting : ℕ

pub record Publisher : Type 0 where
  pub published : List Reading
  pub conns : List Conn

unfoldable pub find : ℕ → List Reading → Option Reading
find key [] = none
find key (r ∷ rs) = let rest = find key rs in if r.key == key then some r else rest

unfoldable pub remove : ℕ → List Reading → List Reading
remove key [] = []
remove key (r ∷ rs) = let rest = remove key rs in if r.key == key then rest else r ∷ rest

-- `s.published[r.key] = r`
unfoldable pub set : Reading → List Reading → List Reading
unfolding remove
set r rs = r ∷ remove r.key rs

unfoldable pub is_told : Option Reading → Reading → Bool
unfolding same_reading
is_told none r = false
is_told (some was) r = same_reading was r

-- `send` of a state, which fails on a full queue.
unfoldable pub send_state : Reading → Conn → Option Conn
send_state r c =
    if leb send_queue c.waiting
    then none
    else some (record c { told = r ∷ c.told; waiting = c.waiting + 1 })

-- `sendSensorsAt`; `none` is a failure, upon which the connection is dropped.
unfoldable pub send_sensors : List Reading → Conn → Option Conn
unfolding send_state
send_sensors [] c = some c
send_sensors (r ∷ rs) c = elim (send_state r c) [ none ↦ none | some c' ↦ send_sensors rs c' ]

-- A connection that is kept, or dropped.
unfoldable pub put_conn : Option Conn → List Conn → List Conn
put_conn none cs = cs
put_conn (some c) cs = c ∷ cs

unfoldable pub failure : Option Conn → ℕ
failure none = 1
failure (some c) = 0

-- `eachConn`: the connections that are left, and how many were dropped.
unfoldable pub each_conn : (Conn → Bool) → (Conn → Option Conn) → List Conn → List Conn × ℕ
unfolding put_conn failure
each_conn wants send [] = ([], 0)
each_conn wants send (c ∷ cs) =
    let (kept, failed) = each_conn wants send cs in
    if wants c then (put_conn (send c) kept, failed + failure (send c)) else (c ∷ kept, failed)

-- The loop of `publish`: what is published then, and what changed.
unfoldable pub note_changes : List Reading → List Reading → List Reading × List Reading
unfolding find set is_told
note_changes [] p = (p, [])
note_changes (r ∷ rs) p =
    let skipped = note_changes rs p in
    let (p', changed) = note_changes rs (set r p) in
    if is_told (find r.key p) r then skipped else (p', r ∷ changed)

unfoldable pub send_changes : List Reading → List Conn → List Conn
unfolding each_conn send_sensors
send_changes [] cs = cs
send_changes (r ∷ rs) cs = (each_conn (λ c. c.states) (send_sensors (r ∷ rs)) cs).0

unfoldable pub publish : List Reading → Publisher → Publisher
unfolding note_changes send_changes
publish readings s =
    let (p, changed) = note_changes readings s.published in
    record { published = p; conns = send_changes changed s.conns }

-- `msgSubscribeStates`: the connection is told all that is published.
unfoldable pub subscribe : List Reading → Conn → Option Conn
unfolding send_sensors
subscribe published c = send_sensors published (record c { states = true })

-- A handler for one connection. One that fails ends it: what the deferred function of `serveConn` then
-- does is part of the same step here.
unfoldable pub on_conn : ℕ → (Conn → Option Conn) → List Conn → List Conn
unfolding put_conn
on_conn id f [] = []
on_conn id f (c ∷ cs) =
    let rest = on_conn id f cs in if c.id == id then put_conn (f c) rest else c ∷ rest

abbrev pub max_conns : ℕ
max_conns = 8
