-- ===== src/Esphome/State/Coherent.antt =====
-- internal/esphome/state.go and server.go: whatever the connections and the readings do, each
-- subscriber knows what is published. Each of these holds the lock of the server.
use mathlib.Core.Path.{subst}
use overdub.Base.{
  ℕ, Bool, true, false, Option, none, some, List, [], ◌∷◌, ◌+◌, ◌-◌, ◌==◌, leb, if◌then◌else◌,
  length, ◌≡◌, refl, sym, arith, if_case, ◌∙◌,
}
use overdub.Esphome.State.{
  Reading, Conn, Publisher, remove, send_queue, send_sensors, put_conn, note_changes, send_changes,
  publish, subscribe, on_conn, max_conns,
}
use overdub.Esphome.State.Agrees.{
  Agrees, Knows, IsTrue, AreTrue, AreDistinct, Sends, after, find-remove, remove-AreDistinct,
  note_changes-Agrees, note_changes-AreDistinct, send_sensors-Sends, snapshot-Agrees,
  changes-AreTrue,
}

-- A frame that is no state, for one connection.
unfoldable pub send_other : Conn → Option Conn
send_other c =
    if leb send_queue c.waiting then none else some (record c { waiting = c.waiting + 1 })

-- The connections, the sources of readings, and `forgetSound`, which forgets a key. `relists` is what
-- `UsePlay` and `UseCommand` do to the connections.
pub data Deed : Type 0 where
  connects subscribes asks_services answers writes ends : ℕ → Deed
  publishes : List Reading → Deed
  forgets : ℕ → Deed
  relists : Deed

unfoldable pub new_conn : ℕ → Conn
new_conn id = record { id = id; states = false; services = false; told = []; waiting = 0 }

unfoldable pub deed : Deed → Publisher → Publisher
unfolding on_conn subscribe send_other publish remove new_conn
deed (connects id) s =
    if leb max_conns (length s.conns) then s else record s { conns = new_conn id ∷ s.conns }
deed (subscribes id) s = record s { conns = on_conn id (subscribe s.published) s.conns }
deed (asks_services id) s = record s {
  conns = on_conn id (λ c. some (record c { services = true })) s.conns;
}
deed (answers id) s = record s { conns = on_conn id send_other s.conns }
deed (writes id) s = record s {
  conns = on_conn id (λ c. some (record c { waiting = c.waiting - 1 })) s.conns;
}
deed (ends id) s = record s { conns = on_conn id (λ c. none) s.conns }
deed (publishes readings) s = publish readings s
deed (forgets key) s = record s { published = remove key s.published }
deed relists s = record s { conns = [] }

unfoldable pub deeds : List Deed → Publisher → Publisher
unfolding deed
deeds [] s = s
deeds (d ∷ ds) s = deeds ds (deed d s)

unfoldable pub IsCoherent : Publisher → Type 0
IsCoherent s = AreDistinct s.published × AreTrue s.published s.conns

-- What a handler leaves of its connection.
Leaves : List Reading → Option Conn → Type 0
Leaves p none = Unit
Leaves p (some c) = IsTrue p c

put_conn-Leaves :
    (p : List Reading) (o : Option Conn) (cs : List Conn)
    → Leaves p o
    → AreTrue p cs
    → AreTrue p (put_conn o cs)
unfolding Leaves AreTrue put_conn
put_conn-Leaves p none cs l h = h
put_conn-Leaves p (some c) cs l h = (l, h)

on_conn-AreTrue :
    (p : List Reading) (id : ℕ) (f : Conn → Option Conn) (cs : List Conn)
    → ((c : Conn) → IsTrue p c → Leaves p (f c))
    → AreTrue p cs
    → AreTrue p (on_conn id f cs)
unfolding AreTrue on_conn
on_conn-AreTrue p id f [] l h = tt
on_conn-AreTrue p id f (c ∷ cs) l h =
    let rest = on_conn-AreTrue p id f cs l h.1 in
    if_case (AreTrue p) (c.id == id) (put_conn (f c) (on_conn id f cs)) (c ∷ on_conn id f cs)
      (λ _. put_conn-Leaves p (f c) (on_conn id f cs) (l c h.0) rest) (λ _. (h.0, rest))

subscribed-Leaves :
    (p : List Reading) (c : Conn) (o : Option Conn)
    → AreDistinct p
    → c.states ≡ true
    → Sends p c o
    → Leaves p o
unfolding Leaves Sends IsTrue Knows
subscribed-Leaves p c none d on s = tt
subscribed-Leaves p c (some c') d on (told, states, id, waits) = (
  subst (λ b. Knows b p c'.told) (sym (states ∙ on))
      (subst (Agrees p) (sym told) (snapshot-Agrees p c.told d)),
  waits,
)

subscribe-Leaves :
    (p : List Reading) (c : Conn) → AreDistinct p → IsTrue p c → Leaves p (subscribe p c)
unfolding subscribe IsTrue
subscribe-Leaves p c d h =
    let asked : Conn = record c { states = true } in
    subscribed-Leaves p asked (send_sensors p asked) d refl (send_sensors-Sends p asked h.1)

send_other-Leaves : (p : List Reading) (c : Conn) → IsTrue p c → Leaves p (send_other c)
unfolding send_other Leaves IsTrue
send_other-Leaves p c h =
    if_case (Leaves p) (leb send_queue c.waiting) none (some (record c { waiting = c.waiting + 1 }))
      (λ _. tt) (λ e. (h.0, ground arith))

kept-Knows :
    (b : Bool) (p p' told : List Reading)
    → (Agrees p told → Agrees p' told)
    → Knows b p told
    → Knows b p' told
unfolding Knows
kept-Knows true p p' told f a = f a
kept-Knows false p p' told f e = e

-- Without a send, what agreed has to agree still.
kept-AreTrue :
    (p p' : List Reading) (cs : List Conn)
    → ((told : List Reading) → Agrees p told → Agrees p' told)
    → AreTrue p cs
    → AreTrue p' cs
unfolding AreTrue IsTrue
kept-AreTrue p p' [] f h = tt
kept-AreTrue p p' (c ∷ cs) f h =
    ((kept-Knows c.states p p' c.told (f c.told) h.0.0, h.0.1), kept-AreTrue p p' cs f h.1)

forgotten-Agrees : (key : ℕ) (p told : List Reading) → Agrees p told → Agrees (remove key p) told
unfolding Agrees
forgotten-Agrees key p told a k = ground (arith, a k, find-remove k key p)

-- What changed is sent to all, or nothing changed.
send_changes-AreTrue :
    (p p' rs : List Reading) (cs : List Conn)
    → ((told : List Reading) → Agrees p told → Agrees p' (after rs told))
    → AreTrue p cs
    → AreTrue p' (send_changes rs cs)
unfolding send_changes after
send_changes-AreTrue p p' [] cs agrees h = kept-AreTrue p p' cs agrees h
send_changes-AreTrue p p' (r ∷ rs) cs agrees h = changes-AreTrue p p' (r ∷ rs) cs agrees h

deed-IsCoherent : (d : Deed) (s : Publisher) → IsCoherent s → IsCoherent (deed d s)
unfolding IsCoherent deed AreTrue Leaves
deed-IsCoherent (connects id) s (d, h) =
    if_case IsCoherent (leb max_conns (length s.conns)) s
      (record s { conns = new_conn id ∷ s.conns }) (λ _. (d, h))
      (λ _. (d, ((refl, omega arith), h)))
deed-IsCoherent (subscribes id) s (d, h) = (
  d,
  on_conn-AreTrue s.published id (subscribe s.published) s.conns
      (λ c t. subscribe-Leaves s.published c d t) h,
)
deed-IsCoherent (asks_services id) s (d, h) = (
  d,
  on_conn-AreTrue s.published id (λ c. some (record c { services = true })) s.conns (λ c t. t) h,
)
deed-IsCoherent (answers id) s (d, h) =
    (d, on_conn-AreTrue s.published id send_other s.conns (send_other-Leaves s.published) h)
deed-IsCoherent (writes id) s (d, h) = (
  d,
  on_conn-AreTrue s.published id (λ c. some (record c { waiting = c.waiting - 1 })) s.conns
      (λ c t. (t.0, omega arith)) h,
)
deed-IsCoherent (ends id) s (d, h) =
    (d, on_conn-AreTrue s.published id (λ c. none) s.conns (λ c t. tt) h)
deed-IsCoherent (publishes readings) s (d, h) = (
  note_changes-AreDistinct readings s.published d,
  send_changes-AreTrue s.published (note_changes readings s.published).0
      (note_changes readings s.published).1 s.conns (note_changes-Agrees readings s.published) h,
)
deed-IsCoherent (forgets key) s (d, h) = (
  remove-AreDistinct key s.published d,
  kept-AreTrue s.published (remove key s.published) s.conns (forgotten-Agrees key s.published) h,
)
deed-IsCoherent relists s (d, h) = (d, tt)

-- Whatever the connections, the readings and the server do, in any order, a coherent server stays
-- coherent: the published readings have different keys, and each connection that subscribed was told,
-- last of all under its key, every reading that is published. No connection has more frames waiting
-- than its queue holds, and one that did not subscribe was told no reading.
pub deeds-IsCoherent : (ds : List Deed) (s : Publisher) → IsCoherent s → IsCoherent (deeds ds s)
unfolding deeds
deeds-IsCoherent [] s h = h
deeds-IsCoherent (d ∷ ds) s h = deeds-IsCoherent ds (deed d s) (deed-IsCoherent d s h)
