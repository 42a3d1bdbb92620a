-- ===== src/Esphome/State/Agrees.antt =====
-- internal/esphome/state.go: what a subscriber was told last of each key is what is published.
use mathlib.Core.Path.{subst}
use overdub.Base.{
  ℕ, Bool, true, false, Option, none, some, List, [], ◌∷◌, ◌+◌, ◌==◌, leb, if◌then◌else◌, ◌≡◌, ◌≤◌,
  ◌⊎◌, refl, sym, ◌∙◌, arith, if_case,
}
use overdub.Esphome.State.{
  Reading, Conn, find, remove, set, is_told, send_queue, send_state, send_sensors, each_conn,
  put_conn, failure, note_changes,
}

-- Each published reading is the newest the connection was told under its key.
unfoldable pub Agrees : List Reading → List Reading → Type 0
unfolding find
Agrees published told = (k : ℕ) → (find k published ≡ none) ⊎ (find k told ≡ find k published)

-- Told what is published, or nothing if there is no subscription.
unfoldable pub Knows : Bool → List Reading → List Reading → Type 0
unfolding Agrees
Knows true published told = Agrees published told
Knows false published told = told ≡ []

-- A subscriber agrees, and one that did not subscribe was told nothing.
unfoldable pub IsTrue : List Reading → Conn → Type 0
unfolding Knows
IsTrue published c = Knows c.states published c.told × (c.waiting ≤ send_queue)

unfoldable pub AreTrue : List Reading → List Conn → Type 0
unfolding IsTrue
AreTrue published [] = Unit
AreTrue published (c ∷ cs) = IsTrue published c × AreTrue published cs

-- The keys of what is published are all different.
unfoldable pub AreDistinct : List Reading → Type 0
unfolding find
AreDistinct [] = Unit
AreDistinct (r ∷ rs) = (find r.key rs ≡ none) × AreDistinct rs

pub find-remove :
    (k key : ℕ) (rs : List Reading)
    → find k (remove key rs) ≡ (if key == k then none else find k rs)
unfolding find remove
find-remove k key [] = ground arith
find-remove k key (r ∷ rs) = ground (arith, find-remove k key rs)

pub find-set :
    (k : ℕ) (r : Reading) (rs : List Reading)
    → find k (set r rs) ≡ (if r.key == k then some r else find k rs)
unfolding find set
find-set k r rs = ground (arith, find-remove k r.key rs)

pub remove-AreDistinct :
    (key : ℕ) (rs : List Reading) → AreDistinct rs → AreDistinct (remove key rs)
unfolding AreDistinct remove
remove-AreDistinct key [] d = tt
remove-AreDistinct key (r ∷ rs) d =
    if_case AreDistinct (r.key == key) (remove key rs) (r ∷ remove key rs)
      (λ _. remove-AreDistinct key rs d.1)
      (λ _. (ground (arith, find-remove r.key key rs, d.0), remove-AreDistinct key rs d.1))

pub set-AreDistinct : (r : Reading) (rs : List Reading) → AreDistinct rs → AreDistinct (set r rs)
unfolding AreDistinct set
set-AreDistinct r rs d = (ground (arith, find-remove r.key r.key rs), remove-AreDistinct r.key rs d)

-- Told the readings in their order.
unfoldable pub after : List Reading → List Reading → List Reading
after [] told = told
after (r ∷ rs) told = after rs (r ∷ told)

set-Agrees : (r : Reading) (p told : List Reading) → Agrees p told → Agrees (set r p) (r ∷ told)
unfolding Agrees find
set-Agrees r p told a k = ground (arith, a k, find-set k r p)

pub note_changes-Agrees :
    (rs p told : List Reading)
    → Agrees p told
    → let (p', changed) = note_changes rs p in Agrees p' (after changed told)
unfolding note_changes after
note_changes-Agrees [] p told a = a
note_changes-Agrees (r ∷ rs) p told a =
    if_case {A = List Reading × List Reading} (λ x. Agrees x.0 (after x.1 told))
      (is_told (find r.key p) r) (note_changes rs p)
      ((note_changes rs (set r p)).0, r ∷ (note_changes rs (set r p)).1)
      (λ _. note_changes-Agrees rs p told a)
      (λ _. note_changes-Agrees rs (set r p) (r ∷ told) (set-Agrees r p told a))

pub note_changes-AreDistinct :
    (rs p : List Reading) → AreDistinct p → AreDistinct (note_changes rs p).0
unfolding note_changes
note_changes-AreDistinct [] p d = d
note_changes-AreDistinct (r ∷ rs) p d =
    if_case {A = List Reading × List Reading} (λ x. AreDistinct x.0) (is_told (find r.key p) r)
      (note_changes rs p) ((note_changes rs (set r p)).0, r ∷ (note_changes rs (set r p)).1)
      (λ _. note_changes-AreDistinct rs p d)
      (λ _. note_changes-AreDistinct rs (set r p) (set-AreDistinct r p d))

-- What a send leaves of a connection that it does not end.
unfoldable pub Sends : List Reading → Conn → Option Conn → Type 0
unfolding after
Sends rs c none = Unit
Sends rs c (some c') =
    (c'.told ≡ after rs c.told)
    × (c'.states ≡ c.states)
    × (c'.id ≡ c.id)
    × (c'.waiting ≤ send_queue)

pub send_sensors-Sends :
    (rs : List Reading) (c : Conn) → c.waiting ≤ send_queue → Sends rs c (send_sensors rs c)
unfolding Sends send_sensors send_state
send_sensors-Sends [] c w = (refl, refl, refl, w)
send_sensors-Sends (r ∷ rs) c w =
    if_case {A = Option Conn}
      (λ o. Sends (r ∷ rs) c (elim o [ none ↦ none | some c' ↦ send_sensors rs c' ]))
      (leb send_queue c.waiting) none
      (some (record c { told = r ∷ c.told; waiting = c.waiting + 1 })) (λ _. tt)
      (λ e.
        send_sensors-Sends rs (record c { told = r ∷ c.told; waiting = c.waiting + 1 })
          (ground arith))

unfoldable pub or_else : Option Reading → Option Reading → Option Reading
or_else none o = o
or_else (some r) o = some r

find-after :
    (k : ℕ) (rs told : List Reading)
    → AreDistinct rs
    → find k (after rs told) ≡ or_else (find k rs) (find k told)
unfolding find after AreDistinct or_else
find-after k [] told d = refl
find-after k (r ∷ rs) told d = ground (arith, find-after k rs (r ∷ told) d.1, d.0)

pub snapshot-Agrees : (p told : List Reading) → AreDistinct p → Agrees p (after p told)
unfolding Agrees or_else
snapshot-Agrees p told d k = ground (arith, find-after k p told d)

-- A connection that is kept by a send of what changed.
told-IsTrue :
    (p p' rs : List Reading) (c c' : Conn)
    → IsTrue p c
    → c.states ≡ true
    → ((told : List Reading) → Agrees p told → Agrees p' (after rs told))
    → Sends rs c (some c')
    → IsTrue p' c'
unfolding IsTrue Sends
told-IsTrue p p' rs c c' h on agrees (told, states, id, waits) =
    let was : Agrees p c.told = subst (λ b. Knows b p c.told) on h.0 in
    let now : Agrees p' c'.told = subst (Agrees p') (sym told) (agrees c.told was) in
    (subst (λ b. Knows b p' c'.told) (sym (states ∙ on)) now, waits)

-- A connection that is no subscriber is told nothing, and needs nothing.
silent-IsTrue : (p p' : List Reading) (c : Conn) → IsTrue p c → c.states ≡ false → IsTrue p' c
unfolding IsTrue Knows
silent-IsTrue p p' c h off =
    let nothing : c.told ≡ [] = subst (λ b. Knows b p c.told) off h.0 in
    (subst (λ b. Knows b p' c.told) (sym off) nothing, h.1)

put_conn-AreTrue :
    (p p' rs : List Reading) (c : Conn) (o : Option Conn) (cs : List Conn)
    → IsTrue p c
    → c.states ≡ true
    → ((told : List Reading) → Agrees p told → Agrees p' (after rs told))
    → Sends rs c o
    → AreTrue p' cs
    → AreTrue p' (put_conn o cs)
unfolding AreTrue put_conn Sends
put_conn-AreTrue p p' rs c none cs h on agrees s rest = rest
put_conn-AreTrue p p' rs c (some c') cs h on agrees s rest =
    (told-IsTrue p p' rs c c' h on agrees s, rest)

-- The connections that the readings that changed are sent to.
pub changes-AreTrue :
    (p p' rs : List Reading) (cs : List Conn)
    → ((told : List Reading) → Agrees p told → Agrees p' (after rs told))
    → AreTrue p cs
    → AreTrue p' (each_conn (λ c. c.states) (send_sensors rs) cs).0
unfolding AreTrue each_conn
changes-AreTrue p p' rs [] agrees h = tt
changes-AreTrue p p' rs (c ∷ cs) agrees h =
    let rest = changes-AreTrue p p' rs cs agrees h.1 in
    let (kept, failed) = each_conn (λ c. c.states) (send_sensors rs) cs in
    let sent = send_sensors rs c in
    if_case {A = List Conn × ℕ} (λ x. AreTrue p' x.0) c.states
      (put_conn sent kept, failed + failure sent) (c ∷ kept, failed)
      (λ on.
        put_conn-AreTrue p p' rs c sent kept h.0 on agrees (send_sensors-Sends rs c h.0.1) rest)
      (λ off. (silent-IsTrue p p' c h.0 off, rest))
