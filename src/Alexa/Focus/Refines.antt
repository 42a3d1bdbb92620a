-- ===== src/Alexa/Focus/Refines.antt =====
-- internal/alexa/focus.go: the watcher as a function from clients to holds, which forgets the order
-- of the map and the level, and a run of the watcher against it.
use mathlib.Core.Path.{subst, sym}
use overdub.Base.{
  ℕ, Bool, true, false, Option, none, some, List, [], ◌∷◌, ◌≡◌, refl, arith, if◌then◌else◌, ◌+◌,
  ◌==◌, ◌∙◌,
}
use overdub.Base.Text.{bytes_eq}
use overdub.Alexa.Focus.{
  FocusHolder, Holding, FocusWatcher, Said, requests, abandons, removes, unread, hold_for, is_empty,
  hear, line, expire, reset, parse_line, level_of, change, request, release, unexpired, put, delete,
}
use overdub.Alexa.Focus.Holders.{
  holder_of, IsDistinct, keep, unexpired-IsDistinct, put-IsDistinct, delete-IsDistinct,
  holder_of-unexpired, holder_of-put, holder_of-delete,
}
use overdub.Alexa.Focus.Levels.{IsLevel, level_of-IsLevel, level_of-bound}

-- Who holds the focus, and the client whose request was heard last.
pub record FocusView : Type 0 where
  pub asked : List ℕ
  pub held : List ℕ → Option FocusHolder

unfoldable pub hold : List ℕ → Option FocusHolder → FocusView → FocusView
unfolding is_empty
hold client h v =
    if is_empty client
    then v
    else record v { held = λ c. if bytes_eq client c then h else v.held c }

unfoldable pub view_said : ℕ → Said → FocusView → FocusView
unfolding hold
view_said now (requests client req) v =
    record (hold client (some (record { req = req; until = now + hold_for })) v) { asked = client }
view_said now (abandons client) v = hold client none (record v { asked = [] })
view_said now (removes client) v =
    if bytes_eq client v.asked
    then record v { asked = [] }
    else hold client none (record v { asked = [] })
view_said now unread v = v

-- What the watcher meets, with the clock's reading.
pub data FocusEvent : Type 0 where
  says : ℕ → List ℕ → FocusEvent
  sweeps : ℕ → FocusEvent
  restarts : FocusEvent

unfoldable pub view_step : FocusEvent → FocusView → FocusView
unfolding view_said keep
view_step (says now text) v = view_said now (parse_line text) v
view_step (sweeps now) v = record v { held = λ c. keep now (v.held c) }
view_step restarts v = record { asked = []; held = λ c. none }

unfoldable pub watch : FocusEvent → FocusWatcher → FocusWatcher × Option ℕ
unfolding line expire reset
watch (says now text) w = line now text w
watch (sweeps now) w = expire now w
watch restarts w = reset w

unfoldable pub view_of : FocusWatcher → FocusView
view_of w = record { asked = w.requested; held = λ c. holder_of c w.holders }

-- The level that was told last.
unfoldable pub now_told : ℕ → Option ℕ → ℕ
now_told told none = told
now_told told (some n) = n

-- A run of the watcher, with the level that was told last.
unfoldable pub watch_all : List FocusEvent → FocusWatcher × ℕ → FocusWatcher × ℕ
unfolding watch now_told
watch_all [] (w, told) = (w, told)
watch_all (e ∷ es) (w, told) = let (w', said) = watch e w in watch_all es (w', now_told told said)

unfoldable pub view_all : List FocusEvent → FocusView → FocusView
unfolding view_step
view_all [] v = v
view_all (e ∷ es) v = view_all es (view_step e v)

-- The map has no client twice, and the level that was told last is the one of the map.
unfoldable pub IsSound : FocusWatcher × ℕ → Type 0
IsSound (w, told) =
    IsDistinct w.holders
    × (told ≡ level_of w.holders)
    × (told ≡ (if w.level == 0 then 100 else w.level))

-- A step that leads to a sound watcher with the given view.
unfoldable pub Steps : ℕ → FocusView → FocusWatcher × Option ℕ → Type 0
unfolding IsSound now_told view_of
Steps told v (w, said) = IsSound (w, now_told told said) × (view_of w ≡ v)

change-Steps :
    (m : Holding) (w : FocusWatcher) (told : ℕ) (held : List ℕ → Option FocusHolder)
    → IsSound (w, told)
    → IsDistinct m
    → ((c : List ℕ) → holder_of c m ≡ held c)
    → Steps told (record { asked = w.requested; held = held }) (change m w)
unfolding Steps change IsSound now_told view_of
change-Steps m w told held s d e = (
  (d, ground (arith, s.2, level_of-bound m), ground (arith, s.2, level_of-bound m)),
  λ i. record { asked = w.requested; held = λ c. e c i },
)

request-Steps :
    (now : ℕ) (client : List ℕ) (req : ℕ) (w : FocusWatcher) (told : ℕ)
    → IsSound (w, told)
    → Steps told
        (hold client (some (record { req = req; until = now + hold_for })) (view_of w))
        (request now client req w)
unfolding request hold is_empty Steps IsSound now_told view_of
request-Steps now [] req w told s = (s, refl)
request-Steps now (c ∷ cs) req w told s =
    let h : FocusHolder = record { req = req; until = now + hold_for } in
    let m = put (c ∷ cs) h w.holders in
    change-Steps m w told (λ d. if bytes_eq (c ∷ cs) d then some h else holder_of d w.holders) s
      (put-IsDistinct (c ∷ cs) h w.holders s.0) (λ d. holder_of-put (c ∷ cs) h d w.holders)

release-Steps :
    (client : List ℕ) (w : FocusWatcher) (told : ℕ)
    → IsSound (w, told)
    → Steps told (hold client none (view_of w)) (release client w)
unfolding release hold is_empty Steps IsSound now_told view_of
release-Steps [] w told s = (s, refl)
release-Steps (c ∷ cs) w told s =
    change-Steps (delete (c ∷ cs) w.holders) w told
      (λ d. if bytes_eq (c ∷ cs) d then none else holder_of d w.holders) s
      (delete-IsDistinct (c ∷ cs) w.holders s.0) (λ d. holder_of-delete (c ∷ cs) d w.holders)

if-Steps :
    (b : Bool) (told : ℕ) (v v' : FocusView) (r r' : FocusWatcher × Option ℕ)
    → Steps told v r
    → Steps told v' r'
    → Steps told (if b then v else v') (if b then r else r')
if-Steps true told v v' r r' s s' = s
if-Steps false told v v' r r' s s' = s'

hear-Steps :
    (now : ℕ) (said : Said) (w : FocusWatcher) (told : ℕ)
    → IsSound (w, told)
    → Steps told (view_said now said (view_of w)) (hear now said w)
unfolding hear view_said Steps IsSound now_told view_of
hear-Steps now (requests client req) w told s =
    let (kept, seen) = request-Steps now client req w told s in
    (kept, λ i. record (seen i) { asked = client })
hear-Steps now (abandons client) w told s =
    release-Steps client (record w { requested = [] }) told s
hear-Steps now (removes client) w told s =
    let forgot : FocusWatcher = record w { requested = [] } in
    if-Steps (bytes_eq client w.requested) told (view_of forgot) (hold client none (view_of forgot))
      (forgot, none) (release client forgot) (s, refl) (release-Steps client forgot told s)
hear-Steps now unread w told s = (s, refl)

watch-Steps :
    (e : FocusEvent) (w : FocusWatcher) (told : ℕ)
    → IsSound (w, told)
    → Steps told (view_step e (view_of w)) (watch e w)
unfolding watch view_step line expire reset view_of IsSound IsDistinct
watch-Steps (says now text) w told s = hear-Steps now (parse_line text) w told s
watch-Steps (sweeps now) w told s =
    change-Steps (unexpired now w.holders) w told (λ c. keep now (holder_of c w.holders)) s
      (unexpired-IsDistinct now w.holders s.0) (λ c. holder_of-unexpired now c w.holders s.0)
watch-Steps restarts w told s =
    change-Steps [] (record w { requested = [] }) told (λ c. none) s tt (λ c. refl)

pub watch_all-Refines :
    (es : List FocusEvent) (w : FocusWatcher) (told : ℕ)
    → IsSound (w, told)
    → IsSound (watch_all es (w, told))
      × (view_of (watch_all es (w, told)).0 ≡ view_all es (view_of w))
unfolding watch_all view_all Steps
watch_all-Refines [] w told s = (s, refl)
watch_all-Refines (e ∷ es) w told s =
    let (kept, seen) = watch-Steps e w told s in
    let rest = watch_all-Refines es (watch e w).0 (now_told told (watch e w).1) kept in
    (rest.0, rest.1 ∙ (λ i. view_all es (seen i)))

unfoldable pub fresh_watcher : FocusWatcher
fresh_watcher = record { requested = []; holders = []; level = 0 }

unfoldable pub fresh_view : FocusView
fresh_view = record { asked = []; held = λ c. none }

-- However the log, the sweeps and the restarts come, the watcher holds what the specification
-- holds, a function from clients to holds without a map, an order or a level, and it awaits the same
-- removal; and the level it told last, 100 before it told any, is the least that a holder asks for.
pub watch_all_fresh :
    (es : List FocusEvent)
    → (view_of (watch_all es (fresh_watcher, 100)).0 ≡ view_all es fresh_view)
      × IsLevel (view_all es fresh_view).held (watch_all es (fresh_watcher, 100)).1
unfolding fresh_watcher fresh_view view_of IsSound IsDistinct level_of
watch_all_fresh es =
    let (kept, seen) = watch_all-Refines es fresh_watcher 100 (tt, refl, refl) in
    let w : FocusWatcher = (watch_all es (fresh_watcher, 100)).0 in
    let levels : IsLevel (view_of w).held (level_of w.holders) =
      level_of-IsLevel w.holders kept.0 in
    (
      seen,
      subst (λ n. IsLevel (view_all es fresh_view).held n) (sym kept.1)
          (subst (λ v. IsLevel v.held (level_of w.holders)) seen levels),
    )
