-- ===== src/Button/Route/Latch.antt =====
-- internal/button/button.go, `Interceptor.route`: each down that the program hears of is followed by
-- one press of the same mode, with the time that the key was held.
use overdub.Base.{
  ℕ, ◌≡◌, refl, Bool, true, false, Option, none, some, List, [], ◌∷◌, ◌++◌, ◌==◌, if◌then◌else◌,
  arith,
}
use overdub.Button.Route.{
  Mode, intercept, monitor, pass_through, Watch, Interceptor, Event, Output, on_down, on_press,
  emit, is_pass_through, set_mode, open_with, handle, Input, read_event, set_mode_of, route,
  press_of,
}
use overdub.Button.Route.Clone.{Alternates, is_key, physical_after}

abbrev pub mode_eq : Mode → Mode → Bool
mode_eq intercept intercept = true
mode_eq monitor monitor = true
mode_eq pass_through pass_through = true
mode_eq _ _ = false

-- Reads the calls for the key `c`, with the mode of a down that has no press yet; `none` when a
-- press comes with no down or with another mode, or a second down before the press.
pub paired : ℕ → Option Mode → List Output → Option (Option Mode)
paired c wait [] = some wait
paired c wait (on_down code m ∷ outs) =
    let rest = paired c (some m) outs in
    let same = paired c wait outs in
    if code == c then elim wait [ none ↦ rest | some m' ↦ none ] else same
paired c wait (on_press code m d ∷ outs) =
    let rest = paired c none outs in
    let same = paired c wait outs in
    if code == c
    then elim wait [ none ↦ none | some m' ↦ if mode_eq m m' then rest else none ]
    else same
paired c wait (emit code value ∷ outs) = paired c wait outs

-- The down that waits for its press: a latched mode that is told of, while the key is down.
abbrev pub waiting : Option Watch → Option Mode
waiting none = none
waiting (some w) = elim w.pressed_at [
  | none ↦ none
  | some at ↦ if is_pass_through w.latched then none else some w.latched
]

abbrev pub Follows : Option Watch → Bool → Type 0
Follows none p = Unit
Follows (some w) p = (elim w.pressed_at [ none ↦ false | some at ↦ true ]) ≡ p

paired-append :
    (c : ℕ) (xs ys : List Output) (a b : Option Mode)
    → paired c a xs ≡ some b
    → paired c a (xs ++ ys) ≡ paired c b ys
unfolding paired
paired-append c [] ys a b h = ground arith
paired-append c (on_down code m ∷ xs) ys a b h =
    ground (arith, paired-append c xs ys (some m) b, paired-append c xs ys a b)
paired-append c (on_press code m d ∷ xs) ys a b h =
    ground (arith, paired-append c xs ys none b, paired-append c xs ys a b)
paired-append c (emit code value ∷ xs) ys a b h = paired-append c xs ys a b h

set_mode-waiting :
    (c code : ℕ) (m : Mode) (i : Interceptor) (p : Bool)
    → Follows (i.watched c) p
    → Follows ((set_mode code m i).watched c) p
      × (waiting ((set_mode code m i).watched c) ≡ waiting (i.watched c))
unfolding set_mode
set_mode-waiting c code m i p h = ground arith

handle-paired :
    (c now : ℕ) (e : Event) (i : Interceptor) (p : Bool)
    → (is_key c e ≡ true → e.value ≡ 1 → p ≡ false)
    → Follows (i.watched c) p
    → Follows ((handle now e i).0.watched c) (physical_after c e p)
      × (paired c (waiting (i.watched c)) (handle now e i).1
          ≡ some (waiting ((handle now e i).0.watched c)))
unfolding handle paired
handle-paired c now e i p once h = ground arith

route-paired :
    (c : ℕ) (ins : List Input) (i : Interceptor) (p : Bool)
    → Alternates c ins p
    → Follows (i.watched c) p
    → paired c (waiting (i.watched c)) (route ins i).outputs
      ≡ some (waiting ((route ins i).state.watched c))
unfolding route paired
route-paired c [] i p alt h = refl
route-paired c (set_mode_of code m ∷ ins) i p alt h =
    ground (arith, set_mode-waiting c code m i p h, route-paired c ins (set_mode code m i) p alt)
route-paired c (press_of code down_writes up_writes ∷ ins) i p alt h =
    ground (arith, route-paired c ins i p alt h)
route-paired c (read_event now ev writes ∷ ins) i p alt h =
    let rest : List Output = (route ins (handle now ev i).0).outputs in
    let a : Option Mode = waiting (i.watched c) in
    let b : Option Mode = waiting ((handle now ev i).0.watched c) in
    ground (
      arith,
      handle-paired c now ev i p alt.0 h,
      route-paired c ins (handle now ev i).0 (physical_after c ev p) alt.1,
      paired-append c (handle now ev i).1 rest a b,
      paired-append c (handle now ev i).1 (emit ev.code ev.value ∷ rest) a b,
    )

-- From `Open`, whatever modes are set while the key is down: the calls for a key are a down and
-- then a press of the same mode, by turns, and one is left open only while the key is down, if the
-- kernel reported no press of a key that was down.
pub route_pairs :
    (c : ℕ) (ins : List Input) (start : ℕ → Option Mode)
    → Alternates c ins false
    → paired c none (route ins (open_with start)).outputs
      ≡ some (waiting ((route ins (open_with start)).state.watched c))
unfolding open_with
route_pairs c ins start alt = ground (arith, route-paired c ins (open_with start) false alt)
