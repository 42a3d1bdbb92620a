-- ===== src/Button/Route/Clone.antt =====
-- internal/button/button.go, `Interceptor.route` and `Press`: how the keys of the clone stand to the
-- real ones.
use overdub.Base.{
  ℕ, ◌≡◌, refl, Bool, true, false, Option, none, some, List, [], ◌∷◌, ◌++◌, ◌&&◌, not, ◌==◌,
  if◌then◌else◌, arith, ◌⊎◌, inl,
}
use overdub.Base.Strings.{has_prefix, after_prefix}
use overdub.Button.Route.{
  Mode, Watch, Interceptor, Event, Output, on_down, on_press, emit, is_intercept, ev_key, key_press,
  key_release, set_mode, handle, Input, read_event, set_mode_of, route, read_failed, open_with,
  press_of, End, passthrough_failed, key_stuck,
}

-- Whether an event is one of the key `c`.
abbrev pub is_key : ℕ → Event → Bool
is_key c e = e.kind == ev_key && e.code == c

-- The state of a key after a value is written: 1 presses, 0 releases, 2 repeats.
abbrev pub key_after : ℕ → Bool → Bool
key_after value k = if value == key_press then true else if value == key_release then false else k

abbrev pub physical_after : ℕ → Event → Bool → Bool
physical_after c e p = if is_key c e then key_after e.value p else p

-- The real key after the inputs.
unfoldable pub physical : ℕ → List Input → Bool → Bool
physical c [] p = p
physical c (set_mode_of code m ∷ ins) p = physical c ins p
physical c (press_of code down_writes up_writes ∷ ins) p = physical c ins p
physical c (read_event now e writes ∷ ins) p = physical c ins (physical_after c e p)

-- The clone's key after what `route` wrote.
unfoldable pub cloned : ℕ → List Output → Bool → Bool
cloned c [] k = k
cloned c (on_down code m ∷ outs) k = cloned c outs k
cloned c (on_press code m d ∷ outs) k = cloned c outs k
cloned c (emit code value ∷ outs) k = cloned c outs (if code == c then key_after value k else k)

-- The kernel reports no press of a key that is down already.
abbrev pub Alternates : ℕ → List Input → Bool → Type 0
Alternates c [] p = Unit
Alternates c (set_mode_of code m ∷ ins) p = Alternates c ins p
Alternates c (press_of code down_writes up_writes ∷ ins) p = Alternates c ins p
Alternates c (read_event now e writes ∷ ins) p =
    (is_key c e ≡ true → e.value ≡ key_press → p ≡ false) × Alternates c ins (physical_after c e p)

abbrev is_pressed : Option ℕ → Bool
is_pressed none = false
is_pressed (some at) = true

-- How the clone's key `k` stands to the real one `p`: it is down only if the real one is, and only
-- if the watch has not latched `intercept` for this press.
abbrev pub Agrees : Option Watch → Bool → Bool → Type 0
Agrees none p k = k ≡ true → p ≡ true
Agrees (some w) p k =
    (is_pressed w.pressed_at ≡ p) × (k ≡ true → (p && not (is_intercept w.latched)) ≡ true)

cloned-append :
    (c : ℕ) (xs ys : List Output) (k : Bool) → cloned c (xs ++ ys) k ≡ cloned c ys (cloned c xs k)
unfolding cloned
cloned-append c [] ys k = refl
cloned-append c (on_down code m ∷ xs) ys k = cloned-append c xs ys k
cloned-append c (on_press code m d ∷ xs) ys k = cloned-append c xs ys k
cloned-append c (emit code value ∷ xs) ys k =
    cloned-append c xs ys (if code == c then key_after value k else k)

set_mode-Agrees :
    (c code : ℕ) (m : Mode) (i : Interceptor) (p k : Bool)
    → Agrees (i.watched c) p k
    → Agrees ((set_mode code m i).watched c) p k
unfolding set_mode
set_mode-Agrees c code m i p k h = ground arith

-- A whole press leaves the key up.
press-Agrees :
    (c code : ℕ) (w : Option Watch) (p k : Bool)
    → Agrees w p k
    → Agrees w p (cloned c (emit code 1 ∷ emit code 0 ∷ []) k)
unfolding cloned
press-Agrees c code none p k h = ground arith
press-Agrees c code (some w) p k h = ground arith

-- One event, of which `goes` says whether it reaches the clone.
abbrev written : Event → Bool → List Output
written e goes = if goes then emit e.code e.value ∷ [] else []

handle-Agrees :
    (c now : ℕ) (e : Event) (i : Interceptor) (p k : Bool)
    → (is_key c e ≡ true → e.value ≡ key_press → p ≡ false)
    → Agrees (i.watched c) p k
    → let (i', calls, goes) = handle now e i in
      Agrees (i'.watched c) (physical_after c e p) (cloned c (calls ++ written e goes) k)
unfolding handle cloned
handle-Agrees c now e i p k once h = ground arith

route-Agrees :
    (c : ℕ) (ins : List Input) (i : Interceptor) (p k : Bool)
    → Alternates c ins p
    → Agrees (i.watched c) p k
    → (route ins i).reason ≡ read_failed
    → Agrees ((route ins i).state.watched c) (physical c ins p) (cloned c (route ins i).outputs k)
unfolding route physical cloned
route-Agrees c [] i p k alt h e = unfold cloned in h
route-Agrees c (set_mode_of code m ∷ ins) i p k alt h e =
    route-Agrees c ins (set_mode code m i) p k alt (set_mode-Agrees c code m i p k h) e
route-Agrees c (press_of code down_writes up_writes ∷ ins) i p k alt h e = ground (
  arith,
  press-Agrees c code (i.watched c) p k h,
  route-Agrees c ins i p (cloned c (emit code 1 ∷ emit code 0 ∷ []) k) alt,
)
route-Agrees c (read_event now ev writes ∷ ins) i p k alt h e =
    let out : List Output = (handle now ev i).1 ++ written ev (handle now ev i).2 in
    let rest : List Output = (route ins (handle now ev i).0).outputs in
    ground (
      arith,
      handle-Agrees c now ev i p k alt.0 h,
      route-Agrees c ins (handle now ev i).0 (physical_after c ev p) (cloned c out k) alt.1,
      cloned-append c (handle now ev i).1 rest k,
      cloned-append c (handle now ev i).1 (emit ev.code ev.value ∷ rest) k,
      cloned-append c (handle now ev i).1 (emit ev.code ev.value ∷ []) k,
      cloned-append c (handle now ev i).1 [] k,
    )

-- From `Open` with the key up to a moment when it is up again, whichever keys are watched, whatever
-- modes are set in between and whatever keys `Press` presses on the clone: the clone's key is up too,
-- if the clone refused no write (the run goes on until the node's read fails) and the kernel reported
-- no press of a key that was down.
pub route_not_stuck :
    (c : ℕ) (ins : List Input) (start : ℕ → Option Mode)
    → Alternates c ins false
    → (route ins (open_with start)).reason ≡ read_failed
    → physical c ins false ≡ false
    → cloned c (route ins (open_with start)).outputs false ≡ false
unfolding open_with
route_not_stuck c ins start alt e up =
    ground (arith, route-Agrees c ins (open_with start) false false alt)

-- The writes of the key `c` in order, and the values that the node delivered for it or that `Press`
-- was asked to write, in the order of the run.
pub emitted : ℕ → List Output → List ℕ
emitted c [] = []
emitted c (on_down code m ∷ outs) = emitted c outs
emitted c (on_press code m d ∷ outs) = emitted c outs
emitted c (emit code value ∷ outs) =
    let rest = emitted c outs in if code == c then value ∷ rest else rest

pub delivered : ℕ → List Input → List ℕ
delivered c [] = []
delivered c (set_mode_of code m ∷ ins) = delivered c ins
delivered c (press_of code down_writes up_writes ∷ ins) =
    let rest = delivered c ins in if code == c then 1 ∷ 0 ∷ rest else rest
delivered c (read_event now e writes ∷ ins) =
    let rest = delivered c ins in if is_key c e then e.value ∷ rest else rest

emitted-append : (c : ℕ) (xs ys : List Output) → emitted c (xs ++ ys) ≡ emitted c xs ++ emitted c ys
unfolding emitted
emitted-append c [] ys = refl
emitted-append c (on_down code m ∷ xs) ys = emitted-append c xs ys
emitted-append c (on_press code m d ∷ xs) ys = emitted-append c xs ys
emitted-append c (emit code value ∷ xs) ys = ground (arith, emitted-append c xs ys)

-- Which keycodes are watched never changes.
handle_unwatched :
    (c now : ℕ) (e : Event) (i : Interceptor)
    → i.watched c ≡ none
    → ((handle now e i).0.watched c ≡ none)
      × (emitted c (handle now e i).1 ≡ [])
      × (is_key c e ≡ true → (handle now e i).2 ≡ true)
      × ((handle now e i).2 ≡ true → is_key c e ≡ (e.code == c))
unfolding handle emitted
handle_unwatched c now e i h = ground arith

set_mode_unwatched :
    (c code : ℕ) (m : Mode) (i : Interceptor)
    → i.watched c ≡ none
    → (set_mode code m i).watched c ≡ none
unfolding set_mode
set_mode_unwatched c code m i h = ground arith

abbrev pub is_refused : End → Bool
is_refused read_failed = false
is_refused (passthrough_failed code) = true
is_refused (key_stuck code) = true

-- What reaches the clone of a key that is not watched is what the node delivers for it and what `Press`
-- writes of it, value for value in their order: all of it, or, if the run ended because the clone
-- refused a write, a prefix of it.
pub route_verbatim :
    (c : ℕ) (ins : List Input) (i : Interceptor)
    → i.watched c ≡ none
    → (has_prefix (emitted c (route ins i).outputs) (delivered c ins) ≡ true)
      × ((emitted c (route ins i).outputs ≡ delivered c ins)
          ⊎ (is_refused (route ins i).reason ≡ true))
unfolding route delivered emitted has_prefix after_prefix
route_verbatim c [] i h = (refl, inl refl)
route_verbatim c (set_mode_of code m ∷ ins) i h =
    route_verbatim c ins (set_mode code m i) (set_mode_unwatched c code m i h)
route_verbatim c (press_of code down_writes up_writes ∷ ins) i h =
    ground (arith, route_verbatim c ins i h)
route_verbatim c (read_event now ev writes ∷ ins) i h =
    let rest : List Output = (route ins (handle now ev i).0).outputs in
    ground (
      arith,
      handle_unwatched c now ev i h,
      route_verbatim c ins (handle now ev i).0 (handle_unwatched c now ev i h).0,
      emitted-append c (handle now ev i).1 rest,
      emitted-append c (handle now ev i).1 (emit ev.code ev.value ∷ rest),
    )
