-- ===== src/Alexa/Command.antt =====
-- internal/alexa/command.go: a command sent as the account's own. The requests are arguments, on a
-- state of the world that they change.
pub mod Spaces
pub mod Tokens
mod Examples
use overdub.Base.{
  ℕ, Bool, true, false, Option, none, some, List, [], ◌∷◌, ◌&&◌, ◌||◌, not, leb, ltb, if◌then◌else◌,
  length, ◌==◌,
}
use overdub.Alexa.Focus.{is_empty}
use overdub.Base.Strings.{trim, equal_fold, is_space}

abbrev pub min_token : ℕ
min_token = 16

abbrev pub max_token : ℕ
max_token = 4096

-- An answer: `refused` is an `authFailure`, `broken` any other error.
pub data Answer {ℓ} (A : Type ℓ) : Type ℓ where
  ok : A → Answer A
  refused broken : List ℕ → Answer A

-- `unicode.IsSpace` of the rune that a text begins with, on its UTF-8 bytes. A byte that begins one of
-- these runes stands inside no other rune, so a text has a space exactly if one begins at some byte.
abbrev wide_space : ℕ → ℕ → ℕ → Bool
wide_space c d e =
    (c == 225 && d == 154 && e == 128)
    || (c == 226 && d == 128 && ((leb 128 e && leb e 138) || e == 168 || e == 169 || e == 175))
    || (c == 226 && d == 129 && e == 159)
    || (c == 227 && d == 128 && e == 128)

unfoldable pub starts_space : List ℕ → Bool
starts_space [] = false
starts_space (c ∷ cs) = is_space c || elim cs [
  | [] ↦ false
  | d ∷ ds ↦
      (c == 194 && (d == 133 || d == 160)) || elim ds [ [] ↦ false | e ∷ es ↦ wide_space c d e ]
]

unfoldable pub no_space : List ℕ → Bool
unfolding starts_space
no_space [] = true
no_space (c ∷ cs) = not (starts_space (c ∷ cs)) && no_space cs

unfoldable pub token_shaped : List ℕ → Bool
unfolding no_space
token_shaped value =
    if ltb (length value) min_token || ltb max_token (length value) then false else no_space value

pub record Device : Type 0 where
  pub device_type : List ℕ
  pub serial_number : List ℕ
  pub customer_id : List ℕ

-- The loop of `pick`, with the serial trimmed.
unfoldable pub pick_from : List ℕ → List Device → Answer Device
unfolding is_empty
pick_from serial [] = broken serial
pick_from serial (d ∷ ds) =
    let rest = pick_from serial ds in
    if not (is_empty serial) && equal_fold d.serial_number serial then ok d else rest

unfoldable pub pick : List ℕ → List Device → Answer Device
unfolding pick_from
pick prop devices = pick_from (trim prop) devices

unfoldable pub value_of : List ℕ → Answer (List ℕ)
unfolding token_shaped
value_of [] = broken []
value_of (c ∷ cs) = if token_shaped (c ∷ cs) then ok (c ∷ cs) else broken []

-- `extractToken`, from what the dump writes, if it ran.
unfoldable pub token_of : Answer (List ℕ) → Answer (List ℕ)
unfolding value_of
token_of (ok out) = value_of (trim out)
token_of (refused why) = broken why
token_of (broken why) = broken why

-- Another step, if the one before was answered.
unfoldable pub and_then : {W A B : Type 0} → W × Answer A → (A → W → W × Answer B) → W × Answer B
and_then (w, ok a) k = k a w
and_then (w, refused why) k = (w, refused why)
and_then (w, broken why) k = (w, broken why)

-- What the requests of a command do to the world, with the property `ro.serialno`.
pub record Requests (W : Type 0) : Type 0 where
  pub serialno : List ℕ
  pub dump : W → W × Answer (List ℕ)
  pub exchange_cookies : List ℕ → W → W × Answer {0} Unit
  pub list_devices : W → W × Answer (List Device)
  pub csrf_token : W → W × Answer (List ℕ)
  pub send_text : List ℕ → Device → List ℕ → W → W × Answer {0} Unit

module _ {W : Type 0} (r : Requests W) where
  -- `extractToken`, unless a token is kept.
  unfoldable pub token_for : List ℕ → W → W × Answer (List ℕ)
  unfolding token_of
  token_for [] w = let (w', out) = r.dump w in (w', token_of out)
  token_for (c ∷ cs) w = (w, ok (c ∷ cs))

  -- The requests of an attempt, in their order.
  unfoldable pub ask : List ℕ → List ℕ → W → W × Answer {0} Unit
  unfolding and_then pick
  ask text token w = and_then (r.exchange_cookies token w) (λ _ w1.
      and_then (r.list_devices w1) (λ devices w2.
        and_then (w2, pick r.serialno devices)
          (λ target w3. and_then (r.csrf_token w3) (λ csrf w4. r.send_text csrf target text w4))))

  -- What an attempt keeps of the token it was given, and its answer.
  unfoldable pub ask_with : List ℕ → List ℕ → W × Answer (List ℕ) → List ℕ × W × Answer {0} Unit
  unfolding ask
  ask_with text kept (w, ok token) = let (w', a) = ask text token w in (token, w', a)
  ask_with text kept (w, refused why) = (kept, w, refused why)
  ask_with text kept (w, broken why) = (kept, w, broken why)

  unfoldable pub attempt : List ℕ → List ℕ → W → List ℕ × W × Answer {0} Unit
  unfolding token_for ask_with
  attempt text token w = ask_with text token (token_for token w)

  -- What `Send` makes of the first attempt: one that was refused drops the token and is made again.
  unfoldable pub retry : List ℕ → List ℕ × W × Answer {0} Unit → List ℕ × W × Answer {0} Unit
  unfolding attempt
  retry text (token, w, ok u) = (token, w, ok u)
  retry text (token, w, broken why) = (token, w, broken why)
  retry text (token, w, refused why) = attempt text [] w

  -- `Send`, with whether another command is in flight.
  unfoldable pub send : Bool → List ℕ → List ℕ → W → List ℕ × W × Answer {0} Unit
  unfolding retry
  send true text token w = (token, w, broken [])
  send false text token w = retry text (attempt text token w)
