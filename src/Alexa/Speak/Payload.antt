-- ===== src/Alexa/Speak/Payload.antt =====
-- internal/alexa/speak.go: what the extras carry of an accepted URL. The extras `payloads` are split
-- at commas, and the payload is read as JSON of ASCII characters with one field.
use overdub.Base.{
  ℕ, false, Option, none, some, List, [], ◌∷◌, ◌++◌, ◌||◌, if◌then◌else◌, ◌==◌, ◌≡◌, refl, arith,
  ltb, All, ◌<◌,
}
use overdub.Base.Strings.{has_byte, split_on, split_parts_one, after_prefix}
use overdub.Alexa.Speak.{check_url, payload_of, Bool}

-- A JSON string up to its quote, with what follows. JSON has no control character in a string; an
-- escape is not read.
unfoldable pub until_quote : List ℕ → Option (List ℕ × List ℕ)
until_quote [] = none
until_quote (c ∷ cs) =
    let rest = until_quote cs in
    if c == 34
    then some ([], cs)
    else if ltb c 32 || c == 92
    then none
    else elim rest [ none ↦ none | some (a, b) ↦ some (c ∷ a, b) ]

-- The field of the object, if it is the only one.
unfoldable pub url_of : List ℕ → Option (List ℕ)
unfolding until_quote
url_of s = elim (after_prefix (123 ∷ 34 ∷ 117 ∷ 114 ∷ 108 ∷ 34 ∷ 58 ∷ 34 ∷ []) s) [
  | none ↦ none
  | some rest ↦ elim (until_quote rest) [
    | none ↦ none
    | some (url, behind) ↦ elim behind [
      | [] ↦ none
      | c ∷ cs ↦ elim cs [ [] ↦ if c == 125 then some url else none | d ∷ ds ↦ none ]
    ]
  ]
]

check_url_free :
    (url : List ℕ)
    → check_url url ≡ none
    → (has_byte url 34 ≡ false) × (has_byte url 44 ≡ false) × (has_byte url 92 ≡ false)
unfolding check_url
check_url_free url e = ground arith

-- Whether a text has a control character.
abbrev pub has_control : List ℕ → Bool
has_control [] = false
has_control (c ∷ cs) = ltb c 32 || has_control cs

until_quote-append :
    (url rest : List ℕ)
    → has_byte url 34 ≡ false
    → has_byte url 92 ≡ false
    → until_quote (url ++ (34 ∷ rest)) ≡ (if has_control url then none else some (url, rest))
unfolding until_quote has_byte
until_quote-append [] rest q b = ground arith
until_quote-append (c ∷ cs) rest q b = ground (arith, until_quote-append cs rest)

has_byte-append : (b : ℕ) (s t : List ℕ) → has_byte (s ++ t) b ≡ (has_byte s b || has_byte t b)
unfolding has_byte
has_byte-append b [] t = refl
has_byte-append b (c ∷ cs) t = ground (arith, has_byte-append b cs t)

-- For an ASCII URL that is accepted, the payload is one element of the comma-separated array, and it
-- is JSON that reads back as that URL if the URL has no control character, and no JSON if it has one.
pub url_of-payload_of :
    (url : List ℕ)
    → All (λ c. c < 128) url
    → check_url url ≡ none
    → (split_on 44 (payload_of url) ≡ payload_of url ∷ [])
      × (url_of (payload_of url) ≡ (if has_control url then none else some url))
unfolding payload_of url_of split_on after_prefix has_byte
url_of-payload_of url ascii e =
    let free = check_url_free url e in
    (
      ground (arith, split_parts_one 44 (payload_of url), has_byte-append 44 url (34 ∷ 125 ∷ [])),
      ground (arith, until_quote-append url (125 ∷ [])),
    )
