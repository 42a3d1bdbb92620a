-- ===== src/Alexa/Speak/Examples.antt =====
-- A clip's URL and what the command answers.
use overdub.Base.{◌++◌, if◌then◌else◌, [], ◌∷◌, ◌≡◌, refl, some, false, All, ◌<◌, arith}
use overdub.Base.Text.{codes}
use overdub.Base.Strings.{has_prefix, has_byte, split_on, trim}
use overdub.Alexa.Speak.{check_url, payload_of, speak, refused, none}
use overdub.Alexa.Speak.Payload.{has_control, url_of, url_of-payload_of}

ascii : All (λ c. c < 128) (codes "http://dot/a.mp3")
ascii = ground arith

-- A line break is accepted, and the payload is then no JSON.
line_break :
    (check_url (codes "http://d" ++ (10 ∷ [])) ≡ none)
    × (url_of (payload_of (codes "http://d" ++ (10 ∷ []))) ≡ none)
unfolding check_url payload_of url_of has_prefix has_byte
line_break = (refl, refl)

url_of-payload_of_example :
    (split_on 44 (payload_of (codes "http://dot/a.mp3"))
      ≡ payload_of (codes "http://dot/a.mp3") ∷ [])
    × (url_of (payload_of (codes "http://dot/a.mp3")) ≡ (
        if has_control (codes "http://dot/a.mp3") then none else some (codes "http://dot/a.mp3")))
unfolding check_url has_prefix has_byte
url_of-payload_of_example = url_of-payload_of (codes "http://dot/a.mp3") ascii refl

answered :
    speak (λ args. (codes " Starting\n Error: no service", false)) 8 1 (codes "http://dot/a")
    ≡ (2, some (refused (codes "Error: no service")))
unfolding speak has_prefix has_byte split_on trim
answered = refl
