-- ===== src/Alexa/Speak.antt =====
-- internal/alexa/speak.go: a clip handed to the synthesizer of Alexa. The run of the command is an
-- argument: what it writes, and whether it fails.
pub mod Payload
mod Examples
use overdub.Base.{
  ℕ, Bool, true, false, Option, none, some, List, [], ◌∷◌, ◌++◌, ◌+◌, ◌||◌, not, leb, if◌then◌else◌,
  length, take,
}
use overdub.Base.Text.{codes, decimal}
use overdub.Base.Strings.{has_prefix, has_byte, trim, split_on}

abbrev pub max_logged_url : ℕ
max_logged_url = 64

unfoldable pub cut : List ℕ → List ℕ
cut s = if leb (length s) max_logged_url then s else take max_logged_url s ++ codes "..."

-- Why a clip was not spoken.
pub data SpeakError : Type 0 where
  bad_scheme bad_byte failed refused : List ℕ → SpeakError

unfoldable pub check_url : List ℕ → Option SpeakError
unfolding cut
check_url url =
    if not (has_prefix (codes "http://") url)
    then some (bad_scheme (cut url))
    else if has_byte url 34 || has_byte url 44 || has_byte url 92
    then some (bad_byte (cut url))
    else none

unfoldable pub payload_of : List ℕ → List ℕ
payload_of url = (123 ∷ 34 ∷ 117 ∷ 114 ∷ 108 ∷ 34 ∷ 58 ∷ 34 ∷ url) ++ (34 ∷ 125 ∷ [])

unfoldable pub speak_args : List ℕ → List ℕ → List ℕ → List (List ℕ)
unfolding payload_of
speak_args url id seq =
    codes "-a"
    ∷ codes "com.amazon.speech.SpeechSynthesizer_Speak"
    ∷ codes "-n"
    ∷ codes "amazon.speech.sim/amazon.speech.agent.speechsynthesizer.SpeechSynthesizerAgent"
    ∷ codes "--es"
    ∷ codes "directiveId"
    ∷ id
    ∷ codes "--es"
    ∷ codes "sequenceId"
    ∷ seq
    ∷ codes "--es"
    ∷ codes "namespace"
    ∷ codes "SpeechSynthesizer"
    ∷ codes "--es"
    ∷ codes "name"
    ∷ codes "Speak"
    ∷ codes "--es"
    ∷ codes "payloadVersion"
    ∷ codes "1"
    ∷ codes "--es"
    ∷ codes "payload"
    ∷ payload_of url
    ∷ codes "--esa"
    ∷ codes "namespaces"
    ∷ codes "SpeechSynthesizer"
    ∷ codes "--esa"
    ∷ codes "names"
    ∷ codes "Speak"
    ∷ codes "--esa"
    ∷ codes "payloadVersions"
    ∷ codes "1"
    ∷ codes "--esa"
    ∷ codes "payloads"
    ∷ payload_of url
    ∷ []

-- The first line that tells of an error; an empty text is none.
unfoldable pub first_error : List (List ℕ) → List ℕ
first_error [] = []
first_error (l ∷ ls) =
    let rest = first_error ls in if has_prefix (codes "Error:") (trim l) then trim l else rest

unfoldable pub am_error : List ℕ → List ℕ
unfolding first_error
am_error out = first_error (split_on 10 out)

unfoldable pub am_answer : List ℕ × Bool → Option SpeakError
unfolding am_error cut
am_answer (out, true) = some (failed (cut (trim out)))
am_answer (out, false) = elim (am_error out) [ [] ↦ none | c ∷ cs ↦ some (refused (cut (c ∷ cs))) ]

-- `Speak`, with the process id and the count of the clips before.
unfoldable pub speak : (List (List ℕ) → List ℕ × Bool) → ℕ → ℕ → List ℕ → ℕ × Option SpeakError
unfolding check_url speak_args am_answer
speak am pid seq url = elim (check_url url) [
  | some e ↦ (seq, some e)
  | none ↦
      let n = seq + 1 in
      let tail = decimal pid ++ codes "-" ++ decimal n in
      (n, am_answer (am (speak_args url (codes "dir" ++ tail) (codes "seq" ++ tail))))
]

-- `Installed`, with what `pm path` writes, if it does not fail.
unfoldable pub installed : Option (List ℕ) → Bool
installed none = false
installed (some out) = has_prefix (codes "package:") (trim out)
