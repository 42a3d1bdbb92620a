-- ===== src/Mdns/Questions/Asks.antt =====
-- internal/mdns/mdns.go: the answer to a query, said of each advert by itself.
pub mod Equal
use overdub.Base.{
  ℕ, Bool, true, false, Option, none, some, List, [], ◌∷◌, ◌&&◌, ◌||◌, not, if◌then◌else◌, ◌≡◌,
  refl, arith, sym,
}
use overdub.Mdns.{Advert, Served, Reply, Responder}
use overdub.Mdns.Questions.{
  Question, KnownAnswer, Query, Marked, Asked, asks_host, asks_browse, asks_resolve, asks_unicast,
  mark_one, mark_all, asks_advert, ask, ask_all, spares, mark_known, known_answers, begin_marks,
  serve_marks, is_nothing, reply_for, begin_asked, is_address, wants,
}

unfoldable pub any {ℓ} : {A : Type ℓ} → (A → Bool) → List A → Bool
any p [] = false
any p (x ∷ xs) = p x || any p xs

-- The answers before the first that is not read.
unfoldable pub readable : List KnownAnswer → List KnownAnswer
readable [] = []
readable (r ∷ rs) = let more = readable rs in if r.is_read then r ∷ more else []

-- A question about the host, or about an advert.
unfoldable pub is_ours : List ℕ → List Advert → Question → Bool
unfolding any
is_ours name adverts q =
    asks_host name q || any (λ a. asks_browse q a || asks_resolve name q a) adverts

-- The adverts that are served: those whose service is asked for and not spared, and those whose
-- instance is asked for.
unfoldable pub served : List ℕ → List Question → List KnownAnswer → List Advert → List Served
unfolding any readable
served name qs rs [] = []
served name qs rs (a ∷ more) =
    let rest = served name qs rs more in
    let ptr = any (λ q. asks_browse q a) qs && not (any (λ r. spares name r a) (readable rs)) in
    let resolve = any (λ q. asks_resolve name q a) qs in
    if ptr || resolve then record { advert = a; ptr = ptr; resolve = resolve } ∷ rest else rest

-- A query whose questions are all read.
unfoldable pub is_query : Query → Bool
is_query query = elim query.response [
  | none ↦ false
  | some response ↦ not response && query.is_done
]

-- The reply to questions that end without an error.
unfoldable pub reply_of : List Question → List KnownAnswer → Responder → Option (Reply × Bool)
unfolding served is_ours any
reply_of qs rs m =
    let send = served m.instance_name qs rs m.services in
    let host = any (asks_host m.instance_name) qs && is_address m.ip in
    let ours = is_ours m.instance_name m.services in
    if any ours qs && not (is_nothing send host)
    then some (
      record { adverts = send; host = host; no_host = false },
      not (any (λ q. ours q && not (asks_unicast q)) qs),
    )
    else none

-- The marks of an advert once all is read.
unfoldable pub with_questions : List ℕ → List Question → List Marked → List Marked
unfolding any
with_questions name qs [] = []
with_questions name qs (k ∷ ks) =
    record k {
      browse = any (λ q. asks_browse q k.advert) qs || k.browse;
      resolve = any (λ q. asks_resolve name q k.advert) qs || k.resolve;
    }
    ∷ with_questions name qs ks

unfoldable pub with_answers : List ℕ → List KnownAnswer → List Marked → List Marked
unfolding any
with_answers name rs [] = []
with_answers name rs (k ∷ ks) =
    record k { known = any (λ r. spares name r k.advert) rs || k.known } ∷ with_answers name rs ks

unfoldable pub adverts_of : List Marked → List Advert
adverts_of [] = []
adverts_of (k ∷ ks) = k.advert ∷ adverts_of ks

pub with_questions_none : (name : List ℕ) (ks : List Marked) → with_questions name [] ks ≡ ks
unfolding with_questions any
with_questions_none name [] = refl
with_questions_none name (k ∷ ks) = λ i. k ∷ with_questions_none name ks i

pub with_questions_next :
    (name : List ℕ) (q : Question) (qs : List Question) (ks : List Marked)
    → with_questions name qs (mark_all name q ks) ≡ with_questions name (q ∷ qs) ks
unfolding with_questions any mark_all mark_one
with_questions_next name q qs [] = refl
with_questions_next name q qs (k ∷ ks) = ground (arith, with_questions_next name q qs ks)

pub adverts_of-mark_all :
    (name : List ℕ) (q : Question) (ks : List Marked)
    → adverts_of (mark_all name q ks) ≡ adverts_of ks
unfolding adverts_of mark_all mark_one
adverts_of-mark_all name q [] = refl
adverts_of-mark_all name q (k ∷ ks) = λ i. k.advert ∷ adverts_of-mark_all name q ks i

pub asks_advert-any :
    (name : List ℕ) (q : Question) (ks : List Marked)
    → asks_advert name q ks ≡ any (λ a. asks_browse q a || asks_resolve name q a) (adverts_of ks)
unfolding asks_advert any adverts_of
asks_advert-any name q [] = refl
asks_advert-any name q (k ∷ ks) = ground (arith, asks_advert-any name q ks)

pub with_answers_none : (name : List ℕ) (ks : List Marked) → with_answers name [] ks ≡ ks
unfolding with_answers any
with_answers_none name [] = refl
with_answers_none name (k ∷ ks) = λ i. k ∷ with_answers_none name ks i

with_answers_next :
    (name : List ℕ) (r : KnownAnswer) (rs : List KnownAnswer) (ks : List Marked)
    → with_answers name rs (mark_known name r ks) ≡ with_answers name (r ∷ rs) ks
unfolding with_answers any mark_known
with_answers_next name r rs [] = refl
with_answers_next name r rs (k ∷ ks) = ground (arith, with_answers_next name r rs ks)

pub known_answers-readable :
    (name : List ℕ) (rs : List KnownAnswer) (ks : List Marked)
    → known_answers name rs ks ≡ with_answers name (readable rs) ks
unfolding known_answers readable
known_answers-readable name [] ks = sym (with_answers_none name ks)
known_answers-readable name (r ∷ rs) ks = ground (
  arith,
  known_answers-readable name rs (mark_known name r ks),
  with_answers_next name r (readable rs) ks,
  with_answers_none name ks,
)

pub serve_marks-served :
    (name : List ℕ) (qs : List Question) (rs : List KnownAnswer) (adverts : List Advert)
    → serve_marks (with_answers name (readable rs) (with_questions name qs (begin_marks adverts)))
      ≡ served name qs rs adverts
unfolding serve_marks served begin_marks with_answers with_questions
serve_marks-served name qs rs [] = refl
serve_marks-served name qs rs (a ∷ more) = ground (arith, serve_marks-served name qs rs more)

pub adverts_of-begin_marks : (adverts : List Advert) → adverts_of (begin_marks adverts) ≡ adverts
unfolding adverts_of begin_marks
adverts_of-begin_marks [] = refl
adverts_of-begin_marks (a ∷ more) = λ i. a ∷ adverts_of-begin_marks more i
