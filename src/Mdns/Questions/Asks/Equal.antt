-- ===== src/Mdns/Questions/Asks/Equal.antt =====
-- internal/mdns/mdns.go: the loops of `wants` against what is said of each advert.
use overdub.Base.{
  ℕ, Bool, none, List, [], ◌∷◌, ◌&&◌, ◌||◌, not, if◌then◌else◌, ◌≡◌, refl, sym, ◌∙◌, arith,
}
use overdub.Mdns.{Advert, Responder}
use overdub.Mdns.Questions.{
  Question, KnownAnswer, Query, Marked, Asked, asks_host, asks_browse, asks_resolve, asks_advert,
  asks_unicast, ask, ask_all, known_answers, begin_marks, serve_marks, reply_for, begin_asked,
  is_address, wants,
}
use overdub.Mdns.Questions.Asks.{
  any, is_query, is_ours, served, reply_of, with_questions, adverts_of, with_questions_none,
  with_questions_next, adverts_of-mark_all, asks_advert-any, known_answers-readable,
  serve_marks-served, adverts_of-begin_marks,
}

-- What the questions leave, by what is said of them one at a time.
After : List ℕ → Bool → List Advert → List Question → Asked → Asked → Type 0
After name has_address adverts qs s s' =
    let ours = is_ours name adverts in
    (s'.marks ≡ with_questions name qs s.marks)
    × (s'.host ≡ (if any (asks_host name) qs then has_address else s.host))
    × (s'.matched ≡ (any ours qs || s.matched))
    × (s'.unicast ≡ (any (λ q. ours q && asks_unicast q) qs || s.unicast))
    × (s'.multicast ≡ (any (λ q. ours q && not (asks_unicast q)) qs || s.multicast))

ours_asked :
    (name : List ℕ) (adverts : List Advert) (q : Question) (ks : List Marked)
    → adverts_of ks ≡ adverts
    → (asks_host name q || asks_advert name q ks) ≡ is_ours name adverts q
unfolding is_ours
ours_asked name adverts q ks e = λ i.
    asks_host name q
    || (asks_advert-any name q ks
          ∙ (λ j. any (λ a. asks_browse q a || asks_resolve name q a) (e j)))
        i

ask_all-After :
    (name : List ℕ) (has_address : Bool) (adverts : List Advert) (qs : List Question) (s : Asked)
    → adverts_of s.marks ≡ adverts
    → After name has_address adverts qs s (ask_all name has_address qs s)
unfolding After any ask_all ask
ask_all-After name has_address adverts [] s e =
    (sym (with_questions_none name s.marks), refl, refl, refl, refl)
ask_all-After name has_address adverts (q ∷ qs) s e =
    let next = ask name has_address q s in
    let kept = adverts_of-mark_all name q s.marks ∙ e in
    let (marks, host, matched, unicast, multicast) =
      ask_all-After name has_address adverts qs next kept in
    let ours = ours_asked name adverts q s.marks e in
    (
      marks ∙ with_questions_next name q qs s.marks,
      ground arith,
      ground arith,
      ground arith,
      ground arith,
    )

any_split :
    (p u : Question → Bool) (qs : List Question)
    → any p qs ≡ (any (λ q. p q && u q) qs || any (λ q. p q && not (u q)) qs)
unfolding any
any_split p u [] = refl
any_split p u (q ∷ qs) = ground (arith, any_split p u qs)

reply_for-reply_of :
    (qs : List Question) (rs : List KnownAnswer) (m : Responder)
    → reply_for m.instance_name rs
        (ask_all m.instance_name (is_address m.ip) qs (begin_asked m.services))
      ≡ reply_of qs rs m
unfolding reply_for reply_of After begin_asked
reply_for-reply_of qs rs m =
    let name = m.instance_name in
    let first = begin_asked m.services in
    let asked = ask_all name (is_address m.ip) qs first in
    let (marks, host, matched, unicast, multicast) =
      ask_all-After name (is_address m.ip) m.services qs first
        (adverts_of-begin_marks m.services) in
    let split = any_split (is_ours name m.services) asks_unicast qs in
    let send : serve_marks (known_answers name rs asked.marks) ≡ served name qs rs m.services =
      (λ i. serve_marks (known_answers name rs (marks i)))
      ∙ (λ i.
          serve_marks
            (known_answers-readable name rs (with_questions name qs (begin_marks m.services)) i))
      ∙ serve_marks-served name qs rs m.services in
    ground arith

-- A query is answered by what is said of each advert by itself. A packet that is no query, or whose
-- questions end in an error, gets no answer. Otherwise the loops of the code reply when a question is
-- about the host or an advert and there is something to send: the PTR record of a service that a
-- question asks for and no readable answer spares, the records of an instance that a question asks
-- for, and the address if it is asked for and known. The reply goes to the sender alone just when
-- every such question asks for that.
pub wants-reply_of :
    (query : Query) (m : Responder)
    → wants query m ≡ (if is_query query then reply_of query.questions query.answers m else none)
unfolding wants is_query
wants-reply_of query m = ground (arith, reply_for-reply_of query.questions query.answers m)
