-- ===== src/Mdns/Questions.antt =====
-- internal/mdns/mdns.go: what a query asks for. The parser is an argument by what it reads: the
-- header, the questions and how they end, and the answers up to the first it cannot read.
pub mod Asks
use overdub.Base.{
  ℕ, Bool, true, false, Option, none, some, List, [], ◌∷◌, ◌&&◌, ◌||◌, not, ◌==◌, ◌/◌, ltb, leb,
  if◌then◌else◌, ◌%◌,
}
use overdub.Base.Text.{bytes_eq}
use overdub.Base.Strings.{lower, equal_fold}
use overdub.Mdns.{Advert, Served, Reply, Responder, instance_for, host_name, ttl_shared}

pub record Question : Type 0 where
  pub name : List ℕ
  pub kind : ℕ
  pub class : ℕ

-- An answer of the query: whether it is a PTR record, and whether it is read, or skipped.
pub record KnownAnswer : Type 0 where
  pub name : List ℕ
  pub is_ptr : Bool
  pub ttl : ℕ
  pub is_read : Bool
  pub target : List ℕ

-- A packet: `response` is none if the header is not read, and `is_done` whether the questions end
-- without an error.
pub record Query : Type 0 where
  pub response : Option Bool
  pub questions : List Question
  pub is_done : Bool
  pub answers : List KnownAnswer

-- An advert with what the query says of it.
pub record Marked : Type 0 where
  pub advert : Advert
  pub browse : Bool
  pub resolve : Bool
  pub known : Bool

unfoldable pub asks_host : List ℕ → Question → Bool
asks_host name q =
    bytes_eq (lower q.name) (lower (host_name name)) && (q.kind == 1 || q.kind == 255)

unfoldable pub asks_browse : Question → Advert → Bool
asks_browse q a = bytes_eq (lower q.name) (lower a.service) && (q.kind == 12 || q.kind == 255)

unfoldable pub asks_resolve : List ℕ → Question → Advert → Bool
asks_resolve name q a =
    bytes_eq (lower q.name) (lower (instance_for name a.service))
    && (q.kind == 33 || q.kind == 16 || q.kind == 255)

-- `uint16(question.Class)&dnsUnicastResponse != 0`
unfoldable pub asks_unicast : Question → Bool
asks_unicast q = leb 32768 (q.class % 65536)

unfoldable pub mark_one : List ℕ → Question → Marked → Marked
unfolding asks_browse asks_resolve
mark_one name q k = record k {
  browse = if asks_browse q k.advert then true else k.browse;
  resolve = if asks_resolve name q k.advert then true else k.resolve;
}

-- The inner loop of `wants`: its marks, and whether an advert was asked for.
unfoldable pub mark_all : List ℕ → Question → List Marked → List Marked
unfolding mark_one
mark_all name q [] = []
mark_all name q (k ∷ ks) = mark_one name q k ∷ mark_all name q ks

unfoldable pub asks_advert : List ℕ → Question → List Marked → Bool
unfolding asks_browse asks_resolve
asks_advert name q [] = false
asks_advert name q (k ∷ ks) =
    asks_browse q k.advert || asks_resolve name q k.advert || asks_advert name q ks

-- What the questions asked for so far.
pub record Asked : Type 0 where
  pub marks : List Marked
  pub host : Bool
  pub matched : Bool
  pub unicast : Bool
  pub multicast : Bool

unfoldable pub ask : List ℕ → Bool → Question → Asked → Asked
unfolding mark_all asks_advert asks_host asks_unicast
ask name has_address q s =
    let hosts = asks_host name q in
    let ours = hosts || asks_advert name q s.marks in
    record {
      marks = mark_all name q s.marks;
      host = if hosts then has_address else s.host;
      matched = ours || s.matched;
      unicast = (ours && asks_unicast q) || s.unicast;
      multicast = (ours && not (asks_unicast q)) || s.multicast;
    }

unfoldable pub ask_all : List ℕ → Bool → List Question → Asked → Asked
unfolding ask
ask_all name has_address [] s = s
ask_all name has_address (q ∷ qs) s = ask_all name has_address qs (ask name has_address q s)

-- Whether an answer of the query spares the PTR record of an advert.
unfoldable pub spares : List ℕ → KnownAnswer → Advert → Bool
spares name r a =
    r.is_ptr
    && not (ltb r.ttl (ttl_shared / 2))
    && equal_fold r.name a.service
    && equal_fold r.target (instance_for name a.service)

unfoldable pub mark_known : List ℕ → KnownAnswer → List Marked → List Marked
unfolding spares
mark_known name r [] = []
mark_known name r (k ∷ ks) =
    record k { known = if spares name r k.advert then true else k.known } ∷ mark_known name r ks

-- `knownAnswers`
unfoldable pub known_answers : List ℕ → List KnownAnswer → List Marked → List Marked
unfolding mark_known
known_answers name [] ks = ks
known_answers name (r ∷ rs) ks =
    let more = known_answers name rs (mark_known name r ks) in if r.is_read then more else ks

unfoldable pub begin_marks : List Advert → List Marked
begin_marks [] = []
begin_marks (a ∷ rest) =
    record { advert = a; browse = false; resolve = false; known = false } ∷ begin_marks rest

-- The loop over the adverts at the end.
unfoldable pub serve_marks : List Marked → List Served
serve_marks [] = []
serve_marks (k ∷ ks) =
    let rest = serve_marks ks in
    let ptr = k.browse && not k.known in
    if not ptr && not k.resolve
    then rest
    else record { advert = k.advert; ptr = ptr; resolve = k.resolve } ∷ rest

unfoldable pub is_nothing : List Served → Bool → Bool
is_nothing [] host = not host
is_nothing (a ∷ rest) host = false

-- The reply, with whether it goes to the sender alone.
unfoldable pub reply_for : List ℕ → List KnownAnswer → Asked → Option (Reply × Bool)
unfolding known_answers serve_marks is_nothing
reply_for name answers s =
    let send = serve_marks (known_answers name answers s.marks) in
    if not s.matched || is_nothing send s.host
    then none
    else some
        (record { adverts = send; host = s.host; no_host = false }, s.unicast && not s.multicast)

unfoldable pub begin_asked : List Advert → Asked
unfolding begin_marks
begin_asked adverts = record {
  marks = begin_marks adverts;
  host = false;
  matched = false;
  unicast = false;
  multicast = false;
}

unfoldable pub is_address : List ℕ → Bool
is_address [] = false
is_address (b ∷ bs) = true

unfoldable pub wants : Query → Responder → Option (Reply × Bool)
unfolding ask_all reply_for begin_asked is_address
wants query m = elim query.response [
  | none ↦ none
  | some true ↦ none
  | some false ↦
      let asked =
        ask_all m.instance_name (is_address m.ip) query.questions (begin_asked m.services) in
      if query.is_done then reply_for m.instance_name query.answers asked else none
]
