-- ===== src/Mdns/Replies/Flood.antt =====
-- internal/mdns/mdns.go: how much is sent for whatever arrives.
use mathlib.Core.Path.{subst}
use overdub.Base.{
  sym, ℕ, Bool, true, false, Option, none, some, List, [], ◌∷◌, ◌+◌, ◌≡◌, ◌<◌, refl, not, ◌||◌,
  if◌then◌else◌, arith, ◌∙◌,
}
use overdub.Mdns.{Responder, Reply}
use overdub.Mdns.Questions.{Query, wants}
use overdub.Mdns.Rates.Bounds.{
  Traffic, asks_all, asks_one, announces, idles, Sent, count, traffic, traffic_all,
  traffic_all_bound, IsLimited,
}
use overdub.Mdns.Replies.{Destination, to_group, to_sender, reply_to, reply_if_here, reply_at}

-- A packet from a sender, and an announcement, each some time after the one before.
pub data Arrival : Type 0 where
  packet : ℕ → List ℕ → Query → Arrival
  announced : ℕ → Arrival

-- A reply counts for where it goes.
unfoldable pub tally : Option (Destination × Reply) → Sent → Sent
tally none s = s
tally (some (to_group, send)) s = record s { to_all = s.to_all + 1 }
tally (some (to_sender, send)) s = record s { to_one = s.to_one + 1 }

unfoldable pub arrive : Arrival → Responder × Sent → Responder × Sent
unfolding tally reply_to
arrive (packet d src query) (m, s) =
    let (m', reply) = reply_to (s.clock + d) src query m in
    (m', tally reply (record s { clock = s.clock + d }))
arrive (announced d) (m, s) =
    (record m { last_sent = some (s.clock + d) }, record s { clock = s.clock + d })

unfoldable pub arrive_all : List Arrival → Responder × Sent → Responder × Sent
unfolding arrive
arrive_all [] s = s
arrive_all (a ∷ more) s = arrive_all more (arrive a s)

-- What an arrival is to the rates.
traffic_if : ℕ → Bool → Option (Reply × Bool) → Bool → Traffic
traffic_if d linked none gone = idles d
traffic_if d linked (some (send, unicast)) gone =
    if not linked || gone then idles d else if unicast then asks_one d else asks_all d

traffic_of : Arrival → Responder → Traffic
unfolding traffic_if
traffic_of (packet d src query) m = traffic_if d (m.subnet src) (wants query m) m.gone
traffic_of (announced d) m = announces d

arrive_if :
    (d : ℕ) (linked : Bool) (o : Option (Reply × Bool)) (m : Responder) (s : Sent)
    → let (m', reply) = if not linked then (m, none) else reply_if_here (s.clock + d) o m in
      (m', tally reply (record s { clock = s.clock + d }))
      ≡ traffic (traffic_if d linked o m.gone) (m, s)
unfolding traffic_if traffic tally reply_if_here reply_at count
arrive_if d linked none m s = ground arith
arrive_if d linked (some (send, true)) m s = ground arith
arrive_if d linked (some (send, false)) m s = ground arith

arrive-traffic :
    (a : Arrival) (m : Responder) (s : Sent) → arrive a (m, s) ≡ traffic (traffic_of a m) (m, s)
unfolding arrive reply_to traffic_of traffic
arrive-traffic (packet d src query) m s = arrive_if d (m.subnet src) (wants query m) m s
arrive-traffic (announced d) m s = refl

-- The traffic that a row of arrivals is.
arrive_all_traffic :
    (arrivals : List Arrival) (m : Responder) (s : Sent)
    → (ts : List Traffic) × (arrive_all arrivals (m, s) ≡ traffic_all ts (m, s))
unfolding arrive_all traffic_all
arrive_all_traffic [] m s = ([], refl)
arrive_all_traffic (a ∷ more) m s =
    let (m', s') = arrive a (m, s) in
    let (ts, e) = arrive_all_traffic more m' s' in
    (traffic_of a m ∷ ts, e ∙ (λ i. traffic_all ts (arrive-traffic a m s i)))

-- The responder cannot be made to flood the link. Whatever packets arrive from whoever, once some time
-- has passed it has replied to the group at most once for each second of it, and once more, and to
-- single senders at most 20 times for each second of it, and 20 times more. It begins having sent no
-- multicast and with its unicast window in the past; the announcements it makes in between do not count,
-- and only delay its replies.
pub arrive_all_bound :
    (start : ℕ) (arrivals : List Arrival) (m : Responder)
    → m.last_sent ≡ none
    → m.unicasts ≡ 0
    → m.unicast_end < start
    → IsLimited start (arrive_all arrivals (m, record { clock = start; to_all = 0; to_one = 0 })).1
arrive_all_bound start arrivals m never none_sent past =
    let begin : Sent = record { clock = start; to_all = 0; to_one = 0 } in
    let (ts, e) = arrive_all_traffic arrivals m begin in
    subst (λ r. IsLimited start r.1) (sym e) (traffic_all_bound start ts m never none_sent past)
