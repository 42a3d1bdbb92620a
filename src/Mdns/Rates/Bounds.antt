-- ===== src/Mdns/Rates/Bounds.antt =====
-- internal/mdns/mdns.go: how much the responder sends at most. The clock does not go back: each call
-- comes some time after the one before.
use overdub.Base.{
  ℕ, Bool, true, false, Option, none, some, List, [], ◌∷◌, ◌+◌, ◌-◌, ◌*◌, ◌≡◌, ◌≤◌, ◌<◌, ◌⊎◌, arith,
}
use overdub.Mdns.{Responder, multicast_every, unicast_burst, unicast_window}
use overdub.Mdns.Rates.{may_multicast, may_unicast, open_window, too_soon}

-- A question to be answered to all or to one, an announcement, which also is a multicast, or a
-- packet that gets no answer.
pub data Traffic : Type 0 where
  asks_all asks_one announces idles : ℕ → Traffic

-- The clock, and how many answers were allowed so far.
pub record Sent : Type 0 where
  pub clock : ℕ
  pub to_all : ℕ
  pub to_one : ℕ

unfoldable pub count : Bool → ℕ
count true = 1
count false = 0

unfoldable pub traffic : Traffic → Responder × Sent → Responder × Sent
unfolding may_multicast may_unicast count
traffic (asks_all d) (m, s) =
    let (m', allowed) = may_multicast (s.clock + d) m in
    (m', record s { clock = s.clock + d; to_all = s.to_all + count allowed })
traffic (asks_one d) (m, s) =
    let (m', allowed) = may_unicast (s.clock + d) m in
    (m', record s { clock = s.clock + d; to_one = s.to_one + count allowed })
traffic (announces d) (m, s) =
    (record m { last_sent = some (s.clock + d) }, record s { clock = s.clock + d })
traffic (idles d) (m, s) = (m, record s { clock = s.clock + d })

unfoldable pub traffic_all : List Traffic → Responder × Sent → Responder × Sent
unfolding traffic
traffic_all [] s = s
traffic_all (t ∷ ts) s = traffic_all ts (traffic t s)

-- The multicasts since the clock read `start`, with the last one.
unfoldable pub Paced : ℕ → Option ℕ → Sent → Type 0
Paced start none s = (s.to_all ≡ 0) × (start ≤ s.clock)
Paced start (some t) s =
    (start ≤ t) × (t ≤ s.clock) × (multicast_every * s.to_all ≤ (t - start) + multicast_every)

-- The single answers since the clock read `start`.
unfoldable pub IsRationed : ℕ → Responder → Sent → Type 0
IsRationed start m s =
    (m.unicasts ≤ unicast_burst)
    × (start ≤ s.clock)
    × (m.unicast_end ≤ s.clock + unicast_window)
    × (((s.to_one ≡ 0) × (m.unicast_end < start))
        ⊎ ((start + unicast_window ≤ m.unicast_end)
            × (unicast_window * s.to_one + unicast_window * (unicast_burst - m.unicasts)
                ≤ unicast_burst * (m.unicast_end - start))))

Paced-later :
    (start : ℕ) (last : Option ℕ) (s : Sent) (d : ℕ)
    → Paced start last s
    → Paced start last (record s { clock = s.clock + d })
unfolding Paced
Paced-later start none s d p = ground arith
Paced-later start (some t) s d p = ground arith

traffic-Paced :
    (start : ℕ) (t : Traffic) (m : Responder) (s : Sent)
    → Paced start m.last_sent s
    → Paced start (traffic t (m, s)).0.last_sent (traffic t (m, s)).1
unfolding Paced traffic may_multicast may_unicast count open_window too_soon
traffic-Paced start (asks_all d) m s p = ground arith
traffic-Paced start (asks_one d) m s p = ground arith
traffic-Paced start (announces d) m s p = ground arith
traffic-Paced start (idles d) m s p = Paced-later start m.last_sent s d p

traffic-IsRationed :
    (start : ℕ) (t : Traffic) (m : Responder) (s : Sent)
    → IsRationed start m s
    → IsRationed start (traffic t (m, s)).0 (traffic t (m, s)).1
unfolding IsRationed traffic may_multicast may_unicast count open_window too_soon
traffic-IsRationed start (asks_all d) m s p = ground arith
traffic-IsRationed start (asks_one d) m s p = ground arith
traffic-IsRationed start (announces d) m s p = ground arith
traffic-IsRationed start (idles d) m s p = ground arith

traffic_all-Limits :
    (start : ℕ) (ts : List Traffic) (m : Responder) (s : Sent)
    → Paced start m.last_sent s
    → IsRationed start m s
    → let (m', s') = traffic_all ts (m, s) in Paced start m'.last_sent s' × IsRationed start m' s'
unfolding traffic_all
traffic_all-Limits start [] m s p r = (p, r)
traffic_all-Limits start (t ∷ ts) m s p r =
    traffic_all-Limits start ts (traffic t (m, s)).0 (traffic t (m, s)).1
      (traffic-Paced start t m s p) (traffic-IsRationed start t m s r)

Paced-bound :
    (start : ℕ) (last : Option ℕ) (s : Sent)
    → Paced start last s
    → multicast_every * s.to_all ≤ (s.clock - start) + multicast_every
unfolding Paced
Paced-bound start none s p = ground arith
Paced-bound start (some t) s p = ground arith

IsRationed-bound :
    (start : ℕ) (m : Responder) (s : Sent)
    → IsRationed start m s
    → unicast_window * s.to_one ≤ unicast_burst * ((s.clock - start) + unicast_window)
unfolding IsRationed
IsRationed-bound start m s r = ground arith

first-Limits :
    (start : ℕ) (m : Responder)
    → m.last_sent ≡ none
    → m.unicasts ≡ 0
    → m.unicast_end < start
    → let s : Sent = record { clock = start; to_all = 0; to_one = 0 } in
      Paced start m.last_sent s × IsRationed start m s
unfolding Paced IsRationed
first-Limits start m never none_sent past = ground arith

-- What is sent since the clock read `start`: to the group once for each second and once more, and to
-- single senders 20 times for each second and 20 times more.
unfoldable pub IsLimited : ℕ → Sent → Type 0
IsLimited start s =
    (multicast_every * s.to_all ≤ (s.clock - start) + multicast_every)
    × (unicast_window * s.to_one ≤ unicast_burst * ((s.clock - start) + unicast_window))

pub traffic_all_bound :
    (start : ℕ) (ts : List Traffic) (m : Responder)
    → m.last_sent ≡ none
    → m.unicasts ≡ 0
    → m.unicast_end < start
    → IsLimited start (traffic_all ts (m, record { clock = start; to_all = 0; to_one = 0 })).1
unfolding IsLimited
traffic_all_bound start ts m never none_sent past =
    let begin : Sent = record { clock = start; to_all = 0; to_one = 0 } in
    let limits = first-Limits start m never none_sent past in
    let (paced, rationed) = traffic_all-Limits start ts m begin limits.0 limits.1 in
    let (m', s') = traffic_all ts (m, begin) in
    (Paced-bound start m'.last_sent s' paced, IsRationed-bound start m' s' rationed)
