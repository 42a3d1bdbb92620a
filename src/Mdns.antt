-- ===== src/Mdns.antt =====
-- internal/mdns/mdns.go: the responder that answers multicast DNS. What the package dnsmessage parses
-- and packs is an argument, and so are the clock and the socket.
pub mod Rates
pub mod Names
pub mod Questions
pub mod Answers
pub mod Replies
pub mod Life
pub mod Changes
mod Examples
use overdub.Base.{
  ℕ, Bool, true, false, Option, none, some, List, [], ◌∷◌, ◌++◌, ◌||◌, not, if◌then◌else◌,
}
use overdub.Base.Text.{codes, bytes_eq}
use overdub.Base.Strings.{equal_fold}

abbrev pub ttl_shared : ℕ
ttl_shared = 4500

abbrev pub ttl_host : ℕ
ttl_host = 120

-- In nanoseconds, as are the two windows below.
abbrev pub multicast_every : ℕ
multicast_every = 1000000000

abbrev pub unicast_burst : ℕ
unicast_burst = 20

abbrev pub unicast_window : ℕ
unicast_window = 1000000000

abbrev pub max_txt_string : ℕ
max_txt_string = 255

abbrev pub max_label : ℕ
max_label = 63

abbrev pub max_name : ℕ
max_name = 255

pub record Advert : Type 0 where
  pub service : List ℕ
  pub port : ℕ
  pub records : List (List ℕ)

pub record Served : Type 0 where
  pub advert : Advert
  pub ptr : Bool
  pub resolve : Bool

-- `answer`
pub record Reply : Type 0 where
  pub adverts : List Served
  pub host : Bool
  pub no_host : Bool

-- The responder: `last_sent` is none before the first multicast, an address that is not known is
-- empty, and `subnet` tells which addresses are on the link.
pub record Responder : Type 0 where
  pub instance_name : List ℕ
  pub services : List Advert
  pub gen : ℕ
  pub ip : List ℕ
  pub subnet : List ℕ → Bool
  pub restart : Bool
  pub last_sent : Option ℕ
  pub unicast_end : ℕ
  pub unicasts : ℕ
  pub send_failed : Option (List ℕ)
  pub gone : Bool

unfoldable pub instance_for : List ℕ → List ℕ → List ℕ
instance_for name service = name ++ codes "." ++ service

unfoldable pub host_name : List ℕ → List ℕ
host_name name = name ++ codes ".local."

unfoldable pub found_in : List ℕ → List Advert → Bool
found_in service [] = false
found_in service (b ∷ bs) = equal_fold service b.service || found_in service bs

unfoldable pub missing_from : List Advert → List Advert → List Advert
unfolding found_in
missing_from [] others = []
missing_from (a ∷ rest) others =
    let out = missing_from rest others in if found_in a.service others then out else a ∷ out

unfoldable pub note_send_failure : List ℕ → Responder → Responder
note_send_failure err m = elim m.send_failed [
  | none ↦ record m { send_failed = some err }
  | some e ↦ m
]

-- `noteReplyFailure`, with whether the reply went to the group.
unfoldable pub note_reply_failure : Bool → List ℕ → Responder → Responder
unfolding note_send_failure
note_reply_failure to_group err m = if to_group then note_send_failure err m else m

-- Why the responder must be built again.
pub data Reason : Type 0 where
  address_changed : Reason
  send_broke : List ℕ → Reason

unfoldable pub stale : List ℕ → Responder → Responder × Option Reason
stale ip m =
    let m' = record m { send_failed = none } in
    if not (bytes_eq m.ip ip)
    then (m', some address_changed)
    else (m', elim m.send_failed [ none ↦ none | some e ↦ some (send_broke e) ])

unfoldable pub begin_cycle : Responder → Responder
begin_cycle m = record m { restart = false; send_failed = none }

-- A tick of `watchAddress`, with the address the interface has, if it has one; true ends the watch,
-- and closes the socket.
unfoldable pub watch_tick : Option (List ℕ × (List ℕ → Bool)) → Responder → Responder × Bool
unfolding stale
watch_tick none m = (m, false)
watch_tick (some (ip, subnet)) m =
    let (m', reason) = stale ip m in
    elim reason [
      | none ↦ (m', false)
      | some why ↦ (record m' { ip = ip; subnet = subnet; restart = true }, true)
    ]

-- A failed read of `serve`: whether the socket was closed on purpose.
unfoldable pub read_failed : Responder → Responder × Bool
read_failed m = (record m { restart = false }, m.restart)
