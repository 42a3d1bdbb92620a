-- ===== src/Mdns/Rates.antt =====
-- internal/mdns/mdns.go: how often the responder answers.
pub mod Bounds
use overdub.Base.{
  ℕ, Bool, true, false, Option, none, some, List, [], ◌∷◌, ◌+◌, ◌-◌, ltb, leb, if◌then◌else◌,
}
use overdub.Mdns.{Responder, multicast_every, unicast_burst, unicast_window}

-- Whether a multicast was sent less than a second ago.
unfoldable pub too_soon : ℕ → Option ℕ → Bool
too_soon now none = false
too_soon now (some t) = ltb (now - t) multicast_every

unfoldable pub may_multicast : ℕ → Responder → Responder × Bool
unfolding too_soon
may_multicast now m =
    if too_soon now m.last_sent then (m, false) else (record m { last_sent = some now }, true)

-- The window of `mayUnicast` that `now` is in.
unfoldable pub open_window : ℕ → Responder → Responder
open_window now m =
    if ltb m.unicast_end now
    then record m { unicast_end = now + unicast_window; unicasts = 0 }
    else m

unfoldable pub may_unicast : ℕ → Responder → Responder × Bool
unfolding open_window
may_unicast now m =
    let m' = open_window now m in
    if leb unicast_burst m'.unicasts
    then (m', false)
    else (record m' { unicasts = m'.unicasts + 1 }, true)
