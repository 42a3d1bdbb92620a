-- ===== src/Mdns/Replies.antt =====
-- internal/mdns/mdns.go: what the responder does with a packet, and with a new list of adverts.
pub mod Flood
use overdub.Base.{ℕ, Bool, true, false, Option, none, some, List, [], ◌∷◌, not, if◌then◌else◌}
use overdub.Mdns.{Advert, Reply, Responder, host_name, ttl_shared}
use overdub.Mdns.Names.{
  AdvertError, no_records, unpacked, is_none, first_of, as_unbuildable, valid_name, check_given,
  check_each,
}
use overdub.Mdns.Answers.{Resource, records_for, serve_all}
use overdub.Mdns.Questions.{Query, wants}
use overdub.Mdns.Rates.{may_multicast, may_unicast}

pub data Destination : Type 0 where
  to_group to_sender : Destination

-- The reply to a question that is wanted.
unfoldable pub reply_at : ℕ → Reply → Bool → Responder → Responder × Option (Destination × Reply)
reply_at now send true m =
    let (m', allowed) = may_unicast now m in (m', if allowed then some (to_sender, send) else none)
reply_at now send false m =
    let (m', allowed) = may_multicast now m in (m', if allowed then some (to_group, send) else none)

unfoldable pub reply_if_here :
    ℕ → Option (Reply × Bool) → Responder → Responder × Option (Destination × Reply)
unfolding reply_at
reply_if_here now none m = (m, none)
reply_if_here now (some (send, unicast)) m =
    if m.gone then (m, none) else reply_at now send unicast m

unfoldable pub reply_to : ℕ → List ℕ → Query → Responder → Responder × Option (Destination × Reply)
unfolding reply_if_here
reply_to now src query m =
    if not (m.subnet src) then (m, none) else reply_if_here now (wants query m) m

module _ (fits : List ℕ → Bool) (pack : List Resource → List Resource → Option (List ℕ)) where
  -- The packet with all that the list could be asked for.
  unfoldable pub check_packs : List Advert → Responder → Option AdvertError
  check_packs list m =
      let dry : Reply = record { adverts = serve_all true list; host = true; no_host = false } in
      elim (records_for fits pack ttl_shared dry m) [ none ↦ some unpacked | some packet ↦ none ]

  unfoldable pub check_adverts : List Advert → Responder → Option AdvertError
  unfolding check_packs first_of as_unbuildable is_none
  check_adverts list m =
      if is_none list
      then some no_records
      else first_of (check_given list) (
          first_of (as_unbuildable (valid_name (host_name m.instance_name)))
            (first_of (check_each m.instance_name [] list) (check_packs list m)))
