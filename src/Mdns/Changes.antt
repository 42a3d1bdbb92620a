-- ===== src/Mdns/Changes.antt =====
-- internal/mdns/mdns.go: what a new list of adverts has the responder send.
use overdub.Base.{
  ℕ, Bool, true, false, Option, none, some, List, [], ◌∷◌, ◌&&◌, ◌||◌, not, if◌then◌else◌, ◌≡◌,
  refl, arith,
}
use overdub.Base.Text.{bytes_eq, bytes_eq_iff}
use overdub.Base.Strings.{equal_fold, lower}
use overdub.Mdns.{Advert, Responder, found_in, missing_from}
use overdub.Mdns.Names.{AdvertError, is_none}
use overdub.Mdns.Answers.{Resource, records_for, withdrawal_of}
use overdub.Mdns.Replies.{check_adverts}
use overdub.Mdns.Life.{advertise}

-- What `Advertise` goes on to do: end the ladder and send the withdrawal twice, if it could be packed,
-- and announce the adverts.
pub record Plan : Type 0 where
  pub stops_ladder : Bool
  pub withdraws : Option (List ℕ)
  pub announces : Bool

abbrev pub no_plan : Plan
no_plan = record { stops_ladder = false; withdraws = none; announces = false }

module _ (fits : List ℕ → Bool) (pack : List Resource → List Resource → Option (List ℕ)) where
  unfoldable pub plan_for : List Advert → List Advert → Responder → Plan
  unfolding missing_from is_none
  plan_for was list m =
      let dropped = missing_from was list in
      record {
        stops_ladder = not (is_none dropped);
        withdraws =
            if is_none dropped then none else records_for fits pack 0 (withdrawal_of dropped) m;
        announces = not (is_none (missing_from list was));
      }

  -- `Advertise`, with whether the responder has a socket.
  unfoldable pub change_adverts :
      Bool → List Advert → Responder → Responder × Option AdvertError × Plan
  unfolding plan_for advertise
  change_adverts connected list m = elim (check_adverts fits pack list m) [
    | some e ↦ (m, some e, no_plan)
    | none ↦
        let m' = advertise list m in
        (m', none, if not connected || m.gone then no_plan else plan_for m.services list m')
  ]

equal_fold_found :
    (s t : List ℕ) (list : List Advert) → equal_fold s t ≡ true → found_in s list ≡ found_in t list
unfolding found_in equal_fold
equal_fold_found s t [] e = refl
equal_fold_found s t (b ∷ bs) e =
    let same = (bytes_eq_iff (lower s) (lower t)).0 e in
    let rest = equal_fold_found s t bs e in λ i. bytes_eq (same i) (lower b.service) || rest i

-- The withdrawn services are the ones carried before and not now, whatever their case: a text names a
-- withdrawn service just when it names one of the old list and none of the new.
pub found_in-missing_from :
    (s : List ℕ) (was list : List Advert)
    → found_in s (missing_from was list) ≡ (found_in s was && not (found_in s list))
unfolding found_in missing_from
found_in-missing_from s [] list = refl
found_in-missing_from s (a ∷ more) list =
    ground (arith, found_in-missing_from s more list, equal_fold_found s a.service list)
