-- ===== src/Mdns/Answers/Ttls.antt =====
-- internal/mdns/mdns.go: how long the records are held.
use overdub.Base.{
  ℕ, Bool, true, false, List, [], ◌∷◌, ◌++◌, ◌≡◌, ◌≤◌, refl, arith, if◌then◌else◌, not, ◌&&◌, ◌∙◌,
}
use overdub.Mdns.{Served, Reply, Responder, ttl_host}
use overdub.Mdns.Answers.{
  Resource, ptr_to, srv_to, txt_of, a_of, ptr_resources, service_records, service_resources,
  a_resources, answers_of, additionals_of,
}

-- The same records with a TTL of 0.
unfoldable pub ended : List Resource → List Resource
ended [] = []
ended (r ∷ rs) = record r { ttl = 0 } ∷ ended rs

-- Each record is held `ttl` at most, and the ones that name the host or its address two minutes.
unfoldable pub AreHeld : ℕ → List Resource → Type 0
AreHeld ttl [] = Unit
AreHeld ttl (r ∷ rs) =
    (r.ttl ≤ ttl)
    × (elim r.body [
      | ptr_to target ↦ Unit
      | srv_to target port ↦ r.ttl ≤ ttl_host
      | txt_of texts ↦ Unit
      | a_of address ↦ r.ttl ≤ ttl_host
    ])
    × AreHeld ttl rs

ended-append : (rs ss : List Resource) → ended (rs ++ ss) ≡ ended rs ++ ended ss
unfolding ended
ended-append [] ss = refl
ended-append (r ∷ rs) ss = λ i. record r { ttl = 0 } ∷ ended-append rs ss i

ended-ptr_resources :
    (ttl : ℕ) (name : List ℕ) (s : List Served)
    → ended (ptr_resources ttl name s) ≡ ptr_resources 0 name s
unfolding ended ptr_resources
ended-ptr_resources ttl name [] = refl
ended-ptr_resources ttl name (a ∷ more) = ground (arith, ended-ptr_resources ttl name more)

ended-service_resources :
    (wanted : Bool) (ttl : ℕ) (name : List ℕ) (s : List Served)
    → ended (service_resources wanted ttl name s) ≡ service_resources wanted 0 name s
unfolding ended service_resources service_records
ended-service_resources wanted ttl name [] = refl
ended-service_resources wanted ttl name (a ∷ more) =
    ground (arith, ended-service_resources wanted ttl name more)

ended-a_resources :
    (b : Bool) (ttl : ℕ) (name ip : List ℕ)
    → ended (if b then a_resources ttl name ip else []) ≡ (if b then a_resources 0 name ip else [])
unfolding ended a_resources
ended-a_resources true ttl name [] = refl
ended-a_resources true ttl name (c ∷ cs) = refl
ended-a_resources false ttl name ip = refl

append-AreHeld :
    (ttl : ℕ) (rs ss : List Resource) → AreHeld ttl rs → AreHeld ttl ss → AreHeld ttl (rs ++ ss)
unfolding AreHeld
append-AreHeld ttl [] ss h g = g
append-AreHeld ttl (r ∷ rs) ss h g = (h.0, h.1, append-AreHeld ttl rs ss h.2 g)

if-AreHeld :
    (b : Bool) (ttl : ℕ) (rs ss : List Resource)
    → AreHeld ttl rs
    → AreHeld ttl ss
    → AreHeld ttl (if b then rs else ss)
if-AreHeld true ttl rs ss h g = h
if-AreHeld false ttl rs ss h g = g

ptr_resources-AreHeld :
    (ttl : ℕ) (name : List ℕ) (s : List Served) → AreHeld ttl (ptr_resources ttl name s)
unfolding AreHeld ptr_resources
ptr_resources-AreHeld ttl name [] = tt
ptr_resources-AreHeld ttl name (a ∷ more) =
    let rest = ptr_resources-AreHeld ttl name more in
    if-AreHeld a.ptr ttl (_ ∷ ptr_resources ttl name more) (ptr_resources ttl name more)
      (omega arith, tt, rest) rest

service_resources-AreHeld :
    (wanted : Bool) (ttl : ℕ) (name : List ℕ) (s : List Served)
    → AreHeld ttl (service_resources wanted ttl name s)
unfolding AreHeld service_resources service_records
service_resources-AreHeld wanted ttl name [] = tt
service_resources-AreHeld wanted ttl name (a ∷ more) =
    let rest = service_resources-AreHeld wanted ttl name more in
    if-AreHeld (if wanted then a.resolve else not a.resolve) ttl
      (service_records ttl name a.advert ++ service_resources wanted ttl name more)
      (service_resources wanted ttl name more) (omega arith, omega arith, (omega arith, tt, rest))
      rest

a_resources-AreHeld :
    (b : Bool) (ttl : ℕ) (name ip : List ℕ)
    → AreHeld ttl (if b then a_resources ttl name ip else [])
unfolding AreHeld a_resources
a_resources-AreHeld true ttl name [] = tt
a_resources-AreHeld true ttl name (c ∷ cs) = (omega arith, omega arith, tt)
a_resources-AreHeld false ttl name ip = tt

-- What a packet with any TTL tells is taken back by the packet with the same reply and a TTL of 0:
-- the same records in the same sections, each held no longer. Before that, no record is held longer
-- than the packet's TTL, and the records with the host or its address no longer than two minutes.
pub answers_of_ended :
    (ttl : ℕ) (send : Reply) (m : Responder)
    → (ended (answers_of ttl send m) ≡ answers_of 0 send m)
      × (ended (additionals_of ttl send m) ≡ additionals_of 0 send m)
      × AreHeld ttl (answers_of ttl send m)
      × AreHeld ttl (additionals_of ttl send m)
unfolding answers_of additionals_of
answers_of_ended ttl send m =
    let name = m.instance_name in
    let ptrs = ptr_resources ttl name send.adverts in
    let asked = service_resources true ttl name send.adverts in
    let others = service_resources false ttl name send.adverts in
    let host = if send.host then a_resources ttl name m.ip else [] in
    let more = if not send.host && not send.no_host then a_resources ttl name m.ip else [] in
    (
      ended-append (ptrs ++ asked) host
          ∙ (λ i. ended-append ptrs asked i ++ ended-a_resources send.host ttl name m.ip i)
          ∙ (λ i.
              ended-ptr_resources ttl name send.adverts i
              ++ ended-service_resources true ttl name send.adverts i
              ++ (if send.host then a_resources 0 name m.ip else [])),
      ended-append others more ∙ (λ i.
          ended-service_resources false ttl name send.adverts i
          ++ ended-a_resources (not send.host && not send.no_host) ttl name m.ip i),
      append-AreHeld ttl (ptrs ++ asked) host
          (append-AreHeld ttl ptrs asked (ptr_resources-AreHeld ttl name send.adverts)
            (service_resources-AreHeld true ttl name send.adverts))
          (a_resources-AreHeld send.host ttl name m.ip),
      append-AreHeld ttl others more (service_resources-AreHeld false ttl name send.adverts)
          (a_resources-AreHeld (not send.host && not send.no_host) ttl name m.ip),
    )
