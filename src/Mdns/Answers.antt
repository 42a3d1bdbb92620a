-- ===== src/Mdns/Answers.antt =====
-- internal/mdns/mdns.go: the records of a packet. Which names the package dnsmessage takes and how it
-- packs two sections are arguments. An address of the interface is an IPv4 address, so one that is
-- known has an A record.
pub mod Ttls
use overdub.Base.{
  ℕ, Bool, true, false, Option, none, some, List, [], ◌∷◌, ◌++◌, ◌&&◌, not, if◌then◌else◌, min,
}
use overdub.Mdns.{Advert, Served, Reply, Responder, instance_for, host_name, ttl_shared, ttl_host}

-- What a record says, behind its name, its class and its TTL.
pub data Body : Type 0 where
  ptr_to : List ℕ → Body
  srv_to : List ℕ → ℕ → Body
  txt_of : List (List ℕ) → Body
  a_of : List ℕ → Body

pub record Resource : Type 0 where
  pub name : List ℕ
  pub class : ℕ
  pub ttl : ℕ
  pub body : Body

-- `shared` and `unique`
abbrev pub shared_class : ℕ
shared_class = 1

abbrev pub unique_class : ℕ
unique_class = 32769

unfoldable pub ptr_resources : ℕ → List ℕ → List Served → List Resource
ptr_resources ttl name [] = []
ptr_resources ttl name (s ∷ more) =
    let rest = ptr_resources ttl name more in
    if s.ptr
    then record {
      name = s.advert.service;
      class = shared_class;
      ttl = ttl;
      body = ptr_to (instance_for name s.advert.service);
    }
      ∷ rest
    else rest

-- `serviceRecords`
unfoldable pub service_records : ℕ → List ℕ → Advert → List Resource
service_records ttl name a =
    record {
      name = instance_for name a.service;
      class = unique_class;
      ttl = min ttl (min ttl ttl_host);
      body = srv_to (host_name name) a.port;
    }
    ∷ record {
      name = instance_for name a.service;
      class = unique_class;
      ttl = ttl;
      body = txt_of a.records;
    }
    ∷ []

-- The records of the adverts whose instance is asked for, or of the others.
unfoldable pub service_resources : Bool → ℕ → List ℕ → List Served → List Resource
unfolding service_records
service_resources wanted ttl name [] = []
service_resources wanted ttl name (s ∷ more) =
    let rest = service_resources wanted ttl name more in
    if (if wanted then s.resolve else not s.resolve)
    then service_records ttl name s.advert ++ rest
    else rest

-- `aRecord`
unfoldable pub a_resources : ℕ → List ℕ → List ℕ → List Resource
a_resources ttl name [] = []
a_resources ttl name (b ∷ bs) =
    record {
      name = host_name name;
      class = unique_class;
      ttl = min ttl ttl_host;
      body = a_of (b ∷ bs);
    }
    ∷ []

unfoldable pub answers_of : ℕ → Reply → Responder → List Resource
unfolding ptr_resources service_resources a_resources
answers_of ttl send m =
    ptr_resources ttl m.instance_name send.adverts
    ++ service_resources true ttl m.instance_name send.adverts
    ++ (if send.host then a_resources ttl m.instance_name m.ip else [])

unfoldable pub additionals_of : ℕ → Reply → Responder → List Resource
unfolding service_resources a_resources
additionals_of ttl send m =
    service_resources false ttl m.instance_name send.adverts
    ++ (if not send.host && not send.no_host then a_resources ttl m.instance_name m.ip else [])

unfoldable pub names_fit : (List ℕ → Bool) → List ℕ → List Served → Bool
names_fit fits name [] = true
names_fit fits name (s ∷ more) =
    fits s.advert.service && fits (instance_for name s.advert.service) && names_fit fits name more

module _ (fits : List ℕ → Bool) (pack : List Resource → List Resource → Option (List ℕ)) where
  unfoldable pub records_for : ℕ → Reply → Responder → Option (List ℕ)
  unfolding names_fit answers_of additionals_of
  records_for ttl send m =
      if fits (host_name m.instance_name) && names_fit fits m.instance_name send.adverts
      then pack (answers_of ttl send m) (additionals_of ttl send m)
      else none

unfoldable pub serve_all : Bool → List Advert → List Served
serve_all resolve [] = []
serve_all resolve (a ∷ more) =
    record { advert = a; ptr = true; resolve = resolve } ∷ serve_all resolve more

-- What `records` sends: an announcement, or with a TTL of 0 a goodbye.
unfoldable pub announcement_of : Responder → Reply
unfolding serve_all
announcement_of m = record { adverts = serve_all false m.services; host = false; no_host = false }

-- What `withdrawal` sends for the adverts that were dropped.
unfoldable pub withdrawal_of : List Advert → Reply
unfolding serve_all
withdrawal_of dropped = record { adverts = serve_all true dropped; host = false; no_host = true }
