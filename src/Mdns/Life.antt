-- ===== src/Mdns/Life.antt =====
-- internal/mdns/mdns.go: an announcement in its own goroutine, while the adverts are changed and the
-- responder says goodbye. The lock is held for each step by itself, so the steps come in any order.
-- The other calls change neither the adverts, nor their generation, nor whether they are withdrawn.
pub mod Current
pub mod Sends
use overdub.Base.{
  ℕ, Bool, true, false, List, ◌+◌, ◌%◌, ◌||◌, not, ◌==◌, if◌then◌else◌, ◌≡◌, some, suc,
}
use overdub.Mdns.{Advert, Responder, missing_from}

-- `m.gen` is a uint64.
abbrev pub generations : ℕ
generations = 18446744073709551616

-- The part of `Advertise` that holds the lock.
unfoldable pub advertise : List Advert → Responder → Responder
advertise list m = record m { services = list; gen = (m.gen + 1) % generations }

-- The part of `Goodbye` that holds the lock.
unfoldable pub withdraw : Responder → Responder
withdraw m = record m { gone = true }

-- Where `announceOnce` is: before it reads the generation, before it builds its packet, before its
-- check, past the check with the lock released, and once it has written the packet with the adverts
-- it read, or has dropped it.
pub data Flight : Type 0 where
  asked : Flight
  numbered : ℕ → Flight
  built : ℕ → List Advert → Flight
  decided written : List Advert → Flight
  dropped : Flight

-- The check of `announceGen`, which holds the lock, at a reading of the clock.
unfoldable pub decide : ℕ → ℕ → List Advert → Responder → Responder × Flight
decide now gen list m = (
  record m { last_sent = some now },
  if m.gone || not (m.gen == gen) then dropped else decided list,
)

-- A step of the announcement, or of another goroutine.
pub data LifeStep : Responder × Flight → Responder × Flight → Type 0 where
  numbers : (m : Responder) → LifeStep (m, asked) (m, numbered m.gen)
  builds : (m : Responder) (gen : ℕ) → LifeStep (m, numbered gen) (m, built gen m.services)
  decides :
      (now gen : ℕ) (list : List Advert) (m : Responder)
      → LifeStep (m, built gen list) (decide now gen list m)
  writes : (list : List Advert) (m : Responder) → LifeStep (m, decided list) (m, written list)
  withdraws : (m : Responder) (f : Flight) → LifeStep (m, f) (withdraw m, f)
  other :
      (m m' : Responder) (f : Flight)
      → m'.services ≡ m.services
      → m'.gen ≡ m.gen
      → m'.gone ≡ m.gone
      → LifeStep (m, f) (m', f)

-- A run, with the number of times that the adverts were changed in it.
pub data Life (begin : Responder × Flight) : ℕ → Responder × Flight → Type 0 where
  begins : Life begin 0 begin
  steps : {n : ℕ} {s s' : Responder × Flight} → Life begin n s → LifeStep s s' → Life begin n s'
  advertises :
      {n : ℕ} {m : Responder} {f : Flight} (list : List Advert)
      → Life begin n (m, f)
      → Life begin (suc n) (advertise list m, f)
