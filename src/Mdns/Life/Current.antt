-- ===== src/Mdns/Life/Current.antt =====
-- internal/mdns/mdns.go: an announcement that passes its check is current there.
use mathlib.Core.Path.{subst}
use overdub.Base.{
  ◌⊎◌, inl, inr, if_case, ◌||◌, not, ◌==◌, suc, ℕ, List, ◌+◌, ◌%◌, ◌≡◌, ◌≤◌, ◌<◌, refl, sym, ◌∙◌,
  false, arith,
}
use overdub.Mdns.{Advert, Responder}
use overdub.Mdns.Life.{
  generations, advertise, withdraw, Flight, asked, numbered, built, decided, written, writes,
  dropped, decide, LifeStep, numbers, builds, decides, withdraws, other, Life, begins, steps,
  advertises,
}

-- The generation an announcement read is one of those since the start, and what it built from an
-- earlier one may be old.
Flies : ℕ → ℕ → List Advert → Flight → Type 0
Flies first n services asked = Unit
Flies first n services (numbered gen) = (k : ℕ) × (k ≤ n) × (gen ≡ (first + k) % generations)
Flies first n services (built gen list) =
    (k : ℕ) × (k ≤ n) × (gen ≡ (first + k) % generations) × ((k < n) ⊎ (list ≡ services))
Flies first n services (decided list) = Unit
Flies first n services (written list) = Unit
Flies first n services dropped = Unit

Tracks : ℕ → ℕ → Responder × Flight → Type 0
unfolding Flies
Tracks first n (m, f) = (m.gen ≡ (first + n) % generations) × Flies first n m.services f

later_gen :
    (first n gen : ℕ)
    → gen ≡ (first + n) % generations
    → (gen + 1) % generations ≡ (first + suc n) % generations
later_gen first n gen e = omega arith

later-Flies :
    (first n : ℕ) (old new : List Advert) (f : Flight)
    → Flies first n old f
    → Flies first (suc n) new f
unfolding Flies
later-Flies first n old new asked t = tt
later-Flies first n old new (numbered gen) (k, le, e) = (k, omega arith, e)
later-Flies first n old new (built gen list) (k, le, e, kept) =
    (k, omega arith, e, inl (omega arith))
later-Flies first n old new (decided list) t = tt
later-Flies first n old new (written list) t = tt
later-Flies first n old new dropped t = tt

decide-Flies :
    (first n now gen : ℕ) (list services : List Advert) (m : Responder)
    → Flies first n services (decide now gen list m).1
unfolding Flies decide
decide-Flies first n now gen list services m =
    if_case (Flies first n services) (m.gone || not (m.gen == gen)) dropped (decided list) (λ _. tt)
      (λ _. tt)

step-Tracks :
    (first n : ℕ) {s s' : Responder × Flight} → LifeStep s s' → Tracks first n s → Tracks first n s'
unfolding Tracks Flies decide withdraw
step-Tracks first n (numbers m) (e, t) = (e, (n, omega arith, e))
step-Tracks first n (builds m gen) (e, (k, le, g)) = (e, (k, le, g, inr refl))
step-Tracks first n (decides now gen list m) (e, t) =
    (e, decide-Flies first n now gen list m.services m)
step-Tracks first n (writes list m) (e, t) = (e, tt)
step-Tracks first n (withdraws m f) (e, t) = (e, t)
step-Tracks first n (other m m' f services same_gen gone) (e, t) =
    (same_gen ∙ e, subst (λ l. Flies first n l f) (sym services) t)

Life-Tracks :
    (m : Responder) {n : ℕ} {s : Responder × Flight}
    → m.gen < generations
    → Life (m, asked) n s
    → Tracks m.gen n s
unfolding Tracks Flies advertise
Life-Tracks m small begins = (omega arith, tt)
Life-Tracks m small (steps before step) = step-Tracks m.gen _ step (Life-Tracks m small before)
Life-Tracks m small (advertises {n = n} {m = m'} {f = f} list before) =
    let (e, t) = Life-Tracks m small before in
    (later_gen m.gen n m'.gen e, later-Flies m.gen n m'.services list f t)

same_gen :
    (first k n : ℕ)
    → k ≤ n
    → n < generations
    → (first + k) % generations ≡ (first + n) % generations
    → k ≡ n
same_gen first k n le small e = omega arith

-- At the check: an announcement that passes it is of the adverts that the responder has there.
pub decide-Current :
    (m : Responder) (n : ℕ) (m' : Responder) (gen : ℕ) (list : List Advert)
    → m.gen < generations
    → n < generations
    → Life (m, asked) n (m', built gen list)
    → (m'.gone || not (m'.gen == gen)) ≡ false
    → (m'.services ≡ list) × (m'.gone ≡ false)
unfolding Tracks Flies
decide-Current m n m' gen list small few life e =
    let (g, (k, le, h, kept)) = Life-Tracks m small life in
    let same : k ≡ n → gen ≡ m'.gen = λ q. h ∙ (λ i. (m.gen + q i) % generations) ∙ sym g in
    ground (arith, same_gen m.gen k n le few)
