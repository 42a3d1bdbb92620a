-- ===== src/Mdns/Life/Sends.antt =====
-- internal/mdns/mdns.go, `announceOnce`: what an announcement writes was current when it passed its
-- check, and may be old when it is written.
use mathlib.Core.Path.{subst}
use overdub.Base.{
  ◌⊎◌, inl, inr, Bool-cases, ◌||◌, not, ◌==◌, suc, ℕ, List, ◌+◌, ◌≡◌, ◌<◌, refl, sym, ◌∙◌, false,
  arith,
}
use overdub.Mdns.{Advert, Responder}
use overdub.Mdns.Life.{
  generations, advertise, withdraw, Flight, asked, numbered, built, decided, written, writes,
  dropped, decide, LifeStep, numbers, builds, decides, withdraws, other, Life, begins, steps,
  advertises,
}
use overdub.Mdns.Life.Current.{decide-Current}

-- The announcement of `sent` in a run passed its check: at a responder that the run reached, that had
-- these adverts and was not withdrawn, and from which the run went on with `later` changes of the
-- adverts.
pub record Checked (begin : Responder × Flight) (n : ℕ) (s : Responder × Flight)
    (sent : List Advert) : Type 0 where
  pub earlier : ℕ
  pub later : ℕ
  pub checker : Responder
  pub now : ℕ
  pub gen : ℕ
  pub counted : earlier + later ≡ n
  pub reached : Life begin earlier (checker, built gen sent)
  pub current : checker.services ≡ sent
  pub present : checker.gone ≡ false
  pub went_on : Life (decide now gen sent checker) later s

Past : Responder × Flight → ℕ → Responder → Flight → Type 0
Past begin n m asked = Unit
Past begin n m (numbered gen) = Unit
Past begin n m (built gen list) = Unit
Past begin n m (decided list) = Checked begin n (m, decided list) list
Past begin n m (written list) = Checked begin n (m, written list) list
Past begin n m dropped = Unit

module _ {begin : Responder × Flight} {n : ℕ} where
  step-Checked :
      {s s' : Responder × Flight} {sent : List Advert}
      → LifeStep s s'
      → Checked begin n s sent
      → Checked begin n s' sent
  step-Checked step c = record {
    earlier = c.earlier;
    later = c.later;
    checker = c.checker;
    now = c.now;
    gen = c.gen;
    counted = c.counted;
    reached = c.reached;
    current = c.current;
    present = c.present;
    went_on = steps c.went_on step;
  }

  advertise-Checked :
      {m : Responder} {f : Flight} {sent : List Advert} (list : List Advert)
      → Checked begin n (m, f) sent
      → Checked begin (suc n) (advertise list m, f) sent
  advertise-Checked list c = record {
    earlier = c.earlier;
    later = suc c.later;
    checker = c.checker;
    now = c.now;
    gen = c.gen;
    counted = omega (arith, c.counted);
    reached = c.reached;
    current = c.current;
    present = c.present;
    went_on = advertises list c.went_on;
  }

-- A step of another goroutine.
other-Past :
    (begin : Responder × Flight) (n : ℕ) {m m' : Responder} (f : Flight)
    → LifeStep (m, f) (m', f)
    → Past begin n m f
    → Past begin n m' f
unfolding Past
other-Past begin n asked step p = tt
other-Past begin n (numbered gen) step p = tt
other-Past begin n (built gen list) step p = tt
other-Past begin n (decided list) step p = step-Checked step p
other-Past begin n (written list) step p = step-Checked step p
other-Past begin n dropped step p = tt

advertise-Past :
    (begin : Responder × Flight) (n : ℕ) (m : Responder) (f : Flight) (list : List Advert)
    → Past begin n m f
    → Past begin (suc n) (advertise list m) f
unfolding Past
advertise-Past begin n m asked list p = tt
advertise-Past begin n m (numbered gen) list p = tt
advertise-Past begin n m (built gen l) list p = tt
advertise-Past begin n m (decided l) list p = advertise-Checked list p
advertise-Past begin n m (written l) list p = advertise-Checked list p
advertise-Past begin n m dropped list p = tt

decide-Past :
    (m : Responder) (n now gen : ℕ) (m' : Responder) (list : List Advert)
    → m.gen < generations
    → n < generations
    → Life (m, asked) n (m', built gen list)
    → Past (m, asked) n (decide now gen list m').0 (decide now gen list m').1
unfolding Past
decide-Past m n now gen m' list small few life =
    elim (Bool-cases (m'.gone || not (m'.gen == gen))) [
      | inl stale ↦
          let out : (decide now gen list m').1 ≡ dropped = unfold decide in (rw stale refl) in
          subst (Past (m, asked) n (decide now gen list m').0) (sym out) tt
      | inr fresh ↦
          let out : (decide now gen list m').1 ≡ decided list = unfold decide in (rw fresh refl) in
          let (current, present) = decide-Current m n m' gen list small few life fresh in
          subst (Past (m, asked) n (decide now gen list m').0) (sym out) (record {
            earlier = n;
            later = 0;
            checker = m';
            now = now;
            gen = gen;
            counted = omega arith;
            reached = life;
            current = current;
            present = present;
            went_on =
                subst (λ f. Life (decide now gen list m') 0 ((decide now gen list m').0, f)) out
                  begins;
          })
    ]

Life-Past :
    (m : Responder) {n : ℕ} {s : Responder × Flight}
    → m.gen < generations
    → n < generations
    → Life (m, asked) n s
    → Past (m, asked) n s.0 s.1
unfolding Past
Life-Past m small few begins = tt
Life-Past m small few (steps before (numbers m')) = tt
Life-Past m small few (steps before (builds m' gen)) = tt
Life-Past m small few (steps {n = n} before (decides now gen list m')) =
    decide-Past m n now gen m' list small few before
Life-Past m small few (steps before (writes list m')) =
    step-Checked (writes list m') (Life-Past m small few before)
Life-Past m small few (steps before (withdraws m' f)) =
    other-Past _ _ f (withdraws m' f) (Life-Past m small few before)
Life-Past m small few (steps before (other m1 m2 f services gen gone)) =
    other-Past _ _ f (other m1 m2 f services gen gone) (Life-Past m small few before)
Life-Past m small few (advertises {f = f} list before) =
    advertise-Past _ _ _ f list (Life-Past m small (omega arith) before)

-- With no change of the adverts they stay as they are.
step_services : {s s' : Responder × Flight} → LifeStep s s' → s'.0.services ≡ s.0.services
unfolding decide withdraw
step_services (numbers m) = refl
step_services (builds m gen) = refl
step_services (decides now gen list m) = refl
step_services (writes list m) = refl
step_services (withdraws m f) = refl
step_services (other m m' f services gen gone) = services

unchanged :
    {begin s : Responder × Flight} {n : ℕ}
    → Life begin n s
    → (s.0.services ≡ begin.0.services) ⊎ (0 < n)
unchanged begins = inl refl
unchanged (steps before step) = elim (unchanged before) [
  | inl same ↦ inl (step_services step ∙ same)
  | inr more ↦ inr more
]
unchanged (advertises list before) = inr (omega arith)

-- However the other goroutines run, what an announcement writes passed its check earlier in the run, at
-- a moment at which the responder had these adverts and was not withdrawn, if its generation is a
-- uint64 and the adverts were changed less than 2^64 times since the announcement was begun. The write comes later and without the lock:
-- what it sends are the adverts of its own moment, or they were changed in that gap.
pub Life-Checked :
    (m : Responder) (n : ℕ) (m' : Responder) (sent : List Advert)
    → m.gen < generations
    → n < generations
    → Life (m, asked) n (m', written sent)
    → (c : Checked (m, asked) n (m', written sent) sent) × ((m'.services ≡ sent) ⊎ (0 < c.later))
unfolding Past
Life-Checked m n m' sent small few life =
    let c : Checked (m, asked) n (m', written sent) sent = Life-Past m small few life in
    (
      c,
      elim (unchanged c.went_on) [
        | inl same ↦ inl (same ∙ (unfold decide in c.current))
        | inr more ↦ inr more
      ],
    )
