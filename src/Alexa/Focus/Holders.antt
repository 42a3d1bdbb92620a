-- ===== src/Alexa/Focus/Holders.antt =====
-- internal/alexa/focus.go: the map of holders, by what a lookup finds in it.
use overdub.Base.{
  ℕ, Option, none, some, [], ◌∷◌, List, ltb, if◌then◌else◌, ◌≡◌, refl, if_case, arith,
}
use overdub.Base.Text.{bytes_eq, bytes_eq_iff, bytes_eq_refl}
use overdub.Alexa.Focus.{FocusHolder, Holding, delete, put, unexpired}

unfoldable pub holder_of : List ℕ → Holding → Option FocusHolder
holder_of client [] = none
holder_of client ((k, h) ∷ m) =
    let rest = holder_of client m in if bytes_eq k client then some h else rest

-- The clients of the map are all different.
unfoldable pub IsDistinct : Holding → Type 0
unfolding holder_of
IsDistinct [] = Unit
IsDistinct ((k, h) ∷ m) = (holder_of k m ≡ none) × IsDistinct m

-- What an expiry leaves of a holder.
unfoldable pub keep : ℕ → Option FocusHolder → Option FocusHolder
keep now none = none
keep now (some h) = if ltb h.until now then none else some h

pub holder_of-delete :
    (client c : List ℕ) (m : Holding)
    → holder_of c (delete client m) ≡ (if bytes_eq client c then none else holder_of c m)
unfolding holder_of delete
holder_of-delete client c [] = ground arith
holder_of-delete client c ((k, h) ∷ m) = ground (
  arith,
  holder_of-delete client c m,
  (bytes_eq_iff k client).0,
  (bytes_eq_iff client c).0,
  (bytes_eq_iff client c).1,
)

pub holder_of-put :
    (client : List ℕ) (h : FocusHolder) (c : List ℕ) (m : Holding)
    → holder_of c (put client h m) ≡ (if bytes_eq client c then some h else holder_of c m)
unfolding holder_of put
holder_of-put client h c m = ground (arith, holder_of-delete client c m)

pub delete-IsDistinct :
    (client : List ℕ) (m : Holding) → IsDistinct m → IsDistinct (delete client m)
unfolding IsDistinct delete
delete-IsDistinct client [] d = tt
delete-IsDistinct client ((k, h) ∷ m) d =
    if_case IsDistinct (bytes_eq k client) (delete client m) ((k, h) ∷ delete client m)
      (λ _. delete-IsDistinct client m d.1)
      (λ _. (ground (arith, holder_of-delete client k m, d.0), delete-IsDistinct client m d.1))

pub put-IsDistinct :
    (client : List ℕ) (h : FocusHolder) (m : Holding) → IsDistinct m → IsDistinct (put client h m)
unfolding IsDistinct put
put-IsDistinct client h m d = (
  ground (arith, holder_of-delete client client m, bytes_eq_refl client),
  delete-IsDistinct client m d,
)

pub holder_of-unexpired :
    (now : ℕ) (c : List ℕ) (m : Holding)
    → IsDistinct m
    → holder_of c (unexpired now m) ≡ keep now (holder_of c m)
unfolding IsDistinct holder_of unexpired keep
holder_of-unexpired now c [] d = refl
holder_of-unexpired now c ((k, h) ∷ m) d =
    let rest = holder_of-unexpired now c m d.1 in
    ground (arith, rest, d.0, (bytes_eq_iff k c).0, holder_of-unexpired now k m d.1)

pub unexpired-IsDistinct : (now : ℕ) (m : Holding) → IsDistinct m → IsDistinct (unexpired now m)
unfolding IsDistinct unexpired keep
unexpired-IsDistinct now [] d = tt
unexpired-IsDistinct now ((k, h) ∷ m) d =
    if_case IsDistinct (ltb h.until now) (unexpired now m) ((k, h) ∷ unexpired now m)
      (λ _. unexpired-IsDistinct now m d.1)
      (λ _. (ground (arith, holder_of-unexpired now k m d.1, d.0), unexpired-IsDistinct now m d.1))
