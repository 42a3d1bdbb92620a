-- ===== src/Alexa/Focus/Levels.antt =====
-- internal/alexa/focus.go: the level the stream is turned down to.
use overdub.Base.{
  ℕ, Option, none, some, List, [], ◌∷◌, ◌≡◌, ◌≤◌, refl, ◌⊎◌, inl, inr, min, arith, ◌∙◌,
}
use overdub.Base.Text.{bytes_eq_iff, bytes_eq_refl}
use overdub.Alexa.Focus.{FocusHolder, Holding, percent_for, level_of}
use overdub.Alexa.Focus.Holders.{holder_of, IsDistinct}

-- The percent that a client's hold asks for; one that holds nothing asks for the full volume.
unfoldable pub owed : Option FocusHolder → ℕ
unfolding percent_for
owed none = 100
owed (some h) = percent_for h.req

-- The least percent that a client asks for, at most the full one.
unfoldable pub IsLevel : (List ℕ → Option FocusHolder) → ℕ → Type 0
IsLevel held n =
    (n ≤ 100)
    × ((c : List ℕ) → n ≤ owed (held c))
    × ((n ≡ 100) ⊎ ((c : List ℕ) × (n ≡ owed (held c))))

pub percent_for-bound : (req : ℕ) → (percent_for req ≤ 100) × (10 ≤ percent_for req)
unfolding percent_for
percent_for-bound req = ground arith

pub level_of-bound : (m : Holding) → (level_of m ≤ 100) × (10 ≤ level_of m)
unfolding level_of
level_of-bound [] = ground arith
level_of-bound ((k, h) ∷ m) = ground (arith, level_of-bound m, percent_for-bound h.req)

level_of_le : (c : List ℕ) (m : Holding) → level_of m ≤ owed (holder_of c m)
unfolding level_of holder_of owed
level_of_le c [] = ground arith
level_of_le c ((k, h) ∷ m) = ground (arith, level_of_le c m)

holder_of_there :
    (c k : List ℕ) (h : FocusHolder) (m : Holding)
    → holder_of k m ≡ none
    → level_of m ≡ owed (holder_of c m)
    → (level_of m ≡ 100) ⊎ (level_of m ≡ owed (holder_of c ((k, h) ∷ m)))
unfolding holder_of owed
holder_of_there c k h m d e = ground (arith, (bytes_eq_iff k c).0)

min-cases : (a b : ℕ) → (min a b ≡ a) ⊎ (min a b ≡ b)
min-cases a b = omega arith

holder_of_here :
    (k : List ℕ) (h : FocusHolder) (m : Holding)
    → percent_for h.req ≡ owed (holder_of k ((k, h) ∷ m))
unfolding holder_of owed
holder_of_here k h m = ground (arith, bytes_eq_refl k)

level_of_held :
    (m : Holding)
    → IsDistinct m
    → (level_of m ≡ 100) ⊎ ((c : List ℕ) × (level_of m ≡ owed (holder_of c m)))
unfolding level_of IsDistinct
level_of_held [] d = inl refl
level_of_held ((k, h) ∷ m) d = elim (min-cases (level_of m) (percent_for h.req)) [
  | inr e ↦ inr (k, e ∙ holder_of_here k h m)
  | inl e ↦ elim (level_of_held m d.1) [
    | inl full ↦ inl (e ∙ full)
    | inr (c, asked) ↦ elim (holder_of_there c k h m d.0 asked) [
      | inl full ↦ inl (e ∙ full)
      | inr there ↦ inr (c, e ∙ there)
    ]
  ]
]

pub level_of-IsLevel : (m : Holding) → IsDistinct m → IsLevel (λ c. holder_of c m) (level_of m)
unfolding IsLevel
level_of-IsLevel m d = ((level_of-bound m).0, λ c. level_of_le c m, level_of_held m d)
