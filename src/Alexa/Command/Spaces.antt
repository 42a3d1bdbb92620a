-- ===== src/Alexa/Command/Spaces.antt =====
-- internal/alexa/command.go, `tokenShaped`: the spaces that no token has.
use overdub.Base.{
  ℕ, true, false, none, some, List, [], ◌∷◌, ◌++◌, ◌≡◌, refl, ap, arith, Option-cases, All, inl,
  inr, length, ◌≤◌,
}
use overdub.Base.Strings.{after_prefix, split_first, has}
use overdub.Alexa.Command.{starts_space, no_space, token_shaped}

-- The white space of Unicode, as UTF-8.
abbrev pub spaces : List (List ℕ)
spaces =
    (9 ∷ [])
    ∷ (10 ∷ [])
    ∷ (11 ∷ [])
    ∷ (12 ∷ [])
    ∷ (13 ∷ [])
    ∷ (32 ∷ [])
    ∷ (194 ∷ 133 ∷ [])
    ∷ (194 ∷ 160 ∷ [])
    ∷ (225 ∷ 154 ∷ 128 ∷ [])
    ∷ (226 ∷ 128 ∷ 128 ∷ [])
    ∷ (226 ∷ 128 ∷ 129 ∷ [])
    ∷ (226 ∷ 128 ∷ 130 ∷ [])
    ∷ (226 ∷ 128 ∷ 131 ∷ [])
    ∷ (226 ∷ 128 ∷ 132 ∷ [])
    ∷ (226 ∷ 128 ∷ 133 ∷ [])
    ∷ (226 ∷ 128 ∷ 134 ∷ [])
    ∷ (226 ∷ 128 ∷ 135 ∷ [])
    ∷ (226 ∷ 128 ∷ 136 ∷ [])
    ∷ (226 ∷ 128 ∷ 137 ∷ [])
    ∷ (226 ∷ 128 ∷ 138 ∷ [])
    ∷ (226 ∷ 128 ∷ 168 ∷ [])
    ∷ (226 ∷ 128 ∷ 169 ∷ [])
    ∷ (226 ∷ 128 ∷ 175 ∷ [])
    ∷ (226 ∷ 129 ∷ 159 ∷ [])
    ∷ (227 ∷ 128 ∷ 128 ∷ [])
    ∷ []

-- A token's length, and no white space anywhere.
unfoldable pub IsToken : List ℕ → Type 0
IsToken token = (16 ≤ length token) × (length token ≤ 4096) × All (λ s. has token s ≡ false) spaces

-- A text that a rune of white space begins.
abbrev Begins : List ℕ → Type 0
Begins s = (rest : List ℕ) → starts_space (s ++ rest) ≡ true

prefix_of : (s t rest : List ℕ) → after_prefix s t ≡ some rest → t ≡ s ++ rest
unfolding after_prefix
prefix_of [] t rest e = ground arith
prefix_of (p ∷ ps) [] rest e = ground arith
prefix_of (p ∷ ps) (c ∷ cs) rest e = ground (arith, prefix_of ps cs rest)

not_here : (s t : List ℕ) → Begins s → starts_space t ≡ false → after_prefix s t ≡ none
not_here s t space free = elim (Option-cases (after_prefix s t)) [
  | inl e ↦ e
  | inr (rest, e) ↦ absurd (ground (arith, space rest, ap starts_space (prefix_of s t rest e)))
]

nowhere : (s t : List ℕ) → Begins s → no_space t ≡ true → split_first s t ≡ none
unfolding no_space split_first
nowhere s [] space free = ground (
  arith,
  not_here s [] space (let e : starts_space [] ≡ false = unfold starts_space in refl in e),
)
nowhere s (c ∷ cs) space free =
    let here : starts_space (c ∷ cs) ≡ false = ground arith in
    ground (arith, not_here s (c ∷ cs) space here, nowhere s cs space)

has_no : (s t : List ℕ) → no_space t ≡ true → Begins s → has t s ≡ false
unfolding has
has_no s t free space = ground (arith, nowhere s t space free)

All-has_no :
    (t : List ℕ) (l : List (List ℕ))
    → no_space t ≡ true
    → All Begins l
    → All (λ s. has t s ≡ false) l
All-has_no t [] free h = tt
All-has_no t (s ∷ l) free (space, rest) = (has_no s t free space, All-has_no t l free rest)

spaces-Begins : All Begins spaces
unfolding starts_space
spaces-Begins = (
  (λ _. refl),
  (
    (λ _. refl),
    (
      (λ _. refl),
      (
        (λ _. refl),
        (
          (λ _. refl),
          (
            (λ _. refl),
            (
              (λ _. refl),
              (
                (λ _. refl),
                (
                  (λ _. refl),
                  (
                    (λ _. refl),
                    (
                      (λ _. refl),
                      (
                        (λ _. refl),
                        (
                          (λ _. refl),
                          (
                            (λ _. refl),
                            (
                              (λ _. refl),
                              (
                                (λ _. refl),
                                (
                                  (λ _. refl),
                                  (
                                    (λ _. refl),
                                    (
                                      (λ _. refl),
                                      (
                                        (λ _. refl),
                                        (
                                          (λ _. refl),
                                          (
                                            (λ _. refl),
                                            ((λ _. refl), ((λ _. refl), ((λ _. refl), tt))),
                                          ),
                                        ),
                                      ),
                                    ),
                                  ),
                                ),
                              ),
                            ),
                          ),
                        ),
                      ),
                    ),
                  ),
                ),
              ),
            ),
          ),
        ),
      ),
    ),
  ),
)

pub token_shaped-IsToken : (token : List ℕ) → token_shaped token ≡ true → IsToken token
unfolding token_shaped IsToken
token_shaped-IsToken token e =
    (ground arith, ground arith, All-has_no token spaces (ground arith) spaces-Begins)
