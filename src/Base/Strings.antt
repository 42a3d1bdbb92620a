-- ===== src/Base/Strings.antt =====
-- What the code uses of Go's `strings` package, on texts as lists of bytes. Spaces and letters are
-- those of ASCII.
use Prim.Native.Nat.{ℕ, ◌+◌}
use mathlib.Core.Path.{◌≡◌, refl}
use mathlib.Core.Bool.{Bool, true, false, ◌&&◌, ◌||◌}
use mathlib.Core.Option.{Option, none, some}
use mathlib.Core.List.{List, [], ◌∷◌, ◌++◌}
use native.Mathlib.Omega.{arith}
use overdub.Base.Tests.{leb, ◌==◌, if◌then◌else◌}
use overdub.Base.Text.{bytes_eq}

-- What follows a prefix: `HasPrefix`, with the rest.
unfoldable pub after_prefix : List ℕ → List ℕ → Option (List ℕ)
after_prefix [] s = some s
after_prefix (p ∷ ps) [] = none
after_prefix (p ∷ ps) (c ∷ cs) = if p == c then after_prefix ps cs else none

unfoldable pub has_prefix : List ℕ → List ℕ → Bool
unfolding after_prefix
has_prefix p s = elim (after_prefix p s) [ none ↦ false | some rest ↦ true ]

-- `Index`: what stands before the first occurrence of a text, and what stands behind it.
unfoldable pub split_first : List ℕ → List ℕ → Option (List ℕ × List ℕ)
split_first sub [] = elim (after_prefix sub []) [ none ↦ none | some rest ↦ some ([], rest) ]
split_first sub (c ∷ cs) = elim (after_prefix sub (c ∷ cs)) [
  | some rest ↦ some ([], rest)
  | none ↦ elim (split_first sub cs) [ none ↦ none | some (a, b) ↦ some (c ∷ a, b) ]
]

-- `LastIndex`, likewise.
unfoldable pub split_last : List ℕ → List ℕ → Option (List ℕ × List ℕ)
split_last sub [] = elim (after_prefix sub []) [ none ↦ none | some rest ↦ some ([], rest) ]
split_last sub (c ∷ cs) = elim (split_last sub cs) [
  | some (a, b) ↦ some (c ∷ a, b)
  | none ↦ elim (after_prefix sub (c ∷ cs)) [ none ↦ none | some rest ↦ some ([], rest) ]
]

-- `Contains`
unfoldable pub has : List ℕ → List ℕ → Bool
unfolding split_first
has s sub = elim (split_first sub s) [ none ↦ false | some parts ↦ true ]

-- `IndexByte`, as a test.
unfoldable pub has_byte : List ℕ → ℕ → Bool
has_byte [] b = false
has_byte (c ∷ cs) b = c == b || has_byte cs b

abbrev pub is_space : ℕ → Bool
is_space c = c == 32 || (leb 9 c && leb c 13)

unfoldable pub trim_left : List ℕ → List ℕ
trim_left [] = []
trim_left (c ∷ cs) = let rest = trim_left cs in if is_space c then rest else c ∷ cs

unfoldable pub trim_right : List ℕ → List ℕ
trim_right [] = []
trim_right (c ∷ cs) = elim (trim_right cs) [
  | [] ↦ if is_space c then [] else c ∷ []
  | d ∷ ds ↦ c ∷ d ∷ ds
]

-- `TrimSpace`
unfoldable pub trim : List ℕ → List ℕ
unfolding trim_left trim_right
trim s = trim_right (trim_left s)

-- `ToLower`
unfoldable pub lower : List ℕ → List ℕ
lower [] = []
lower (c ∷ cs) = (if leb 65 c && leb c 90 then c + 32 else c) ∷ lower cs

-- `EqualFold`
unfoldable pub equal_fold : List ℕ → List ℕ → Bool
unfolding lower
equal_fold s t = bytes_eq (lower s) (lower t)

-- `Split` on one byte: the first part, and the parts after it.
unfoldable pub split_parts : ℕ → List ℕ → List ℕ × List (List ℕ)
split_parts b [] = ([], [])
split_parts b (c ∷ cs) =
    let (part, parts) = split_parts b cs in if c == b then ([], part ∷ parts) else (c ∷ part, parts)

unfoldable pub split_on : ℕ → List ℕ → List (List ℕ)
unfolding split_parts
split_on b s = let (part, parts) = split_parts b s in part ∷ parts

pub split_parts_one : (b : ℕ) (s : List ℕ) → has_byte s b ≡ false → split_parts b s ≡ (s, [])
unfolding split_parts has_byte
split_parts_one b [] e = refl
split_parts_one b (c ∷ cs) e = ground (arith, split_parts_one b cs)

pub split_parts-append :
    (b : ℕ) (l s : List ℕ) → has_byte l b ≡ false → split_parts b (l ++ (b ∷ s)) ≡ (l, split_on b s)
unfolding split_parts has_byte split_on
split_parts-append b [] s e = ground arith
split_parts-append b (c ∷ cs) s e = ground (arith, split_parts-append b cs s)
