-- ===== src/Mdns/Names/Labels.antt =====
-- internal/mdns/mdns.go: the names that are valid, by their labels.
use overdub.Base.{
  ℕ, false, none, some, List, [], ◌∷◌, ◌++◌, ◌==◌, Option-cases, inl, inr, length, ◌≡◌, ◌≤◌, ◌↔◌,
  refl, ◌∙◌, arith, if_case, sym,
}
use overdub.Base.Strings.{split_on, split_parts, has_byte, split_parts_one, split_parts-append}
use overdub.Mdns.Names.{drop_dot, check_labels, valid_name}

-- The labels, each with a dot behind it.
unfoldable pub dotted : List (List ℕ) → List ℕ
dotted [] = []
dotted (l ∷ ls) = l ++ (46 ∷ dotted ls)

-- Labels of 1 to 63 bytes, without a dot.
unfoldable pub AreLabels : List (List ℕ) → Type 0
AreLabels [] = Unit
AreLabels (l ∷ ls) = (1 ≤ length l) × (length l ≤ 63) × (has_byte l 46 ≡ false) × AreLabels ls

-- At least one label, in at most 255 bytes.
unfoldable pub IsName : List ℕ → Type 0
unfolding dotted AreLabels
IsName name =
    (l : List ℕ) × (ls : List (List ℕ)) × (name ≡ dotted (l ∷ ls))
    × AreLabels (l ∷ ls)
    × (length name ≤ 255)

dotted-split_parts :
    (s : List ℕ) → let (l, ls) = split_parts 46 s in dotted (l ∷ ls) ≡ s ++ (46 ∷ [])
unfolding dotted split_parts
dotted-split_parts [] = refl
dotted-split_parts (c ∷ cs) = ground (arith, dotted-split_parts cs)

-- No part has a dot.
unfoldable NoDots : List (List ℕ) → Type 0
NoDots [] = Unit
NoDots (l ∷ ls) = (has_byte l 46 ≡ false) × NoDots ls

split_parts-NoDots : (s : List ℕ) → let (l, ls) = split_parts 46 s in NoDots (l ∷ ls)
unfolding NoDots split_parts has_byte
split_parts-NoDots [] = (refl, tt)
split_parts-NoDots (c ∷ cs) =
    if_case {A = List ℕ × List (List ℕ)} (λ x. NoDots (x.0 ∷ x.1)) (c == 46)
      ([], (split_parts 46 cs).0 ∷ (split_parts 46 cs).1)
      (c ∷ (split_parts 46 cs).0, (split_parts 46 cs).1) (λ _. (refl, split_parts-NoDots cs))
      (λ e. (ground (arith, (split_parts-NoDots cs).0), (split_parts-NoDots cs).1))

check_labels-AreLabels : (ls : List (List ℕ)) → NoDots ls → check_labels ls ≡ none → AreLabels ls
unfolding AreLabels NoDots check_labels
check_labels-AreLabels [] d e = tt
check_labels-AreLabels ([] ∷ ls) d e = ground arith
check_labels-AreLabels ((c ∷ cs) ∷ ls) d e =
    (omega arith, ground arith, d.0, check_labels-AreLabels ls d.1 (ground arith))

drop_dot-some : (name front : List ℕ) → drop_dot name ≡ some front → name ≡ front ++ (46 ∷ [])
unfolding drop_dot
drop_dot-some [] front e = ground arith
drop_dot-some (c ∷ []) front e = ground arith
drop_dot-some (c ∷ d ∷ cs) front e = elim (Option-cases (drop_dot (d ∷ cs))) [
  | inl n ↦ ground arith
  | inr (f, h) ↦ ground (arith, drop_dot-some (d ∷ cs) f h)
]

drop_dot-append : (front : List ℕ) → drop_dot (front ++ (46 ∷ [])) ≡ some front
unfolding drop_dot
drop_dot-append [] = refl
drop_dot-append (c ∷ []) = refl
drop_dot-append (c ∷ d ∷ cs) = ground (arith, drop_dot-append (d ∷ cs))

AreLabels-check_labels : (ls : List (List ℕ)) → AreLabels ls → check_labels ls ≡ none
unfolding AreLabels check_labels
AreLabels-check_labels [] a = refl
AreLabels-check_labels ([] ∷ ls) a = ground arith
AreLabels-check_labels ((c ∷ cs) ∷ ls) a = ground (arith, AreLabels-check_labels ls a.3)

append_append : (a b c : List ℕ) → a ++ (b ++ c) ≡ (a ++ b) ++ c
append_append [] b c = refl
append_append (x ∷ xs) b c = λ i. x ∷ append_append xs b c i

-- The front of a dotted name, which splits into the labels.
fronts :
    (l : List ℕ) (ls : List (List ℕ))
    → AreLabels (l ∷ ls)
    → (front : List ℕ) × (dotted (l ∷ ls) ≡ front ++ (46 ∷ [])) × (split_parts 46 front ≡ (l, ls))
unfolding AreLabels dotted split_on
fronts l [] a = (l, refl, split_parts_one 46 l a.2)
fronts l (m ∷ ls) a =
    let (front, e, s) = fronts m ls a.3 in
    (
      l ++ (46 ∷ front),
      (λ i. l ++ (46 ∷ e i)) ∙ append_append l (46 ∷ front) (46 ∷ []),
      ground (arith, split_parts-append 46 l front),
    )

-- A name is valid just when it is a row of labels, each with a dot behind it: at least one label, of
-- 1 to 63 bytes each, in at most 255 bytes.
pub valid_name_iff : (name : List ℕ) → (valid_name name ≡ none) ↔ IsName name
unfolding valid_name IsName split_on
valid_name_iff name = (
  (λ e. elim (Option-cases (drop_dot name)) [
    | inl n ↦ ground arith
    | inr (front, f) ↦
        let (l, ls) = split_parts 46 front in
        let ends : name ≡ front ++ (46 ∷ []) = drop_dot-some name front f in
        (
          l,
          ls,
          ends ∙ sym (dotted-split_parts front),
          check_labels-AreLabels (l ∷ ls) (split_parts-NoDots front) (ground arith),
          ground arith,
        )
  ]),
  (λ (l, ls, e, a, fits).
      let (front, f, s) = fronts l ls a in
      let drops : drop_dot name ≡ some front =
        (λ i. drop_dot ((e ∙ f) i)) ∙ drop_dot-append front in
      ground (arith, AreLabels-check_labels (l ∷ ls) a)),
)
