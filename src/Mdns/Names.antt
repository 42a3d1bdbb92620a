-- ===== src/Mdns/Names.antt =====
-- internal/mdns/mdns.go: the names and the adverts that a responder can carry.
pub mod Labels
pub mod Distinct
use overdub.Base.{
  ℕ, Bool, true, false, Option, none, some, List, [], ◌∷◌, ◌||◌, ◌==◌, ltb, if◌then◌else◌, length,
}
use overdub.Base.Text.{contains}
use overdub.Base.Strings.{split_on, lower}
use overdub.Mdns.{Advert, max_name, max_label, max_txt_string, instance_for, host_name}

pub data NameError : Type 0 where
  no_dot too_long empty_label long_label : NameError

-- The name without its last dot, if it ends in one.
unfoldable pub drop_dot : List ℕ → Option (List ℕ)
drop_dot [] = none
drop_dot (c ∷ []) = if c == 46 then some [] else none
drop_dot (c ∷ d ∷ cs) = elim (drop_dot (d ∷ cs)) [ none ↦ none | some front ↦ some (c ∷ front) ]

unfoldable pub check_label : List ℕ → Option NameError
check_label [] = some empty_label
check_label (c ∷ cs) = if ltb max_label (length (c ∷ cs)) then some long_label else none

-- The first error of a list of checks.
unfoldable pub first_of {ℓ} : {E : Type ℓ} → Option E → Option E → Option E
first_of (some e) rest = some e
first_of none rest = rest

unfoldable pub check_labels : List (List ℕ) → Option NameError
unfolding check_label first_of
check_labels [] = none
check_labels (l ∷ ls) = first_of (check_label l) (check_labels ls)

unfoldable pub valid_name : List ℕ → Option NameError
unfolding check_labels drop_dot
valid_name name = elim (drop_dot name) [
  | none ↦ some no_dot
  | some front ↦
      if ltb max_name (length name) then some too_long else check_labels (split_on 46 front)
]

-- `errNoRecords`, `errUnbuildable` with the name at fault, and an advert that is carried twice.
pub data AdvertError : Type 0 where
  no_records : AdvertError
  unbuildable : NameError → AdvertError
  twice : AdvertError
  long_record : AdvertError
  unpacked : AdvertError

unfoldable pub is_none : {A : Type 0} → List A → Bool
is_none [] = true
is_none (a ∷ rest) = false

unfoldable pub check_given : List Advert → Option AdvertError
unfolding is_none
check_given [] = none
check_given (a ∷ rest) =
    let later = check_given rest in
    if is_none a.service || is_none a.records || a.port == 0 then some no_records else later

unfoldable pub check_texts : List (List ℕ) → Option AdvertError
check_texts [] = none
check_texts (r ∷ rs) =
    let rest = check_texts rs in if ltb max_txt_string (length r) then some long_record else rest

unfoldable pub as_unbuildable : Option NameError → Option AdvertError
as_unbuildable none = none
as_unbuildable (some e) = some (unbuildable e)

-- The second loop of `checkAdverts`, with the services seen before.
unfoldable pub check_each : List ℕ → List (List ℕ) → List Advert → Option AdvertError
unfolding first_of as_unbuildable valid_name check_texts
check_each name seen [] = none
check_each name seen (a ∷ rest) = first_of (as_unbuildable (valid_name a.service)) (
    first_of (as_unbuildable (valid_name (instance_for name a.service))) (
      first_of (if contains seen (lower a.service) then some twice else none)
        (first_of (check_texts a.records) (check_each name (lower a.service ∷ seen) rest))))
