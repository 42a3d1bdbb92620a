-- ===== src/Sendspin/Activate.antt =====
-- internal/sendspin/hello.go: what a server may do with a session, by the key that it proved.
-- A text is the list of its bytes. `offered` is the map of pairing methods, of which only the keys
-- are read.
pub mod Access
mod Examples
use overdub.Base.{
  ℕ, ◌<◌, Bool, true, false, Option, none, some, List, [], ◌∷◌, ◌++◌, ◌&&◌, ◌||◌, not, length, ltb,
  ◌==◌, if◌then◌else◌,
}
use overdub.Base.Text.{codes, bytes_eq, contains}

-- The category of the key that the handshake matched.
pub data Category : Type 0 where
  long_term pairing_key sentinel : Category

abbrev pub activity_playback : List ℕ
activity_playback = codes "playback"

abbrev pub activity_pairing : List ℕ
activity_pairing = codes "pairing"

abbrev pub role_player_v1 : List ℕ
role_player_v1 = codes "player@v1"

abbrev pub method_pairing_psk : List ℕ
method_pairing_psk = codes "pairing_psk"

unfoldable pub allowed_activity_sets : Category → Bool → List (List (List ℕ))
allowed_activity_sets long_term unpaired = [] ∷ (activity_playback ∷ []) ∷ []
allowed_activity_sets pairing_key unpaired = [] ∷ (activity_pairing ∷ []) ∷ []
allowed_activity_sets sentinel unpaired =
    [] ∷ (activity_pairing ∷ []) ∷ (if unpaired then (activity_playback ∷ []) ∷ [] else [])

-- `slices.Sort` on texts, which it orders byte by byte.
unfoldable pub lex_le : List ℕ → List ℕ → Bool
lex_le [] ys = true
lex_le (x ∷ xs) [] = false
lex_le (x ∷ xs) (y ∷ ys) = ltb x y || (x == y && lex_le xs ys)

unfoldable pub insert_sorted : List ℕ → List (List ℕ) → List (List ℕ)
insert_sorted s [] = s ∷ []
insert_sorted s (t ∷ ts) = if lex_le s t then s ∷ t ∷ ts else t ∷ insert_sorted s ts

unfoldable pub sort : List (List ℕ) → List (List ℕ)
sort [] = []
sort (s ∷ ss) = insert_sorted s (sort ss)

unfoldable pub texts_eq : List (List ℕ) → List (List ℕ) → Bool
texts_eq [] [] = true
texts_eq [] (y ∷ ys) = false
texts_eq (x ∷ xs) [] = false
texts_eq (x ∷ xs) (y ∷ ys) = bytes_eq x y && texts_eq xs ys

unfoldable pub same_set : List (List ℕ) → List (List ℕ) → Bool
same_set a b = if not (length a == length b) then false else texts_eq (sort a) (sort b)

unfoldable pub any_same_set : List (List (List ℕ)) → List (List ℕ) → Bool
any_same_set [] activities = false
any_same_set (set ∷ sets) activities = same_set set activities || any_same_set sets activities

unfoldable pub activities_allowed : Category → Bool → List (List ℕ) → Bool
activities_allowed matched unpaired activities =
    any_same_set (allowed_activity_sets matched unpaired) activities

unfoldable pub playback_capable : Category → Bool → List (List ℕ) → Bool
playback_capable matched unpaired activities = activities_allowed matched unpaired (
    if contains activities activity_playback
    then activities
    else activities ++ (activity_playback ∷ []))

-- `server/activate`, decoded. `pairing` is the method that it names.
pub record ServerActivate : Type 0 where
  pub activities : List (List ℕ)
  pub active_roles : Option (List (List ℕ))
  pub pairing : Option (List ℕ)

pub data Goodbye : Type 0 where
  pairing_required unauthorized : Goodbye

-- A `decision` that is not OK carries a goodbye or the abort of the pairing.
pub data Decision : Type 0 where
  goodbye : Goodbye → Decision
  pair_abort : Decision
  roles_are : List (List ℕ) → Decision

-- The loop of `keepSupported`, which `out` is collected in.
unfoldable pub keep_supported_from : List (List ℕ) → List (List ℕ) → List (List ℕ)
keep_supported_from out [] = out
keep_supported_from out (r ∷ rs) =
    keep_supported_from
      (if contains (role_player_v1 ∷ []) r && not (contains out r) then out ++ (r ∷ []) else out) rs

unfoldable pub keep_supported : List (List ℕ) → List (List ℕ)
keep_supported roles = keep_supported_from [] roles

abbrev is_pairing_key : Category → Bool
is_pairing_key pairing_key = true
is_pairing_key _ = false

abbrev is_sentinel : Category → Bool
is_sentinel sentinel = true
is_sentinel _ = false

abbrev is_none : Option (List (List ℕ)) → Bool
is_none none = true
is_none (some roles) = false

bool_eq : Bool → Bool → Bool
bool_eq true b = b
bool_eq false b = not b

unfoldable pub pairing_method_ok : Category → List (List ℕ) → ServerActivate → Bool
unfolding bool_eq
pairing_method_ok matched offered act =
    if not (contains act.activities activity_pairing) then true else elim act.pairing [
      | none ↦ false
      | some method ↦
          if not (contains offered method)
          then false
          else bool_eq (bytes_eq method method_pairing_psk) (is_pairing_key matched)
    ]

abbrev is_empty : List (List ℕ) → Bool
is_empty [] = true
is_empty (r ∷ rs) = false

abbrev requested : ServerActivate → List (List ℕ) → List (List ℕ)
requested act persisted = elim act.active_roles [ none ↦ persisted | some rs ↦ keep_supported rs ]

unfoldable pub admissible : Category → Bool → List (List ℕ) → ServerActivate → List (List ℕ) → Bool
admissible matched unpaired offered act persisted =
    if not (activities_allowed matched unpaired act.activities)
    then false
    else if not (playback_capable matched unpaired act.activities)
        && (not (is_none act.active_roles) && not (is_empty (requested act persisted)))
    then false
    else pairing_method_ok matched offered act

-- The answer to what is not allowed: pair first, where a paired server might do it.
unfoldable pub refusal : Category → Bool → List (List ℕ) → ServerActivate → List (List ℕ) → Decision
refusal matched unpaired offered act persisted =
    if is_sentinel matched && (not unpaired && admissible matched true offered act persisted)
    then goodbye pairing_required
    else goodbye unauthorized

unfoldable pub decide_activate :
    Category → Bool → List (List ℕ) → ServerActivate → List (List ℕ) → Decision
decide_activate matched unpaired offered act persisted =
    let roles = requested act persisted in
    let dropped = not (playback_capable matched unpaired act.activities) && not (is_empty roles) in
    if not (activities_allowed matched unpaired act.activities)
    then refusal matched unpaired offered act persisted
    else if dropped && not (is_none act.active_roles)
    then refusal matched unpaired offered act persisted
    else if not (pairing_method_ok matched offered act)
    then pair_abort
    else roles_are (if dropped then [] else roles)
