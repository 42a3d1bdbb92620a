-- ===== src/Sendspin/Activate/Access.antt =====
-- internal/sendspin/hello.go: who gets the player's role.
use overdub.Base.{
  ℕ, ◌≡◌, ◌≢◌, ◌⊎◌, refl, ap, inl, inr, Bool, true, false, List, [], ◌∷◌, ◌++◌, ◌||◌, length,
  if◌then◌else◌, arith, Bool-cases, length-append,
}
use overdub.Base.Text.{bytes_eq, bytes_eq_iff, contains}
use overdub.Sendspin.Activate.{
  Category, long_term, pairing_key, sentinel, activity_playback, activity_pairing, role_player_v1,
  allowed_activity_sets, sort, insert_sorted, texts_eq, same_set, any_same_set, activities_allowed,
  playback_capable, ServerActivate, roles_are, keep_supported_from, keep_supported,
  pairing_method_ok, refusal, decide_activate,
}

same_set-nil : (a : List (List ℕ)) → same_set [] a ≡ true → a ≡ []
unfolding same_set
same_set-nil [] h = refl
same_set-nil (x ∷ xs) h = ground arith

same_set-one : (x : List ℕ) (a : List (List ℕ)) → same_set (x ∷ []) a ≡ true → a ≡ x ∷ []
unfolding same_set sort insert_sorted texts_eq
same_set-one x [] h = ground arith
same_set-one x (y ∷ []) h = ground (arith, (bytes_eq_iff x y).0)
same_set-one x (y ∷ z ∷ zs) h = ground arith

-- The categories that may play at all.
abbrev pub may_play : Category → Bool → Bool
may_play long_term unpaired = true
may_play pairing_key unpaired = false
may_play sentinel unpaired = unpaired

abbrev may_pair : Category → Bool
may_pair long_term = false
may_pair pairing_key = true
may_pair sentinel = true

or_cases : (a b : Bool) → (a || b) ≡ true → (a ≡ true) ⊎ (b ≡ true)
or_cases true b h = inl refl
or_cases false b h = inr h

-- The activities that a category may hold, as the code's table lists them.
abbrev pub Allowed : Category → Bool → List (List ℕ) → Type 0
Allowed m u a =
    (a ≡ [])
    ⊎ ((a ≡ activity_pairing ∷ []) × (may_pair m ≡ true))
    ⊎ ((a ≡ activity_playback ∷ []) × (may_play m u ≡ true))

activities_allowed_lem :
    (m : Category) (u : Bool) (a : List (List ℕ)) → activities_allowed m u a ≡ true → Allowed m u a
unfolding activities_allowed allowed_activity_sets any_same_set
activities_allowed_lem long_term u a h = elim (or_cases _ _ h) [
  | inl e ↦ inl (same_set-nil a e)
  | inr h1 ↦ elim (or_cases _ _ h1) [
    | inl e ↦ inr (inr (same_set-one activity_playback a e, refl))
    | inr h2 ↦ absurd (ground arith)
  ]
]
activities_allowed_lem pairing_key u a h = elim (or_cases _ _ h) [
  | inl e ↦ inl (same_set-nil a e)
  | inr h1 ↦ elim (or_cases _ _ h1) [
    | inl e ↦ inr (inl (same_set-one activity_pairing a e, refl))
    | inr h2 ↦ absurd (ground arith)
  ]
]
activities_allowed_lem sentinel true a h = elim (or_cases _ _ h) [
  | inl e ↦ inl (same_set-nil a e)
  | inr h1 ↦ elim (or_cases _ _ h1) [
    | inl e ↦ inr (inl (same_set-one activity_pairing a e, refl))
    | inr h2 ↦ elim (or_cases _ _ h2) [
      | inl e ↦ inr (inr (same_set-one activity_playback a e, refl))
      | inr h3 ↦ absurd (ground arith)
    ]
  ]
]
activities_allowed_lem sentinel false a h = elim (or_cases _ _ h) [
  | inl e ↦ inl (same_set-nil a e)
  | inr h1 ↦ elim (or_cases _ _ h1) [
    | inl e ↦ inr (inl (same_set-one activity_pairing a e, refl))
    | inr h2 ↦ absurd (ground arith)
  ]
]

snoc-ne-nil : (a : List (List ℕ)) (x : List ℕ) → a ++ (x ∷ []) ≢ []
snoc-ne-nil [] x h = ground arith
snoc-ne-nil (y ∷ ys) x h = ground arith

snoc-one : (a : List (List ℕ)) (x y : List ℕ) → a ++ (x ∷ []) ≡ y ∷ [] → (a ≡ []) × (x ≡ y)
snoc-one [] x y h = (refl, ground arith)
snoc-one (z ∷ zs) x y h = absurd (omega (arith, ap length h, length-append zs (x ∷ [])))

-- Playback can be added to the activities only for a category that may play.
playback_capable_lem :
    (m : Category) (u : Bool) (a : List (List ℕ))
    → playback_capable m u a ≡ true
    → (may_play m u ≡ true) × ((a ≡ []) ⊎ (a ≡ activity_playback ∷ []))
unfolding playback_capable contains bytes_eq
playback_capable_lem m u a h = elim (Bool-cases (contains a activity_playback)) [
  | inl has ↦ elim (activities_allowed_lem m u a (ground arith)) [
    | inl e ↦ absurd (let h' : contains [] activity_playback ≡ true = rw e at has in cc)
    | inr (inl (e, p)) ↦
        absurd
          (let h' : contains (activity_pairing ∷ []) activity_playback ≡ true = rw e at has in cc)
    | inr (inr (e, p)) ↦ (p, inr e)
  ]
  | inr lacks ↦ elim (activities_allowed_lem m u (a ++ (activity_playback ∷ [])) (ground arith)) [
    | inl e ↦ absurd (snoc-ne-nil a activity_playback e)
    | inr (inl (e, p)) ↦ absurd (let e' = (snoc-one a activity_playback activity_pairing e).1 in cc)
    | inr (inr (e, p)) ↦ (p, inl (snoc-one a activity_playback activity_playback e).0)
  ]
]

refusal-ne-roles :
    (m : Category) (u : Bool) (offered : List (List ℕ)) (act : ServerActivate)
    (persisted rs : List (List ℕ))
    → refusal m u offered act persisted ≢ roles_are rs
unfolding refusal
refusal-ne-roles m u offered act persisted rs h = ground arith

-- A server is left with a role only if its key lets it play: a long-term key, or the sentinel's while
-- the player takes unpaired servers. What it is then active in is nothing, or playback.
pub decide_activate_roles :
    (m : Category) (u : Bool) (offered : List (List ℕ)) (act : ServerActivate)
    (persisted : List (List ℕ)) (r : List ℕ) (rs : List (List ℕ))
    → decide_activate m u offered act persisted ≡ roles_are (r ∷ rs)
    → (may_play m u ≡ true) × ((act.activities ≡ []) ⊎ (act.activities ≡ activity_playback ∷ []))
unfolding decide_activate
decide_activate_roles m u offered act persisted r rs h =
    playback_capable_lem m u act.activities
      (ground (arith, refusal-ne-roles m u offered act persisted (r ∷ rs)))

-- With no pairing method on offer, an activation that asks to pair is never granted, whatever the
-- key.
pub decide_activate_no_pairing :
    (m : Category) (u : Bool) (act : ServerActivate) (persisted rs : List (List ℕ))
    → contains act.activities activity_pairing ≡ true
    → decide_activate m u [] act persisted ≢ roles_are rs
unfolding decide_activate pairing_method_ok contains
decide_activate_no_pairing m u act persisted rs has h =
    ground (arith, refusal-ne-roles m u [] act persisted rs)

keep_supported_full :
    (rs : List (List ℕ)) → keep_supported_from (role_player_v1 ∷ []) rs ≡ role_player_v1 ∷ []
unfolding keep_supported_from contains
keep_supported_full [] = refl
keep_supported_full (r ∷ rs) = ground (arith, keep_supported_full rs)

-- Of the roles that a server asks for, the player's is kept once, and nothing else.
pub keep_supported_lem :
    (rs : List (List ℕ))
    → keep_supported rs ≡ (if contains rs role_player_v1 then role_player_v1 ∷ [] else [])
unfolding keep_supported keep_supported_from contains
keep_supported_lem [] = refl
keep_supported_lem (r ∷ rs) = ground (
  arith,
  (bytes_eq_iff role_player_v1 r).0,
  (bytes_eq_iff r role_player_v1).0,
  (bytes_eq_iff role_player_v1 r).1,
  (bytes_eq_iff r role_player_v1).1,
  keep_supported_lem rs,
  keep_supported_full rs,
)
