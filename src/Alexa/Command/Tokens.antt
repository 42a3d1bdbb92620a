-- ===== src/Alexa/Command/Tokens.antt =====
-- internal/alexa/command.go: the token that a client keeps.
use overdub.Base.{ℕ, Bool, true, false, List, [], ◌∷◌, ◌≡◌, ◌⊎◌, inl, inr, refl, arith, if_case}
use overdub.Base.Strings.{trim}
use overdub.Alexa.Command.Spaces.{IsToken, token_shaped-IsToken}
use overdub.Alexa.Command.{
  Answer, ok, refused, broken, Requests, token_shaped, token_of, value_of, token_for, ask_with,
  attempt, retry, send,
}

-- No token, or one with a token's length and no white space.
unfoldable pub IsKept : List ℕ → Type 0
IsKept token = (token ≡ []) ⊎ IsToken token

unfoldable pub Gives : Answer (List ℕ) → Type 0
Gives (ok token) = IsToken token
Gives (refused why) = ⊥
Gives (broken why) = Unit

value_of-Gives : (v : List ℕ) → Gives (value_of v)
unfolding Gives value_of
value_of-Gives [] = tt
value_of-Gives (c ∷ cs) =
    if_case Gives (token_shaped (c ∷ cs)) (ok (c ∷ cs)) (broken []) (token_shaped-IsToken (c ∷ cs))
      (λ _. tt)

token_of-Gives : (a : Answer (List ℕ)) → Gives (token_of a)
unfolding Gives token_of
token_of-Gives (ok out) = value_of-Gives (trim out)
token_of-Gives (refused why) = tt
token_of-Gives (broken why) = tt

module _ {W : Type 0} (r : Requests W) where
  ask_with-IsKept :
      (text kept : List ℕ) (w : W) (a : Answer (List ℕ))
      → IsKept kept
      → (a ≡ ok kept) ⊎ Gives a
      → IsKept (ask_with r text kept (w, a)).0
  unfolding ask_with IsKept Gives
  ask_with-IsKept text kept w (ok token) k g = ground arith
  ask_with-IsKept text kept w (refused why) k g = k
  ask_with-IsKept text kept w (broken why) k g = k

  attempt-IsKept : (text token : List ℕ) (w : W) → IsKept token → IsKept (attempt r text token w).0
  unfolding attempt token_for
  attempt-IsKept text [] w k =
      ask_with-IsKept text [] (r.dump w).0 (token_of (r.dump w).1) k
        (inr (token_of-Gives (r.dump w).1))
  attempt-IsKept text (c ∷ cs) w k = ask_with-IsKept text (c ∷ cs) w (ok (c ∷ cs)) k (inl refl)

  retry-IsKept :
      (text token : List ℕ) (w : W) (a : Answer {0} Unit)
      → IsKept token
      → IsKept (retry r text (token, w, a)).0
  unfolding retry IsKept
  retry-IsKept text token w (ok u) k = k
  retry-IsKept text token w (broken why) k = k
  retry-IsKept text token w (refused why) k = attempt-IsKept text [] w (inl refl)

  -- A client keeps no token, or one of 16 to 4096 bytes with no white space of Unicode in it: whatever
  -- the dump writes and whatever the requests answer, `Send` leaves such a token if it began with none
  -- or with such a one.
  pub send-IsKept :
      (busy : Bool) (text token : List ℕ) (w : W)
      → IsKept token
      → IsKept (send r busy text token w).0
  unfolding send
  send-IsKept true text token w k = k
  send-IsKept false text token w k =
      let (token', w', a) = attempt r text token w in
      retry-IsKept text token' w' a (attempt-IsKept text token w k)
