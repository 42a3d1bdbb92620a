-- ===== src/Esphome/Media/Queues.antt =====
-- internal/esphome/media.go: the commands that wait for Alexa are neither lost nor put out of order.
use overdub.Base.{
  ℕ, Bool, true, false, Option, none, some, List, [], ◌∷◌, ◌++◌, ◌||◌, not, ltb, leb, length, ◌+◌,
  ◌≡◌, ◌≤◌, ◌⊎◌, inl, inr, refl, sym, ◌∙◌, arith, if_case,
}
use overdub.Base.Strings.{trim}
use overdub.Esphome.Media.{
  CommandQueue, command_queue, command_max_length, command_locked, take_command,
}

-- A text that is asked for, and a turn of the worker.
pub data CommandStep : Type 0 where
  commands : Bool → List ℕ → CommandStep
  works : CommandStep

-- The queue, the texts that were queued, and those that the worker took, each the oldest first.
pub record Log : Type 0 where
  pub state : CommandQueue
  pub accepted : List (List ℕ)
  pub taken : List (List ℕ)

unfoldable pub append_option : List (List ℕ) → Option (List ℕ) → List (List ℕ)
append_option xs none = xs
append_option xs (some x) = xs ++ (x ∷ [])

module _ (runes : List ℕ → ℕ) where
  unfoldable pub command_step : CommandStep → Log → Log
  unfolding command_locked take_command append_option
  command_step (commands can_send text) l =
      let (s, told) = command_locked runes can_send text l.state in
      record l { state = s; accepted = append_option l.accepted told }
  command_step works l =
      let (s, text) = take_command l.state in
      record l { state = s; taken = append_option l.taken text }

  unfoldable pub command_steps : List CommandStep → Log → Log
  unfolding command_step
  command_steps [] l = l
  command_steps (c ∷ cs) l = command_steps cs (command_step c l)

-- What was queued is what was taken and what waits, in order; a worker runs while a text waits, and no
-- more texts wait than the queue holds.
unfoldable pub IsOrderly : Log → Type 0
IsOrderly l =
    (l.accepted ≡ l.taken ++ l.state.queue)
    × (length l.state.queue ≤ command_queue)
    × ((l.state.queue ≡ []) ⊎ (l.state.working ≡ true))

append_append : {A : Type 0} (a b c : List A) → (a ++ b) ++ c ≡ a ++ (b ++ c)
append_append [] b c = refl
append_append (x ∷ xs) b c = λ i. x ∷ append_append xs b c i

length-append_one : {A : Type 0} (xs : List A) (x : A) → length (xs ++ (x ∷ [])) ≡ length xs + 1
length-append_one [] x = refl
length-append_one (y ∷ ys) x = ground (arith, length-append_one ys x)

queued-IsOrderly :
    (l : Log) (text : List ℕ)
    → IsOrderly l
    → leb command_queue (length l.state.queue) ≡ false
    → IsOrderly (record l {
      state = record { queue = l.state.queue ++ (text ∷ []); working = true };
      accepted = l.accepted ++ (text ∷ []);
    })
unfolding IsOrderly
queued-IsOrderly l text (kept, short, runs) room = (
  (λ i. kept i ++ (text ∷ [])) ∙ append_append l.taken l.state.queue (text ∷ []),
  ground (arith, length-append_one l.state.queue text),
  inr refl,
)

asked-IsOrderly :
    (runes : List ℕ → ℕ) (can_send : Bool) (text : List ℕ) (l : Log)
    → IsOrderly l
    → IsOrderly (command_step runes (commands can_send text) l)
unfolding command_step
asked-IsOrderly runes can_send text l h =
    if_case {A = CommandQueue × Option (List ℕ)}
      (λ x. IsOrderly (record l { state = x.0; accepted = append_option l.accepted x.1 }))
      (ltb command_max_length (runes (trim text))
        || not can_send
        || leb command_queue (length l.state.queue))
      (l.state, none)
      (record { queue = l.state.queue ++ (trim text ∷ []); working = true }, some (trim text))
      (λ _. h) (λ e. queued-IsOrderly l (trim text) h (ground arith))

taken-IsOrderly :
    (queue : List (List ℕ)) (working : Bool) (accepted taken : List (List ℕ))
    → IsOrderly (record {
      state = record { queue = queue; working = working };
      accepted = accepted;
      taken = taken;
    })
    → let (s, text) = take_command (record { queue = queue; working = working }) in
      IsOrderly (record { state = s; accepted = accepted; taken = append_option taken text })
unfolding IsOrderly take_command append_option
taken-IsOrderly [] working accepted taken (kept, short, runs) = (kept, short, inl refl)
taken-IsOrderly (t ∷ ts) working accepted taken (kept, short, runs) =
    (kept ∙ sym (append_append taken (t ∷ []) ts), omega arith, ground arith)

command_step-IsOrderly :
    (runes : List ℕ → ℕ) (c : CommandStep) (l : Log)
    → IsOrderly l
    → IsOrderly (command_step runes c l)
unfolding command_step
command_step-IsOrderly runes (commands can_send text) l h = asked-IsOrderly runes can_send text l h
command_step-IsOrderly runes works l h =
    taken-IsOrderly l.state.queue l.state.working l.accepted l.taken h

-- However texts are asked for and the worker takes turns, an orderly queue stays orderly: the texts
-- that were queued are those the worker took and then those that wait, in the order they came; at most
-- four wait; and while one waits, a worker runs.
pub command_steps-IsOrderly :
    (runes : List ℕ → ℕ) (cs : List CommandStep) (l : Log)
    → IsOrderly l
    → IsOrderly (command_steps runes cs l)
unfolding command_steps
command_steps-IsOrderly runes [] l h = h
command_steps-IsOrderly runes (c ∷ cs) l h =
    command_steps-IsOrderly runes cs (command_step runes c l) (command_step-IsOrderly runes c l h)
