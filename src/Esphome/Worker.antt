-- ===== src/Esphome/Worker.antt =====
-- internal/esphome/server.go: a wish that one goroutine carries out, as the microphone's and network
-- adb's are. `same` is the equality of wishes; what the device does is an argument.
pub mod Honours
mod Examples
use overdub.Base.{
  ℕ, Bool, true, false, Option, none, some, List, [], ◌∷◌, ◌&&◌, ◌||◌, not, if◌then◌else◌, ◌≡◌,
}
use overdub.Esphome.State.{same_bool}

-- `micPending`, `micHasPending`, `micWorking`, `micSettled` and `micLive`, and adb's likewise.
pub record Slot (A : Type 0) : Type 0 where
  pub pending : A
  pub has_pending : Bool
  pub working : Bool
  pub settled : Bool
  pub live : A

-- Where the worker is: not started, before it takes a wish, and while it carries one out.
pub data Hand (A : Type 0) : Type 0 where
  idle looping : Hand A
  applying : A → Hand A

-- The slot and its worker, with the last wish, skipped or not, and the last that was carried out.
pub record Desk (A : Type 0) : Type 0 where
  pub slot : Slot A
  pub hand : Hand A
  pub wished : Option A
  pub done : Option A

pub data Errand (A : Type 0) : Type 0 where
  wishes observes : A → Errand A
  takes : Errand A
  finishes : A → Bool → Errand A

-- A turn of the worker's loop.
unfoldable pub take_slot : {A : Type 0} → Slot A → Slot A × Hand A
take_slot s =
    if s.has_pending
    then (record s { has_pending = false }, applying s.pending)
    else (record s { working = false }, idle)

unfoldable pub begin_work : {A : Type 0} → Bool → Hand A → Hand A
begin_work start hand = if start then looping else hand

unfoldable pub take_hand : {A : Type 0} → Hand A → Desk A → Desk A
unfolding take_slot
take_hand idle d = d
take_hand looping d = let (s, hand) = take_slot d.slot in record d { slot = s; hand = hand }
take_hand (applying want) d = d

module _ {A : Type 0} (same : A → A → Bool) where
  -- Whether a wish is the one under way, or what is the case already.
  unfoldable pub skips : A → Slot A → Bool
  skips want s =
      if s.has_pending || s.working then same s.pending want else s.settled && same s.live want

  -- `setMicLocked`, and `setADBLocked` past its test of the choice; true starts the worker.
  unfoldable pub ask_slot : A → Slot A → Slot A × Bool
  unfolding skips
  ask_slot want s =
      if skips want s
      then (s, false)
      else (record s { pending = want; has_pending = true; working = true }, not s.working)

  -- The end of `setMic` and `setADBMode`: what the device is, and whether nothing failed.
  unfoldable pub settle_slot : A → A → Bool → Slot A → Slot A
  settle_slot want live ok s =
      if ok && same live want
      then record s { settled = true; live = live }
      else record s { settled = false }

  -- `micObserved` and `adbObserved`
  unfoldable pub observe_slot : A → Slot A → Slot A
  observe_slot live s =
      if s.settled && not (same s.live live) then record s { settled = false } else s

  unfoldable pub finish_hand : A → Bool → Hand A → Desk A → Desk A
  unfolding settle_slot
  finish_hand live ok idle d = d
  finish_hand live ok looping d = d
  finish_hand live ok (applying want) d = record d {
    slot = settle_slot want live ok d.slot;
    hand = looping;
    done = some want;
  }

  unfoldable pub errand : Errand A → Desk A → Desk A
  unfolding ask_slot begin_work take_hand finish_hand observe_slot
  errand (wishes want) d =
      let (s, start) = ask_slot want d.slot in
      record d { slot = s; hand = begin_work start d.hand; wished = some want }
  errand (observes live) d = record d { slot = observe_slot live d.slot }
  errand takes d = take_hand d.hand d
  errand (finishes live ok) d = finish_hand live ok d.hand d

  unfoldable pub errands : List (Errand A) → Desk A → Desk A
  unfolding errand
  errands [] d = d
  errands (e ∷ es) d = errands es (errand e d)

unfoldable pub fresh_desk : {A : Type 0} → A → Desk A
fresh_desk zero_value = record {
  slot = record {
    pending = zero_value;
    has_pending = false;
    working = false;
    settled = false;
    live = zero_value;
  };
  hand = idle;
  wished = none;
  done = none;
}

-- What a device says when it is read.
pub record Reads : Type 0 where
  pub muted : Bool
  pub known : Bool

-- `applyMic`: the device before, whether the press failed, and the device after.
unfoldable pub apply_mic : Bool → Reads → Bool → Reads → Bool × Bool
apply_mic want first failed then_read =
    if not first.known
    then (false, false)
    else if same_bool first.muted want
    then (first.muted, true)
    else if failed || not then_read.known
    then (false, false)
    else if same_bool then_read.muted want
    then (then_read.muted, true)
    else (then_read.muted, false)
