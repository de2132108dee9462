-- ===== src/Engine/Waiting.antt =====
-- executor.go, WaitForCompletion, beside the goroutine of the execution: what the two do to the row of the
-- execution and to the channel that is subscribed, in any order. Nothing in the program calls Cleanup, so the
-- channel is not closed while the call waits.
pub mod Taken
pub mod Answers
pub mod Missed
use react_go_workflow.Prelude.{
  Bool, true, false, ◌≡◌, Option, none, some, List, [], ◌∷◌, ◌++◌, length, ltb, if◌then◌else◌,
}
use react_go_workflow.Engine.Types.{
  Status, pending, running, completed, failed, skipped, cancelled, EventType, step_status, step_log,
  execution_status, Event, Effect, start_step, complete_step, fail_step, skip_step, publish, sleep,
  end_execution, notify,
}
use react_go_workflow.Engine.EventBus.{capacity}

-- What WaitForCompletion returns: the execution with its status, or an error.
pub data Answer : Type 0 where
  found : Status → Answer
  timed_out query_failed : Answer

-- How far a call of WaitForCompletion has come.
pub data Phase : Type 0 where
  checking subscribing waiting fetching : Phase
  returned : Answer → Phase

-- The status in the row of the execution, whether the database takes the update that ends it (the program
-- drops the error of that), what its goroutine has still to do, the buffer of the channel
-- that the call subscribed, and how far the call is.
pub record Waiting : Type 0 where
  pub row : Status
  pub takes : Bool
  pub left : List Effect
  pub channel : Option (List Event)
  pub phase : Phase

abbrev pub is_terminal : Status → Bool
is_terminal completed = true
is_terminal failed = true
is_terminal cancelled = true
is_terminal _ = false

abbrev ends_with : EventType → Option Status → Bool
ends_with execution_status (some s) = is_terminal s
ends_with _ _ = false

-- Whether an event ends the loop.
abbrev pub ends_wait : Event → Bool
ends_wait e = ends_with e.type e.status

-- Publish, to the one channel: a full buffer drops the event.
abbrev pub push : Event → Option (List Event) → Option (List Event)
push e none = none
push e (some buffer) = some (if ltb (length buffer) capacity then buffer ++ e ∷ [] else buffer)

-- An effect of the goroutine.
abbrev pub do_effect : Effect → Waiting → Waiting
do_effect (end_execution status error output) w = record w {
  row = if w.takes then status else w.row;
}
do_effect (publish e) w = record w { channel = push e w.channel }
do_effect (start_step id) w = w
do_effect (complete_step id output n) w = w
do_effect (fail_step id m) w = w
do_effect (skip_step id) w = w
do_effect (sleep d) w = w
do_effect (notify s m) w = w

-- A call returns; the deferred Unsubscribe takes its channel away.
abbrev pub return_with : Answer → Waiting → Waiting
return_with a w = record w { channel = none; phase = returned a }

-- One step of either goroutine. The context can be done at any time while the call waits.
pub data Step (w u : Waiting) : Type 0 where
  executes :
      (e : Effect) (l : List Effect)
      → w.left ≡ e ∷ l
      → u ≡ do_effect e (record w { left = l })
      → Step w u
  finds_ended :
      w.phase ≡ checking → is_terminal w.row ≡ true → u ≡ return_with (found w.row) w → Step w u
  finds_running :
      w.phase ≡ checking
      → is_terminal w.row ≡ false
      → u ≡ record w { phase = subscribing }
      → Step w u
  check_fails : w.phase ≡ checking → u ≡ record w { phase = subscribing } → Step w u
  subscribes :
      w.phase ≡ subscribing → u ≡ record w { channel = some []; phase = waiting } → Step w u
  receives_end :
      (e : Event) (rest : List Event)
      → w.phase ≡ waiting
      → w.channel ≡ some (e ∷ rest)
      → ends_wait e ≡ true
      → u ≡ record w { channel = some rest; phase = fetching }
      → Step w u
  receives_other :
      (e : Event) (rest : List Event)
      → w.phase ≡ waiting
      → w.channel ≡ some (e ∷ rest)
      → ends_wait e ≡ false
      → u ≡ record w { channel = some rest }
      → Step w u
  times_out : w.phase ≡ waiting → u ≡ return_with timed_out w → Step w u
  fetches : w.phase ≡ fetching → u ≡ return_with (found w.row) w → Step w u
  fetch_fails : w.phase ≡ fetching → u ≡ return_with query_failed w → Step w u

pub data Reach (w : Waiting) : Waiting → Type 0 where
  here : Reach w w
  next : {u v : Waiting} → Reach w u → Step u v → Reach w v

-- The call begins while the execution runs, with what that does from then on.
abbrev pub start : Bool → List Effect → Waiting
start takes effects = record {
  row = running;
  takes = takes;
  left = effects;
  channel = none;
  phase = checking;
}
