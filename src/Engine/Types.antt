-- ===== src/Engine/Types.antt =====
-- What internal/engine/executor.go works on: the rows of ent/schema that it reads, the events of
-- internal/engine/events.go, the runners of internal/engine/runner.go, and the effects of a run.
use react_go_workflow.Prelude.{ℕ, ℤ, Option, none, some, List, Text, lookup}
use react_go_workflow.Value.{Object}
use react_go_workflow.Engine.Errors.{Error, Result, ok, err, no_runner}

-- A UUID is a 128-bit number, and uuid.Nil is 0.
abbrev pub Uuid : Type 0
Uuid = ℕ

pub data Backoff : Type 0 where
  no_backoff fixed_backoff exponential_backoff : Backoff

-- A step with the name of its step type, if that was loaded. The retry delay is the 64-bit pattern
-- of the `int`.
pub record Step : Type 0 where
  pub id : Uuid
  pub name : Text
  pub step_type : Option Text
  pub config : Object
  pub input_mapping : Object
  pub timeout_seconds : ℤ
  pub retry_count : ℤ
  pub retry_backoff : Backoff
  pub retry_delay_ms : ℕ

pub data EdgeType : Type 0 where
  normal error : EdgeType

pub record Edge : Type 0 where
  pub source_step_id : Uuid
  pub target_step_id : Uuid
  pub source_output : Text
  pub edge_type : EdgeType

pub data Concurrency : Type 0 where
  allow skip queue : Concurrency

pub record Workflow : Type 0 where
  pub id : Uuid
  pub name : Text
  pub steps : List Step
  pub edges : List Edge
  pub output_schema : Object
  pub timeout_seconds : Option ℤ
  pub concurrency : Concurrency

-- The statuses of step executions, workflow executions and events.
pub data Status : Type 0 where
  pending running completed failed skipped cancelled : Status

pub data EventType : Type 0 where
  step_status step_log execution_status : EventType

-- The message of a log event, by what is printed into it.
pub data LogLine : Type 0 where
  no_line : LogLine
  running_line : (step_type : Text) (attempt of : ℕ) → LogLine
  retrying_line : (attempt : ℕ) → Error → (delay : ℕ) → LogLine

-- An event without its times.
pub record Event : Type 0 where
  pub type : EventType
  pub step_id : Option Uuid
  pub step_name : Text
  pub status : Option Status
  pub output : Object
  pub error : Text
  pub line : LogLine

-- What a run does to the outside, in order: updates of the step's row, publications on the event
-- bus, sleeps, the update of the execution's row, the notification.
pub data Effect : Type 0 where
  start_step : Uuid → Effect
  complete_step : Uuid → Object → (attempt : ℤ) → Effect
  fail_step : Uuid → Text → Effect
  skip_step : Uuid → Effect
  publish : Event → Effect
  sleep : (delay : ℕ) → Effect
  end_execution : Status → (error : Text) → (output : Object) → Effect
  notify : Status → (error : Text) → Effect

-- One call of a runner. Its answer may depend on the world at that time: a step runs at most once
-- in an execution, so the step and the attempt name the call.
pub record Call : Type 0 where
  pub step : Uuid
  pub attempt : ℕ
  pub timeout : Option ℤ

abbrev pub StepRunner : Type 0
StepRunner = Call → (config input : Object) → Result Object

abbrev pub Registry : Type 0
Registry = List (Text × StepRunner)

-- RunnerRegistry.Get
unfoldable pub get_runner : Text → Registry → Result StepRunner
unfolding lookup
get_runner step_type registry = elim (lookup step_type registry) [
  | none ↦ err (no_runner step_type)
  | some runner ↦ ok runner
]
