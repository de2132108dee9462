-- ===== src/Engine/Attempts.antt =====
-- executor.go, executeStep with failStep and retryDelay: one step with its retries.
pub mod Failures
pub mod Laws
pub mod Retries
use react_go_workflow.Prelude.{
  ℕ, zero, suc, ◌+◌, ◌-◌, ◌*◌, ◌%◌, ◌^◌, ℤ, wrapping_suc, is_positive, rounds, Option, none, some,
  List, [], ◌∷◌, ◌++◌, Text, codes, if◌then◌else◌,
}
use react_go_workflow.Value.{Object}
use react_go_workflow.Engine.Errors.{Error, resolve_config, resolve_input, message, Result, ok, err}
use react_go_workflow.Engine.Context.{ExecContext}
use react_go_workflow.Engine.Interpolate.{resolve_map}
use react_go_workflow.Engine.Types.{
  Uuid, Step, Backoff, no_backoff, fixed_backoff, exponential_backoff, Status, running, completed,
  failed, EventType, step_status, step_log, LogLine, no_line, running_line, retrying_line, Event,
  Effect, start_step, complete_step, fail_step, publish, sleep, Call, StepRunner, Registry,
  get_runner,
}

-- A time.Duration in nanoseconds, as its 64-bit pattern.
abbrev pub word : ℕ → ℕ
word n = n % 2 ^ 64

unfoldable pub retry_delay : Step → ℕ → ℕ
retry_delay s attempt =
    let base_delay = word (s.retry_delay_ms * 1000000) in
    elim s.retry_backoff [
      | exponential_backoff ↦ word (base_delay * word (2 ^ (attempt - 1)))
      | fixed_backoff ↦ base_delay
      | no_backoff ↦ 0
    ]

abbrev pub step_event : Step → Status → Object → Text → Event
step_event s status output error = record {
  type = step_status;
  step_id = some s.id;
  step_name = s.name;
  status = some status;
  output = output;
  error = error;
  line = no_line;
}

abbrev pub log_event : Step → LogLine → Event
log_event s line = record {
  type = step_log;
  step_id = some s.id;
  step_name = s.name;
  status = none;
  output = none;
  error = [];
  line = line;
}

-- A StepResult, and what was done on the way to it.
pub record Outcome : Type 0 where
  pub result : Result Object
  pub effects : List Effect

abbrev pub unknown_type : Text
unknown_type = codes "unknown"

abbrev pub type_of : Step → Text
type_of s = elim s.step_type [ none ↦ unknown_type | some name ↦ name ]

abbrev pub step_timeout : Step → Option ℤ
step_timeout s = if is_positive s.timeout_seconds then some s.timeout_seconds else none

module _ (s : Step) (runner : StepRunner) (config input : Object) where
  -- What follows a failed attempt while `left` more may come: the last one is final.
  abbrev after_failure : ℕ → ℕ → Error → Outcome → Outcome
  after_failure zero attempt e rest = record { result = err e; effects = [] }
  after_failure (suc left) attempt e rest =
      let delay = retry_delay s attempt in
      record rest {
        effects =
            publish (log_event s (retrying_line attempt e delay)) ∷ sleep delay ∷ rest.effects;
      }

  abbrev after_run : ℕ → ℕ → Result Object → Outcome → Outcome
  after_run left attempt (ok output) rest = record { result = ok output; effects = [] }
  after_run left attempt (err e) rest = after_failure left attempt e rest

  -- The retry loop from an attempt on, with the number of attempts left. With none at all the error
  -- stays nil and the output is the nil map.
  unfoldable pub try_runs : ℕ → ℕ → Outcome
  unfolding retry_delay
  try_runs zero attempt = record { result = ok none; effects = [] }
  try_runs (suc left) attempt =
      let rest = try_runs left (suc attempt) in
      let call : Call = record { step = s.id; attempt = attempt; timeout = step_timeout s } in
      let after = after_run left attempt (runner call config input) rest in
      record after {
        effects =
            publish (log_event s (running_line (type_of s) attempt (attempt + left)))
            ∷ after.effects;
      }

-- failStep
abbrev pub fail_outcome : Step → Error → Outcome
fail_outcome s e = record {
  result = err e;
  effects = fail_step s.id (message e) ∷ publish (step_event s failed none (message e)) ∷ [];
}

abbrev pub max_attempts : Step → ℤ
max_attempts s = wrapping_suc s.retry_count

-- The end of executeStep, after the retry loop.
abbrev pub finish_step : Step → Result Object → Outcome
finish_step s (err e) = fail_outcome s e
finish_step s (ok output) = record {
  result = ok output;
  effects =
      complete_step s.id output (max_attempts s) ∷ publish (step_event s completed output []) ∷ [];
}

abbrev pub before : List Effect → Outcome → Outcome
before done later = record later { effects = done ++ later.effects }

module _ (format_float : ℕ → Text) (registry : Registry) (c : ExecContext) (s : Step) where
  abbrev run_resolved : StepRunner → Object → Object → Outcome
  run_resolved runner config input =
      let tried = try_runs s runner config input (rounds (max_attempts s)) 1 in
      before tried.effects (finish_step s tried.result)

  abbrev with_input : StepRunner → Object → Result Object → Outcome
  with_input runner config (err e) = fail_outcome s (resolve_input e)
  with_input runner config (ok input) = run_resolved runner config input

  abbrev with_config : StepRunner → Result Object → Outcome
  with_config runner (err e) = fail_outcome s (resolve_config e)
  with_config runner (ok config) =
      with_input runner config (resolve_map format_float c s.input_mapping)

  abbrev with_runner : Result StepRunner → Outcome
  with_runner (err e) = fail_outcome s e
  with_runner (ok runner) = with_config runner (resolve_map format_float c s.config)

  unfoldable pub execute_step : Outcome
  unfolding try_runs get_runner resolve_map message
  execute_step =
      before (start_step s.id ∷ publish (step_event s running none []) ∷ [])
        (with_runner (get_runner (type_of s) registry))
