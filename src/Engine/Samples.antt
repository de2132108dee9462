-- ===== src/Engine/Samples.antt =====
-- Small workflows, and what the engine does on them.
use react_go_workflow.Prelude.{
  pos, true, false, Option, none, some, List, [], ◌∷◌, codes, String, ◌≡◌, refl,
}
use react_go_workflow.Value.{string, bool, end, field, Object}
use react_go_workflow.Engine.Errors.{runner_error, ok, err}
use react_go_workflow.Engine.Types.{
  Uuid, Step, no_backoff, Edge, EdgeType, normal, error, Workflow, allow, Effect, start_step,
  complete_step, fail_step, skip_step, end_execution, completed, StepRunner, Registry,
}
use react_go_workflow.Engine.Graph.{Platform}
use react_go_workflow.Engine.Clock.{World}
use react_go_workflow.Engine.Execution.{Setting, execute_dag}

-- An id is written as one character.
abbrev pub plain_platform : Platform
plain_platform = record {
  uuid_string = λ id. id ∷ [];
  uuid_parse = λ _. none;
  visit = λ refs. refs;
  format_float = λ _. [];
}

abbrev pub quiet : World
quiet = record { cancels = λ _. false; expires = λ _. false }

-- A runner that answers with its config.
abbrev pub echo : StepRunner
echo call config input = ok config

abbrev pub broken : StepRunner
broken call config input = err (runner_error (codes "broken"))

abbrev pub runners : Registry
runners = (codes "log", echo) ∷ (codes "condition", echo) ∷ (codes "broken", broken) ∷ []

abbrev pub setting : Setting
setting = record {
  platform = plain_platform;
  registry = runners;
  secret_rows = some [];
  decrypt = λ _. none;
  world = quiet;
}

abbrev pub step : Uuid → String → String → Object → Step
step id name type config = record {
  id = id;
  name = codes name;
  step_type = some (codes type);
  config = config;
  input_mapping = none;
  timeout_seconds = pos 30;
  retry_count = pos 0;
  retry_backoff = no_backoff;
  retry_delay_ms = 1000;
}

abbrev pub edge : Uuid → Uuid → String → EdgeType → Edge
edge source target output type = record {
  source_step_id = source;
  target_step_id = target;
  source_output = codes output;
  edge_type = type;
}

abbrev pub workflow : List Step → List Edge → Workflow
workflow steps edges = record {
  id = 100;
  name = codes "sample";
  steps = steps;
  edges = edges;
  output_schema = none;
  timeout_seconds = none;
  concurrency = allow;
}

abbrev pub yes_config : Object
yes_config = some (field (codes "result") (bool true) end)

abbrev pub text_config : String → Object
text_config s = some (field (codes "message") (string (codes s)) end)

-- The updates of rows in a run, without the events.
abbrev row_updates : List Effect → List Effect
row_updates [] = []
row_updates (start_step id ∷ l) = start_step id ∷ row_updates l
row_updates (skip_step id ∷ l) = skip_step id ∷ row_updates l
row_updates (fail_step id e ∷ l) = fail_step id [] ∷ row_updates l
row_updates (complete_step id o n ∷ l) = complete_step id none n ∷ row_updates l
row_updates (end_execution s e o ∷ l) = end_execution s [] none ∷ row_updates l
row_updates (_ ∷ l) = row_updates l

abbrev updates : Option (List Effect) → List Effect
updates none = []
updates (some l) = row_updates l

abbrev pub chain : Workflow
chain =
    workflow
      (step 1 "a" "log" (text_config "hello")
        ∷ step 2 "b" "log" (text_config "{{steps.a.output}}")
        ∷ [])
      []

chain_runs :
    updates (execute_dag setting chain none)
    ≡ start_step 1
      ∷ complete_step 1 none (pos 1)
      ∷ start_step 2
      ∷ complete_step 2 none (pos 1)
      ∷ end_execution completed [] none
      ∷ []
unfolding execute_dag
chain_runs = refl

-- c is a condition; its true edge leads to 3 directly and its false edge to 2, which leads to 3.
abbrev pub diamond : Workflow
diamond =
    workflow
      (step 1 "c" "condition" yes_config ∷ step 2 "b" "log" none ∷ step 3 "m" "log" none ∷ [])
      (edge 1 3 "true" normal ∷ edge 1 2 "false" normal ∷ edge 2 3 "" normal ∷ [])

diamond_runs :
    updates (execute_dag setting diamond none)
    ≡ start_step 1
      ∷ complete_step 1 none (pos 1)
      ∷ skip_step 2
      ∷ skip_step 3
      ∷ end_execution completed [] none
      ∷ []
unfolding execute_dag
diamond_runs = refl

-- An error handler runs though nothing has failed.
abbrev pub handler : Workflow
handler = workflow (step 1 "a" "log" none ∷ step 2 "h" "log" none ∷ []) (edge 1 2 "" error ∷ [])

handler_runs :
    updates (execute_dag setting handler none)
    ≡ start_step 1
      ∷ complete_step 1 none (pos 1)
      ∷ start_step 2
      ∷ complete_step 2 none (pos 1)
      ∷ end_execution completed [] none
      ∷ []
unfolding execute_dag
handler_runs = refl
