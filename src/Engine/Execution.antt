-- ===== src/Engine/Execution.antt =====
-- executor.go, executeDAG: the end of an execution, and the whole.
pub mod Total
pub mod Ends
pub mod Order
pub mod Complete
pub mod Reasons
use react_go_workflow.Prelude.{
  ℕ, suc, ◌+◌, Bool, false, Option, none, some, List, [], ◌∷◌, ◌++◌, map, length, Text, codes,
}
use react_go_workflow.Value.{
  Value, null, string, object, Fields, end, field, Object, of_object, set_field,
}
use react_go_workflow.Engine.Errors.{Error, message, Result, ok, err}
use react_go_workflow.Engine.Context.{ExecContext, new_exec_context, set_secret}
use react_go_workflow.Engine.Interpolate.{resolve_string}
use react_go_workflow.Engine.Types.{
  Uuid, Step, Workflow, Status, completed, failed, cancelled, EventType, execution_status, LogLine,
  no_line, Event, Effect, publish, end_execution, notify, Registry,
}
use react_go_workflow.Engine.Graph.{Platform, Graph, step_by_id, build_graph}
use react_go_workflow.Engine.Skip.{Run}
use react_go_workflow.Engine.Clock.{CtxErr, canceled, World, ctx_err}
use react_go_workflow.Engine.Loop.{Stop, waves}

-- The execution's events carry no step.
abbrev pub execution_event : Status → Text → Object → Event
execution_event status error output = record {
  type = execution_status;
  step_id = none;
  step_name = [];
  status = some status;
  output = output;
  error = error;
  line = no_line;
}

abbrev pub ending : Status → Text → Object → List Effect
ending status error output =
    end_execution status error output
    ∷ publish (execution_event status error output)
    ∷ notify status error
    ∷ []

-- The body of the branch for an execution that failed or was stopped; ctx.Err() is read twice at
-- most, after `k` reads.
abbrev pub end_badly : Option Error → Option CtxErr → Option CtxErr → List Effect
end_badly e (some canceled) later = ending cancelled (codes "execution cancelled by user") none
end_badly e _ (some _) = ending failed (codes "workflow timed out") none
end_badly (some e) _ none = ending failed (message e) none
end_badly none _ none = ending failed [] none

-- allStepOutputs, with the steps in the order of the workflow.
unfoldable pub all_step_outputs : Platform → List Step → List Step → (Uuid → Option Object) → Fields
unfolding set_field
all_step_outputs p all [] outputs = end
all_step_outputs p all (s ∷ rest) outputs =
    let later = all_step_outputs p all rest outputs in
    elim (outputs s.id) [
      | none ↦ later
      | some output ↦ elim (step_by_id all s.id) [
        | none ↦ later
        | some found ↦
            set_field (p.uuid_string s.id)
              (object (
                field (codes "name") (string found.name)
                  (field (codes "output") (of_object output) end)))
              later
      ]
    ]

-- An expression of the output schema that does not resolve becomes nil.
abbrev pub or_null : Result Value → Value
or_null (ok v) = v
or_null (err e) = null

module _ (p : Platform) (c : ExecContext) where
  abbrev map_value : Value → Value
  map_value (string s) = or_null (resolve_string p.format_float c s)
  map_value v = v

  unfoldable pub map_output : Fields → Fields
  unfolding resolve_string
  map_output end = end
  map_output (field k v f) = field k (map_value v) (map_output f)

  abbrev with_result : Fields → Object → Fields
  with_result all none = field (codes "steps") (object all) end
  with_result all (some end) = field (codes "steps") (object all) end
  with_result all (some (field k v f)) =
      field (codes "steps") (object all)
        (field (codes "result") (object (map_output (field k v f))) end)

abbrev pub final_output : Platform → Workflow → Run → Object
final_output p wf r =
    some (with_result p r.context (all_step_outputs p wf.steps wf.steps r.outputs) wf.output_schema)

-- The part of executeDAG behind its loop.
unfoldable pub finish : Platform → Workflow → (ℕ → Option CtxErr) → Stop → List Effect
unfolding message all_step_outputs map_output
finish p wf err_at stop =
    let k = stop.reads in
    elim stop.run.execution_err [
      | some e ↦ end_badly (some e) (err_at k) (err_at (suc k))
      | none ↦ elim (err_at k) [
        | some _ ↦ end_badly none (err_at (suc k)) (err_at (suc (suc k)))
        | none ↦ ending completed [] (final_output p wf stop.run)
      ]
    ]

-- The rows of the secrets table: keys with encrypted values.
abbrev pub SecretRows : Type 0
SecretRows = List (Text × Text)

-- A secret that does not decrypt is left out.
unfoldable pub load_secrets : (Text → Option Text) → SecretRows → ExecContext → ExecContext
unfolding set_secret
load_secrets decrypt [] c = c
load_secrets decrypt ((key, encrypted) ∷ rows) c = elim (decrypt encrypted) [
  | none ↦ load_secrets decrypt rows c
  | some value ↦ load_secrets decrypt rows (set_secret key value c)
]

-- What executeDAG is given beside the workflow: the runners, the answer of the secrets query (none
-- when it failed), the decryption of a value, and what the reads of ctx.Err() meet.
pub record Setting : Type 0 where
  pub platform : Platform
  pub registry : Registry
  pub secret_rows : Option SecretRows
  pub decrypt : Text → Option Text
  pub world : World

unfoldable pub initial_context : Setting → Object → ExecContext
unfolding load_secrets new_exec_context
initial_context e input = elim e.secret_rows [
  | none ↦ new_exec_context input
  | some rows ↦ load_secrets e.decrypt rows (new_exec_context input)
]

unfoldable pub initial_run : Graph → ExecContext → Run
initial_run g c = record {
  in_degree = g.in_degree;
  done = λ _. false;
  skipped = λ _. false;
  outputs = λ _. none;
  context = c;
  execution_err = none;
  trace = [];
}

abbrev pub step_ids : Workflow → List Uuid
step_ids wf = map (λ s. s.id) wf.steps

-- Rounds: each marks a step as done. Depth of skipBranch: each level marks a step or an edge's target.
abbrev pub round_bound : Workflow → ℕ
round_bound wf = suc (length wf.steps)

abbrev pub depth_bound : Workflow → ℕ
depth_bound wf = suc (length wf.edges + length wf.steps)

-- The loop of executeDAG from its start.
unfoldable pub run_loop : Setting → Workflow → Object → Option Stop
unfolding waves initial_run initial_context build_graph ctx_err
run_loop e wf input =
    let g = build_graph e.platform wf in
    waves e.platform e.registry wf.steps (step_ids wf) g (ctx_err e.world wf.timeout_seconds)
      (round_bound wf) (depth_bound wf) 0 (initial_run g (initial_context e input))

-- executeDAG: its effects in order. Each step has a row, since Execute has just created them.
unfoldable pub execute_dag : Setting → Workflow → Object → Option (List Effect)
unfolding run_loop finish
execute_dag e wf input = elim (run_loop e wf input) [
  | none ↦ none
  | some stop ↦
      some (stop.run.trace ++ finish e.platform wf (ctx_err e.world wf.timeout_seconds) stop)
]
