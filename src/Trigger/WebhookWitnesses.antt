-- ===== src/Trigger/WebhookWitnesses.antt =====
-- A webhook that waits for the diamond of the samples, with a column that stores whole numbers as floats.
use react_go_workflow.Prelude.{
  pos, ◌≡◌, refl, true, false, none, some, List, [], ◌∷◌, Text, codes, text_eq, Bool-cases, inl,
  inr,
}
use react_go_workflow.Value.{
  Value, null, int, float, string, Fields, end, field, Object, get_field, index,
}
use react_go_workflow.Engine.Types.{Call, completed}
use react_go_workflow.Engine.Executor.{Server, Answers, execute}
use react_go_workflow.Engine.Samples.{diamond}
use react_go_workflow.Shared.Query.{Query}
use react_go_workflow.Runners.Messages.{webhook_response_runner}
use react_go_workflow.Trigger.Webhook.{
  workflow, StepRun, EndedExecution, handle, should_wait, response_output,
}
use react_go_workflow.Trigger.Webhook.Laws.{JsonColumn, handle-configured}
use react_go_workflow.Trigger.Webhook.Sent.{Sent}

abbrev to_float : Value → Value
to_float (int n) = float n
to_float v = v

unfoldable as_floats : Fields → Fields
as_floats end = end
as_floats (field k v f) = field k (to_float v) (as_floats f)

as_floats-get_field :
    (k : Text) (f : Fields)
    → get_field k (as_floats f)
      ≡ (elim (get_field k f) [ none ↦ none | some v ↦ some (to_float v) ])
unfolding as_floats get_field
as_floats-get_field k end = refl
as_floats-get_field k (field j v f) = elim (Bool-cases (text_eq j k)) [
  | inl same ↦ rw (same, as_floats, get_field) refl
  | inr other ↦ rw (other, as_floats, get_field) (as_floats-get_field k f)
]

abbrev floats : JsonColumn int pos
floats = record {
  store = as_floats;
  store_value = to_float;
  entries = as_floats-get_field;
  numbers = λ x. (x, refl, refl);
  default = (200, refl, refl);
}

-- The status code of the config is 201.
abbrev config : Object
config =
    some (field (codes "status_code") (float 201) (field (codes "body") (string (codes "hi")) end))

abbrev call : Call
call = record { step = 1; attempt = 1; timeout = none }

abbrev output : Fields
output =
    field (codes "status_code") (int 201)
      (field (codes "body") (string (codes "hi")) (field (codes "headers") null end))

abbrev runs : List StepRun
runs =
    record { step_type = some (codes "log"); output = some end }
    ∷ record { step_type = some (codes "webhook_response"); output = some (as_floats output) }
    ∷ []

abbrev over : EndedExecution
over = record { status = completed; step_runs = runs; output = none; error = [] }

abbrev waiting_query : Query
waiting_query = (codes "wait", codes "1") ∷ []

abbrev answers : Answers
answers = record {
  workflow = some diamond;
  can_query = true;
  new_id = some 7;
  can_create = λ _. true;
}

abbrev nothing_runs : Server
nothing_runs = record { executions = []; cancels = λ _. false; cancelled = λ _. false; live = [] }

handle-configured_example :
    Sent pos
      (λ _. none)
      (execute answers nothing_runs).id
      completed
      (string (codes "hi"))
      (pos 201)
      (handle pos
        (λ _. none)
        (workflow none)
        waiting_query
        answers
        (λ id n. some over)
        nothing_runs).response
unfolding index
handle-configured_example =
    handle-configured int pos floats (λ _. none) config none none call waiting_query answers
      nothing_runs (λ id n. some over) over
      (record { step_type = some (codes "log"); output = some end } ∷ []) [] output
      (unfold execute in refl) (unfold should_wait in refl) refl (unfold response_output in refl)
      refl (unfold webhook_response_runner in refl)
