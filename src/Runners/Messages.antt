-- ===== src/Runners/Messages.antt =====
-- runners/log.go, send_email.go, sub_workflow.go, database_query.go and webhook_response.go: runners that
-- check their config and answer.
use react_go_workflow.Prelude.{ℕ, true, ◌||◌, some, [], ◌++◌, Text, codes, text_eq, if◌then◌else◌}
use react_go_workflow.Value.{Value, bool, int, float, string, array, nil, end, field, index, sprint}
use react_go_workflow.Engine.Errors.{ok, err, runner_error}
use react_go_workflow.Engine.Types.{StepRunner}
use react_go_workflow.Runners.Compare.{as_string}

-- LogRunner.Run
unfoldable pub log_runner : (ℕ → Text) → StepRunner
unfolding sprint index text_eq
log_runner format_float call config input =
    let said = as_string (index config (codes "message")) in
    let message =
      if text_eq said [] then sprint format_float (index config (codes "message")) else said in
    ok (
      some (
        field (codes "message") (string message)
          (field (codes "level") (string (as_string (index config (codes "level")))) end)))

-- SendEmailRunner.Run
unfoldable pub send_email_runner : StepRunner
unfolding index text_eq
send_email_runner call config input =
    let to = as_string (index config (codes "to")) in
    let subject = as_string (index config (codes "subject")) in
    if text_eq to [] || text_eq subject []
    then err (runner_error (codes "to and subject are required"))
    else ok (
        some (
          field (codes "sent") (bool true)
            (field (codes "message_id") (string (codes "mock-" ++ to)) end)))

-- SubWorkflowRunner.Run
unfoldable pub sub_workflow_runner : StepRunner
unfolding index text_eq
sub_workflow_runner call config input =
    let id = as_string (index config (codes "workflow_id")) in
    if text_eq id []
    then err (runner_error (codes "workflow_id is required"))
    else ok (
        some (
          field (codes "message")
            (string (codes "sub-workflow " ++ (id ++ codes " would be executed"))) end))

-- DatabaseQueryRunner.Run
unfoldable pub database_query_runner : StepRunner
unfolding index text_eq
database_query_runner call config input =
    let connection = as_string (index config (codes "connection_string")) in
    let query = as_string (index config (codes "query")) in
    if text_eq connection [] || text_eq query []
    then err (runner_error (codes "connection_string and query are required"))
    else ok (some (field (codes "rows") (array nil) (field (codes "row_count") (int 0) end)))

-- int(v) of a float64 is a parameter.
module _ (int_of_float : ℕ → Value) where
  abbrev pub status_code : Value → Value
  status_code (float x) = int_of_float x
  status_code _ = int 200

  -- WebhookResponseRunner.Run
  unfoldable pub webhook_response_runner : StepRunner
  unfolding index
  webhook_response_runner call config input = ok (
      some (
        field (codes "status_code") (status_code (index config (codes "status_code"))) (
          field (codes "body") (index config (codes "body"))
            (field (codes "headers") (index config (codes "headers")) end))))
