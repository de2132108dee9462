-- ===== src/Runners/Register.antt =====
-- runners/registry.go and RunnerRegistry.Register of internal/engine/runner.go.
use react_go_workflow.Prelude.{ℕ, Text, codes, insert}
use react_go_workflow.Value.{Value}
use react_go_workflow.Engine.Types.{StepRunner, Registry}
use react_go_workflow.Runners.Compare.{condition_runner}
use react_go_workflow.Runners.Items.{filter_runner, loop_runner}
use react_go_workflow.Runners.Fields.{transform_runner, set_variable_runner}
use react_go_workflow.Runners.Json.{JsonDecoder, json_parse_runner}
use react_go_workflow.Runners.Messages.{
  log_runner, send_email_runner, sub_workflow_runner, database_query_runner,
  webhook_response_runner,
}

-- RunnerRegistry.Register
unfoldable pub register : Text → StepRunner → Registry → Registry
unfolding insert
register step_type runner registry = insert step_type runner registry

-- What the runners take from outside: strconv and the conversion of floats, encoding/json, and the two
-- runners that wait for the network and for the clock.
pub record Outside : Type 0 where
  pub format_float : ℕ → Text
  pub int_of_float : ℕ → Value
  pub json : JsonDecoder
  pub http_request : StepRunner
  pub delay : StepRunner

-- RegisterAll
unfoldable pub register_all : Outside → Registry → Registry
unfolding register
register_all o registry =
    let r1 = register (codes "http_request") o.http_request registry in
    let r2 = register (codes "transform") transform_runner r1 in
    let r3 = register (codes "condition") (condition_runner o.format_float) r2 in
    let r4 = register (codes "loop") loop_runner r3 in
    let r5 = register (codes "delay") o.delay r4 in
    let r6 = register (codes "log") (log_runner o.format_float) r5 in
    let r7 = register (codes "set_variable") set_variable_runner r6 in
    let r8 = register (codes "send_email") send_email_runner r7 in
    let r9 = register (codes "database_query") database_query_runner r8 in
    let r10 = register (codes "webhook_response") (webhook_response_runner o.int_of_float) r9 in
    let r11 = register (codes "json_parse") (json_parse_runner o.json) r10 in
    let r12 = register (codes "filter") (filter_runner o.format_float) r11 in
    register (codes "sub_workflow") sub_workflow_runner r12
