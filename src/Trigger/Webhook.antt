-- ===== src/Trigger/Webhook.antt =====
-- internal/trigger/webhook.go and manual.go: the requests that start an execution, over Execute and
-- WaitForCompletion.
pub mod Sent
pub mod Laws
use react_go_workflow.Prelude.{
  ℕ, ℤ, pos, negsuc, Bool, true, false, not, ◌&&◌, ◌||◌, ◌==◌, Option, none, some, List, [], ◌∷◌,
  Text, codes, text_eq, ltb, leb, if◌then◌else◌,
}
use react_go_workflow.Value.{Value, null, bool, float, string, Fields, Object, get_field}
use react_go_workflow.Engine.Types.{Uuid, Status, failed, Workflow}
use react_go_workflow.Engine.Executor.{Server, Answers, ExecuteError, execute}
use react_go_workflow.Shared.Query.{Query, get}
use react_go_workflow.Shared.Numbers.{atoi}

-- The workflow of the slug.
pub data WebhookFound : Type 0 where
  workflow : (trigger_config : Object) → WebhookFound
  not_found query_failed : WebhookFound

-- A row of step_executions with the name of the type of its step, where both are there.
pub record StepRun : Type 0 where
  pub step_type : Option Text
  pub output : Object

-- The execution that WaitForCompletion returns.
pub record EndedExecution : Type 0 where
  pub status : Status
  pub step_runs : List StepRun
  pub output : Object
  pub error : Text

-- What the handler writes; net/http sends no body with the codes 101, 204 and 304.
pub data WebhookResponse : Type 0 where
  webhook_not_found internal_error : WebhookResponse
  conflict : ExecuteError → WebhookResponse
  accepted request_timeout : Uuid → WebhookResponse
  -- A status code with a body, or with the id and the status of the execution.
  custom : ℤ → Value → WebhookResponse
  custom_status : ℤ → Uuid → Status → WebhookResponse
  ended : ℤ → Uuid → EndedExecution → WebhookResponse
  -- An informational code, after which net/http sends the body with code 200.
  informed : ℤ → WebhookResponse → WebhookResponse
  -- WriteHeader panics on a code that has not three digits, and no answer is written.
  panics : WebhookResponse

pub record Handled : Type 0 where
  pub response : WebhookResponse
  pub server : Server

-- tc["webhook_sync"].(bool)
abbrev is_true : Option Value → Bool
is_true (some (bool b)) = b
is_true _ = false

abbrev sync_from_config : Object → Bool
sync_from_config none = false
sync_from_config (some f) = is_true (get_field (codes "webhook_sync") f)

unfoldable pub should_wait : Query → Object → Bool
unfolding get text_eq get_field
should_wait q config =
    let wait = get (codes "wait") q in
    text_eq wait (codes "true") || text_eq wait (codes "1") || sync_from_config config

abbrev seconds : Option ℤ → ℕ
seconds (some (pos n)) = if ltb 0 n && leb n 300 then n else 30
seconds _ = 30

-- The timeout in seconds.
unfoldable pub wait_timeout : Query → ℕ
unfolding get text_eq atoi
wait_timeout q = let t = get (codes "timeout") q in if text_eq t [] then 30 else seconds (atoi t)

abbrev pub is_response_type : Option Text → Bool
is_response_type none = false
is_response_type (some name) = text_eq name (codes "webhook_response")

-- The output of the first step of type webhook_response that has one.
unfoldable pub response_output : List StepRun → Option Fields
unfolding text_eq
response_output [] = none
response_output (r ∷ l) =
    let rest = response_output l in
    elim r.output [ none ↦ rest | some f ↦ if is_response_type r.step_type then some f else rest ]

-- `int` is the conversion of a float64, and `unmarshal` is json.Unmarshal.
module _ (int : ℕ → ℤ) (unmarshal : Text → Option Value) where
  abbrev pub status_code : Option Value → ℤ
  status_code (some (float x)) = int x
  status_code _ = pos 200

  abbrev pub parsed_body : Value → Option Value → Value
  parsed_body body none = body
  parsed_body body (some v) = v

  abbrev pub custom_body : ℤ → Uuid → Status → Option Value → WebhookResponse
  custom_body code id status none = custom_status code id status
  custom_body code id status (some null) = custom_status code id status
  custom_body code id status (some (string s)) = custom code (parsed_body (string s) (unmarshal s))
  custom_body code id status (some v) = custom code v

  -- What WriteJSON writes with a code, a map or a body of its own.
  abbrev write_json : ℤ → (ℤ → WebhookResponse) → WebhookResponse
  write_json (negsuc n) answer = panics
  write_json (pos n) answer =
      if ltb n 100 || ltb 999 n
      then panics
      else if ltb n 200 && not (n == 101)
      then informed (pos n) (answer (pos 200))
      else answer (pos n)

  abbrev pub custom_response : ℤ → Uuid → Status → Option Value → WebhookResponse
  custom_response code id status body = write_json code (λ c. custom_body c id status body)

  abbrev pub standard_response : Uuid → EndedExecution → WebhookResponse
  standard_response id x = ended (elim x.status [ failed ↦ pos 500 | _ ↦ pos 200 ]) id x

  -- From the return of WaitForCompletion on.
  unfoldable pub respond : Uuid → Option EndedExecution → WebhookResponse
  unfolding response_output get_field
  respond id none = request_timeout id
  respond id (some x) = elim (response_output x.step_runs) [
    | none ↦ standard_response id x
    | some f ↦
        custom_response (status_code (get_field (codes "status_code") f)) id x.status
          (get_field (codes "body") f)
  ]

  abbrev pub triggered :
      Query
      → Object
      → (Uuid → ℕ → Option EndedExecution)
      → Uuid
      → Option ExecuteError
      → WebhookResponse
  triggered q config wait id (some e) = conflict e
  triggered q config wait id none =
      if should_wait q config then respond id (wait id (wait_timeout q)) else accepted id

  -- Handle, where `wait` is WaitForCompletion: `none` stands for its errors.
  unfoldable pub handle :
      WebhookFound → Query → Answers → (Uuid → ℕ → Option EndedExecution) → Server → Handled
  unfolding should_wait wait_timeout respond execute
  handle not_found q a wait v = record { response = webhook_not_found; server = v }
  handle query_failed q a wait v = record { response = internal_error; server = v }
  handle (workflow config) q a wait v =
      let x = execute a v in
      record { response = triggered q config wait x.id x.error; server = x.server }

-- What a manual trigger answers.
pub data ManualResponse : Type 0 where
  invalid_id : ManualResponse
  execution_failed : ExecuteError → ManualResponse
  started : Uuid → ManualResponse

abbrev manual_response : Uuid → Option ExecuteError → ManualResponse
manual_response id (some e) = execution_failed e
manual_response id none = started id

pub record Triggered : Type 0 where
  pub response : ManualResponse
  pub server : Server

-- ManualHandler.Execute, where the id of the path was parsed or not.
unfoldable pub execute_manual : Option Uuid → Answers → Server → Triggered
unfolding execute
execute_manual none a v = record { response = invalid_id; server = v }
execute_manual (some wf) a v =
    let x = execute a v in record { response = manual_response x.id x.error; server = x.server }
