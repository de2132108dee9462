-- ===== src/Notifications.antt =====
-- internal/notification/dispatch.go: what Dispatch does for the end of an execution.
pub mod Inbox
pub mod Laws
pub mod Witnesses
use react_go_workflow.Prelude.{
  Bool, true, false, ◌&&◌, Option, none, some, List, [], ◌∷◌, ◌++◌, Text, codes, text_eq, keep,
  ◌==◌, if◌then◌else◌,
}
use react_go_workflow.Value.{Value, string, Object, Fields, end, field, index}
use react_go_workflow.Engine.Types.{Uuid}
use react_go_workflow.Workflows.Tables.{
  SettingRow, Channel, in_app, email, webhook, NotifyOn, failure, success, all,
}

pub data Severity : Type 0 where
  info succeeded error : Severity

-- A new row of notifications, without its id and times.
pub record Notification : Type 0 where
  pub workflow_id : Uuid
  pub workflow_execution_id : Uuid
  pub title : Text
  pub message : Text
  pub severity : Severity

-- The payload of a webhook, without its timestamp; no error is left out of it.
pub record Payload : Type 0 where
  pub workflow_id : Uuid
  pub workflow_name : Text
  pub execution_id : Uuid
  pub status : Text
  pub error : Option Text

-- What Dispatch does to the outside; whether it arrives is only logged.
pub data Delivery : Type 0 where
  store : Notification → Delivery
  post : (url : Text) → Payload → Delivery

-- The arguments of Dispatch.
pub record Ended : Type 0 where
  pub workflow_id : Uuid
  pub workflow_name : Text
  pub execution_id : Uuid
  pub status : Text
  pub err_msg : Text

-- shouldNotify
unfoldable pub should_notify : NotifyOn → Text → Bool
unfolding text_eq
should_notify all status = true
should_notify failure status = text_eq status (codes "failed")
should_notify success status = text_eq status (codes "completed")

abbrev or_default : Text → Text → Text
or_default [] d = d
or_default (c ∷ s) d = c ∷ s

-- dispatchInApp
unfoldable pub dispatch_in_app : Ended → Delivery
unfolding text_eq
dispatch_in_app e =
    let titled = λ (message : Text) (severity : Severity). store (record {
      workflow_id = e.workflow_id;
      workflow_execution_id = e.execution_id;
      title = e.workflow_name ++ codes " " ++ e.status;
      message = message;
      severity = severity;
    }) in
    if text_eq e.status (codes "completed")
    then titled (codes "Workflow completed successfully") succeeded
    else if text_eq e.status (codes "failed")
    then titled (or_default e.err_msg (codes "Workflow execution failed")) error
    else titled [] info

abbrev error_field : Text → Option Text
error_field [] = none
error_field (c ∷ s) = some (c ∷ s)

abbrev pub payload : Ended → Payload
payload e = record {
  workflow_id = e.workflow_id;
  workflow_name = e.workflow_name;
  execution_id = e.execution_id;
  status = e.status;
  error = error_field e.err_msg;
}

abbrev pub post_to : Value → Ended → List Delivery
post_to (string (c ∷ url)) e = post (c ∷ url) (payload e) ∷ []
post_to _ e = []

-- dispatchWebhook
unfoldable pub dispatch_webhook : Object → Ended → List Delivery
unfolding index
dispatch_webhook config e = post_to (index config (codes "url")) e

-- The switch on the channel.
unfoldable pub dispatch_one : SettingRow → Ended → List Delivery
unfolding dispatch_in_app dispatch_webhook
dispatch_one s e = elim s.channel [
  | in_app ↦ dispatch_in_app e ∷ []
  | webhook ↦ dispatch_webhook s.config e
  | email ↦ []
]

-- The loop over the settings.
unfoldable pub dispatch_all : List SettingRow → Ended → List Delivery
unfolding should_notify dispatch_one
dispatch_all [] e = []
dispatch_all (s ∷ l) e =
    if should_notify s.notify_on e.status
    then dispatch_one s e ++ dispatch_all l e
    else dispatch_all l e

-- Dispatch, where the query for the enabled settings of the workflow answers; none is its failure.
unfoldable pub dispatch : Option (List SettingRow) → Ended → List Delivery
unfolding dispatch_all
dispatch none e = []
dispatch (some rows) e =
    dispatch_all (keep (λ s. s.workflow_id == e.workflow_id && s.enabled) rows) e
