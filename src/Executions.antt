-- ===== src/Executions.antt =====
-- internal/execution/handler.go: the filters of List, and Cancel.
pub mod Filters
pub mod Listing
pub mod Meaning
pub mod Splitting
pub mod Dates
pub mod Between
pub mod Names
pub mod Combining
pub mod Laws
mod Witnesses
use react_go_workflow.Prelude.{Option, none, some, Text}
use react_go_workflow.Engine.Types.{
  Uuid, Status, pending, running, completed, failed, skipped, cancelled,
}
use react_go_workflow.Engine.Executor.{Server, cancel}

-- What the query for the row gives.
pub data Found : Type 0 where
  execution : Status → Found
  not_found query_failed : Found

pub data CancelResponse : Type 0 where
  invalid_id execution_not_found internal_error cancelling : CancelResponse
  not_running : Status → CancelResponse

pub record Cancelled : Type 0 where
  pub response : CancelResponse
  pub server : Server

abbrev answer : CancelResponse → Server → Cancelled
answer r v = record { response = r; server = v }

abbrev pub cancel_found : Uuid → Found → Server → Cancelled
unfolding cancel
cancel_found id not_found v = answer execution_not_found v
cancel_found id query_failed v = answer internal_error v
cancel_found id (execution running) v = answer cancelling (cancel id v).1
cancel_found id (execution pending) v = answer cancelling (cancel id v).1
cancel_found id (execution completed) v = answer (not_running completed) v
cancel_found id (execution failed) v = answer (not_running failed) v
cancel_found id (execution skipped) v = answer (not_running skipped) v
cancel_found id (execution cancelled) v = answer (not_running cancelled) v

-- Cancel, where `parse` is uuid.Parse and `get` the query for a row.
unfoldable pub on_cancel : (Text → Option Uuid) → (Uuid → Found) → Text → Server → Cancelled
on_cancel parse get id v = elim (parse id) [
  | none ↦ answer invalid_id v
  | some x ↦ cancel_found x (get x) v
]
