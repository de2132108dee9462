-- ===== src/Workflows/Handler/Serving.antt =====
-- What the handlers leave of the scheduler's jobs, request by request.
use react_go_workflow.Prelude.{ℕ, Option, List, Text}
use react_go_workflow.Engine.Types.{Uuid}
use react_go_workflow.Trigger.Cron.{CronLibrary, CronLaws}
use react_go_workflow.Workflows.Tables.{WorkflowRow}
use react_go_workflow.Workflows.Database.{Database, DatabaseLaws, Reply}
use react_go_workflow.Workflows.Handler.Backing.{AllLaws, Host, IsBacked, rows_of}

module _ (parse : Text → Option Uuid) (new_id : ℕ → Uuid) (db : Database) (laws : DatabaseLaws db)
    (all : db.State → Reply (List WorkflowRow)) (lists : AllLaws db laws all) (lib : CronLibrary)
    (cron : CronLaws lib) where
  abbrev pub Kept : Host parse new_id db laws all lists lib cron → Type 0
  Kept s = IsBacked parse new_id db laws all lists lib cron s

  abbrev rows : db.State → List WorkflowRow
  rows s = rows_of parse new_id db laws all lists lib cron s
