-- ===== src/Workflows/Repository.antt =====
-- internal/workflow/repository.go: what writes to the tables.
pub mod Transactions
pub mod Saving
pub mod Integrity
pub mod Keys
pub mod Joining
pub mod Deleting
use react_go_workflow.Prelude.{ℤ, ◌≡◌, refl, Option, none, some, List, [], ◌∷◌, ◌++◌, map, Text}
use react_go_workflow.Value.{Object, Fields, end, field}
use react_go_workflow.Engine.Types.{Uuid}
use react_go_workflow.Workflows.Tables.{
  Tables, StepRow, EdgeRow, NoteRow, CanvasStep, CanvasEdge, CanvasNote, set_text, WorkflowRow,
  WorkflowStatus, ConcurrencyPolicy,
}
use react_go_workflow.Workflows.Database.{
  Statement, delete_notifications, delete_step_executions, delete_executions, delete_settings,
  delete_versions, delete_edges, delete_steps, delete_notes, delete_workflow, insert_step,
  insert_edge, insert_note, insert_workflow, Database, DbError, Reply, ok, err,
}

-- The deletions of Delete, in its order.
abbrev pub deletions : Uuid → List Statement
deletions id =
    delete_notifications id
    ∷ delete_step_executions id
    ∷ delete_executions id
    ∷ delete_settings id
    ∷ delete_versions id
    ∷ delete_edges id
    ∷ delete_steps id
    ∷ delete_notes id
    ∷ delete_workflow id
    ∷ []

-- The deletions of SaveCanvas, in its order.
abbrev pub canvas_deletions : Uuid → List Statement
canvas_deletions wf =
    delete_edges wf ∷ delete_step_executions wf ∷ delete_steps wf ∷ delete_notes wf ∷ []

-- The columns that SaveCanvas sets for a step.
unfoldable pub write_step : Uuid → CanvasStep → StepRow
write_step wf s = record {
  id = s.id;
  workflow_id = wf;
  step_type_id = s.step_type_id;
  name = s.name;
  description = set_text s.description;
  config = s.config;
  position_x = s.position_x;
  position_y = s.position_y;
  input_mapping = s.input_mapping;
  timeout_seconds = s.timeout_seconds;
  retry_count = s.retry_count;
  retry_backoff = s.retry_backoff;
  retry_delay_ms = s.retry_delay_ms;
}

unfoldable pub write_edge : Uuid → CanvasEdge → EdgeRow
write_edge wf e = record {
  id = e.id;
  workflow_id = wf;
  source_step_id = e.source_step_id;
  target_step_id = e.target_step_id;
  source_output = set_text e.source_output;
  target_input = set_text e.target_input;
  edge_type = e.edge_type;
  condition = e.condition;
}

unfoldable pub write_note : Uuid → CanvasNote → NoteRow
write_note wf n = record {
  id = n.id;
  workflow_id = wf;
  content = set_text n.content;
  color = n.color;
  position_x = n.position_x;
  position_y = n.position_y;
  width = n.width;
  height = n.height;
}

pub record Canvas : Type 0 where
  pub steps : List CanvasStep
  pub edges : List CanvasEdge
  pub notes : List CanvasNote

-- The three loops that create the rows.
abbrev pub insertions : Uuid → Canvas → List Statement
insertions wf c =
    map (λ s. insert_step (write_step wf s)) c.steps
    ++ (map (λ e. insert_edge (write_edge wf e)) c.edges
        ++ map (λ n. insert_note (write_note wf n)) c.notes)

-- What an ent.Workflow holds for Create and Update; the empty status and the empty concurrency are
-- `none`.
pub record WorkflowEntity : Type 0 where
  pub name : Text
  pub description : Text
  pub status : Option WorkflowStatus
  pub trigger_config : Object
  pub input_schema : Object
  pub output_schema : Object
  pub webhook_slug : Option Text
  pub concurrency : Option ConcurrencyPolicy
  pub timeout_seconds : Option ℤ

-- The columns that Create sets.
unfoldable pub new_row : Uuid → WorkflowStatus → ConcurrencyPolicy → WorkflowEntity → WorkflowRow
new_row id status concurrency w = record {
  id = id;
  name = w.name;
  description = set_text w.description;
  status = status;
  trigger_config = w.trigger_config;
  input_schema = w.input_schema;
  output_schema = w.output_schema;
  webhook_slug = w.webhook_slug;
  concurrency = concurrency;
  timeout_seconds = w.timeout_seconds;
}

-- `if s != "" { builder.Set…(s) }` on a column that may have a value.
abbrev pub change_text : Text → Option Text → Option Text
change_text [] old = old
change_text (c ∷ s) old = some (c ∷ s)

abbrev pub change_name : Text → Text → Text
change_name [] old = old
change_name (c ∷ s) old = c ∷ s

abbrev pub change : {A : Type 0} → Option A → A → A
change none old = old
change (some v) old = v

abbrev pub change_option : {A : Type 0} → Option A → Option A → Option A
change_option none old = old
change_option (some v) old = some v

-- A schema that is empty and not nil clears the column.
abbrev pub change_schema : Object → Object → Object
change_schema none old = old
change_schema (some end) old = none
change_schema (some (field k v f)) old = some (field k v f)

-- The columns that Update changes.
unfoldable pub changed : WorkflowEntity → WorkflowRow → WorkflowRow
changed w old = record {
  id = old.id;
  name = change_name w.name old.name;
  description = change_text w.description old.description;
  status = change w.status old.status;
  trigger_config = change_option w.trigger_config old.trigger_config;
  input_schema = change_schema w.input_schema old.input_schema;
  output_schema = change_schema w.output_schema old.output_schema;
  webhook_slug = change_option w.webhook_slug old.webhook_slug;
  concurrency = change w.concurrency old.concurrency;
  timeout_seconds = change_option w.timeout_seconds old.timeout_seconds;
}

module _ (db : Database) where
  -- What is returned, and the database afterwards.
  pub record Returned (A : Type 0) : Type 0 where
    pub reply : Reply A
    pub state : db.State

  -- The query is made with the row that Save wrote.
  abbrev pub wrote : {A : Type 0} → A → db.State → Reply db.State → Returned A
  wrote a s (ok u) = record { reply = ok a; state = u }
  wrote a s (err e) = record { reply = err e; state = s }

  -- Repository.Create, where the id is what uuid.New gives.
  unfoldable pub create :
      Uuid → WorkflowStatus → ConcurrencyPolicy → WorkflowEntity → db.State → Returned WorkflowRow
  unfolding new_row
  create id status concurrency w s =
      let row = new_row id status concurrency w in wrote row s (db.save (insert_workflow row) s)

  abbrev pub updated : db.State → Reply (WorkflowRow × db.State) → Returned WorkflowRow
  updated s (ok (row, u)) = record { reply = ok row; state = u }
  updated s (err e) = record { reply = err e; state = s }

  -- Repository.Update
  unfoldable pub update : Uuid → WorkflowEntity → db.State → Returned WorkflowRow
  unfolding changed
  update id w s = updated s (db.update_row id (changed w) s)

  abbrev finish_commit : Reply (Unit {0}) × db.State → Returned (Unit {0})
  finish_commit (r, s) = record { reply = r; state = s }

  -- The statements of a transaction: the first that fails ends it by Rollback, and otherwise it ends
  -- by Commit.
  unfoldable pub run_statements : List Statement → db.Tx → Returned (Unit {0})
  run_statements [] t = finish_commit (db.commit t)
  run_statements (q ∷ l) t = elim (db.exec q t) [
    | ok u ↦ run_statements l u
    | err e ↦ record { reply = err e; state = db.rollback t }
  ]

  abbrev pub in_transaction : List Statement → db.State → Returned (Unit {0})
  in_transaction l s = elim (db.begin s) [
    | ok t ↦ run_statements l t
    | err e ↦ record { reply = err e; state = s }
  ]

  -- Repository.Delete
  unfoldable pub delete : Uuid → db.State → Returned (Unit {0})
  unfolding run_statements
  delete id s = in_transaction (deletions id) s

  -- Repository.SaveCanvas
  unfoldable pub save_canvas : Uuid → Canvas → db.State → Returned (Unit {0})
  unfolding run_statements write_step write_edge write_note
  save_canvas wf c s = in_transaction (canvas_deletions wf ++ insertions wf c) s
