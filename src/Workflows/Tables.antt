-- ===== src/Workflows/Tables.antt =====
-- The tables of ent/schema that internal/workflow writes, and what the entities of package ent hold.
-- A column that may be NULL is an Option; package ent reads NULL as the zero value. A float64 is its
-- 64-bit pattern.
use react_go_workflow.Prelude.{ℕ, ℤ, Bool, ◌≡◌, refl, Option, none, some, List, [], ◌∷◌, Text}
use react_go_workflow.Value.{Object}
use react_go_workflow.Engine.Types.{Uuid, Backoff, EdgeType}

-- The fields of an ent.Step that SaveCanvas and Clone read.
pub record CanvasStep : Type 0 where
  pub id : Uuid
  pub step_type_id : Uuid
  pub name : Text
  pub description : Text
  pub config : Object
  pub position_x : ℕ
  pub position_y : ℕ
  pub input_mapping : Object
  pub timeout_seconds : ℤ
  pub retry_count : ℤ
  pub retry_backoff : Backoff
  pub retry_delay_ms : ℤ

-- The fields of an ent.Edge.
pub record CanvasEdge : Type 0 where
  pub id : Uuid
  pub source_step_id : Uuid
  pub target_step_id : Uuid
  pub source_output : Text
  pub target_input : Text
  pub edge_type : EdgeType
  pub condition : Object

-- The fields of an ent.CanvasNote.
pub record CanvasNote : Type 0 where
  pub id : Uuid
  pub content : Text
  pub color : Text
  pub position_x : ℕ
  pub position_y : ℕ
  pub width : ℕ
  pub height : ℕ

pub data WorkflowStatus : Type 0 where
  draft active archived : WorkflowStatus

pub data ConcurrencyPolicy : Type 0 where
  allow skip queue : ConcurrencyPolicy

-- A row of steps: the columns that a builder sets, with those that may stay NULL.
pub record StepRow : Type 0 where
  pub id : Uuid
  pub workflow_id : Uuid
  pub step_type_id : Uuid
  pub name : Text
  pub description : Option Text
  pub config : Object
  pub position_x : ℕ
  pub position_y : ℕ
  pub input_mapping : Object
  pub timeout_seconds : ℤ
  pub retry_count : ℤ
  pub retry_backoff : Backoff
  pub retry_delay_ms : ℤ

-- A row of edges.
pub record EdgeRow : Type 0 where
  pub id : Uuid
  pub workflow_id : Uuid
  pub source_step_id : Uuid
  pub target_step_id : Uuid
  pub source_output : Option Text
  pub target_input : Option Text
  pub edge_type : EdgeType
  pub condition : Object

-- A row of canvas_notes.
pub record NoteRow : Type 0 where
  pub id : Uuid
  pub workflow_id : Uuid
  pub content : Option Text
  pub color : Text
  pub position_x : ℕ
  pub position_y : ℕ
  pub width : ℕ
  pub height : ℕ

-- A row of workflows.
pub record WorkflowRow : Type 0 where
  pub id : Uuid
  pub name : Text
  pub description : Option Text
  pub status : WorkflowStatus
  pub trigger_config : Object
  pub input_schema : Object
  pub output_schema : Object
  pub webhook_slug : Option Text
  pub concurrency : ConcurrencyPolicy
  pub timeout_seconds : Option ℤ

pub data Channel : Type 0 where
  in_app email webhook : Channel

pub data NotifyOn : Type 0 where
  failure success all : NotifyOn

-- A row of notification_settings.
pub record SettingRow : Type 0 where
  pub id : Uuid
  pub workflow_id : Uuid
  pub enabled : Bool
  pub channel : Channel
  pub config : Object
  pub notify_on : NotifyOn

-- A row of workflow_versions.
pub record VersionRow : Type 0 where
  pub id : Uuid
  pub workflow_id : Uuid

-- A row of workflow_executions.
pub record ExecutionRow : Type 0 where
  pub id : Uuid
  pub workflow_id : Uuid
  pub workflow_version_id : Option Uuid

-- A row of step_executions.
pub record StepExecutionRow : Type 0 where
  pub id : Uuid
  pub workflow_execution_id : Uuid
  pub step_id : Uuid

-- A row of notifications.
pub record NotificationRow : Type 0 where
  pub id : Uuid
  pub workflow_execution_id : Uuid
  pub workflow_id : Uuid

pub record Tables : Type 0 where
  pub workflows : List WorkflowRow
  pub steps : List StepRow
  pub edges : List EdgeRow
  pub canvas_notes : List NoteRow
  pub workflow_versions : List VersionRow
  pub workflow_executions : List ExecutionRow
  pub step_executions : List StepExecutionRow
  pub notification_settings : List SettingRow
  pub notifications : List NotificationRow

-- `if s != "" { builder.Set…(s) }`
abbrev pub set_text : Text → Option Text
set_text [] = none
set_text (c ∷ s) = some (c ∷ s)

-- A NULL text is read as the empty one.
abbrev pub read_text : Option Text → Text
read_text none = []
read_text (some s) = s

pub read_text-set_text : (s : Text) → read_text (set_text s) ≡ s
read_text-set_text [] = refl
read_text-set_text (c ∷ s) = refl

-- The entities that a query gives back.
unfoldable pub read_step : StepRow → CanvasStep
read_step r = record {
  id = r.id;
  step_type_id = r.step_type_id;
  name = r.name;
  description = read_text r.description;
  config = r.config;
  position_x = r.position_x;
  position_y = r.position_y;
  input_mapping = r.input_mapping;
  timeout_seconds = r.timeout_seconds;
  retry_count = r.retry_count;
  retry_backoff = r.retry_backoff;
  retry_delay_ms = r.retry_delay_ms;
}

unfoldable pub read_edge : EdgeRow → CanvasEdge
read_edge r = record {
  id = r.id;
  source_step_id = r.source_step_id;
  target_step_id = r.target_step_id;
  source_output = read_text r.source_output;
  target_input = read_text r.target_input;
  edge_type = r.edge_type;
  condition = r.condition;
}

unfoldable pub read_note : NoteRow → CanvasNote
read_note r = record {
  id = r.id;
  content = read_text r.content;
  color = r.color;
  position_x = r.position_x;
  position_y = r.position_y;
  width = r.width;
  height = r.height;
}

-- What Repository.GetFull gives back of a workflow, in the order in which the database lists the rows.
pub record Full : Type 0 where
  pub workflow : WorkflowRow
  pub steps : List CanvasStep
  pub edges : List CanvasEdge
  pub notes : List CanvasNote
