-- ===== src/Workflows/Requests.antt =====
-- internal/workflow/handler.go: the bodies of the requests, what they become, and what is answered. A body is
-- what shared.DecodeAndValidate makes of it; an enum that it leaves empty is `none`.
use react_go_workflow.Prelude.{ℕ, ℤ, Bool, Option, none, some, List, [], ◌∷◌, map, Text, codes}
use react_go_workflow.Value.{Object}
use react_go_workflow.Engine.Types.{Uuid, Backoff, no_backoff, EdgeType, normal}
use react_go_workflow.Trigger.Cron.{CronWorkflow}
use react_go_workflow.Workflows.Tables.{
  CanvasStep, CanvasEdge, CanvasNote, WorkflowRow, WorkflowStatus, draft, active, archived,
  ConcurrencyPolicy, allow, Channel, NotifyOn, Full,
}
use react_go_workflow.Workflows.Database.{DbError, not_found, constraint_failed, database_failed}
use react_go_workflow.Workflows.Repository.{Canvas, WorkflowEntity}

pub record CreateRequest : Type 0 where
  pub name : Text
  pub description : Text
  pub trigger_config : Object
  pub input_schema : Object
  pub output_schema : Object

pub record SettingUpdate : Type 0 where
  pub enabled : Bool
  pub channel : Channel
  pub config : Object
  pub notify_on : NotifyOn

pub record UpdateRequest : Type 0 where
  pub name : Text
  pub description : Text
  pub status : Option WorkflowStatus
  pub trigger_config : Object
  pub concurrency : Option ConcurrencyPolicy
  pub timeout_seconds : Option ℤ
  pub webhook_slug : Text
  pub input_schema : Object
  pub output_schema : Object
  pub notification_settings : Option (List SettingUpdate)

-- A step of a canvas as the client sends it, with its ids as texts.
pub record RequestStep : Type 0 where
  pub id : Text
  pub step_type_id : Text
  pub name : Text
  pub description : Text
  pub config : Object
  pub position_x : ℕ
  pub position_y : ℕ
  pub input_mapping : Object
  pub timeout_seconds : ℤ
  pub retry_count : ℤ
  pub retry_backoff : Option Backoff
  pub retry_delay_ms : ℤ

pub record RequestEdge : Type 0 where
  pub id : Text
  pub source_step_id : Text
  pub target_step_id : Text
  pub source_output : Text
  pub target_input : Text
  pub edge_type : Option EdgeType
  pub condition : Object

pub record RequestNote : Type 0 where
  pub id : Text
  pub content : Text
  pub color : Text
  pub position_x : ℕ
  pub position_y : ℕ
  pub width : ℕ
  pub height : ℕ

pub record CanvasRequest : Type 0 where
  pub steps : List RequestStep
  pub edges : List RequestEdge
  pub notes : List RequestNote

-- What a handler answers.
pub data Response : Type 0 where
  created updated : WorkflowRow → Response
  cloned full : Full → Response
  no_content invalid_id invalid_body workflow_not_found internal_error : Response

abbrev pub error_response : DbError → Response
error_response not_found = workflow_not_found
error_response constraint_failed = internal_error
error_response database_failed = internal_error

-- The workflow that Create makes.
abbrev pub created_entity : CreateRequest → WorkflowEntity
created_entity req = record {
  name = req.name;
  description = req.description;
  status = some draft;
  trigger_config = req.trigger_config;
  input_schema = req.input_schema;
  output_schema = req.output_schema;
  webhook_slug = none;
  concurrency = some allow;
  timeout_seconds = none;
}

abbrev pub slug : Text → Option Text
slug [] = none
slug (c ∷ s) = some (c ∷ s)

-- The changes that Update asks for.
abbrev pub updated_entity : UpdateRequest → WorkflowEntity
updated_entity req = record {
  name = req.name;
  description = req.description;
  status = req.status;
  trigger_config = req.trigger_config;
  input_schema = req.input_schema;
  output_schema = req.output_schema;
  webhook_slug = slug req.webhook_slug;
  concurrency = req.concurrency;
  timeout_seconds = req.timeout_seconds;
}

abbrev status_text : WorkflowStatus → Text
status_text draft = codes "draft"
status_text active = codes "active"
status_text archived = codes "archived"

-- What the scheduler takes of a row.
abbrev pub cron_row : WorkflowRow → CronWorkflow
cron_row w = record {
  id = w.id;
  name = w.name;
  status = status_text w.status;
  trigger_config = w.trigger_config;
}

abbrev pub or_else : {A : Type 0} → A → Option A → A
or_else d none = d
or_else d (some a) = a

abbrev or_yellow : Text → Text
or_yellow [] = codes "yellow"
or_yellow (c ∷ s) = c ∷ s

-- What a server is asked, one after the other; a restart keeps the database.
pub data Request : Type 0 where
  creating : ℕ → Option CreateRequest → Request
  updating : ℕ → Text → Option UpdateRequest → Request
  deleting : Text → Request
  saving_canvas : Text → Option CanvasRequest → Request
  cloning : ℕ → Text → Request
  restarting : Request

-- `parse` is uuid.Parse; where its error is dropped the id is uuid.Nil.
module _ (parse : Text → Option Uuid) where
  abbrev parsed : Text → Uuid
  parsed t = or_else 0 (parse t)

  unfoldable pub to_step : RequestStep → CanvasStep
  to_step s = record {
    id = parsed s.id;
    step_type_id = parsed s.step_type_id;
    name = s.name;
    description = s.description;
    config = s.config;
    position_x = s.position_x;
    position_y = s.position_y;
    input_mapping = s.input_mapping;
    timeout_seconds = s.timeout_seconds;
    retry_count = s.retry_count;
    retry_backoff = or_else no_backoff s.retry_backoff;
    retry_delay_ms = s.retry_delay_ms;
  }

  unfoldable pub to_edge : RequestEdge → CanvasEdge
  to_edge e = record {
    id = parsed e.id;
    source_step_id = parsed e.source_step_id;
    target_step_id = parsed e.target_step_id;
    source_output = e.source_output;
    target_input = e.target_input;
    edge_type = or_else normal e.edge_type;
    condition = e.condition;
  }

  unfoldable pub to_note : RequestNote → CanvasNote
  to_note n = record {
    id = parsed n.id;
    content = n.content;
    color = or_yellow n.color;
    position_x = n.position_x;
    position_y = n.position_y;
    width = n.width;
    height = n.height;
  }

  abbrev pub to_canvas : CanvasRequest → Canvas
  to_canvas req = record {
    steps = map to_step req.steps;
    edges = map to_edge req.edges;
    notes = map to_note req.notes;
  }
