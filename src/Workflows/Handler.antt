-- ===== src/Workflows/Handler.antt =====
-- internal/workflow/handler.go: what the handlers do to the database and to the cron scheduler, and what they
-- answer. A body is what shared.DecodeAndValidate makes of it, or `none` where that fails; an enum that the
-- body leaves empty is `none`.
pub mod Scheduling
pub mod Backing
pub mod Serving
pub mod Running
pub mod Jobs
pub mod Change
use react_go_workflow.Prelude.{ℕ, suc, ℤ, Bool, Option, none, some, List, [], ◌∷◌, map, Text, codes}
use react_go_workflow.Value.{Object}
use react_go_workflow.Engine.Types.{Uuid, Backoff, no_backoff, EdgeType, normal}
use react_go_workflow.Trigger.Cron.{
  CronLibrary, CronWorkflow, CronScheduler, new_cron_scheduler, sync, remove, start,
}
use react_go_workflow.Workflows.Tables.{
  CanvasStep, CanvasEdge, CanvasNote, WorkflowRow, WorkflowStatus, draft, active, archived,
  ConcurrencyPolicy, allow, Channel, NotifyOn, SettingRow, Full,
}
use react_go_workflow.Workflows.Database.{
  Database, DbError, not_found, constraint_failed, database_failed, Reply, ok, err, delete_settings,
  insert_setting,
}
use react_go_workflow.Workflows.Repository.{
  Canvas, WorkflowEntity, Returned, create, update, delete, save_canvas,
}
use react_go_workflow.Workflows.Service.{clone}
use react_go_workflow.Workflows.Requests.{
  CreateRequest, SettingUpdate, UpdateRequest, RequestStep, RequestEdge, RequestNote, CanvasRequest,
  Response, error_response, created_entity, updated_entity, cron_row, Request, to_step, to_edge,
  to_note, to_canvas, created, updated, cloned, full, no_content, invalid_id, invalid_body,
  workflow_not_found, internal_error, creating, updating, deleting, saving_canvas, cloning,
  restarting,
}

-- `parse` is uuid.Parse, `new_id` gives the ids of new rows, and `all` is the query of Start.
module _ (parse : Text → Option Uuid) (new_id : ℕ → Uuid) (db : Database)
    (all : db.State → Reply (List WorkflowRow)) (lib : CronLibrary) where
  pub record Server : Type 0 where
    pub database : db.State
    pub scheduler : CronScheduler lib

  pub record Handled : Type 0 where
    pub response : Response
    pub server : Server

  abbrev refused : Response → Server → Handled
  refused r s = record { response = r; server = s }

  abbrev pub created_reply : Reply WorkflowRow → Response
  created_reply (ok row) = created row
  created_reply (err e) = internal_error

  -- Create, whose row gets the n-th id.
  unfoldable pub on_create : ℕ → Option CreateRequest → Server → Handled
  unfolding create
  on_create n none s = refused invalid_body s
  on_create n (some req) s =
      let r = create db (new_id n) draft allow (created_entity req) s.database in
      record { response = created_reply r.reply; server = record s { database = r.state } }

  -- A statement whose error is dropped.
  abbrev pub tried : db.State → Reply db.State → db.State
  tried s (ok u) = u
  tried s (err e) = s

  abbrev pub setting_row : Uuid → Uuid → SettingUpdate → SettingRow
  setting_row id wf x = record {
    id = id;
    workflow_id = wf;
    enabled = x.enabled;
    channel = x.channel;
    config = x.config;
    notify_on = x.notify_on;
  }

  unfoldable pub create_settings : ℕ → Uuid → List SettingUpdate → db.State → db.State
  create_settings n wf [] s = s
  create_settings n wf (x ∷ l) s =
      create_settings (suc n) wf l
        (tried s (db.save (insert_setting (setting_row (new_id n) wf x)) s))

  abbrev pub replace_settings : ℕ → Uuid → List SettingUpdate → db.State → db.State
  replace_settings n wf l s = create_settings n wf l (tried s (db.save (delete_settings wf) s))

  abbrev full_reply : Reply Full → Response
  full_reply (ok f) = full f
  full_reply (err e) = internal_error

  -- The settings of the request, if it has any.
  abbrev pub with_settings : ℕ → Uuid → WorkflowRow → Option (List SettingUpdate) → Server → Handled
  with_settings n wf row none s = record { response = updated row; server = s }
  with_settings n wf row (some l) s =
      let d = replace_settings n wf l s.database in
      record { response = full_reply (db.get_full wf d); server = record s { database = d } }

  abbrev pub after_update :
      ℕ → Uuid → Option (List SettingUpdate) → Server → Reply WorkflowRow → Handled
  after_update n wf settings s (err e) = refused (error_response e) s
  after_update n wf settings s (ok row) =
      with_settings n wf row settings
        (record s { scheduler = sync lib (record (cron_row row) { id = wf }) s.scheduler })

  -- Update, whose settings get the ids from the n-th on.
  unfoldable pub on_update : ℕ → Text → Option UpdateRequest → Server → Handled
  unfolding create_settings update sync
  on_update n id body s = elim (parse id) [
    | none ↦ refused invalid_id s
    | some wf ↦ elim body [
      | none ↦ refused invalid_body s
      | some req ↦
          let r = update db wf (updated_entity req) s.database in
          after_update n wf req.notification_settings (record s { database = r.state }) r.reply
    ]
  ]

  abbrev pub after_delete : Uuid → Server → Reply (Unit {0}) → Handled
  after_delete wf s (err e) = refused (error_response e) s
  after_delete wf s (ok _) = record {
    response = no_content;
    server = record s { scheduler = remove lib wf s.scheduler };
  }

  -- Delete
  unfoldable pub on_delete : Text → Server → Handled
  unfolding delete remove
  on_delete id s = elim (parse id) [
    | none ↦ refused invalid_id s
    | some wf ↦
        let r = delete db wf s.database in after_delete wf (record s { database = r.state }) r.reply
  ]

  abbrev pub saved_reply : Uuid → db.State → Reply (Unit {0}) → Response
  saved_reply wf s (err e) = internal_error
  saved_reply wf s (ok _) = full_reply (db.get_full wf s)

  -- SaveCanvas
  unfoldable pub on_save_canvas : Text → Option CanvasRequest → Server → Handled
  unfolding to_step to_edge to_note save_canvas
  on_save_canvas id body s = elim (parse id) [
    | none ↦ refused invalid_id s
    | some wf ↦ elim body [
      | none ↦ refused invalid_body s
      | some req ↦
          let r = save_canvas db wf (to_canvas parse req) s.database in
          record {
            response = saved_reply wf r.state r.reply;
            server = record s { database = r.state };
          }
    ]
  ]

  abbrev pub cloned_reply : Reply Full → Response
  cloned_reply (ok f) = cloned f
  cloned_reply (err e) = error_response e

  -- Clone, from the n-th id on.
  unfoldable pub on_clone : ℕ → Text → Server → Handled
  unfolding clone
  on_clone n id s = elim (parse id) [
    | none ↦ refused invalid_id s
    | some wf ↦
        let r = clone new_id db n wf s.database in
        record { response = cloned_reply r.reply; server = record s { database = r.state } }
  ]

  abbrev pub started : Reply (List WorkflowRow) → CronScheduler lib
  started (ok rows) = start lib (map cron_row rows) (new_cron_scheduler lib)
  started (err e) = new_cron_scheduler lib

  -- The server starts: where Start reports an error, it is logged.
  unfoldable pub boot : db.State → Server
  unfolding start new_cron_scheduler
  boot d = record { database = d; scheduler = started (all d) }

  abbrev pub handle : Request → Server → Server
  handle (creating n body) s = (on_create n body s).server
  handle (updating n id body) s = (on_update n id body s).server
  handle (deleting id) s = (on_delete id s).server
  handle (saving_canvas id body) s = (on_save_canvas id body s).server
  handle (cloning n id) s = (on_clone n id s).server
  handle restarting s = boot s.database

  abbrev pub handle_all : List Request → Server → Server
  handle_all [] s = s
  handle_all (r ∷ l) s = handle_all l (handle r s)
