-- ===== src/Workflows/Service.antt =====
-- internal/workflow/service.go: Clone. The other methods only pass on to the repository.
pub mod Copying
pub mod Cloning
use react_go_workflow.Prelude.{
  ℕ, suc, ◌+◌, Option, none, some, List, [], ◌∷◌, ◌++◌, Text, codes, update, length,
}
use react_go_workflow.Engine.Types.{Uuid}
use react_go_workflow.Workflows.Tables.{
  CanvasStep, CanvasEdge, CanvasNote, WorkflowRow, Full, draft, read_text,
}
use react_go_workflow.Workflows.Database.{Database, DbError, Reply, ok, err}
use react_go_workflow.Workflows.Repository.{Canvas, WorkflowEntity, Returned, create, save_canvas}

-- The new workflow: the webhook slug and the notification settings are not copied.
unfoldable pub copy_workflow : WorkflowRow → WorkflowEntity
copy_workflow source = record {
  name = codes "Copy of " ++ source.name;
  description = read_text source.description;
  status = some draft;
  trigger_config = source.trigger_config;
  input_schema = source.input_schema;
  output_schema = source.output_schema;
  webhook_slug = none;
  concurrency = some source.concurrency;
  timeout_seconds = source.timeout_seconds;
}

-- What the loop over the steps leaves: stepIDMap, which gives uuid.Nil on a missing key, the new
-- steps, and how many ids were drawn.
pub record CopiedSteps : Type 0 where
  pub step_id_map : Uuid → Uuid
  pub steps : List CanvasStep
  pub drawn : ℕ

-- `new_id` gives what the calls of uuid.New return, one after the other.
module _ (new_id : ℕ → Uuid) where
  unfoldable pub copy_steps : ℕ → (Uuid → Uuid) → List CanvasStep → CopiedSteps
  copy_steps n ids [] = record { step_id_map = ids; steps = []; drawn = n }
  copy_steps n ids (s ∷ l) =
      let rest = copy_steps (suc n) (update ids s.id (new_id n)) l in
      record rest { steps = record s { id = new_id n } ∷ rest.steps }

  unfoldable pub copy_edges : ℕ → (Uuid → Uuid) → List CanvasEdge → List CanvasEdge
  copy_edges n ids [] = []
  copy_edges n ids (e ∷ l) =
      record e {
        id = new_id n;
        source_step_id = ids e.source_step_id;
        target_step_id = ids e.target_step_id;
      }
      ∷ copy_edges (suc n) ids l

  unfoldable pub copy_notes : ℕ → List CanvasNote → List CanvasNote
  copy_notes n [] = []
  copy_notes n (x ∷ l) = record x { id = new_id n } ∷ copy_notes (suc n) l

  -- The three loops.
  unfoldable pub copy_canvas : ℕ → Full → Canvas
  unfolding copy_steps copy_edges copy_notes
  copy_canvas n f =
      let copied = copy_steps n (λ _. 0) f.steps in
      record {
        steps = copied.steps;
        edges = copy_edges copied.drawn copied.step_id_map f.edges;
        notes = copy_notes (copied.drawn + length f.edges) f.notes;
      }

  module _ (db : Database) where
    abbrev reread : Uuid → Returned db (Unit {0}) → Returned db Full
    reread id r = elim r.reply [
      | err e ↦ record { reply = err e; state = r.state }
      | ok _ ↦ record { reply = db.get_full id r.state; state = r.state }
    ]

    abbrev fill : ℕ → Full → Returned db WorkflowRow → Returned db Full
    fill n f r = elim r.reply [
      | err e ↦ record { reply = err e; state = r.state }
      | ok row ↦ reread row.id (save_canvas db row.id (copy_canvas n f) r.state)
    ]

    -- Service.Clone, from the n-th draw on.
    unfoldable pub clone : ℕ → Uuid → db.State → Returned db Full
    unfolding copy_canvas copy_workflow create save_canvas
    clone n id s = elim (db.get_full id s) [
      | err e ↦ record { reply = err e; state = s }
      | ok f ↦
          fill (suc n) f
            (create db (new_id n) draft f.workflow.concurrency (copy_workflow f.workflow) s)
    ]
