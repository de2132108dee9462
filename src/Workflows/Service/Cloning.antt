-- ===== src/Workflows/Service/Cloning.antt =====
-- Clone as a whole: what it leaves in the tables, with and without an error.
use react_go_workflow.Prelude.{ℕ, suc, ◌≡◌, [], ◌∷◌, ◌++◌}
use react_go_workflow.Engine.Types.{Uuid}
use react_go_workflow.Workflows.Tables.{Tables, WorkflowRow, Full, draft}
use react_go_workflow.Workflows.Database.{Database, DatabaseLaws, DbError, ok, err}
use react_go_workflow.Workflows.Repository.{Returned, new_row, save_canvas}
use react_go_workflow.Workflows.Repository.Transactions.{CommitReported}
use react_go_workflow.Workflows.Repository.Saving.{Saved}
use react_go_workflow.Workflows.Service.{copy_workflow, copy_canvas}

-- The row of the new workflow.
abbrev pub cloned_row : Uuid → Full → WorkflowRow
cloned_row id f = new_row id draft f.workflow.concurrency (copy_workflow f.workflow)

abbrev pub with_row : WorkflowRow → Tables → Tables
with_row row t = record t { workflows = t.workflows ++ row ∷ [] }

module _ (new_id : ℕ → Uuid) (db : Database) (laws : DatabaseLaws db) where
  open laws use {tables, saves}

  -- SaveCanvas fails for the copied canvas, on tables with the new row.
  abbrev pub NotSaved : ℕ → Full → DbError → Tables → Type 0
  NotSaved n f e t =
      (u : db.State) × (tables u ≡ with_row (cloned_row (new_id n) f) t)
      × ((save_canvas db (new_id n) (copy_canvas new_id (suc n) f) u).reply ≡ err e)

  -- How a call of Clone can end.
  pub data Clones (n : ℕ) (id : Uuid) (s : db.State) (r : Returned db Full) : Type 0 where
    failed : (e : DbError) → r.reply ≡ err e → tables r.state ≡ tables s → Clones n id s r
    left_empty :
        (f : Full) (e : DbError)
        → db.get_full id s ≡ ok f
        → r.reply ≡ err e
        → tables r.state ≡ with_row (cloned_row (new_id n) f) (tables s)
        → NotSaved n f e (tables s)
        → Clones n id s r
    cloned :
        (f : Full)
        → db.get_full id s ≡ ok f
        → Saved
            (new_id n)
            (copy_canvas new_id (suc n) f)
            (with_row (cloned_row (new_id n) f) (tables s))
            (tables r.state)
        → r.reply ≡ db.get_full (new_id n) r.state
        → Clones n id s r
    cloned_unreported :
        (f : Full) (e : DbError)
        → db.get_full id s ≡ ok f
        → Saved
            (new_id n)
            (copy_canvas new_id (suc n) f)
            (with_row (cloned_row (new_id n) f) (tables s))
            (tables r.state)
        → r.reply ≡ err e
        → CommitReported db laws e (tables r.state)
        → Clones n id s r

  module _ (n : ℕ) (id : Uuid) (s : db.State) (f : Full) (found : db.get_full id s ≡ ok f) where
    abbrev row : WorkflowRow
    row = cloned_row (new_id n) f
