-- ===== src/Workflows/Database.antt =====
-- What internal/workflow/repository.go uses of package ent and the database behind it: the statements
-- that it issues, and transactions, which are a parameter.
use mathlib.Core.List.{Perm}
use react_go_workflow.Prelude.{
  ◌≡◌, In, refl, ◌⊎◌, Bool, false, not, List, [], ◌∷◌, ◌++◌, keep, map, ◌||◌, ◌&&◌, ◌==◌,
  if◌then◌else◌,
}
use react_go_workflow.Engine.Types.{Uuid}
use react_go_workflow.Workflows.Tables.{
  Tables, StepRow, EdgeRow, NoteRow, WorkflowRow, SettingRow, Full, read_step, read_edge, read_note,
}

-- Each names the rows that it is about: those of a workflow, or the new row.
pub data Statement : Type 0 where
  delete_notifications delete_step_executions delete_executions delete_settings : Uuid → Statement
  delete_versions delete_edges delete_steps delete_notes delete_workflow : Uuid → Statement
  insert_step : StepRow → Statement
  insert_edge : EdgeRow → Statement
  insert_note : NoteRow → Statement
  insert_workflow : WorkflowRow → Statement
  insert_setting : SettingRow → Statement
  -- The row of the workflow is changed.
  update_workflow : Uuid → (WorkflowRow → WorkflowRow) → Statement

-- stepexecution.HasStepWith(step.WorkflowID(id)): some step of the workflow has the id.
abbrev pub is_step_of : Uuid → List StepRow → Uuid → Bool
is_step_of wf [] id = false
is_step_of wf (s ∷ l) id = (s.id == id && s.workflow_id == wf) || is_step_of wf l id

-- What SQL says that the statements do to the tables.
unfoldable pub apply : Statement → Tables → Tables
apply (delete_notifications wf) t = record t {
  notifications = keep (λ n. not (n.workflow_id == wf)) t.notifications;
}
apply (delete_step_executions wf) t = record t {
  step_executions = keep (λ x. not (is_step_of wf t.steps x.step_id)) t.step_executions;
}
apply (delete_executions wf) t = record t {
  workflow_executions = keep (λ x. not (x.workflow_id == wf)) t.workflow_executions;
}
apply (delete_settings wf) t = record t {
  notification_settings = keep (λ x. not (x.workflow_id == wf)) t.notification_settings;
}
apply (delete_versions wf) t = record t {
  workflow_versions = keep (λ x. not (x.workflow_id == wf)) t.workflow_versions;
}
apply (delete_edges wf) t = record t { edges = keep (λ x. not (x.workflow_id == wf)) t.edges }
apply (delete_steps wf) t = record t { steps = keep (λ x. not (x.workflow_id == wf)) t.steps }
apply (delete_notes wf) t = record t {
  canvas_notes = keep (λ x. not (x.workflow_id == wf)) t.canvas_notes;
}
apply (delete_workflow wf) t = record t { workflows = keep (λ x. not (x.id == wf)) t.workflows }
apply (insert_step s) t = record t { steps = t.steps ++ s ∷ [] }
apply (insert_edge e) t = record t { edges = t.edges ++ e ∷ [] }
apply (insert_note n) t = record t { canvas_notes = t.canvas_notes ++ n ∷ [] }
apply (insert_workflow w) t = record t { workflows = t.workflows ++ w ∷ [] }
apply (insert_setting x) t = record t { notification_settings = t.notification_settings ++ x ∷ [] }
apply (update_workflow wf change) t = record t {
  workflows = map (λ w. if w.id == wf then change w else w) t.workflows;
}

-- The errors as package ent tells them apart.
pub data DbError : Type 0 where
  not_found constraint_failed database_failed : DbError

pub data Reply (A : Type 0) : Type 0 where
  ok : A → Reply A
  err : DbError → Reply A

-- A database with transactions. Every call can fail; Rollback's own error is ignored by the source.
pub record Database : Type 1 where
  pub State : Type 0
  pub Tx : Type 0
  pub begin : State → Reply Tx
  pub exec : Statement → Tx → Reply Tx
  pub commit : Tx → Reply (Unit {0}) × State
  pub rollback : Tx → State
  -- A statement of its own, outside every transaction.
  pub save : Statement → State → Reply State
  -- UpdateOneID(…).Save, which gives back the row that it wrote.
  pub update_row : Uuid → (WorkflowRow → WorkflowRow) → State → Reply (WorkflowRow × State)
  -- Repository.GetFull
  pub get_full : Uuid → State → Reply Full

-- What the source relies on. A transaction sees its own statements and nothing else of them is seen
-- until it commits; a commit that reports an error has been made or has not.
pub record DatabaseLaws (db : Database) : Type 0 where
  -- What is committed, what a transaction sees, and what was committed when it began.
  pub tables : db.State → Tables
  pub seen : db.Tx → Tables
  pub base : db.Tx → Tables
  pub begins :
      (s : db.State) (t : db.Tx) → db.begin s ≡ ok t → (seen t ≡ tables s) × (base t ≡ tables s)
  pub executes :
      (q : Statement) (t u : db.Tx)
      → db.exec q t ≡ ok u
      → (seen u ≡ apply q (seen t)) × (base u ≡ base t)
  pub commits : (t : db.Tx) → (db.commit t).0 ≡ ok tt → tables (db.commit t).1 ≡ seen t
  pub commit_fails :
      (t : db.Tx) → (tables (db.commit t).1 ≡ seen t) ⊎ (tables (db.commit t).1 ≡ base t)
  pub rolls_back : (t : db.Tx) → tables (db.rollback t) ≡ base t
  -- A query lists the rows that are there, in some order.
  pub gets :
      (wf : Uuid) (s : db.State) (f : Full)
      → db.get_full wf s ≡ ok f
      → In f.workflow (tables s).workflows
        × (f.workflow.id ≡ wf)
        × Perm f.steps (map read_step (keep (λ r. r.workflow_id == wf) (tables s).steps))
        × Perm f.edges (map read_edge (keep (λ r. r.workflow_id == wf) (tables s).edges))
        × Perm f.notes (map read_note (keep (λ r. r.workflow_id == wf) (tables s).canvas_notes))
  pub updates :
      (wf : Uuid) (change : WorkflowRow → WorkflowRow) (s t : db.State) (row : WorkflowRow)
      → db.update_row wf change s ≡ ok (row, t)
      → (tables t ≡ apply (update_workflow wf change) (tables s))
        × ((old : WorkflowRow) × In old (tables s).workflows × (old.id ≡ wf) × (row ≡ change old))
  pub saves : (q : Statement) (s t : db.State) → db.save q s ≡ ok t → tables t ≡ apply q (tables s)

-- The tables after statements in order.
unfoldable pub apply_all : List Statement → Tables → Tables
apply_all [] t = t
apply_all (q ∷ l) t = apply_all l (apply q t)

pub apply_all-append :
    (l m : List Statement) (t : Tables) → apply_all (l ++ m) t ≡ apply_all m (apply_all l t)
unfolding apply_all
apply_all-append [] m t = refl
apply_all-append (q ∷ l) m t = apply_all-append l m (apply q t)
