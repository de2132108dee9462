-- ===== src/Workflows/Repository/Integrity.antt =====
-- The foreign keys of the tables, and what keeps them. The database refuses a statement that breaks
-- one (OnDelete is NoAction), so the order of the statements matters.
pub mod Deletions
use mathlib.Core.Bool.{false≢true}
use react_go_workflow.Prelude.{
  ℕ, ◌≡◌, ◌≢◌, sym, ap, subst, ◌∙◌, Bool, true, false, not, inl, inr, List, [], ◌∷◌, ◌++◌, keep, In,
  ◌==◌, arith, In-keep, In-of-keep, In-append_left,
}
use react_go_workflow.Engine.Types.{Uuid}
use react_go_workflow.Workflows.Tables.{
  Tables, StepRow, EdgeRow, NoteRow, WorkflowRow, VersionRow, SettingRow, ExecutionRow,
  StepExecutionRow, NotificationRow,
}
use react_go_workflow.Workflows.Database.{
  delete_notifications, delete_step_executions, delete_executions, delete_settings, delete_versions,
  delete_edges, delete_steps, delete_notes, delete_workflow, is_step_of, apply,
}

module _ {A B : Type 0} where
  -- Every row of one table has its row in another.
  abbrev pub Refers : List A → List B → (A → B → Type 0) → Type 0
  Refers xs ys K = (x : A) → In x xs → (y : B) × In y ys × K x y

  pub Refers-keep_child :
      (p : A → Bool) (xs : List A) (ys : List B) (K : A → B → Type 0)
      → Refers xs ys K
      → Refers (keep p xs) ys K
  Refers-keep_child p xs ys K h x i = h x (In-of-keep p x xs i).0

  pub Refers-keep_parent :
      (p : B → Bool) (xs : List A) (ys : List B) (K : A → B → Type 0)
      → Refers xs ys K
      → ((x : A) → In x xs → (y : B) → In y ys → K x y → p y ≡ true)
      → Refers xs (keep p ys) K
  Refers-keep_parent p xs ys K h stays x i =
      let (y, j, k) = h x i in (y, In-keep p y ys j (stays x i y j k), k)

  pub Refers-add_parent :
      (xs : List A) (ys : List B) (b : B) (K : A → B → Type 0)
      → Refers xs ys K
      → Refers xs (ys ++ b ∷ []) K
  Refers-add_parent xs ys b K h x i =
      let (y, j, k) = h x i in (y, In-append_left y ys (b ∷ []) j, k)

  pub Refers-add_child :
      (xs : List A) (a : A) (ys : List B) (K : A → B → Type 0)
      → Refers xs ys K
      → (y : B) × In y ys × K a y
      → Refers (xs ++ a ∷ []) ys K
  Refers-add_child [] a ys K h new x (inl e) = subst (λ z. (y : B) × In y ys × K z y) e new
  Refers-add_child [] a ys K h new x (inr i) = absurd i
  Refers-add_child (z ∷ xs) a ys K h new x (inl e) = h x (inl e)
  Refers-add_child (z ∷ xs) a ys K h new x (inr i) =
      Refers-add_child xs a ys K (λ w j. h w (inr j)) new x i

-- The foreign keys of the rows that refer to more than their workflow.
abbrev pub Notified : NotificationRow → ExecutionRow → Type 0
Notified x y = (y.id ≡ x.workflow_execution_id) × (y.workflow_id ≡ x.workflow_id)

abbrev pub Source : EdgeRow → StepRow → Type 0
Source x s = (s.id ≡ x.source_step_id) × (s.workflow_id ≡ x.workflow_id)

abbrev pub Target : EdgeRow → StepRow → Type 0
Target x s = (s.id ≡ x.target_step_id) × (s.workflow_id ≡ x.workflow_id)

abbrev pub Stepped : StepExecutionRow → StepRow → Type 0
Stepped x s = s.id ≡ x.step_id

abbrev pub Executed : StepExecutionRow → ExecutionRow → Type 0
Executed x y = y.id ≡ x.workflow_execution_id

-- An execution of a step belongs to an execution of the step's workflow.
abbrev pub Joined : List StepExecutionRow → List StepRow → List ExecutionRow → Type 0
Joined xs ss ys =
    (x : StepExecutionRow)
    → In x xs
    → (s : StepRow) → In s ss
    → Stepped x s
    → (y : ExecutionRow) → In y ys
    → Executed x y
    → s.workflow_id ≡ y.workflow_id

-- The foreign keys, and that rows which refer to one another belong to one workflow.
pub record IsConsistent (t : Tables) : Type 0 where
  pub steps : Refers t.steps t.workflows (λ x w. w.id ≡ x.workflow_id)
  pub edges : Refers t.edges t.workflows (λ x w. w.id ≡ x.workflow_id)
  pub notes : Refers t.canvas_notes t.workflows (λ x w. w.id ≡ x.workflow_id)
  pub versions : Refers t.workflow_versions t.workflows (λ x w. w.id ≡ x.workflow_id)
  pub settings : Refers t.notification_settings t.workflows (λ x w. w.id ≡ x.workflow_id)
  pub executions : Refers t.workflow_executions t.workflows (λ x w. w.id ≡ x.workflow_id)
  pub notifications : Refers t.notifications t.workflows (λ x w. w.id ≡ x.workflow_id)
  pub notified : Refers t.notifications t.workflow_executions Notified
  pub sources : Refers t.edges t.steps Source
  pub targets : Refers t.edges t.steps Target
  pub stepped : Refers t.step_executions t.steps Stepped
  pub executed : Refers t.step_executions t.workflow_executions Executed
  pub joined : Joined t.step_executions t.steps t.workflow_executions

-- No row of the workflow is left.
abbrev pub None : {A : Type 0} → (A → Uuid) → Uuid → List A → Type 0
None {A} owner wf xs = (x : A) → In x xs → owner x ≢ wf

pub not_same : (a b : ℕ) → a ≢ b → not (a == b) ≡ true
not_same a b n = ground (arith, n)

pub other_than : (a b : ℕ) → not (a == b) ≡ true → a ≢ b
other_than a b h e = ground arith

pub None-keep :
    {A : Type 0} (owner : A → Uuid) (wf : Uuid) (xs : List A)
    → None owner wf (keep (λ x. not (owner x == wf)) xs)
None-keep owner wf xs x i = other_than (owner x) wf (In-of-keep (λ x. not (owner x == wf)) x xs i).1

-- No execution of a step of the workflow is left.
abbrev pub NoStepExecutions : Uuid → Tables → Type 0
NoStepExecutions wf t =
    (x : StepExecutionRow) → In x t.step_executions → is_step_of wf t.steps x.step_id ≡ false

pub NoStepExecutions-keep :
    (wf : Uuid) (t : Tables) → NoStepExecutions wf (apply (delete_step_executions wf) t)
unfolding apply
NoStepExecutions-keep wf t x i =
    negated (is_step_of wf t.steps x.step_id)
      (In-of-keep (λ y. not (is_step_of wf t.steps y.step_id)) x t.step_executions i).1
  where
    negated : (b : Bool) → not b ≡ true → b ≡ false
    negated b h = ground arith

pub is_step_of-In :
    (wf : Uuid) (l : List StepRow) (s : StepRow) (id : Uuid)
    → In s l
    → s.id ≡ id
    → s.workflow_id ≡ wf
    → is_step_of wf l id ≡ true
is_step_of-In wf [] s id i e o = absurd i
is_step_of-In wf (r ∷ l) s id (inl same) e o =
    ground (arith, ap (λ z. z.id) same, ap (λ z. z.workflow_id) same)
is_step_of-In wf (r ∷ l) s id (inr i) e o = ground (arith, is_step_of-In wf l s id i e o)
