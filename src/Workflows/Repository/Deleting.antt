-- ===== src/Workflows/Repository/Deleting.antt =====
-- Delete: what goes, and that its order breaks no foreign key.
use react_go_workflow.Prelude.{
  ◌≡◌, ◌≢◌, ◌↔◌, refl, true, false, not, List, keep, In, ◌==◌, arith, In-keep, In-of-keep,
}
use react_go_workflow.Engine.Types.{Uuid}
use react_go_workflow.Workflows.Tables.{
  Tables, StepRow, EdgeRow, NoteRow, WorkflowRow, VersionRow, SettingRow, ExecutionRow,
  StepExecutionRow, NotificationRow,
}
use react_go_workflow.Workflows.Database.{
  delete_notifications, delete_step_executions, delete_executions, delete_settings, delete_versions,
  delete_edges, delete_steps, delete_notes, is_step_of, apply, apply_all, Database, DatabaseLaws,
}
use react_go_workflow.Workflows.Repository.{deletions, delete}
use react_go_workflow.Workflows.Repository.Transactions.{
  CommitReported, Atomic, Atomic-map, in_transaction-Atomic,
}
use react_go_workflow.Workflows.Repository.Keys.{
  Through, ChecksKeys, in_transaction-NoConstraint, NoConstraint,
}
use react_go_workflow.Workflows.Repository.Integrity.{
  IsConsistent, None-keep, NoStepExecutions-keep,
}
use react_go_workflow.Workflows.Repository.Integrity.Deletions.{
  delete_notifications-IsConsistent, delete_step_executions-IsConsistent,
  delete_executions-IsConsistent, delete_settings-IsConsistent, delete_versions-IsConsistent,
  delete_edges-IsConsistent, delete_steps-IsConsistent, delete_notes-IsConsistent,
  delete_workflow-IsConsistent,
}

-- The rows of one table that do not belong to the workflow stay, and no other.
abbrev pub OthersStay : {A : Type 0} → (A → Uuid) → Uuid → List A → List A → Type 0
OthersStay {A} owner wf xs ys = (x : A) → In x ys ↔ (In x xs × (owner x ≢ wf))

-- Nothing of the workflow is left, and all else is there.
pub record Removed (wf : Uuid) (t u : Tables) : Type 0 where
  pub workflows : OthersStay (λ (x : WorkflowRow). x.id) wf t.workflows u.workflows
  pub steps : OthersStay (λ (x : StepRow). x.workflow_id) wf t.steps u.steps
  pub edges : OthersStay (λ (x : EdgeRow). x.workflow_id) wf t.edges u.edges
  pub notes : OthersStay (λ (x : NoteRow). x.workflow_id) wf t.canvas_notes u.canvas_notes
  pub versions :
      OthersStay (λ (x : VersionRow). x.workflow_id) wf t.workflow_versions u.workflow_versions
  pub executions :
      OthersStay
        (λ (x : ExecutionRow). x.workflow_id)
        wf
        t.workflow_executions
        u.workflow_executions
  pub settings :
      OthersStay
        (λ (x : SettingRow). x.workflow_id)
        wf
        t.notification_settings
        u.notification_settings
  pub notifications :
      OthersStay (λ (x : NotificationRow). x.workflow_id) wf t.notifications u.notifications
  pub step_executions :
      (x : StepExecutionRow)
      → In x u.step_executions
        ↔ (In x t.step_executions × (is_step_of wf t.steps x.step_id ≡ false))

keep-OthersStay :
    {A : Type 0} (owner : A → Uuid) (wf : Uuid) (xs : List A)
    → OthersStay owner wf xs (keep (λ x. not (owner x == wf)) xs)
keep-OthersStay owner wf xs x = (
  λ i. let (j, passes) = In-of-keep (λ y. not (owner y == wf)) x xs i in (j, other passes),
  λ (j, n). In-keep (λ y. not (owner y == wf)) x xs j (ground (arith, n)),
)
  where
    other : not (owner x == wf) ≡ true → owner x ≢ wf
    other h e = ground arith

keep-step_executions :
    (wf : Uuid) (t : Tables) (x : StepExecutionRow)
    → In x (keep (λ y. not (is_step_of wf t.steps y.step_id)) t.step_executions)
      ↔ (In x t.step_executions × (is_step_of wf t.steps x.step_id ≡ false))
keep-step_executions wf t x = (
  λ i.
      let (j, passes) =
        In-of-keep (λ y. not (is_step_of wf t.steps y.step_id)) x t.step_executions i in
      (j, ground arith),
  λ (j, n).
      In-keep (λ y. not (is_step_of wf t.steps y.step_id)) x t.step_executions j
        (ground (arith, n)),
)

made-Removed : (wf : Uuid) (t u : Tables) → u ≡ apply_all (deletions wf) t → Removed wf t u
unfolding apply_all apply
made-Removed wf t u is = rw is (record {
  workflows = keep-OthersStay (λ x. x.id) wf t.workflows;
  steps = keep-OthersStay (λ x. x.workflow_id) wf t.steps;
  edges = keep-OthersStay (λ x. x.workflow_id) wf t.edges;
  notes = keep-OthersStay (λ x. x.workflow_id) wf t.canvas_notes;
  versions = keep-OthersStay (λ x. x.workflow_id) wf t.workflow_versions;
  executions = keep-OthersStay (λ x. x.workflow_id) wf t.workflow_executions;
  settings = keep-OthersStay (λ x. x.workflow_id) wf t.notification_settings;
  notifications = keep-OthersStay (λ x. x.workflow_id) wf t.notifications;
  step_executions = keep-step_executions wf t;
})

-- When Delete returns no error, no row of the workflow is left in any table, no execution of a step of
-- it either, and every other row is still there. When it returns an error nothing has changed, or all
-- of this was done and it is Commit that reported the error.
pub delete-Removed :
    (db : Database) (laws : DatabaseLaws db) (wf : Uuid) (s : db.State)
    → Atomic
        (CommitReported db laws)
        (Removed wf)
        (delete db wf s).reply
        (laws.tables s)
        (laws.tables (delete db wf s).state)
unfolding delete
delete-Removed db laws wf s =
    Atomic-map (CommitReported db laws) (λ t u. u ≡ apply_all (deletions wf) t) (Removed wf)
      (delete db wf s).reply (laws.tables s) (laws.tables (delete db wf s).state)
      (made-Removed wf (laws.tables s) (laws.tables (delete db wf s).state))
      (in_transaction-Atomic db laws (deletions wf) s)

-- Each statement of Delete leaves consistent tables consistent: its order deletes children first.
deletions-Through :
    (wf : Uuid) (t : Tables) → IsConsistent t → Through IsConsistent (deletions wf) t
unfolding apply
deletions-Through wf t h =
    let t1 = apply (delete_notifications wf) t in
    let h1 = delete_notifications-IsConsistent wf t h in
    let t2 = apply (delete_step_executions wf) t1 in
    let h2 = delete_step_executions-IsConsistent wf t1 h1 in
    let gone = NoStepExecutions-keep wf t1 in
    let t3 = apply (delete_executions wf) t2 in
    let h3 =
      delete_executions-IsConsistent wf t2 h2 (None-keep (λ x. x.workflow_id) wf t.notifications)
        gone in
    let t4 = apply (delete_settings wf) t3 in
    let h4 = delete_settings-IsConsistent wf t3 h3 in
    let t5 = apply (delete_versions wf) t4 in
    let h5 = delete_versions-IsConsistent wf t4 h4 in
    let t6 = apply (delete_edges wf) t5 in
    let h6 = delete_edges-IsConsistent wf t5 h5 in
    let t7 = apply (delete_steps wf) t6 in
    let h7 = delete_steps-IsConsistent wf t6 h6 (None-keep (λ x. x.workflow_id) wf t.edges) gone in
    let t8 = apply (delete_notes wf) t7 in
    let h8 = delete_notes-IsConsistent wf t7 h7 in
    let h9 =
      delete_workflow-IsConsistent wf t8 h8 (None-keep (λ x. x.workflow_id) wf t.steps)
        (None-keep (λ x. x.workflow_id) wf t.edges)
        (None-keep (λ x. x.workflow_id) wf t.canvas_notes)
        (None-keep (λ x. x.workflow_id) wf t.workflow_versions)
        (None-keep (λ x. x.workflow_id) wf t.notification_settings)
        (None-keep (λ x. x.workflow_id) wf t.workflow_executions)
        (None-keep (λ x. x.workflow_id) wf t.notifications) in
    (h, (h1, (h2, (h3, (h4, (h5, (h6, (h7, (h8, h9)))))))))

-- On consistent tables Delete is never refused because of a foreign key.
pub delete-NoConstraint :
    (db : Database) (laws : DatabaseLaws db)
    → ChecksKeys db laws
    → (wf : Uuid) (s : db.State) → IsConsistent (laws.tables s)
    → NoConstraint (delete db wf s).reply
unfolding delete
delete-NoConstraint db laws keys wf s h =
    in_transaction-NoConstraint db laws keys (deletions wf) s
      (refl, (refl, (refl, (refl, (refl, (refl, (refl, (refl, (refl, tt)))))))))
      (deletions-Through wf (laws.tables s) h)
