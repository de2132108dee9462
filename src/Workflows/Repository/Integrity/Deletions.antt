-- ===== src/Workflows/Repository/Integrity/Deletions.antt =====
-- The deletions of internal/workflow/repository.go, one by one: when each keeps the foreign keys.
use mathlib.Core.Bool.{false≢true}
use react_go_workflow.Prelude.{
  ◌≡◌, ◌≢◌, sym, ◌∙◌, Bool, not, List, keep, In, ◌==◌, arith, In-of-keep,
}
use react_go_workflow.Engine.Types.{Uuid}
use react_go_workflow.Workflows.Tables.{
  Tables, StepRow, EdgeRow, NoteRow, WorkflowRow, VersionRow, SettingRow, ExecutionRow,
  StepExecutionRow, NotificationRow,
}
use react_go_workflow.Workflows.Database.{
  delete_notifications, delete_step_executions, delete_executions, delete_settings, delete_versions,
  delete_edges, delete_steps, delete_notes, delete_workflow, is_step_of, apply,
}
use react_go_workflow.Workflows.Repository.Integrity.{
  Refers, Refers-keep_child, Refers-keep_parent, Notified, Source, Target, Stepped, Executed,
  Joined, IsConsistent, None, not_same, NoStepExecutions, is_step_of-In,
}

module _ (t : Tables) (joined : Joined t.step_executions t.steps t.workflow_executions) where
  Joined-keep_step_executions :
      (p : StepExecutionRow → Bool)
      → Joined (keep p t.step_executions) t.steps t.workflow_executions
  Joined-keep_step_executions p x i = joined x (In-of-keep p x t.step_executions i).0

  Joined-keep_steps :
      (p : StepRow → Bool) → Joined t.step_executions (keep p t.steps) t.workflow_executions
  Joined-keep_steps p x i s j = joined x i s (In-of-keep p s t.steps j).0

  Joined-keep_executions :
      (p : ExecutionRow → Bool) → Joined t.step_executions t.steps (keep p t.workflow_executions)
  Joined-keep_executions p x i s j k y l =
      joined x i s j k y (In-of-keep p y t.workflow_executions l).0

-- Deletions that nothing refers to keep the tables consistent.
module _ (wf : Uuid) (t : Tables) (h : IsConsistent t) where
  pub delete_notifications-IsConsistent : IsConsistent (apply (delete_notifications wf) t)
  unfolding apply
  delete_notifications-IsConsistent =
      let p = λ (x : NotificationRow). not (x.workflow_id == wf) in
      ground (
        arith,
        Refers-keep_child p t.notifications t.workflows (λ x w. w.id ≡ x.workflow_id)
            h.notifications,
        Refers-keep_child p t.notifications t.workflow_executions Notified h.notified,
      )

  pub delete_step_executions-IsConsistent : IsConsistent (apply (delete_step_executions wf) t)
  unfolding apply
  delete_step_executions-IsConsistent =
      let p = λ (x : StepExecutionRow). not (is_step_of wf t.steps x.step_id) in
      ground (
        arith,
        Refers-keep_child p t.step_executions t.steps Stepped h.stepped,
        Refers-keep_child p t.step_executions t.workflow_executions Executed h.executed,
        Joined-keep_step_executions t h.joined p,
      )

  pub delete_settings-IsConsistent : IsConsistent (apply (delete_settings wf) t)
  unfolding apply
  delete_settings-IsConsistent =
      let p = λ (x : SettingRow). not (x.workflow_id == wf) in
      ground (
        arith,
        Refers-keep_child p t.notification_settings t.workflows (λ x w. w.id ≡ x.workflow_id)
            h.settings,
      )

  pub delete_versions-IsConsistent : IsConsistent (apply (delete_versions wf) t)
  unfolding apply
  delete_versions-IsConsistent =
      let p = λ (x : VersionRow). not (x.workflow_id == wf) in
      ground (
        arith,
        Refers-keep_child p t.workflow_versions t.workflows (λ x w. w.id ≡ x.workflow_id)
            h.versions,
      )

  pub delete_edges-IsConsistent : IsConsistent (apply (delete_edges wf) t)
  unfolding apply
  delete_edges-IsConsistent =
      let p = λ (x : EdgeRow). not (x.workflow_id == wf) in
      ground (
        arith,
        Refers-keep_child p t.edges t.workflows (λ x w. w.id ≡ x.workflow_id) h.edges,
        Refers-keep_child p t.edges t.steps Source h.sources,
        Refers-keep_child p t.edges t.steps Target h.targets,
      )

  pub delete_notes-IsConsistent : IsConsistent (apply (delete_notes wf) t)
  unfolding apply
  delete_notes-IsConsistent =
      let p = λ (x : NoteRow). not (x.workflow_id == wf) in
      ground (
        arith,
        Refers-keep_child p t.canvas_notes t.workflows (λ x w. w.id ≡ x.workflow_id) h.notes,
      )

  no_execution_of :
      NoStepExecutions wf t
      → (x : StepExecutionRow) → In x t.step_executions
      → (s : StepRow) → In s t.steps
      → Stepped x s
      → s.workflow_id ≢ wf
  no_execution_of no_execution x i s j k e =
      false≢true (sym (no_execution x i) ∙ is_step_of-In wf t.steps s x.step_id j k e)

  other_workflow :
      {A : Type 0} (owner : A → Uuid) (xs : List A)
      → None owner wf xs
      → Refers xs t.workflows (λ x w. w.id ≡ owner x)
      → Refers xs (keep (λ (w : WorkflowRow). not (w.id == wf)) t.workflows) (λ x w. w.id ≡ owner x)
  other_workflow owner xs gone refers =
      Refers-keep_parent (λ w. not (w.id == wf)) xs t.workflows (λ x w. w.id ≡ owner x) refers
        (λ x i w j k. not_same w.id wf (λ e. gone x i (sym k ∙ e)))

  -- The steps can go when no edge and no execution of a step of the workflow is left.
  pub delete_steps-IsConsistent :
      None (λ (x : EdgeRow). x.workflow_id) wf t.edges
      → NoStepExecutions wf t
      → IsConsistent (apply (delete_steps wf) t)
  unfolding apply
  delete_steps-IsConsistent no_edge no_execution =
      let p = λ (s : StepRow). not (s.workflow_id == wf) in
      ground (
        arith,
        Refers-keep_child p t.steps t.workflows (λ x w. w.id ≡ x.workflow_id) h.steps,
        Refers-keep_parent p t.edges t.steps Source h.sources
            (λ x i s j k. not_same s.workflow_id wf (λ e. no_edge x i (sym k.1 ∙ e))),
        Refers-keep_parent p t.edges t.steps Target h.targets
            (λ x i s j k. not_same s.workflow_id wf (λ e. no_edge x i (sym k.1 ∙ e))),
        Refers-keep_parent p t.step_executions t.steps Stepped h.stepped
            (λ x i s j k. not_same s.workflow_id wf (no_execution_of no_execution x i s j k)),
        Joined-keep_steps t h.joined p,
      )

  -- The executions can go when no notification and no execution of a step of the workflow is left.
  pub delete_executions-IsConsistent :
      None (λ (x : NotificationRow). x.workflow_id) wf t.notifications
      → NoStepExecutions wf t
      → IsConsistent (apply (delete_executions wf) t)
  unfolding apply
  delete_executions-IsConsistent no_notification no_execution =
      let p = λ (y : ExecutionRow). not (y.workflow_id == wf) in
      ground (
        arith,
        Refers-keep_child p t.workflow_executions t.workflows (λ x w. w.id ≡ x.workflow_id)
            h.executions,
        Refers-keep_parent p t.notifications t.workflow_executions Notified h.notified
            (λ x i y j k. not_same y.workflow_id wf (λ e. no_notification x i (sym k.1 ∙ e))),
        Refers-keep_parent p t.step_executions t.workflow_executions Executed h.executed
            (λ x i y j k. not_same y.workflow_id wf (λ e.
              let (s, js, ks) = h.stepped x i in
              no_execution_of no_execution x i s js ks (h.joined x i s js ks y j k ∙ e))),
        Joined-keep_executions t h.joined p,
      )

  -- The workflow can go last.
  pub delete_workflow-IsConsistent :
      None (λ (x : StepRow). x.workflow_id) wf t.steps
      → None (λ (x : EdgeRow). x.workflow_id) wf t.edges
      → None (λ (x : NoteRow). x.workflow_id) wf t.canvas_notes
      → None (λ (x : VersionRow). x.workflow_id) wf t.workflow_versions
      → None (λ (x : SettingRow). x.workflow_id) wf t.notification_settings
      → None (λ (x : ExecutionRow). x.workflow_id) wf t.workflow_executions
      → None (λ (x : NotificationRow). x.workflow_id) wf t.notifications
      → IsConsistent (apply (delete_workflow wf) t)
  unfolding apply
  delete_workflow-IsConsistent a b c d e f g = ground (
    arith,
    other_workflow (λ x. x.workflow_id) t.steps a h.steps,
    other_workflow (λ x. x.workflow_id) t.edges b h.edges,
    other_workflow (λ x. x.workflow_id) t.canvas_notes c h.notes,
    other_workflow (λ x. x.workflow_id) t.workflow_versions d h.versions,
    other_workflow (λ x. x.workflow_id) t.notification_settings e h.settings,
    other_workflow (λ x. x.workflow_id) t.workflow_executions f h.executions,
    other_workflow (λ x. x.workflow_id) t.notifications g h.notifications,
  )
