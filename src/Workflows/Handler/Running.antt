-- ===== src/Workflows/Handler/Running.antt =====
-- cmd/server/main.go and internal/trigger/cron.go: whether the jobs of the cron scheduler run.
use react_go_workflow.Prelude.{
  ℕ, ◌≡◌, ◌≢◌, refl, ◌∙◌, inl, inr, Bool, true, false, Option, none, some, List, [], ◌∷◌, map, All,
  Text, Bool-cases, Option-cases, codes, text_eq,
}
use react_go_workflow.Value.{Object}
use react_go_workflow.Engine.Types.{Uuid}
use react_go_workflow.Trigger.Cron.{
  CronLibrary, CronWorkflow, CronScheduler, cron_expression, new_cron_scheduler, add_job, register,
  remove, sync, start,
}
use react_go_workflow.Workflows.Tables.{WorkflowRow}
use react_go_workflow.Workflows.Database.{Database, Reply, ok, err}
use react_go_workflow.Workflows.Repository.{update, delete}
use react_go_workflow.Workflows.Requests.{
  UpdateRequest, SettingUpdate, CanvasRequest, CreateRequest, Request, creating, updating, deleting,
  saving_canvas, cloning, restarting, updated_entity, cron_row,
}
use react_go_workflow.Workflows.Handler.{
  Server, on_create, on_update, on_delete, on_save_canvas, on_clone, with_settings, after_update,
  after_delete, boot, started, handle, handle_all,
}

module _ (lib : CronLibrary) where
  remove-running : (wf : Uuid) (s : CronScheduler lib) → (remove lib wf s).running ≡ s.running
  unfolding remove
  remove-running wf s = elim (Option-cases (s.entries wf)) [
    | inl absent ↦ rw (absent, remove) refl
    | inr (e, there) ↦ rw (there, remove) refl
  ]

  register-running :
      (wf : Uuid) (name : Text) (config : Object) (s : CronScheduler lib)
      → (register lib wf name config s).running ≡ s.running
  unfolding register
  register-running wf name config s = elim (Option-cases (cron_expression config)) [
    | inl off ↦ rw (off, register) refl
    | inr (expr, on) ↦ elim (Option-cases (lib.add_func expr wf s.cron)) [
      | inl refused ↦ rw (on, refused, register, add_job) refl
      | inr (x, added) ↦ rw (on, added, register, add_job) refl
    ]
  ]

  sync-running : (w : CronWorkflow) (s : CronScheduler lib) → (sync lib w s).running ≡ s.running
  unfolding sync
  sync-running w s = elim (Bool-cases (text_eq w.status (codes "archived"))) [
    | inl off ↦ rw (off, sync) (remove-running w.id s)
    | inr on ↦
        rw (on, sync)
          (register-running w.id w.name w.trigger_config (remove lib w.id s)
            ∙ remove-running w.id s)
  ]

  start-running : (ws : List CronWorkflow) (s : CronScheduler lib) → (start lib ws s).running ≡ true
  unfolding start
  start-running [] s = refl
  start-running (w ∷ ws) s = start-running ws (register lib w.id w.name w.trigger_config s)

module _ (parse : Text → Option Uuid) (new_id : ℕ → Uuid) (db : Database)
    (all : db.State → Reply (List WorkflowRow)) (lib : CronLibrary) where
  abbrev Host : Type 0
  Host = Server parse new_id db all lib

  abbrev runs : Host → Bool
  runs s = s.scheduler.running

  on_create-runs :
      (n : ℕ) (body : Option CreateRequest) (s : Host)
      → runs (on_create parse new_id db all lib n body s).server ≡ runs s
  unfolding on_create
  on_create-runs n none s = refl
  on_create-runs n (some req) s = refl

  with_settings-runs :
      (n : ℕ) (wf : Uuid) (row : WorkflowRow) (settings : Option (List SettingUpdate)) (s : Host)
      → runs (with_settings parse new_id db all lib n wf row settings s).server ≡ runs s
  with_settings-runs n wf row none s = refl
  with_settings-runs n wf row (some l) s = refl

  after_update-runs :
      (n : ℕ) (wf : Uuid) (settings : Option (List SettingUpdate)) (s : Host)
      (r : Reply WorkflowRow)
      → runs (after_update parse new_id db all lib n wf settings s r).server ≡ runs s
  after_update-runs n wf settings s (err e) = refl
  after_update-runs n wf settings s (ok row) =
      with_settings-runs n wf row settings _
      ∙ sync-running lib (record (cron_row row) { id = wf }) s.scheduler

  on_update-runs :
      (n : ℕ) (id : Text) (body : Option UpdateRequest) (s : Host)
      → runs (on_update parse new_id db all lib n id body s).server ≡ runs s
  unfolding on_update
  on_update-runs n id none s = elim (Option-cases (parse id)) [
    | inl bad ↦ rw (bad, on_update) refl
    | inr (wf, is) ↦ rw (is, on_update) refl
  ]
  on_update-runs n id (some req) s = elim (Option-cases (parse id)) [
    | inl bad ↦ rw (bad, on_update) refl
    | inr (wf, is) ↦
        let r = update db wf (updated_entity req) s.database in
        rw (is, on_update)
          (after_update-runs n wf req.notification_settings (record s { database = r.state })
            r.reply)
  ]

  after_delete-runs :
      (wf : Uuid) (s : Host) (r : Reply (Unit {0}))
      → runs (after_delete parse new_id db all lib wf s r).server ≡ runs s
  after_delete-runs wf s (err e) = refl
  after_delete-runs wf s (ok v) = remove-running lib wf s.scheduler

  on_delete-runs :
      (id : Text) (s : Host) → runs (on_delete parse new_id db all lib id s).server ≡ runs s
  unfolding on_delete
  on_delete-runs id s = elim (Option-cases (parse id)) [
    | inl bad ↦ rw (bad, on_delete) refl
    | inr (wf, is) ↦
        let r = delete db wf s.database in
        rw (is, on_delete) (after_delete-runs wf (record s { database = r.state }) r.reply)
  ]

  on_save_canvas-runs :
      (id : Text) (body : Option CanvasRequest) (s : Host)
      → runs (on_save_canvas parse new_id db all lib id body s).server ≡ runs s
  unfolding on_save_canvas
  on_save_canvas-runs id body s = elim (Option-cases (parse id)) [
    | inl bad ↦ rw (bad, on_save_canvas) refl
    | inr (wf, is) ↦ elim (Option-cases body) [
      | inl missing ↦ rw (is, missing, on_save_canvas) refl
      | inr (req, there) ↦ rw (is, there, on_save_canvas) refl
    ]
  ]

  on_clone-runs :
      (n : ℕ) (id : Text) (s : Host)
      → runs (on_clone parse new_id db all lib n id s).server ≡ runs s
  unfolding on_clone
  on_clone-runs n id s = elim (Option-cases (parse id)) [
    | inl bad ↦ rw (bad, on_clone) refl
    | inr (wf, is) ↦ rw (is, on_clone) refl
  ]

  handle-runs :
      (r : Request) (s : Host) → r ≢ restarting → runs (handle parse new_id db all lib r s) ≡ runs s
  handle-runs (creating n body) s other = on_create-runs n body s
  handle-runs (updating n id body) s other = on_update-runs n id body s
  handle-runs (deleting id) s other = on_delete-runs id s
  handle-runs (saving_canvas id body) s other = on_save_canvas-runs id body s
  handle-runs (cloning n id) s other = on_clone-runs n id s
  handle-runs restarting s other = absurd (other refl)

  handle_all-runs :
      (l : List Request) (s : Host)
      → All (λ r. r ≢ restarting) l
      → runs (handle_all parse new_id db all lib l s) ≡ runs s
  handle_all-runs [] s h = refl
  handle_all-runs (r ∷ l) s h = handle_all-runs l _ h.1 ∙ handle-runs r s h.0

  -- Whether a query answers.
  abbrev pub answers : Reply (List WorkflowRow) → Bool
  answers (ok rows) = true
  answers (err e) = false

  boot-runs : (d : db.State) → runs (boot parse new_id db all lib d) ≡ answers (all d)
  unfolding boot new_cron_scheduler
  boot-runs d = go (all d)
    where
      go : (r : Reply (List WorkflowRow)) → (started parse new_id db all lib r).running ≡ answers r
      go (ok rows) = start-running lib (map cron_row rows) (new_cron_scheduler lib)
      go (err e) = refl

  -- The query of Start decides whether the jobs of the scheduler run: where it fails, they do not run after
  -- any requests that the server handles until it is restarted, and where it answers, they run after
  -- any of them.
  pub handle_all-boot :
      (l : List Request) (d : db.State)
      → All (λ r. r ≢ restarting) l
      → runs (handle_all parse new_id db all lib l (boot parse new_id db all lib d))
        ≡ answers (all d)
  handle_all-boot l d h = handle_all-runs l _ h ∙ boot-runs d
