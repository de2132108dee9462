-- ===== src/Workflows/Handler/Backing.antt =====
-- Update keeps the scheduler's jobs among what the rows ask for.
use react_go_workflow.Prelude.{
  ℕ, suc, ◌≡◌, refl, sym, ap, ◌∙◌, subst, Option, none, some, List, [], ◌∷◌, map, In, Text, ◌==◌,
  if◌then◌else◌,
}
use react_go_workflow.Engine.Types.{Uuid}
use react_go_workflow.Engine.Trace.{Distinct}
use react_go_workflow.Trigger.Cron.{CronLibrary, CronLaws, sync}
use react_go_workflow.Workflows.Tables.{Tables, WorkflowRow}
use react_go_workflow.Workflows.Database.{
  Statement, apply, insert_setting, delete_settings, Database, DatabaseLaws, Reply, ok, err,
}
use react_go_workflow.Workflows.Repository.{WorkflowEntity, update, updated, changed}
use react_go_workflow.Workflows.Requests.{
  UpdateRequest, SettingUpdate, invalid_id, invalid_body, updated_entity, cron_row,
}
use react_go_workflow.Workflows.Handler.{
  Server, Handled, tried, create_settings, replace_settings, with_settings, after_update, on_update,
}
use react_go_workflow.Workflows.Handler.Scheduling.{Backed, sync-Backed}

-- What the source relies on of the query of all workflows: it lists each once.
pub record AllLaws (db : Database) (laws : DatabaseLaws db)
    (all : db.State → Reply (List WorkflowRow)) : Type 0 where
  pub lists :
      (s : db.State) (rows : List WorkflowRow)
      → all s ≡ ok rows
      → Distinct (map (λ w. w.id) (map cron_row rows))
        × ((w : WorkflowRow) → In w rows → In w (laws.tables s).workflows)
        × ((w : WorkflowRow) → In w (laws.tables s).workflows → In w rows)

module _ (parse : Text → Option Uuid) (new_id : ℕ → Uuid) (db : Database) (laws : DatabaseLaws db)
    (all : db.State → Reply (List WorkflowRow)) (lists : AllLaws db laws all) (lib : CronLibrary)
    (cron : CronLaws lib) where
  abbrev pub Host : Type 0
  Host = Server parse new_id db all lib

  abbrev pub rows_of : db.State → List WorkflowRow
  rows_of s = (laws.tables s).workflows

  -- The invariant of a server.
  abbrev pub IsBacked : Host → Type 0
  IsBacked s = Backed lib (rows_of s.database) s.scheduler

  pub same_rows :
      (s : Host) (d : db.State)
      → rows_of d ≡ rows_of s.database
      → IsBacked s
      → IsBacked (record s { database = d })
  same_rows s d is = subst (λ rows. Backed lib rows s.scheduler) (sym is)

  tried-rows :
      (q : Statement) (s : db.State)
      → ((t : Tables) → (apply q t).workflows ≡ t.workflows)
      → rows_of (tried parse new_id db all lib s (db.save q s)) ≡ rows_of s
  tried-rows q s keeps = go (db.save q s) refl
    where
      go :
          (r : Reply db.State)
          → db.save q s ≡ r
          → rows_of (tried parse new_id db all lib s r) ≡ rows_of s
      go (ok u) is = ap (λ t. t.workflows) (laws.saves q s u is) ∙ keeps (laws.tables s)
      go (err e) is = refl

  create_settings-rows :
      (n : ℕ) (wf : Uuid) (l : List SettingUpdate) (s : db.State)
      → rows_of (create_settings parse new_id db all lib n wf l s) ≡ rows_of s
  unfolding create_settings apply
  create_settings-rows n wf [] s = refl
  create_settings-rows n wf (x ∷ l) s =
      create_settings-rows (suc n) wf l _ ∙ tried-rows (insert_setting _) s (λ t. refl)

  pub replace_settings-rows :
      (n : ℕ) (wf : Uuid) (l : List SettingUpdate) (s : db.State)
      → rows_of (replace_settings parse new_id db all lib n wf l s) ≡ rows_of s
  unfolding apply
  replace_settings-rows n wf l s =
      create_settings-rows n wf l _ ∙ tried-rows (delete_settings wf) s (λ t. refl)

  with_settings-IsBacked :
      (n : ℕ) (wf : Uuid) (row : WorkflowRow) (l : Option (List SettingUpdate)) (s : Host)
      → IsBacked s
      → IsBacked (with_settings parse new_id db all lib n wf row l s).server
  with_settings-IsBacked n wf row none s h = h
  with_settings-IsBacked n wf row (some l) s h =
      same_rows s _ (replace_settings-rows n wf l s.database) h

  -- The row was written and the scheduler told.
  abbrev synced : Uuid → WorkflowRow → Host → Host
  synced wf row s = record s {
    scheduler = sync lib (record (cron_row row) { id = wf }) s.scheduler;
  }

  wrote_row-IsBacked :
      (wf : Uuid) (w : WorkflowEntity) (s : Host) (d : db.State) (row : WorkflowRow)
      → db.update_row wf (changed w) s.database ≡ ok (row, d)
      → IsBacked s
      → IsBacked (synced wf row (record s { database = d }))
  unfolding apply changed
  wrote_row-IsBacked wf w s d row is h =
      let (now, (old, there, id, made)) = laws.updates wf (changed w) s.database d row is in
      subst (λ rows. Backed lib rows (synced wf row s).scheduler) (sym (ap (λ t. t.workflows) now))
        (subst
          (λ x.
            Backed lib (map (λ y. if y.id == wf then changed w y else y) (rows_of s.database))
              (sync lib (record (cron_row x) { id = wf }) s.scheduler))
          (sym made)
          (sync-Backed lib cron wf (changed w) (rows_of s.database) old s.scheduler there id
            (λ x. refl) h))

  updated-IsBacked :
      (n : ℕ) (wf : Uuid) (w : WorkflowEntity) (l : Option (List SettingUpdate)) (s : Host)
      → IsBacked s
      → (let r = update db wf w s.database in
          IsBacked
            (after_update parse new_id db all lib n wf l
              (record s { database = r.state })
              r.reply).server)
  unfolding update
  updated-IsBacked n wf w l s h = go (db.update_row wf (changed w) s.database) refl
    where
      go :
          (reply : Reply (WorkflowRow × db.State))
          → db.update_row wf (changed w) s.database ≡ reply
          → (let r = updated db s.database reply in
              IsBacked
                (after_update parse new_id db all lib n wf l
                  (record s { database = r.state })
                  r.reply).server)
      go (err e) is = h
      go (ok (row, d)) is =
          with_settings-IsBacked n wf row l _ (wrote_row-IsBacked wf w s d row is h)

  pub on_update-IsBacked :
      (n : ℕ) (id : Text) (body : Option UpdateRequest) (s : Host)
      → IsBacked s
      → IsBacked (on_update parse new_id db all lib n id body s).server
  unfolding on_update
  on_update-IsBacked n id body s h = go (parse id) body
    where
      go :
          (o : Option Uuid) (b : Option UpdateRequest)
          → (let out : Handled parse new_id db all lib = elim o [
            | none ↦ record { response = invalid_id; server = s }
            | some wf ↦ elim b [
              | none ↦ record { response = invalid_body; server = s }
              | some req ↦
                  let r = update db wf (updated_entity req) s.database in
                  after_update parse new_id db all lib n wf req.notification_settings
                    (record s { database = r.state })
                    r.reply
            ]
          ] in
              IsBacked out.server)
      go none b = h
      go (some wf) none = h
      go (some wf) (some req) =
          updated-IsBacked n wf (updated_entity req) req.notification_settings s h
