-- ===== src/Workflows/Handler/Jobs.antt =====
-- Which jobs Update and Create leave for their workflow.
use react_go_workflow.Prelude.{
  ℕ, ◌≡◌, refl, sym, ap, ◌∙◌, subst, inl, true, Option, none, some, List, [], ◌∷◌, map, In, Text,
  In-map, In-append_right,
}
use react_go_workflow.Engine.Types.{Uuid}
use react_go_workflow.Trigger.Cron.{CronLibrary, CronLaws, CronScheduler, cron_expression}
use react_go_workflow.Trigger.Cron.Laws.{IsTracked, clash}
use react_go_workflow.Trigger.Cron.Syncing.{Synced, start-new}
use react_go_workflow.Workflows.Tables.{WorkflowRow, draft, allow}
use react_go_workflow.Workflows.Database.{
  insert_workflow, apply, Database, DatabaseLaws, Reply, ok, err,
}
use react_go_workflow.Workflows.Repository.{create, new_row, wrote}
use react_go_workflow.Workflows.Requests.{CreateRequest, created, created_entity, cron_row}
use react_go_workflow.Workflows.Handler.{created_reply, on_create, boot, started}
use react_go_workflow.Workflows.Handler.Backing.{AllLaws, Host, rows_of}

module _ (parse : Text → Option Uuid) (new_id : ℕ → Uuid) (db : Database) (laws : DatabaseLaws db)
    (all : db.State → Reply (List WorkflowRow)) (lists : AllLaws db laws all) (lib : CronLibrary)
    (cron : CronLaws lib) where
  abbrev rows : db.State → List WorkflowRow
  rows s = rows_of parse new_id db laws all lists lib cron s

  -- The handler answers after the row was written and the scheduler told.
  abbrev Told :
      WorkflowRow → CronScheduler lib → Host parse new_id db laws all lists lib cron → Type 0
  Told row before t = Synced lib (cron_row row) before t.scheduler × In row (rows t.database)

  -- A workflow that Create makes, with cron enabled and an expression that parses, has no job, although the
  -- scheduler would have one for the row: the next start of the server gives it one. This is where its id
  -- is new to the scheduler, and where the query of Start works.
  pub on_create_unscheduled :
      (n : ℕ) (req : CreateRequest) (s : Host parse new_id db laws all lists lib cron)
      (row : WorkflowRow) (expr : Text)
      → (on_create parse new_id db all lib n (some req) s).response ≡ created row
      → IsTracked lib s.scheduler
      → s.scheduler.entries row.id ≡ none
      → cron_expression req.trigger_config ≡ some expr
      → lib.parses expr ≡ true
      → (let t = (on_create parse new_id db all lib n (some req) s).server in
          In row (rows t.database)
          × ((j : ℕ) → lib.HasJob t.scheduler.cron j row.id → ⊥)
          × ((listed : List WorkflowRow)
              → all t.database ≡ ok listed
              → (j : ℕ) × lib.HasJob
                  (boot parse new_id db all lib t.database).scheduler.cron
                  j
                  row.id))
  unfolding on_create create apply new_row boot
  on_create_unscheduled n req s row expr answer tracked fresh asks parses =
      go (db.save (insert_workflow made) s.database) refl answer
    where
      made : WorkflowRow
      made = new_row (new_id n) draft allow (created_entity req)

      go :
          (r : Reply db.State)
          → db.save (insert_workflow made) s.database ≡ r
          → created_reply parse new_id db all lib (wrote db made s.database r).reply ≡ created row
          → (let d = (wrote db made s.database r).state in
              In row (rows d)
              × ((j : ℕ) → lib.HasJob s.scheduler.cron j row.id → ⊥)
              × ((listed : List WorkflowRow)
                  → all d ≡ ok listed
                  → (j : ℕ) × lib.HasJob (boot parse new_id db all lib d).scheduler.cron j row.id))
      go (err e) is bad = absurd cc
      go (ok d) is same =
          let own : made ≡ row = ap (λ a. elim a [ created y ↦ y | _ ↦ made ]) same in
          let there : In row (rows d) =
            subst (λ t. In row t.workflows)
              (sym (laws.saves (insert_workflow made) s.database d is))
              (In-append_right row (rows s.database) (made ∷ []) (inl own)) in
          (
            there,
            λ j job. let (x, at, id) = tracked.entry_of j row.id job in clash fresh at,
            λ listed works.
                let (distinct, sound, complete) = lists.lists d listed works in
                let (x, at, job) =
                  (start-new lib cron (map cron_row listed) distinct).granted (cron_row row) expr
                    (In-map cron_row row listed (complete row there))
                    (ap (λ (y : WorkflowRow). cron_expression y.trigger_config) (sym own) ∙ asks)
                    parses in
                (
                  x.entry_id,
                  subst (λ r. lib.HasJob (started parse new_id db all lib r).cron x.entry_id row.id)
                      (sym works) job,
                ),
          )
