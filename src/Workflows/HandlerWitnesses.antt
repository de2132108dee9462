-- ===== src/Workflows/HandlerWitnesses.antt =====
-- The handlers of workflows over the database and the cron package of the samples.
use react_go_workflow.Prelude.{
  ℕ, ◌+◌, ◌≡◌, ◌==◌, ◌||◌, ◌&&◌, not, Bool, false, if◌then◌else◌, refl, sym, ap, subst, inl, inr,
  true, Option, none, some, List, [], ◌∷◌, map, In, Text, codes, text_eq, arith,
}
use react_go_workflow.Value.{string, bool, end, field, Object}
use react_go_workflow.Engine.Types.{Uuid}
use react_go_workflow.Engine.Trace.{Distinct}
use react_go_workflow.Trigger.Cron.{new_cron_scheduler, cron_expression}
use react_go_workflow.Trigger.Cron.Laws.{new_cron_scheduler-IsTracked}
use react_go_workflow.Trigger.Samples.{listed, listed-laws}
use react_go_workflow.Workflows.Tables.{Tables, WorkflowRow, draft, in_app, failure}
use react_go_workflow.Workflows.Database.{database_failed, err, Reply, ok, err, database_failed}
use react_go_workflow.Workflows.Samples.{memory, memory_laws, sample, row}
use react_go_workflow.Workflows.Requests.{
  CreateRequest, UpdateRequest, Request, creating, updating, deleting, cloning, restarting,
  cron_row,
}
use react_go_workflow.Workflows.Handler.{Server, boot, handle_all, on_create}
use react_go_workflow.Workflows.Handler.Backing.{AllLaws}
use react_go_workflow.Workflows.Handler.Running.{handle_all-boot}
use react_go_workflow.Workflows.Handler.Jobs.{on_create_unscheduled}

-- An id is written as one character.
abbrev read_id : Text → Option Uuid
read_id (c ∷ []) = some c
read_id _ = none

abbrev ids : ℕ → Uuid
ids n = n + 100

abbrev stands_in : Uuid → List Uuid → Bool
stands_in x [] = false
stands_in x (y ∷ l) = y == x || stands_in x l

abbrev apart : List Uuid → Bool
apart [] = true
apart (x ∷ l) = not (stands_in x l) && apart l

stands_in_of-In : (x : Uuid) (l : List Uuid) → In x l → stands_in x l ≡ true
stands_in_of-In x [] i = absurd i
stands_in_of-In x (y ∷ l) (inl e) = rw e (ground arith)
stands_in_of-In x (y ∷ l) (inr i) = ground (arith, stands_in_of-In x l i)

apart-Distinct : (l : List Uuid) → apart l ≡ true → Distinct l
apart-Distinct [] h = tt
apart-Distinct (x ∷ l) h =
    ((λ i. ground (arith, h, stands_in_of-In x l i)), apart-Distinct l (ground (arith, h)))

-- The query of all workflows, on tables whose ids are keys.
abbrev list_all : Tables → Reply (List WorkflowRow)
list_all t =
    if apart (map (λ w. w.id) (map cron_row t.workflows))
    then ok t.workflows
    else err database_failed

list_all-AllLaws : AllLaws memory memory_laws list_all
unfolding memory_laws
list_all-AllLaws = record {
  lists = λ t rows is. go t rows (apart (map (λ w. w.id) (map cron_row t.workflows))) refl is;
}
  where
    go :
        (t : Tables) (rows : List WorkflowRow) (b : Bool)
        → apart (map (λ w. w.id) (map cron_row t.workflows)) ≡ b
        → (if b then ok t.workflows else err database_failed) ≡ ok rows
        → Distinct (map (λ w. w.id) (map cron_row rows))
          × ((w : WorkflowRow) → In w rows → In w t.workflows)
          × ((w : WorkflowRow) → In w t.workflows → In w rows)
    go t rows false keyed same = absurd cc
    go t rows true keyed same =
        let own : t.workflows ≡ rows = ap (λ r. elim r [ ok l ↦ l | err e ↦ [] ]) same in
        (
          apart-Distinct _ (subst (λ l. apart (map (λ w. w.id) (map cron_row l)) ≡ true) own keyed),
          λ w i. subst (λ l. In w l) (sym own) i,
          λ w i. subst (λ l. In w l) own i,
        )

abbrev daily : Object
daily = some (
    field (codes "cron_enabled") (bool true)
      (field (codes "cron_expression") (string (codes "@daily")) end))

abbrev to_daily : UpdateRequest
to_daily = record {
  name = [];
  description = [];
  status = none;
  trigger_config = daily;
  concurrency = none;
  timeout_seconds = none;
  webhook_slug = [];
  input_schema = none;
  output_schema = none;
  notification_settings =
      some (record { enabled = true; channel = in_app; config = none; notify_on = failure } ∷ []);
}

abbrev new_daily : CreateRequest
new_daily = record {
  name = codes "new";
  description = [];
  trigger_config = daily;
  input_schema = none;
  output_schema = none;
}

abbrev requests : List Request
requests =
    updating 0 (1 ∷ []) (some to_daily)
    ∷ creating 1 (some new_daily)
    ∷ cloning 2 (1 ∷ [])
    ∷ restarting
    ∷ deleting (1 ∷ [])
    ∷ []

abbrev idle : Server read_id ids memory list_all listed
idle = record { database = sample; scheduler = new_cron_scheduler listed }

abbrev created_row : WorkflowRow
created_row = record (row 101) { name = codes "new"; status = draft; trigger_config = daily }

abbrev after_create : Server read_id ids memory list_all listed
after_create = (on_create read_id ids memory list_all listed 1 (some new_daily) idle).server

on_create_unscheduled_example :
    In created_row (memory_laws.tables after_create.database).workflows
    × ((j : ℕ) → listed.HasJob after_create.scheduler.cron j 101 → ⊥)
    × ((l : List WorkflowRow)
        → list_all after_create.database ≡ ok l
        → (j : ℕ) × listed.HasJob
            (boot read_id ids memory list_all listed after_create.database).scheduler.cron
            j
            101)
on_create_unscheduled_example =
    on_create_unscheduled read_id ids memory memory_laws list_all list_all-AllLaws listed
      listed-laws 1 new_daily idle created_row (codes "@daily") (unfold on_create in refl)
      (new_cron_scheduler-IsTracked listed listed-laws) (unfold new_cron_scheduler in refl)
      (unfold cron_expression in refl) (unfold text_eq in refl)

-- The query of Start fails.
abbrev list_none : Tables → Reply (List WorkflowRow)
list_none d = err database_failed

abbrev turns_on : List Request
turns_on = updating 0 (1 ∷ []) (some to_daily) ∷ []

handle_all-boot_example :
    (handle_all read_id ids memory list_none listed turns_on
      (boot read_id ids memory list_none listed sample)).scheduler.running
    ≡ false
handle_all-boot_example =
    handle_all-boot read_id ids memory list_none listed turns_on sample ((λ e. cc), tt)
