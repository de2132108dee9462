-- ===== src/Trigger/Witnesses.antt =====
-- The theorems of the scheduler over the cron package of the samples.
use react_go_workflow.Prelude.{inl, inr, true, some, List, [], ◌∷◌, map, Text, codes}
use react_go_workflow.Value.{string, bool, end, field}
use react_go_workflow.Engine.Types.{Uuid}
use react_go_workflow.Engine.Trace.{Distinct}
use react_go_workflow.Trigger.Cron.{CronWorkflow, new_cron_scheduler, start}
use react_go_workflow.Trigger.Cron.Syncing.{archived, Started, start-new}
use react_go_workflow.Trigger.Samples.{listed, listed-laws}

abbrev cron_row : Uuid → Text → CronWorkflow
cron_row id status = record {
  id = id;
  name = codes "nightly";
  status = status;
  trigger_config = some (
      field (codes "cron_enabled") (bool true)
        (field (codes "cron_expression") (string (codes "@daily")) end));
}

abbrev rows : List CronWorkflow
rows = cron_row 1 (codes "active") ∷ cron_row 2 archived ∷ []

rows-Distinct : Distinct (map (λ w. w.id) rows)
rows-Distinct = ((λ i. elim i [ inl e ↦ absurd cc | inr e ↦ absurd e ]), ((λ i. absurd i), tt))

start-new_example :
    Started listed rows (new_cron_scheduler listed) (start listed rows (new_cron_scheduler listed))
start-new_example = start-new listed listed-laws rows rows-Distinct
