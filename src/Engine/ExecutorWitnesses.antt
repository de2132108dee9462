-- ===== src/Engine/ExecutorWitnesses.antt =====
-- Execute and Cancel on a workflow with three steps and the policy `skip`.
use react_go_workflow.Prelude.{
  ◌≡◌, refl, sym, ap, ◌≤◌, true, false, not, some, [], ◌∷◌, ◌==◌, arith,
}
use mathlib.Core.Option.{some_inj}
use react_go_workflow.Engine.Types.{Uuid, Workflow, skip, completed}
use react_go_workflow.Engine.Executor.{
  Server, Answers, execution_skipped, has_running, execute, cancel, is_live, executing, cancelling,
  returning, serve_all,
}
use react_go_workflow.Engine.Executor.AtMostOne.{running_rows, serve_all-AtMostOne}
use react_go_workflow.Engine.Executor.Orphans.{orphan_blocks}
use react_go_workflow.Engine.Executor.Overlap.{has_id, idle, Overlapping, Reach}
use react_go_workflow.Engine.Executor.Overlap.Cancellable.{cancel-Reach}
use react_go_workflow.Engine.Executor.Overlap.Race.{Raced, execute_raced}
use react_go_workflow.Engine.Samples.{diamond}

abbrev no_executions : Server
no_executions = record { executions = []; cancels = λ _. false; cancelled = λ _. false; live = [] }

-- The diamond under the policy `skip`, with the answers of a database that creates all rows.
abbrev skipping : Workflow
skipping = record diamond { concurrency = skip }

abbrev good_answers : Uuid → Answers
good_answers id = record {
  workflow = some skipping;
  can_query = true;
  new_id = some id;
  can_create = λ _. true;
}

-- The row of step 2 cannot be created.
abbrev bad_answers : Answers
bad_answers = record (good_answers 7) { can_create = λ id. not (id == 2) }

keeps : (w : Workflow) → some skipping ≡ some w → w.concurrency ≡ skip
keeps w loaded = ap (λ x. x.concurrency) (sym (some_inj.0 loaded))

orphan_blocks_example :
    ((cancel 7 (serve_all (cancelling 7 ∷ []) (execute bad_answers no_executions).server)).0
      ≡ false)
    × ((execute
          (good_answers 8)
          (serve_all (cancelling 7 ∷ []) (execute bad_answers no_executions).server)).error
        ≡ some execution_skipped)
orphan_blocks_example =
    orphan_blocks bad_answers no_executions 7 skipping (cancelling 7 ∷ []) (good_answers 8) skipping
      _ _ refl refl (unfold execute in refl) refl (unfold is_live in refl) (tt, tt) refl refl refl
      refl refl

serve_all-AtMostOne_example :
    running_rows 100
      (serve_all
        (executing (good_answers 7) ∷ returning 7 completed ∷ executing (good_answers 8) ∷ [])
        no_executions).executions
    ≤ 1
serve_all-AtMostOne_example =
    serve_all-AtMostOne 100
      (executing (good_answers 7) ∷ returning 7 completed ∷ executing (good_answers 8) ∷ [])
      no_executions
      ((λ w loaded same. keeps w loaded), (refl, ((λ w loaded same. keeps w loaded), tt)))
      (omega arith)

-- Two calls that have not begun.
abbrev two_calls : Overlapping
two_calls = record { server = no_executions; calls = λ i. idle }

execute_raced_example : (u : Overlapping) × Reach two_calls u × Raced 100 7 8 u
execute_raced_example =
    execute_raced two_calls skipping _ _ 7 8 refl refl refl refl (unfold has_running in refl)
      (λ q. omega (arith, q)) (unfold has_id in refl) (unfold has_id in refl)

abbrev raced : (u : Overlapping) × Reach two_calls u × Raced 100 7 8 u
raced =
    execute_raced two_calls skipping _ _ 7 8 refl refl refl refl (unfold has_running in refl)
      (λ q. omega (arith, q)) (unfold has_id in refl) (unfold has_id in refl)

cancel-Reach_example : (cancel 8 raced.0.server).0 ≡ is_live 8 raced.0.server.live
cancel-Reach_example = cancel-Reach 8 raced.1 (unfold is_live in λ j. refl)
