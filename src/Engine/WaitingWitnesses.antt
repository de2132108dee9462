-- ===== src/Engine/WaitingWitnesses.antt =====
-- WaitForCompletion beside the execution of a small workflow.
use react_go_workflow.Prelude.{◌≡◌, refl, true, none, some, List, []}
use react_go_workflow.Engine.Types.{Effect, completed}
use react_go_workflow.Engine.Execution.{execute_dag}
use react_go_workflow.Engine.Waiting.{
  Waiting, found, return_with, Reach, here, next, finds_ended, start,
}
use react_go_workflow.Engine.Waiting.Answers.{IsFinal, Reach-IsFinal}
use react_go_workflow.Engine.Waiting.Missed.{do_all, do_all-Reach, Missed, execute_dag-Missed}
use react_go_workflow.Engine.Samples.{setting, chain}

abbrev chain_effects : List Effect
chain_effects = elim (execute_dag setting chain none) [ some l ↦ l | none ↦ [] ]

chain_runs : execute_dag setting chain none ≡ some chain_effects
unfolding execute_dag
chain_runs = refl

abbrev chain_over : Waiting
chain_over = do_all chain_effects (start true chain_effects)

chain_found : Reach (start true chain_effects) (return_with (found completed) chain_over)
unfolding execute_dag
chain_found =
    let r =
      do_all-Reach (start true chain_effects) (start true chain_effects) chain_effects here refl in
    next r.0 (finds_ended r.2 refl refl)

Reach-IsFinal_example : IsFinal true completed
Reach-IsFinal_example =
    Reach-IsFinal setting chain none chain_effects chain_runs true
      (return_with (found completed) chain_over) completed chain_found refl

execute_dag-Missed_example : (w : Waiting) × Reach (start true chain_effects) w × Missed w
execute_dag-Missed_example = execute_dag-Missed setting chain none chain_effects chain_runs
