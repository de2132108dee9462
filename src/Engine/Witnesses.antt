-- ===== src/Engine/Witnesses.antt =====
-- The theorems of the engine at small workflows.
use mathlib.Core.List.{head-eq_of_cons-eq}
use react_go_workflow.Prelude.{
  ◌≡◌, refl, sym, subst, inl, inr, none, some, List, [], ◌∷◌, All, In, text_eq, arith, ◌==◌,
  if◌then◌else◌, ℤ, pos, negsuc, codes, Option, false, Text,
}
use react_go_workflow.Engine.Types.{
  Workflow, Status, failed, end_execution, Uuid, Effect, StepRunner, Registry, Step, get_runner,
}
use react_go_workflow.Engine.Graph.{build_graph}
use react_go_workflow.Engine.Graph.Named.{PlatformLaws}
use react_go_workflow.Engine.Skip.{skip_event}
use react_go_workflow.Engine.Graph.Balance.{IsBalanced, build_graph-IsBalanced}
use react_go_workflow.Engine.Attempts.{execute_step}
use react_go_workflow.Engine.Context.{get_step_output, set_step_output, new_exec_context}
use react_go_workflow.Engine.Trace.{finished, Distinct}
use react_go_workflow.Engine.Execution.{Setting, step_ids, execute_dag}
use react_go_workflow.Engine.Execution.Ends.{Ended, execute_dag-Ended}
use react_go_workflow.Engine.Execution.Order.{InOrder, execute_dag-InOrder}
use react_go_workflow.Engine.Execution.Complete.{OnlyNormal, IsRanked, execute_dag-Complete}
use react_go_workflow.Engine.EventBus.{
  Operation, subscribing, unsubscribing, publishing, cleaning, new_event_bus, perform_all,
}
use react_go_workflow.Engine.EventBus.Sound.{Performs}
use react_go_workflow.Engine.EventBus.Laws.{new_event_bus-Performs}
use react_go_workflow.Engine.Errors.{ok, err, runner_error}
use react_go_workflow.Engine.Interpolate.{resolve_map}
use react_go_workflow.Engine.Attempts.Retries.{Tried, execute_step-Tried, execute_step-negative}
use react_go_workflow.Engine.Context.Laws.{names_it, get_step_output-set_step_output}
use react_go_workflow.Engine.Execution.Reasons.Whole.{Explained, execute_dag-Explained}
use react_go_workflow.Engine.Samples.{
  workflow, plain_platform, setting, diamond, chain, step, text_config,
}

chain-Distinct : Distinct (step_ids chain)
chain-Distinct = ((λ i. elim i [ inl e ↦ absurd cc | inr e ↦ absurd e ]), ((λ i. absurd i), tt))

plain_platform-PlatformLaws : PlatformLaws plain_platform
plain_platform-PlatformLaws = record {
  injective = λ a b e. head-eq_of_cons-eq e;
  same_length = λ a b. refl;
  visits = λ r l i. i;
}

execute_dag-InOrder_example :
    (effects : List Effect) × (execute_dag setting chain none ≡ some effects)
    × InOrder plain_platform chain effects
execute_dag-InOrder_example =
    execute_dag-InOrder setting chain none plain_platform-PlatformLaws chain-Distinct

execute_dag-Ended_example :
    (effects : List Effect) × (execute_dag setting diamond none ≡ some effects)
    × Ended diamond effects
execute_dag-Ended_example = execute_dag-Ended setting diamond none

build_graph-IsBalanced_example : IsBalanced (build_graph plain_platform diamond)
build_graph-IsBalanced_example = build_graph-IsBalanced plain_platform diamond

-- One step, which fails.
abbrev one_broken : Workflow
one_broken = workflow (step 1 "a" "broken" none ∷ []) []

execute_dag-Explained_example :
    (effects : List Effect) × (execute_dag setting one_broken none ≡ some effects)
    × Explained setting one_broken effects
execute_dag-Explained_example = execute_dag-Explained setting one_broken none

-- The user cancels between the last two reads of ctx.Err().
abbrev cancelled_late : Setting
cancelled_late = record setting { world = record { cancels = λ k. k == 2; expires = λ k. false } }

abbrev end_of : List Effect → Option (Status × Text)
end_of [] = none
end_of (end_execution s e o ∷ l) = some (s, e)
end_of (_ ∷ l) = end_of l

said_to_time_out :
    (elim (execute_dag cancelled_late one_broken none) [ none ↦ none | some l ↦ end_of l ])
    ≡ some (failed, codes "workflow timed out")
unfolding execute_dag
said_to_time_out = refl

abbrev chain_effects : List Effect
unfolding execute_dag
chain_effects = elim (execute_dag setting chain none) [ none ↦ [] | some l ↦ l ]

chain-OnlyNormal : OnlyNormal chain
chain-OnlyNormal e i = absurd i

-- In the chain the second step refers to the first, and that is all.
chain-deps :
    (t d : Uuid)
    → In t (step_ids chain)
    → In d ((build_graph plain_platform chain).normal_deps t)
    → (1 ≡ d) × (2 ≡ t)
unfolding build_graph text_eq
chain-deps t d (inl e) j =
    absurd (subst (λ x. In d ((build_graph plain_platform chain).normal_deps x)) (sym e) j)
chain-deps t d (inr (inl e)) j =
    elim (subst (λ x. In d ((build_graph plain_platform chain).normal_deps x)) (sym e) j) [
      | inl is ↦ (is, e)
      | inr k ↦ absurd k
    ]
chain-deps t d (inr (inr i)) j = absurd i

chain-IsRanked : IsRanked plain_platform chain (λ id. id)
chain-IsRanked = record {
  known = λ t d i j. inl (chain-deps t d i j).0;
  lower = λ t d i j. let (from, to) = chain-deps t d i j in omega arith;
}

execute_dag-Complete_example : All (λ id. In id (finished chain_effects)) (step_ids chain)
execute_dag-Complete_example =
    execute_dag-Complete setting chain none chain_effects (λ id. id)
      ((λ i. elim i [ inl e ↦ absurd cc | inr e ↦ absurd e ]), ((λ i. absurd i), tt))
      chain-OnlyNormal chain-IsRanked (unfold execute_dag in refl) (unfold execute_dag in refl)

-- Two subscribers of one execution, one of which leaves before the cleanup.
abbrev bus_operations : List Operation
bus_operations =
    subscribing 1
    ∷ subscribing 1
    ∷ publishing 1 (skip_event 2 [])
    ∷ unsubscribing 1 0
    ∷ cleaning 1
    ∷ unsubscribing 1 1
    ∷ []

new_event_bus-Performs_example : Performs (perform_all bus_operations new_event_bus)
new_event_bus-Performs_example = new_event_bus-Performs bus_operations

-- A runner that fails at its first attempt, and steps that it runs.
abbrev flaky : StepRunner
flaky call config input = if call.attempt == 1 then err (runner_error (codes "busy")) else ok none

abbrev flaky_registry : Registry
flaky_registry = (codes "flaky", flaky) ∷ []

abbrev flaky_step : ℤ → Step
flaky_step n = record (step 1 "a" "flaky" none) { retry_count = n }

execute_step-Tried_example :
    Tried
      (flaky_step (pos 2))
      flaky
      none
      none
      3
      1
      (execute_step (λ _. []) flaky_registry (new_exec_context none) (flaky_step (pos 2))).result
execute_step-Tried_example =
    execute_step-Tried (λ _. []) flaky_registry (new_exec_context none) (flaky_step (pos 2)) flaky
      none none (unfold get_runner in refl) (unfold resolve_map in refl)
      (unfold resolve_map in refl) 2 refl (omega arith)

execute_step-negative_example :
    (execute_step (λ _. []) flaky_registry (new_exec_context none) (flaky_step (negsuc 0))).result
    ≡ ok none
execute_step-negative_example =
    execute_step-negative (λ _. []) flaky_registry (new_exec_context none) (flaky_step (negsuc 0))
      flaky none none (unfold get_runner in refl) (unfold resolve_map in refl)
      (unfold resolve_map in refl) 0 refl

get_step_output-set_step_output_example :
    get_step_output
      (codes "7")
      (set_step_output (codes "a") (codes "7") (text_config "hi") (new_exec_context none))
    ≡ (if names_it (codes "a") (codes "7") (codes "7")
        then text_config "hi"
        else get_step_output (codes "7") (new_exec_context none))
get_step_output-set_step_output_example =
    get_step_output-set_step_output (codes "a") (codes "7") (codes "7") (text_config "hi")
      (new_exec_context none)
