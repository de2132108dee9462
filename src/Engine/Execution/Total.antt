-- ===== src/Engine/Execution/Total.antt =====
-- executeDAG comes to its end: the bounds on the rounds and on the depth of skipBranch are enough.
use react_go_workflow.Prelude.{◌≡◌, some, arith, count_if-le-length, not}
use react_go_workflow.Value.{Object}
use react_go_workflow.Engine.Types.{Workflow, Step}
use react_go_workflow.Engine.Graph.{build_graph}
use react_go_workflow.Engine.Graph.Closed.{
  reachable, downstream-reachable, length-reachable, length-map,
}
use react_go_workflow.Engine.Clock.{ctx_err}
use react_go_workflow.Engine.Loop.{Stop}
use react_go_workflow.Engine.Loop.Termination.{waves_total}
use react_go_workflow.Engine.Execution.{
  Setting, initial_run, initial_context, step_ids, round_bound, depth_bound, run_loop,
}

pub run_loop_total :
    (e : Setting) (wf : Workflow) (input : Object)
    → (stop : Stop) × (run_loop e wf input ≡ some stop)
unfolding run_loop
run_loop_total e wf input =
    let g = build_graph e.platform wf in
    let r = initial_run g (initial_context e input) in
    waves_total e.platform e.registry wf.steps (step_ids wf) g (ctx_err e.world wf.timeout_seconds)
      (reachable wf) (downstream-reachable e.platform wf) (round_bound wf) (depth_bound wf) 0 r
      (omega (
        arith,
        count_if-le-length (λ id. not (r.done id)) (step_ids wf),
        length-map (λ (s : Step). s.id) wf.steps,
      ))
      (omega
        (arith, count_if-le-length (λ id. not (r.done id)) (reachable wf), length-reachable wf))
