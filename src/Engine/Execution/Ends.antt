-- ===== src/Engine/Execution/Ends.antt =====
-- The end of an execution: its status is written once, after everything that its steps did.
use react_go_workflow.Prelude.{
  ℕ, suc, ◌≡◌, ◌≢◌, refl, inl, inr, ◌⊎◌, Option, none, some, List, [], ◌++◌, All, Text, ap,
}
use react_go_workflow.Value.{Object}
use react_go_workflow.Engine.Errors.{Error}
use react_go_workflow.Engine.Types.{
  Uuid, Step, Workflow, Status, completed, failed, cancelled, Effect, Registry,
}
use react_go_workflow.Engine.Attempts.Laws.{IsStepEffect, All-append}
use react_go_workflow.Engine.Graph.{Platform, Graph, build_graph}
use react_go_workflow.Engine.Skip.{Run}
use react_go_workflow.Engine.Clock.{CtxErr, canceled, deadline_exceeded, ctx_err}
use react_go_workflow.Engine.Dag.{ready, mark_wave, wave_effects, execute_wave, run_wave}
use react_go_workflow.Engine.Dag.Rule.{process_results_ind}
use react_go_workflow.Engine.Loop.{Stop}
use react_go_workflow.Engine.Loop.Rule.{waves_ind}
use react_go_workflow.Engine.Safety.Grow.{Grows, Grows-IsKept, Grows-same}
use react_go_workflow.Engine.Safety.Wave.{execute_wave-Ran, IsStepEffect-wave, mark_wave-Marked}
use react_go_workflow.Engine.Execution.{
  Setting, initial_run, initial_context, step_ids, round_bound, depth_bound, run_loop, finish,
  execute_dag, ending, end_badly, final_output,
}
use react_go_workflow.Engine.Execution.Total.{run_loop_total}

-- The statuses that an execution ends with.
abbrev pub IsTerminal : Status → Type 0
IsTerminal s = (s ≡ completed) ⊎ (s ≡ failed) ⊎ (s ≡ cancelled)

-- What the code behind the loop does.
pub record Ends (blamed : Option Error) (l : List Effect) : Type 0 where
  pub status : Status
  pub error : Text
  pub output : Object
  pub effects : l ≡ ending status error output
  pub terminal : IsTerminal status
  pub blames : (x : Error) → blamed ≡ some x → status ≢ completed

module _ (b : Option Error) where
  Ends-failed : (m : Text) → Ends b (ending failed m none)
  Ends-failed m = record {
    status = failed;
    error = m;
    output = none;
    effects = refl;
    terminal = inr (inl refl);
    blames = λ x e. (λ i. cc);
  }

  end_badly-Ends : (e : Option Error) (x y : Option CtxErr) → Ends b (end_badly e x y)
  end_badly-Ends e (some canceled) y = record {
    status = cancelled;
    error = _;
    output = none;
    effects = refl;
    terminal = inr (inr refl);
    blames = λ x e. (λ i. cc);
  }
  end_badly-Ends e none (some y) = Ends-failed _
  end_badly-Ends (some e) none none = Ends-failed _
  end_badly-Ends none none none = Ends-failed _
  end_badly-Ends e (some deadline_exceeded) (some y) = Ends-failed _
  end_badly-Ends (some e) (some deadline_exceeded) none = Ends-failed _
  end_badly-Ends none (some deadline_exceeded) none = Ends-failed _

pub finish-Ends :
    (p : Platform) (wf : Workflow) (err_at : ℕ → Option CtxErr) (stop : Stop)
    → Ends stop.run.execution_err (finish p wf err_at stop)
unfolding finish
finish-Ends p wf err_at stop = go stop.run.execution_err
  where
    k : ℕ
    k = stop.reads

    calm :
        (x : Option CtxErr)
        → Ends none (elim x [
          | some _ ↦ end_badly none (err_at (suc k)) (err_at (suc (suc k)))
          | none ↦ ending completed [] (final_output p wf stop.run)
        ])
    calm (some x) = end_badly-Ends none none _ _
    calm none = record {
      status = completed;
      error = [];
      output = _;
      effects = refl;
      terminal = inl refl;
      blames = λ x s. absurd cc;
    }

    go :
        (e : Option Error)
        → Ends e (elim e [
          | some e ↦ end_badly (some e) (err_at k) (err_at (suc k))
          | none ↦ elim (err_at k) [
            | some _ ↦ end_badly none (err_at (suc k)) (err_at (suc (suc k)))
            | none ↦ ending completed [] (final_output p wf stop.run)
          ]
        ])
    go (some e) = end_badly-Ends (some e) (some e) _ _
    go none = calm (err_at k)

module _ (p : Platform) (registry : Registry) (steps : List Step) (execs : List Uuid)
    (g : Graph) where
  -- A wave leaves a trace of steps only.
  pub run_wave-own :
      (fuel : ℕ) (r t : Run)
      → All IsStepEffect r.trace
      → run_wave p registry steps execs g fuel (ready steps r) r ≡ some t
      → All IsStepEffect t.trace
  unfolding run_wave
  run_wave-own fuel r t h e =
      let wave = ready steps r in
      let results = execute_wave p registry steps r.context wave in
      let grows =
        process_results_ind p steps execs g Grows (Grows-IsKept p steps execs g)
          (λ s output u. Grows-same u _ refl) fuel results _ t e in
      let ran =
        All-append IsStepEffect r.trace (wave_effects results) h
          (IsStepEffect-wave results (execute_wave-Ran p registry steps r.context wave)) in
      let same : (mark_wave wave r).trace ≡ r.trace =
        ap (λ u. u.trace) (mark_wave-Marked wave r).same in
      rw grows.trace (All-append IsStepEffect _ grows.added (rw same ran) grows.quiet.own)

-- What execute_dag did, and how it ended.
pub record Ended (wf : Workflow) (effects : List Effect) : Type 0 where
  pub before : List Effect
  pub status : Status
  pub error : Text
  pub output : Object
  pub split : effects ≡ before ++ ending status error output
  pub own : All IsStepEffect before
  pub terminal : IsTerminal status

-- Every execution, whatever its workflow, its runners and the moments of a cancellation are, does
-- what its steps do and then ends: the last three effects write a status that is completed, failed or
-- cancelled, publish it and notify, and no effect before them writes, publishes or notifies an
-- execution status.
pub execute_dag-Ended :
    (e : Setting) (wf : Workflow) (input : Object)
    → (effects : List Effect) × (execute_dag e wf input ≡ some effects) × Ended wf effects
unfolding execute_dag run_loop initial_run
execute_dag-Ended e wf input =
    let (stop, looped) = run_loop_total e wf input in
    let g = build_graph e.platform wf in
    let err_at = ctx_err e.world wf.timeout_seconds in
    let own =
      waves_ind e.platform e.registry wf.steps (step_ids wf) g err_at
        (λ r. All IsStepEffect r.trace) (depth_bound wf)
        (record {
          wave = run_wave-own e.platform e.registry wf.steps (step_ids wf) g (depth_bound wf);
          interrupted = λ x r h. h;
        })
        (round_bound wf) 0 (initial_run g (initial_context e input)) stop tt looped in
    let ends = finish-Ends e.platform wf err_at stop in
    (
      stop.run.trace ++ finish e.platform wf err_at stop,
      rw (looped, execute_dag),
      record {
        before = stop.run.trace;
        status = ends.status;
        error = ends.error;
        output = ends.output;
        split = ap (λ l. stop.run.trace ++ l) ends.effects;
        own = own;
        terminal = ends.terminal;
      },
    )
