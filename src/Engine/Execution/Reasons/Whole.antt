-- ===== src/Engine/Execution/Reasons/Whole.antt =====
-- executeDAG: every execution ends for a reason.
use react_go_workflow.Prelude.{
  ℕ, suc, ◌≡◌, ◌≢◌, refl, sym, ap, ◌∙◌, inl, inr, Option, none, some, List, [], ◌++◌, In, Text,
}
use react_go_workflow.Value.{Object}
use react_go_workflow.Engine.Errors.{Error}
use react_go_workflow.Engine.Types.{Workflow, Status, completed, Effect}
use react_go_workflow.Engine.Attempts.Failures.{Failure, failures}
use react_go_workflow.Engine.Graph.{build_graph}
use react_go_workflow.Engine.Clock.{CtxErr, ctx_err}
use react_go_workflow.Engine.Loop.{Stop}
use react_go_workflow.Engine.Loop.Halts.{Halts, idle, interrupted, waves-Halts}
use react_go_workflow.Engine.Safety.Blame.{Blames}
use react_go_workflow.Engine.Safety.Blame.Waves.{run_wave-Blames}
use react_go_workflow.Engine.Safety.Failures.{failing}
use react_go_workflow.Engine.Execution.{
  Setting, initial_run, initial_context, step_ids, round_bound, depth_bound, run_loop, finish,
  execute_dag, ending, end_badly, final_output,
}
use react_go_workflow.Engine.Execution.Total.{run_loop_total}
use react_go_workflow.Engine.Execution.Reasons.{
  Reason, Tail, went_well, stopped-Tail, blamed-Tail, ctx_err_stays, err_at, graph,
}

module _ (e : Setting) (wf : Workflow) where
  abbrev HasHalted : Stop → Type 0
  HasHalted =
      Halts e.platform e.registry wf.steps (step_ids wf) (graph e wf) (err_at e wf)
        (Blames e.platform wf.steps (step_ids wf) (graph e wf) [])

  -- Where no error is on record, ctx.Err() decides.
  calm-Tail :
      (stop : Stop) (x : Option CtxErr)
      → err_at e wf stop.reads ≡ x
      → (err_at e wf stop.reads ≡ none
          → (f : Failure) → In f (failures stop.run.trace)
          → (graph e wf).error_edges f.0 ≢ [])
      → Tail e wf stop.run.trace (elim x [
        | some _ ↦
            end_badly none (err_at e wf (suc stop.reads)) (err_at e wf (suc (suc stop.reads)))
        | none ↦ ending completed [] (final_output e.platform wf stop.run)
      ])
  calm-Tail stop (some x) met handled =
      stopped-Tail e wf stop.run.trace none (suc stop.reads) x
        (ctx_err_stays e.world wf.timeout_seconds stop.reads x met)
  calm-Tail stop none met handled = record {
    status = completed;
    error = [];
    output = _;
    effects = refl;
    reason = went_well stop.reads met (handled met);
  }

  -- What interrupted the loop is still there at its end.
  stays_to :
      (k j : ℕ) (x : CtxErr) → err_at e wf j ≡ some x → k ≡ suc (suc j) → err_at e wf k ≡ some x
  stays_to k j x met at_end = rw at_end (
      ctx_err_stays e.world wf.timeout_seconds (suc j) x
        (ctx_err_stays e.world wf.timeout_seconds j x met))

  finish-Tail :
      (stop : Stop)
      → HasHalted stop
      → Tail e wf stop.run.trace (finish e.platform wf (err_at e wf) stop)
  unfolding finish failing
  finish-Tail stop h = go stop.run.execution_err refl h
    where
      k : ℕ
      k = stop.reads

      go :
          (b : Option Error)
          → stop.run.execution_err ≡ b
          → HasHalted stop
          → Tail e wf stop.run.trace (elim b [
            | some x ↦ end_badly (some x) (err_at e wf k) (err_at e wf (suc k))
            | none ↦ elim (err_at e wf k) [
              | some _ ↦ end_badly none (err_at e wf (suc k)) (err_at e wf (suc (suc k)))
              | none ↦ ending completed [] (final_output e.platform wf stop.run)
            ]
          ])
      go (some x) is (idle blames) = blamed-Tail e wf stop.run.trace x k (blames.known x is)
      go (some x) is (interrupted j y met at_end) =
          stopped-Tail e wf stop.run.trace (some x) k y (stays_to k j y met at_end)
      go none is (idle blames) = calm-Tail stop (err_at e wf k) refl (λ met f i.
          elim (blames.quiet is f i) [ inl handled ↦ handled | inr none' ↦ absurd none' ])
      go none is (interrupted j y met at_end) =
          calm-Tail stop (err_at e wf k) refl
            (λ calm. absurd (some_none (sym (stays_to k j y met at_end) ∙ calm)))
        where
          some_none : {a : CtxErr} → some a ≡ none → ⊥
          some_none q = absurd cc

  -- What execute_dag did, how it ended, and why.
  pub record Explained (effects : List Effect) : Type 0 where
    pub before : List Effect
    pub status : Status
    pub error : Text
    pub output : Object
    pub split : effects ≡ before ++ ending status error output
    pub reason : Reason e wf before status error

-- The status of every execution has its reason. It is `completed` only if each step that failed has an
-- error edge. It is `failed` with the error of a step of the workflow which failed and has no error edge,
-- or because the time of the workflow ran out. It is `cancelled` only if the execution was cancelled. There is
-- one exception: an execution in which such a step failed, and which is cancelled between the last two reads of
-- ctx.Err(), is said to have timed out.
pub execute_dag-Explained :
    (e : Setting) (wf : Workflow) (input : Object)
    → (effects : List Effect) × (execute_dag e wf input ≡ some effects) × Explained e wf effects
unfolding execute_dag run_loop initial_run
execute_dag-Explained e wf input =
    let (stop, looped) = run_loop_total e wf input in
    let g = build_graph e.platform wf in
    let halts =
      waves-Halts e.platform e.registry wf.steps (step_ids wf) g
        (ctx_err e.world wf.timeout_seconds) (Blames e.platform wf.steps (step_ids wf) g [])
        (depth_bound wf)
        (run_wave-Blames e.platform e.registry wf.steps (step_ids wf) g (depth_bound wf))
        (round_bound wf) 0 (initial_run g (initial_context e input)) stop
        (record { known = λ x q. absurd cc; quiet = λ q f i. absurd i }) looped in
    let tail = finish-Tail e wf stop halts in
    (
      stop.run.trace ++ finish e.platform wf (ctx_err e.world wf.timeout_seconds) stop,
      rw (looped, execute_dag) refl,
      record {
        before = stop.run.trace;
        status = tail.status;
        error = tail.error;
        output = tail.output;
        split = ap (λ l. stop.run.trace ++ l) tail.effects;
        reason = tail.reason;
      },
    )
