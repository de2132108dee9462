-- ===== src/Engine/Execution/Reasons.antt =====
-- Why an execution ends with the status that it ends with.
pub mod Whole
use react_go_workflow.Prelude.{
  ℕ, suc, ◌≡◌, ◌≢◌, refl, sym, ap, ◌∙◌, inl, inr, Option, none, some, List, [], ◌++◌, In, Text,
  codes, Option-cases,
}
use react_go_workflow.Value.{Object}
use react_go_workflow.Engine.Errors.{Error, message}
use react_go_workflow.Engine.Types.{Workflow, Status, completed, failed, cancelled, Effect}
use react_go_workflow.Engine.Attempts.Failures.{Failure, failures}
use react_go_workflow.Engine.Graph.{Graph, build_graph}
use react_go_workflow.Engine.Clock.{CtxErr, canceled, deadline_exceeded, World, ctx_err}
use react_go_workflow.Engine.Loop.{Stop}
use react_go_workflow.Engine.Loop.Halts.{Halts, idle, interrupted, waves-Halts}
use react_go_workflow.Engine.Safety.Blame.{Unhandled, Blames}
use react_go_workflow.Engine.Safety.Blame.Waves.{run_wave-Blames}
use react_go_workflow.Engine.Safety.Failures.{failing}
use react_go_workflow.Engine.Execution.{
  Setting, initial_run, initial_context, step_ids, round_bound, depth_bound, run_loop, finish,
  execute_dag, ending, end_badly, final_output,
}
use react_go_workflow.Engine.Execution.Total.{run_loop_total}

-- ctx.Err() stays what it was.
pub ctx_err_stays :
    (w : World) (timeout : _) (k : ℕ) (x : CtxErr)
    → ctx_err w timeout k ≡ some x
    → ctx_err w timeout (suc k) ≡ some x
unfolding ctx_err
ctx_err_stays w timeout k x h = rw h refl

module _ (e : Setting) (wf : Workflow) where
  abbrev pub err_at : ℕ → Option CtxErr
  err_at = ctx_err e.world wf.timeout_seconds

  abbrev pub graph : Graph
  graph = build_graph e.platform wf

  -- The reasons for a status and an error, where the steps did what is in the list.
  pub data Reason (before : List Effect) : Status → Text → Type 0 where
    went_well :
        (k : ℕ)
        → ctx_err e.world wf.timeout_seconds k ≡ none
        → ((f : Failure)
            → In f (failures before)
            → (build_graph e.platform wf).error_edges f.0 ≢ [])
        → Reason before completed []
    failed_at :
        (x : Error)
        → Unhandled e.platform wf.steps
            (step_ids wf)
            (build_graph e.platform wf)
            (failures before)
            x
        → Reason before failed (message x)
    cancelled_at :
        (k : ℕ)
        → ctx_err e.world wf.timeout_seconds k ≡ some canceled
        → Reason before cancelled (codes "execution cancelled by user")
    timed_out_at :
        (k : ℕ)
        → ctx_err e.world wf.timeout_seconds k ≡ some deadline_exceeded
        → Reason before failed (codes "workflow timed out")
    cancelled_between :
        (k : ℕ) (x : Error)
        → Unhandled e.platform wf.steps
            (step_ids wf)
            (build_graph e.platform wf)
            (failures before)
            x
        → ctx_err e.world wf.timeout_seconds k ≡ none
        → ctx_err e.world wf.timeout_seconds (suc k) ≡ some canceled
        → Reason before failed (codes "workflow timed out")

  -- An end, and why.
  pub record Tail (before l : List Effect) : Type 0 where
    pub status : Status
    pub error : Text
    pub output : Object
    pub effects : l ≡ ending status error output
    pub reason : Reason before status error

  pub stopped-Tail :
      (before : List Effect) (b : Option Error) (k : ℕ) (x : CtxErr)
      → err_at k ≡ some x
      → Tail before (end_badly b (err_at k) (err_at (suc k)))
  stopped-Tail before b k canceled h = rw h (record {
    status = cancelled;
    error = _;
    output = none;
    effects = refl;
    reason = cancelled_at k h;
  })
  stopped-Tail before b k deadline_exceeded h =
      rw (h, ctx_err_stays e.world wf.timeout_seconds k deadline_exceeded h)
        (record {
          status = failed;
          error = _;
          output = none;
          effects = both b;
          reason = timed_out_at k h;
        })
    where
      both :
          (c : Option Error)
          → end_badly c (some deadline_exceeded) (some deadline_exceeded)
            ≡ ending failed (codes "workflow timed out") none
      both none = refl
      both (some c) = refl

  pub blamed-Tail :
      (before : List Effect) (x : Error) (k : ℕ)
      → Unhandled e.platform wf.steps (step_ids wf) graph (failures before) x
      → Tail before (end_badly (some x) (err_at k) (err_at (suc k)))
  blamed-Tail before x k u = elim (Option-cases (err_at k)) [
    | inr (c, met) ↦ stopped-Tail before (some x) k c met
    | inl calm ↦ rw calm (go (err_at (suc k)) refl calm)
  ]
    where
      go :
          (later : Option CtxErr)
          → err_at (suc k) ≡ later
          → err_at k ≡ none
          → Tail before (end_badly (some x) none later)
      go none met calm = record {
        status = failed;
        error = message x;
        output = none;
        effects = refl;
        reason = failed_at x u;
      }
      go (some canceled) met calm = record {
        status = failed;
        error = _;
        output = none;
        effects = refl;
        reason = cancelled_between k x u calm met;
      }
      go (some deadline_exceeded) met calm = record {
        status = failed;
        error = _;
        output = none;
        effects = refl;
        reason = timed_out_at (suc k) met;
      }
