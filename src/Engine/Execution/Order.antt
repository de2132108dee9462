-- ===== src/Engine/Execution/Order.antt =====
-- The order of an execution: each step starts once at most, and behind what it depends on.
use react_go_workflow.Prelude.{
  ◌≡◌, ◌≢◌, ◌∙◌, inl, inr, refl, subst, some, List, Text, [], ◌++◌, In, All-at, arith, count_if_all,
  not,
}
use react_go_workflow.Value.{Object, of_object}
use react_go_workflow.Engine.Types.{Uuid, Step, Edge, error, normal, Workflow, Effect}
use react_go_workflow.Engine.Graph.{Platform, Graph, build_graph}
use react_go_workflow.Engine.Graph.Balance.{build_graph-IsBalanced}
use react_go_workflow.Engine.Graph.Edges.{build_graph-OnlyErrors, normal_edge-Depends}
use react_go_workflow.Engine.Graph.References.{Mentions}
use react_go_workflow.Engine.Graph.Named.{PlatformLaws, Names}
use react_go_workflow.Engine.Graph.Linked.{build_graph-Linked}
use react_go_workflow.Engine.Clock.{ctx_err}
use react_go_workflow.Engine.Trace.{
  started, started-append, Distinct, IsOrdered, IsOrdered-append, IsOrdered-idle, IsOrdered-weaken,
}
use react_go_workflow.Engine.Loop.Rule.{waves_ind}
use react_go_workflow.Engine.Safety.Settled.{settled}
use react_go_workflow.Engine.Safety.Rounds.{DepsOver, Safe, Safe-rule}
use react_go_workflow.Engine.Execution.{
  Setting, initial_run, initial_context, step_ids, round_bound, depth_bound, run_loop, finish,
  execute_dag,
}
use react_go_workflow.Engine.Execution.Total.{run_loop_total}
use react_go_workflow.Engine.Execution.Ends.{finish-Ends}
use mathlib.Core.List.{append-nil}

-- No error edge of the workflow leads to the step.
abbrev pub NoHandler : Workflow → Uuid → Type 0
NoHandler wf id = (e : Edge) → In e wf.edges → e.edge_type ≡ error → e.target_step_id ≡ id → ⊥

module _ (p : Platform) (wf : Workflow) where
  abbrev g : Graph
  g = build_graph p wf

  pub apart : (s : Uuid) (e : Edge) → In e (g.error_edges s) → NoHandler wf e.target_step_id → ⊥
  apart s e i free = let (listed, is) = build_graph-OnlyErrors p wf s e i in free e listed is refl

  pub initial_run-Safe : (c : _) → Safe g (NoHandler wf) (initial_run g c)
  unfolding initial_run
  initial_run-Safe c = record {
    owes = λ t q new. ground (
      arith,
      (build_graph-IsBalanced p wf).degree t,
      count_if_all (λ s. not (settled (initial_run g c) s)) (λ x. refl) (g.normal_deps t),
    );
    settled_is_done = λ id e. absurd cc;
    shown = λ j e. absurd cc;
    known = λ j i. absurd i;
    once = tt;
    ordered = tt;
    own = tt;
  }

-- The source of each normal edge that leads to the step is over.
abbrev pub SourcesOver : Workflow → Uuid → List Uuid → Type 0
SourcesOver wf id over =
    NoHandler wf id
    → (e : Edge) → In e wf.edges
    → e.edge_type ≡ normal
    → e.target_step_id ≡ id
    → In e.source_step_id over

DepsOver-SourcesOver :
    (p : Platform) (wf : Workflow) (id : Uuid) (over : List Uuid)
    → DepsOver (build_graph p wf) (NoHandler wf) id over
    → SourcesOver wf id over
DepsOver-SourcesOver p wf id over h free e i is to =
    All-at _ ((build_graph p wf).normal_deps id) (h free) e.source_step_id (
      subst (λ t. In e.source_step_id ((build_graph p wf).normal_deps t)) to
        (normal_edge-Depends p wf e i is))

-- Each step that a text in the config of the step refers to is over.
abbrev pub ReferencesOver : Platform → Workflow → Uuid → List Uuid → Type 0
ReferencesOver p wf id over =
    NoHandler wf id
    → (s t : Step) (ref : Text) → In s wf.steps
    → s.id ≡ id
    → In t wf.steps
    → Mentions ref (of_object s.config)
    → Names p wf.steps ref t
    → t.id ≢ 0
    → t.id ≢ s.id
    → In t.id over

DepsOver-ReferencesOver :
    (p : Platform) (laws : PlatformLaws p) (wf : Workflow) (id : Uuid) (over : List Uuid)
    → DepsOver (build_graph p wf) (NoHandler wf) id over
    → ReferencesOver p wf id over
DepsOver-ReferencesOver p laws wf id over h free s t ref i own j mentioned named not_nil other =
    elim (build_graph-Linked p laws wf s t ref i j mentioned named not_nil other) [
      | inl there ↦
          All-at _ ((build_graph p wf).normal_deps id) (h free) t.id
            (subst (λ x. In t.id ((build_graph p wf).normal_deps x)) own there)
      | inr (e, listed, is, from, to) ↦ absurd (free e listed is (to ∙ own))
    ]

-- What the effects of an execution show of its order.
pub record InOrder (p : Platform) (wf : Workflow) (effects : List Effect) : Type 0 where
  -- No step is started twice.
  pub once : Distinct (started effects)
  -- Every start stands behind the completion or the skipping of the sources of the normal edges to it,
  pub sources : IsOrdered (SourcesOver wf) [] effects
  -- and of the steps that its config refers to.
  pub references : IsOrdered (ReferencesOver p wf) [] effects

-- In every execution of a workflow whose steps have different ids no step is started twice, and a step
-- that is the target of no error edge is started only when the source of each normal edge to it is
-- completed or skipped, and with it each step that its config refers to: one other than itself, with
-- an id that is not nil, that some text of the config names in {{steps.ref.path}}, without blanks,
-- where the expressions of a text are read from left to right and do not overlap, and `ref` is its
-- name and that of no step with another id, or is no step's name and is read as its id. Each execution
-- has such effects. This is where the texts of ids differ and are of one length, and `range` visits
-- every key of a map.
pub execute_dag-InOrder :
    (e : Setting) (wf : Workflow) (input : Object)
    → PlatformLaws e.platform
    → Distinct (step_ids wf)
    → (effects : List Effect) × (execute_dag e wf input ≡ some effects)
      × InOrder e.platform wf effects
unfolding execute_dag run_loop
execute_dag-InOrder e wf input laws unique =
    let (stop, looped) = run_loop_total e wf input in
    let g = build_graph e.platform wf in
    let err_at = ctx_err e.world wf.timeout_seconds in
    let rule =
      Safe-rule e.platform e.registry wf.steps (step_ids wf) g (NoHandler wf)
        (build_graph-IsBalanced e.platform wf).agree (apart e.platform wf) unique
        (depth_bound wf) in
    let safe =
      waves_ind e.platform e.registry wf.steps (step_ids wf) g err_at (Safe g (NoHandler wf))
        (depth_bound wf) rule (round_bound wf) 0 (initial_run g (initial_context e input)) stop
        (initial_run-Safe e.platform wf _) looped in
    let ends = finish-Ends e.platform wf err_at stop in
    let idle : started (finish e.platform wf err_at stop) ≡ [] = rw ends.effects refl in
    let ordered =
      IsOrdered-append _ [] stop.run.trace (finish e.platform wf err_at stop) safe.ordered
        (IsOrdered-idle _ _ (finish e.platform wf err_at stop) idle) in
    (
      stop.run.trace ++ finish e.platform wf err_at stop,
      rw (looped, execute_dag),
      record {
        once =
            rw
              (
                started-append stop.run.trace (finish e.platform wf err_at stop),
                idle,
                append-nil (started stop.run.trace),
              )
              safe.once;
        sources =
            IsOrdered-weaken _ (SourcesOver wf) (DepsOver-SourcesOver e.platform wf) []
              (stop.run.trace ++ finish e.platform wf err_at stop) ordered;
        references =
            IsOrdered-weaken _ (ReferencesOver e.platform wf)
              (DepsOver-ReferencesOver e.platform laws wf) []
              (stop.run.trace ++ finish e.platform wf err_at stop) ordered;
      },
    )
