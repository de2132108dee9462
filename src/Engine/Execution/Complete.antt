-- ===== src/Engine/Execution/Complete.antt =====
-- What the status `completed` says: every step was completed or skipped.
use react_go_workflow.Prelude.{
  ℕ, zero, suc, ◌<◌, ◌≡◌, refl, sym, ap, ◌∙◌, inl, inr, ◌⊎◌, Option, none, some, List, [], ◌∷◌,
  ◌++◌, In, In-append_left, All, All-of, is_positive, true, false, not, arith, count_if_none,
  Bool-cases, Option-cases,
}
use mathlib.Core.Option.{some_inj}
use react_go_workflow.Value.{Object}
use react_go_workflow.Engine.Types.{
  Uuid, Edge, normal, error, Workflow, Effect, Status, completed, end_execution,
}
use react_go_workflow.Engine.Errors.{Error}
use react_go_workflow.Engine.Graph.{Platform, Graph, build_graph}
use react_go_workflow.Engine.Graph.Balance.{build_graph-IsBalanced}
use react_go_workflow.Engine.Graph.Edges.{build_graph-OnlyErrors}
use react_go_workflow.Engine.Skip.{Run}
use react_go_workflow.Engine.Clock.{ctx_err}
use react_go_workflow.Engine.Trace.{finished, finished-append, Distinct}
use react_go_workflow.Engine.Dag.{ready}
use react_go_workflow.Engine.Loop.{Stop}
use react_go_workflow.Engine.Loop.Rule.{WavesRule, Stopped, waves_end}
use react_go_workflow.Engine.Safety.Settled.{settled}
use react_go_workflow.Engine.Safety.Rounds.{Safe, Safe-rule}
use react_go_workflow.Engine.Safety.Answers.{ready-none}
use react_go_workflow.Engine.Safety.Clear.{Clear, run_wave-Clear}
use react_go_workflow.Engine.Execution.{
  Setting, initial_run, initial_context, step_ids, round_bound, depth_bound, run_loop, finish,
  execute_dag,
}
use react_go_workflow.Engine.Execution.Total.{run_loop_total}
use react_go_workflow.Engine.Execution.Ends.{Ends, finish-Ends}
use react_go_workflow.Engine.Execution.Order.{NoHandler, apart, initial_run-Safe}

-- The last status that was written to the execution's row.
abbrev pub ended_with : List Effect → Option Status
ended_with [] = none
ended_with (e ∷ l) = elim (ended_with l) [ some s ↦ some s | none ↦ status_of e ]
  where
    status_of : Effect → Option Status
    status_of (end_execution s m o) = some s
    status_of _ = none

ended_with-append :
    (k l : List Effect) (s : Status) → ended_with l ≡ some s → ended_with (k ++ l) ≡ some s
ended_with-append [] l s h = h
ended_with-append (e ∷ k) l s h = rw (ended_with-append k l s h) refl

-- The dependencies of steps are steps, and lead to smaller ranks: there is no cycle.
pub record IsRanked (p : Platform) (wf : Workflow) (rank : Uuid → ℕ) : Type 0 where
  pub known :
      (t d : Uuid)
      → In t (step_ids wf)
      → In d ((build_graph p wf).normal_deps t)
      → In d (step_ids wf)
  pub lower :
      (t d : Uuid) → In t (step_ids wf) → In d ((build_graph p wf).normal_deps t) → rank d < rank t

abbrev pub OnlyNormal : Workflow → Type 0
OnlyNormal wf = (e : Edge) → In e wf.edges → e.edge_type ≡ normal

module _ (p : Platform) (wf : Workflow) (rank : Uuid → ℕ) (ranked : IsRanked p wf rank)
    (plain : OnlyNormal wf) where
  abbrev g : Graph
  g = build_graph p wf

  no_handler : (id : Uuid) → NoHandler wf id
  no_handler id e i is to = absurd (normal_error (sym (plain e i) ∙ is))
    where
      normal_error : normal ≡ error → ⊥
      normal_error q = absurd cc

  no_error_edges : (s : Uuid) → g.error_edges s ≡ []
  no_error_edges s = go (g.error_edges s) (build_graph-OnlyErrors p wf s)
    where
      go : (l : List Edge) → ((e : Edge) → In e l → In e wf.edges × (e.edge_type ≡ error)) → l ≡ []
      go [] h = refl
      go (e ∷ l) h =
          let (i, is) = h e (inl refl) in absurd (no_handler e.target_step_id e i is refl)

  -- When no step is ready and no failure is on record, all steps are done.
  all_done :
      (r : Run)
      → Safe g (NoHandler wf) r
      → Clear r
      → ready wf.steps r ≡ []
      → r.execution_err ≡ none
      → (n : ℕ) (t : Uuid) → rank t < n
      → In t (step_ids wf)
      → r.done t ≡ true
  all_done r safe clear idle calm zero t below i = absurd (omega arith)
  all_done r safe clear idle calm (suc n) t below i = elim (Bool-cases (r.done t)) [
    | inl done ↦ done
    | inr new ↦
        let settled_all : (d : Uuid) → In d (g.normal_deps t) → not (settled r d) ≡ false = λ d j.
          ground (
            arith,
            clear calm d (
                all_done r safe clear idle calm n d (omega (arith, ranked.lower t d i j))
                  (ranked.known t d i j)),
          ) in
        let waits : is_positive (r.in_degree t) ≡ true = ready-none wf.steps r t idle i new in
        ground (
          arith,
          safe.owes t (no_handler t) new,
          count_if_none (λ s. not (settled r s)) (g.normal_deps t) settled_all,
          waits,
        )
  ]

-- What completed says of the variables at the end of the loop.
completed-calm :
    (blamed : Option Error) (l : List Effect)
    → Ends blamed l
    → (k : List Effect) → ended_with (k ++ l) ≡ some completed
    → blamed ≡ none
completed-calm blamed l ends k ended = elim (Option-cases blamed) [
  | inl quiet ↦ quiet
  | inr (x, e) ↦ absurd (ends.blames x e (some_inj.0 (sym last ∙ ended)))
]
  where
    last : ended_with (k ++ l) ≡ some ends.status
    last = ended_with-append k l ends.status (rw ends.effects refl)

module _ (e : Setting) (wf : Workflow) (rank : Uuid → ℕ) (unique : Distinct (step_ids wf))
    (plain : OnlyNormal wf) (ranked : IsRanked e.platform wf rank) where
  abbrev graph : Graph
  graph = build_graph e.platform wf

  -- What the loop keeps here.
  abbrev SafeAndClear : Run → Type 0
  SafeAndClear r = Safe graph (NoHandler wf) r × Clear r

  abbrev HasStopped : Stop → Type 0
  HasStopped = Stopped e.platform e.registry wf.steps (step_ids wf) graph SafeAndClear

  SafeAndClear-rule :
      WavesRule e.platform e.registry wf.steps (step_ids wf) graph SafeAndClear (depth_bound wf)
  SafeAndClear-rule =
      let safe =
        Safe-rule e.platform e.registry wf.steps (step_ids wf) graph (NoHandler wf)
          (build_graph-IsBalanced e.platform wf).agree (apart e.platform wf) unique
          (depth_bound wf) in
      let clear =
        run_wave-Clear e.platform e.registry wf.steps (step_ids wf) graph
          (no_error_edges e.platform wf rank ranked plain) (depth_bound wf) in
      record {
        wave = λ r t h w. (safe.wave r t h.0 w, clear r t h.1 w);
        interrupted = λ x r h. (safe.interrupted x r h.0, λ c. absurd cc);
      }

  run_loop-HasStopped :
      (input : Object) (stop : Stop) → run_loop e wf input ≡ some stop → HasStopped stop
  unfolding run_loop initial_run
  run_loop-HasStopped input stop looped =
      waves_end e.platform e.registry wf.steps (step_ids wf) graph
        (ctx_err e.world wf.timeout_seconds) SafeAndClear (depth_bound wf) SafeAndClear-rule
        (round_bound wf) 0 (initial_run graph (initial_context e input)) stop
        (initial_run-Safe e.platform wf _, λ c j d. absurd cc) looped

  all_over :
      (stop : Stop)
      → HasStopped stop
      → stop.run.execution_err ≡ none
      → (id : Uuid) → In id (step_ids wf)
      → In id (finished stop.run.trace)
  all_over stop h calm id i =
      let (safe, clear) = h.kept in
      safe.shown id (
        clear calm id (
          all_done e.platform wf rank ranked plain stop.run safe clear (idle h.why) calm
            (suc (rank id)) id (omega arith) i))
    where
      idle :
          (ready wf.steps stop.run ≡ []) ⊎ ((x : Error) × (stop.run.execution_err ≡ some x))
          → ready wf.steps stop.run ≡ []
      idle (inl none_ready) = none_ready
      idle (inr (x, blamed)) = absurd (some≢none (sym blamed ∙ calm))
        where
          some≢none : some x ≡ none → ⊥
          some≢none q = absurd cc

-- An execution that ends as completed leaves no step out: where the workflow has no error edge and no
-- cycle, its steps have different ids and their dependencies are steps, every step was completed or
-- skipped by then.
pub execute_dag-Complete :
    (e : Setting) (wf : Workflow) (input : Object) (effects : List Effect) (rank : Uuid → ℕ)
    → Distinct (step_ids wf)
    → OnlyNormal wf
    → IsRanked e.platform wf rank
    → execute_dag e wf input ≡ some effects
    → ended_with effects ≡ some completed
    → All (λ id. In id (finished effects)) (step_ids wf)
unfolding execute_dag
execute_dag-Complete e wf input effects rank unique plain ranked went ended =
    let (stop, looped) = run_loop_total e wf input in
    let tail = finish e.platform wf (ctx_err e.world wf.timeout_seconds) stop in
    let same : stop.run.trace ++ tail ≡ effects =
      some_inj.0 (sym (rw (looped, execute_dag) refl) ∙ went) in
    let calm =
      completed-calm stop.run.execution_err tail
        (finish-Ends e.platform wf (ctx_err e.world wf.timeout_seconds) stop) stop.run.trace
        (ap ended_with same ∙ ended) in
    All-of _ (step_ids wf) (λ id i.
      rw (sym same, finished-append stop.run.trace tail)
        (In-append_left id (finished stop.run.trace) (finished tail) (
          all_over e wf rank unique plain ranked stop
            (run_loop-HasStopped e wf rank unique plain ranked input stop looped) calm id i)))
