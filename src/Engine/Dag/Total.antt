-- ===== src/Engine/Dag/Total.antt =====
-- The results of a wave are processed to the end: skipBranch has enough fuel.
use react_go_workflow.Prelude.{
  ℕ, ◌<◌, ◌≡◌, refl, inl, inr, some, List, [], ◌∷◌, ◌++◌, arith, Bool-cases, Option-cases, All, In,
}
use react_go_workflow.Value.{Object}
use react_go_workflow.Engine.Errors.{Result, ok, err}
use react_go_workflow.Engine.Types.{Uuid, Step, Edge}
use react_go_workflow.Engine.Graph.{targets, downstream, Platform, Graph, step_by_id}
use react_go_workflow.Engine.Skip.{Run, decrement}
use react_go_workflow.Engine.Skip.Total.{
  KeepsDone, KeepsDone-preorder, skip_branch-KeepsDone, skip_branch_total, undone, undone_mono,
}
use react_go_workflow.Engine.Dag.{
  StepOutcome, is_taken, follow_edges, decrement_all, record_output, process_success, process_known,
  process_result, process_results,
}
use react_go_workflow.Engine.Dag.Rule.{IsKept, process_result_ind, process_results_ind}

module _ (p : Platform) (steps : List Step) (execs : List Uuid) (g : Graph) where
  KeepsDone-IsKept : IsKept p steps execs g KeepsDone
  KeepsDone-IsKept = record {
    preorder = KeepsDone-preorder;
    lowered = λ id r j h. h;
    marked = λ id r new j h. ground arith;
    readied = λ id c r j h. h;
    failed = λ e r j h. h;
  }

  pub process_results-KeepsDone :
      (fuel : ℕ) (l : List StepOutcome) (r t : Run)
      → process_results p steps execs g fuel l r ≡ some t
      → KeepsDone r t
  process_results-KeepsDone =
      process_results_ind p steps execs g KeepsDone KeepsDone-IsKept (λ s output r j h. h)

  module _ (all : List Uuid) (closed : (id : Uuid) → All (λ j. In j all) (downstream g id)) where
    follow_edges_total :
        (fuel : ℕ) (s : Step) (output : Object) (edges : List Edge) (r : Run)
        → All (λ j. In j all) (targets edges)
        → undone all r < fuel
        → (t : Run) × (follow_edges p steps execs g fuel s output edges r ≡ some t)
    unfolding follow_edges
    follow_edges_total fuel s output [] r a b = (r, refl)
    follow_edges_total fuel s output (edge ∷ edges) r a b =
        elim (Bool-cases (is_taken s output edge)) [
          | inl taken ↦
              rw taken
                (follow_edges_total fuel s output edges (decrement edge.target_step_id r) a.1 b)
          | inr left ↦
              let (r', went) =
                skip_branch_total steps execs g all closed fuel edge.target_step_id r a.0 b in
              let keeps = skip_branch-KeepsDone steps execs g fuel edge.target_step_id r r' went in
              let (t, rest) =
                follow_edges_total fuel s output edges r' a.1
                  (omega (arith, undone_mono all r r' keeps)) in
              (t, rw (left, went) rest)
        ]

    All-left : (xs ys : List Uuid) → All (λ j. In j all) (xs ++ ys) → All (λ j. In j all) xs
    All-left [] ys a = tt
    All-left (x ∷ xs) ys a = (a.0, All-left xs ys a.1)

    process_success_total :
        (fuel : ℕ) (s : Step) (output : Object) (r : Run)
        → undone all r < fuel
        → (t : Run) × (process_success p steps execs g fuel s output r ≡ some t)
    unfolding process_success
    process_success_total fuel s output r b =
        let (t, went) =
          follow_edges_total fuel s output (g.normal_edges s.id)
            (record_output p steps execs g s output r)
            (All-left (targets (g.normal_edges s.id)) _ (closed s.id)) b in
        (decrement_all (g.implicit_downstream s.id) t, rw (went, process_success))

    process_result_total :
        (fuel : ℕ) (o : StepOutcome) (r : Run)
        → undone all r < fuel
        → (t : Run) × (process_result p steps execs g fuel o r ≡ some t)
    unfolding process_result
    process_result_total fuel (id, o) r b = elim (Option-cases (step_by_id steps id)) [
      | inl missing ↦ (r, rw (missing, process_result))
      | inr (s, found) ↦ rw (found, process_result) (known s o.result)
    ]
      where
        known :
            (s : Step) (result : Result Object)
            → (t : Run) × (process_known p steps execs g fuel s result r ≡ some t)
        known s (err e) = (_, refl)
        known s (ok output) = process_success_total fuel s output r b

    pub process_results_total :
        (fuel : ℕ) (l : List StepOutcome) (r : Run)
        → undone all r < fuel
        → (t : Run) × (process_results p steps execs g fuel l r ≡ some t)
    unfolding process_results
    process_results_total fuel [] r b = (r, refl)
    process_results_total fuel ((id, o) ∷ l) r b =
        let (r', went) = process_result_total fuel (id, o) r b in
        let keeps =
          process_result_ind p steps execs g KeepsDone KeepsDone-IsKept fuel id o r r'
            (λ s _ output u j h. h) went in
        let (t, rest) =
          process_results_total fuel l r' (omega (arith, undone_mono all r r' keeps)) in
        (t, rw (went, process_results) rest)
