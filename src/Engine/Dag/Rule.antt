-- ===== src/Engine/Dag/Rule.antt =====
-- A proof rule for the processing of a wave's results: the changes that it is made of.
use react_go_workflow.Prelude.{
  ℕ, pos, ◌≡◌, refl, sym, inl, inr, false, none, some, List, [], ◌∷◌, arith, Bool-cases,
  Option-cases, then_some, update, subst,
}
use mathlib.Core.Option.{some_inj}
use react_go_workflow.Value.{Object}
use react_go_workflow.Engine.Errors.{Error, Result, ok, err, step_failed}
use react_go_workflow.Engine.Context.{ExecContext}
use react_go_workflow.Engine.Types.{Uuid, Step, Edge}
use react_go_workflow.Engine.Attempts.{Outcome}
use react_go_workflow.Engine.Graph.{Platform, Graph, step_by_id}
use react_go_workflow.Engine.Skip.{Run, decrement, mark_skipped, skip_branch}
use react_go_workflow.Engine.Skip.Rule.{IsPreorder, skip_branch_ind}
use react_go_workflow.Engine.Dag.{
  StepOutcome, is_taken, follow_error_edges, process_failure, follow_edges, decrement_all,
  record_output, process_success, process_known, process_result, process_results,
}

module _ (p : Platform) (steps : List Step) (execs : List Uuid) (g : Graph) where
  -- A failure follows the error edges, and may set the error of the execution beside.
  pub process_failure_cases :
      (P : Run → Type 0) (s : Step) (e : Error) (r : Run)
      → (let followed = follow_error_edges p steps execs g s e (g.error_edges s.id) r in P followed)
      → (let followed = follow_error_edges p steps execs g s e (g.error_edges s.id) r in
          (x : Error) → P (record followed { execution_err = some x }))
      → P (process_failure p steps execs g s e r)
  unfolding process_failure
  process_failure_cases P s e r plain blamed = go (g.error_edges s.id)
    where
      followed : Run
      followed = follow_error_edges p steps execs g s e (g.error_edges s.id) r

      go :
          (edges : List Edge)
          → P (elim edges [
            | [] ↦ record followed { execution_err = some (step_failed s.name e) }
            | _ ∷ _ ↦ followed
          ])
      go [] = blamed (step_failed s.name e)
      go (_ ∷ _) = plain

  -- What a relation between runs has to be kept by.
  pub record IsKept (R : Run → Run → Type 0) : Type 0 where
    pub preorder : IsPreorder R
    pub lowered : (id : Uuid) (r : Run) → R r (decrement id r)
    pub marked : (id : Uuid) (r : Run) → r.done id ≡ false → R r (mark_skipped steps execs g id r)
    pub readied :
        (id : Uuid) (c : ExecContext) (r : Run)
        → R r (record r { context = c; in_degree = update r.in_degree id (pos 0) })
    pub failed : (e : Error) (r : Run) → R r (record r { execution_err = some e })

  -- Of these, what the edges of a completed step make use of.
  pub record IsFollowed (R : Run → Run → Type 0) : Type 0 where
    pub preorder : IsPreorder R
    pub lowered : (id : Uuid) (r : Run) → R r (decrement id r)
    pub marked : (id : Uuid) (r : Run) → r.done id ≡ false → R r (mark_skipped steps execs g id r)

  pub IsKept-IsFollowed : (R : Run → Run → Type 0) → IsKept R → IsFollowed R
  IsKept-IsFollowed R k = record { preorder = k.preorder; lowered = k.lowered; marked = k.marked }

  -- The recording of a step's output keeps the relation too.
  abbrev pub Records : (Run → Run → Type 0) → Step → Type 0
  Records R s = (output : Object) (r : Run) → R r (record_output p steps execs g s output r)

  module _ (R : Run → Run → Type 0) (k : IsFollowed R) where
    abbrev joined : {r s t : Run} → R r s → R s t → R r t
    joined f h = k.preorder.and_then _ _ _ f h

    pub decrement_all_ind : (ids : List Uuid) (r : Run) → R r (decrement_all ids r)
    unfolding decrement_all
    decrement_all_ind [] r = k.preorder.same r
    decrement_all_ind (id ∷ ids) r = joined (k.lowered id r) (decrement_all_ind ids _)

    pub follow_edges_ind :
        (fuel : ℕ) (s : Step) (output : Object) (edges : List Edge) (r t : Run)
        → follow_edges p steps execs g fuel s output edges r ≡ some t
        → R r t
    unfolding follow_edges
    follow_edges_ind fuel s output [] r t e = ground (arith, k.preorder.same r)
    follow_edges_ind fuel s output (edge ∷ edges) r t e =
        elim (Bool-cases (is_taken s output edge)) [
          | inl taken ↦
              joined (k.lowered edge.target_step_id r)
                (follow_edges_ind fuel s output edges _ t (rw taken at e))
          | inr left ↦
              let (r', went, rest) =
                then_some (skip_branch steps execs g fuel edge.target_step_id r)
                  (follow_edges p steps execs g fuel s output edges) t (rw left at e) in
              joined
                (skip_branch_ind steps execs g R k.preorder (λ id u _. k.lowered id u) k.marked fuel
                  edge.target_step_id r r' went)
                (follow_edges_ind fuel s output edges r' t rest)
        ]

    pub process_success_ind :
        (fuel : ℕ) (s : Step)
        → Records R s
        → (output : Object) (r t : Run) → process_success p steps execs g fuel s output r ≡ some t
        → R r t
    unfolding process_success
    process_success_ind fuel s recorded output r t e =
        let (r', went, rest) =
          then_some
            (follow_edges p steps execs g fuel s output (g.normal_edges s.id)
              (record_output p steps execs g s output r))
            (λ u. some (decrement_all (g.implicit_downstream s.id) u)) t e in
        joined (recorded output r) (
          joined (follow_edges_ind fuel s output (g.normal_edges s.id) _ r' went)
            (subst (R r') (some_inj.0 rest) (decrement_all_ind (g.implicit_downstream s.id) r')))

  module _ (R : Run → Run → Type 0) (k : IsKept R) where
    abbrev chain : {r s t : Run} → R r s → R s t → R r t
    chain f h = k.preorder.and_then _ _ _ f h

    follow_error_edges_ind :
        (s : Step) (e : Error) (edges : List Edge) (r : Run)
        → R r (follow_error_edges p steps execs g s e edges r)
    unfolding follow_error_edges
    follow_error_edges_ind s e [] r = k.preorder.same r
    follow_error_edges_ind s e (edge ∷ edges) r =
        chain (k.readied edge.target_step_id _ r) (follow_error_edges_ind s e edges _)

    pub process_failure_ind :
        (s : Step) (e : Error) (r : Run) → R r (process_failure p steps execs g s e r)
    process_failure_ind s e r =
        let followed = follow_error_edges_ind s e (g.error_edges s.id) r in
        process_failure_cases (R r) s e r followed (λ x. chain followed (k.failed x _))

    process_known_ind :
        (fuel : ℕ) (s : Step)
        → Records R s
        → (result : Result Object) (r t : Run)
        → process_known p steps execs g fuel s result r ≡ some t
        → R r t
    process_known_ind fuel s recorded (err x) r t e =
        subst (R r) (some_inj.0 e) (process_failure_ind s x r)
    process_known_ind fuel s recorded (ok output) r t e =
        process_success_ind R (IsKept-IsFollowed R k) fuel s recorded output r t e

    pub process_result_ind :
        (fuel : ℕ) (id : Uuid) (o : Outcome) (r t : Run)
        → ((s : Step) → step_by_id steps id ≡ some s → Records R s)
        → process_result p steps execs g fuel (id, o) r ≡ some t
        → R r t
    unfolding process_result
    process_result_ind fuel id o r t recorded e = elim (Option-cases (step_by_id steps id)) [
      | inl missing ↦
          subst (R r) (some_inj.0 (rw (missing, process_result) at e)) (k.preorder.same r)
      | inr (s, found) ↦
          process_known_ind fuel s (recorded s found) o.result r t (rw (found, process_result) at e)
    ]

    pub process_results_ind :
        ((s : Step) → Records R s)
        → (fuel : ℕ) (l : List StepOutcome) (r t : Run)
        → process_results p steps execs g fuel l r ≡ some t
        → R r t
    unfolding process_results
    process_results_ind recorded fuel [] r t e = subst (R r) (some_inj.0 e) (k.preorder.same r)
    process_results_ind recorded fuel ((id, o) ∷ l) r t e =
        let (r', went, rest) =
          then_some (process_result p steps execs g fuel (id, o) r)
            (process_results p steps execs g fuel l) t e in
        chain (process_result_ind fuel id o r r' (λ s _. recorded s) went)
          (process_results_ind recorded fuel l r' t rest)

  -- What the processing of one result came to.
  pub data Processed (fuel : ℕ) (id : Uuid) (o : Outcome) (r t : Run) : Type 0 where
    unknown : step_by_id steps id ≡ none → t ≡ r → Processed fuel id o r t
    failed_with :
        (s : Step) (e : Error)
        → step_by_id steps id ≡ some s
        → o.result ≡ err e
        → t ≡ process_failure p steps execs g s e r
        → Processed fuel id o r t
    succeeded :
        (s : Step) (output : Object)
        → step_by_id steps id ≡ some s
        → o.result ≡ ok output
        → process_success p steps execs g fuel s output r ≡ some t
        → Processed fuel id o r t

  pub process_result_cases :
      (fuel : ℕ) (id : Uuid) (o : Outcome) (r t : Run)
      → process_result p steps execs g fuel (id, o) r ≡ some t
      → Processed fuel id o r t
  unfolding process_result
  process_result_cases fuel id o r t e = elim (Option-cases (step_by_id steps id)) [
    | inl missing ↦ unknown missing (sym (some_inj.0 (rw (missing, process_result) at e)))
    | inr (s, found) ↦ known s found o.result refl (rw (found, process_result) at e)
  ]
    where
      known :
          (s : Step)
          → step_by_id steps id ≡ some s
          → (x : Result Object) → o.result ≡ x
          → process_known p steps execs g fuel s x r ≡ some t
          → Processed fuel id o r t
      known s found (err x) is went = failed_with s x found is (sym (some_inj.0 went))
      known s found (ok output) is went = succeeded s output found is went
