-- ===== src/Engine/Safety/Blame.antt =====
-- The loop over the waves: the error of the execution is that of a step which failed and has no error edge.
pub mod Waves
use mathlib.Core.Option.{some_inj}
use mathlib.Core.List.{append-nil}
use react_go_workflow.Prelude.{
  In-append, ℕ, ◌≡◌, ◌≢◌, refl, sym, ap, ◌∙◌, subst, inl, inr, ◌⊎◌, none, some, List, [], ◌∷◌, ◌++◌,
  In, In-append_left, In-append_right, All, then_some, Option-cases, arith,
}
use react_go_workflow.Engine.Errors.{Error, step_failed, message, err}
use react_go_workflow.Engine.Types.{Uuid, Step, Edge, Registry}
use react_go_workflow.Engine.Attempts.{Outcome}
use react_go_workflow.Engine.Attempts.Failures.{Failure, failures, failures-append, failure_in}
use react_go_workflow.Engine.Graph.{Platform, Graph, step_by_id}
use react_go_workflow.Engine.Skip.{Run, emit}
use react_go_workflow.Engine.Skip.Rule.{IsPreorder}
use react_go_workflow.Engine.Dag.{
  StepOutcome, ready, mark_wave, wave_effects, execute_wave, follow_error_edges, process_failure,
  process_result, process_results, run_wave,
}
use react_go_workflow.Engine.Dag.Rule.{
  IsFollowed, process_failure_cases, process_success_ind, Processed, unknown, failed_with,
  succeeded, process_result_cases,
}
use react_go_workflow.Engine.Safety.Answers.{IsKnown, execute_wave-IsKnown}
use react_go_workflow.Engine.Safety.Failures.{failing, failures-wave, skip_effects-failures}
use react_go_workflow.Engine.Safety.Results.{step_by_id-id}
use react_go_workflow.Engine.Safety.Wave.{mark_wave-Marked}

-- No step fails, and the error of the execution stays.
abbrev Steady : Run → Run → Type 0
Steady r t = (failures t.trace ≡ failures r.trace) × (t.execution_err ≡ r.execution_err)

step_by_id-In :
    (steps : List Step) (id : Uuid) (s : Step) → step_by_id steps id ≡ some s → In s steps
unfolding step_by_id
step_by_id-In [] id s e = absurd cc
step_by_id-In (x ∷ steps) id s e = elim (Option-cases (step_by_id steps id)) [
  | inl none' ↦ inl (ground (arith, none'))
  | inr (y, found) ↦ inr (step_by_id-In steps id s (ground (arith, found)))
]

module _ (p : Platform) (steps : List Step) (execs : List Uuid) (g : Graph) where
  Steady-preorder : IsPreorder Steady
  Steady-preorder = record {
    same = λ r. (refl, refl);
    and_then = λ r s t f h. (h.0 ∙ f.0, h.1 ∙ f.1);
  }

  Steady-IsFollowed : IsFollowed p steps execs g Steady
  Steady-IsFollowed = record {
    preorder = Steady-preorder;
    lowered = λ id r. (refl, refl);
    marked = λ id r new. (
      failures-append r.trace _
          ∙ ap (λ l. failures r.trace ++ l) (skip_effects-failures steps execs g id)
          ∙ append-nil (failures r.trace),
      refl,
    );
  }

  follow_error_edges-Steady :
      (s : Step) (x : Error) (edges : List Edge) (r : Run)
      → Steady r (follow_error_edges p steps execs g s x edges r)
  unfolding follow_error_edges
  follow_error_edges-Steady s x [] r = (refl, refl)
  follow_error_edges-Steady s x (e ∷ edges) r = follow_error_edges-Steady s x edges _

  -- A failure on record that nothing follows, and that gave the execution its error.
  pub record Unhandled (l : List Failure) (x : Error) : Type 0 where
    pub step : Step
    pub cause : Error
    pub known : In step steps
    pub failed : In (step.id, message cause) l
    pub no_edge : g.error_edges step.id ≡ []
    pub said : x ≡ step_failed step.name cause

  -- Where the execution has an error there is such a failure, and where it has none each failure but
  -- those of `left`, which are still to be processed, has an error edge.
  pub record Blames (left : List StepOutcome) (r : Run) : Type 0 where
    pub known : (x : Error) → r.execution_err ≡ some x → Unhandled (failures r.trace) x
    pub quiet :
        r.execution_err ≡ none
        → (f : Failure) → In f (failures r.trace)
        → (g.error_edges f.0 ≢ []) ⊎ In f (failing left)

  Blames-Steady : (left : List StepOutcome) (r t : Run) → Steady r t → Blames left r → Blames left t
  Blames-Steady left r t same h = record {
    known = λ x e. subst (λ l. Unhandled l x) (sym same.0) (h.known x (sym same.1 ∙ e));
    quiet = λ e f i. h.quiet (sym same.1 ∙ e) f (subst (In f) same.0 i);
  }

  process_failure-failures :
      (s : Step) (x : Error) (r : Run)
      → failures (process_failure p steps execs g s x r).trace ≡ failures r.trace
  process_failure-failures s x r =
      let same = follow_error_edges-Steady s x (g.error_edges s.id) r in
      process_failure_cases p steps execs g (λ u. failures u.trace ≡ failures r.trace) s x r same.0
        (λ y. same.0)

  failure_in-id :
      (id : Uuid) (o : Outcome) (s : Step) (x : Error) (f : Failure)
      → step_by_id steps id ≡ some s
      → o.result ≡ err x
      → In f (failure_in id o.result)
      → f.0 ≡ s.id
  unfolding failure_in
  failure_in-id id o s x f found is i = one (subst (λ a. In f (failure_in id a)) is i)
    where
      one : In f ((id, message x) ∷ []) → f.0 ≡ s.id
      one (inl e) = sym (ap (λ q. q.0) e) ∙ sym (step_by_id-id steps id s found)
      one (inr k) = absurd k

  -- The failure of the next result is processed: it has an error edge, or it is the error from now on.
  process_failure-Blames :
      (id : Uuid) (o : Outcome) (left : List StepOutcome) (s : Step) (x : Error) (r : Run)
      → step_by_id steps id ≡ some s
      → o.result ≡ err x
      → In (s.id, message x) (failures r.trace)
      → Blames ((id, o) ∷ left) r
      → Blames left (process_failure p steps execs g s x r)
  unfolding process_failure failing failure_in
  process_failure-Blames id o left s x r found is told h = go (g.error_edges s.id) refl
    where
      followed : Run
      followed = follow_error_edges p steps execs g s x (g.error_edges s.id) r

      same : Steady r followed
      same = follow_error_edges-Steady s x (g.error_edges s.id) r

      go :
          (edges : List Edge)
          → g.error_edges s.id ≡ edges
          → Blames left (elim edges [
            | [] ↦ record followed { execution_err = some (step_failed s.name x) }
            | _ ∷ _ ↦ followed
          ])
      go [] no_edge = record {
        known = λ y e. record {
          step = s;
          cause = x;
          known = step_by_id-In steps id s found;
          failed = subst (In (s.id, message x)) (sym same.0) told;
          no_edge = no_edge;
          said = sym (some_inj.0 e);
        };
        quiet = λ e f i. absurd cc;
      }
      go (e' ∷ edges) some_edge = record {
        known = λ y e. (Blames-Steady ((id, o) ∷ left) r followed same h).known y e;
        quiet = λ e f i. elim ((Blames-Steady ((id, o) ∷ left) r followed same h).quiet e f i) [
          | inl handled ↦ inl handled
          | inr later ↦ elim (In-append f (failure_in id o.result) (failing left) later) [
            | inl now ↦ inl (λ none'. absurd (
                cons_nil (
                  sym some_edge
                  ∙ ap g.error_edges (sym (failure_in-id id o s x f found is now))
                  ∙ none')))
            | inr rest ↦ inr rest
          ]
        ];
      }
        where
          cons_nil : {y : Edge} {l : List Edge} → y ∷ l ≡ [] → ⊥
          cons_nil q = absurd cc

  pub process_result-Blames :
      (fuel : ℕ) (id : Uuid) (o : Outcome) (left : List StepOutcome) (r t : Run)
      → IsKnown steps id
      → ((f : Failure) → In f (failure_in id o.result) → In f (failures r.trace))
      → Blames ((id, o) ∷ left) r
      → process_result p steps execs g fuel (id, o) r ≡ some t
      → Blames left t × (failures t.trace ≡ failures r.trace)
  unfolding process_failure failing failure_in
  process_result-Blames fuel id o left r t known told h went =
      go (process_result_cases p steps execs g fuel id o r t went)
    where
      go :
          Processed p steps execs g fuel id o r t
          → Blames left t × (failures t.trace ≡ failures r.trace)
      go (unknown missing same) = absurd (known missing)
      go (failed_with s x found is same) = rw same (
        process_failure-Blames id o left s x r found is
            (told (s.id, message x) (rw (is, step_by_id-id steps id s found) (inl refl))) h,
        process_failure-failures s x r,
      )
      go (succeeded s output found is ran) =
          let steady =
            process_success_ind p steps execs g Steady Steady-IsFollowed fuel s
              (λ output' u. (refl, refl)) output r t ran in
          (
            Blames-Steady left r t steady (record {
              known = h.known;
              quiet = λ e f i.
                  subst (λ a. (g.error_edges f.0 ≢ []) ⊎ In f (failure_in id a ++ failing left)) is
                    (h.quiet e f i);
            }),
            steady.0,
          )
