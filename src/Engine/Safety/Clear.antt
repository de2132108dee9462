-- ===== src/Engine/Safety/Clear.antt =====
-- While no failure is on record, every step that is done has settled, if no step has error edges.
use mathlib.Core.Option.{some_inj}
use react_go_workflow.Prelude.{
  ℕ, ◌≡◌, ◌≢◌, refl, sym, ap, ◌∙◌, inl, inr, ◌⊎◌, Bool, true, false, ◌||◌, none, some, List, [],
  ◌∷◌, arith, Bool-cases, update, ◌==◌, ==_refl, then_some, subst, All,
}
use react_go_workflow.Value.{Object}
use react_go_workflow.Engine.Errors.{Error, step_failed}
use react_go_workflow.Engine.Types.{Uuid, Step, Registry}
use react_go_workflow.Engine.Attempts.{Outcome}
use react_go_workflow.Engine.Graph.{Platform, Graph, step_by_id}
use react_go_workflow.Engine.Skip.{Run, emit}
use react_go_workflow.Engine.Skip.Rule.{IsPreorder}
use react_go_workflow.Engine.Dag.{
  StepOutcome, process_result, process_results, process_failure, process_success, follow_edges,
  record_output, decrement_all, ready, run_wave, execute_wave, wave_effects, mark_wave,
}
use react_go_workflow.Engine.Dag.Rule.{
  IsKept, IsFollowed, IsKept-IsFollowed, Records, process_results_ind, follow_edges_ind,
  decrement_all_ind, Processed, unknown, failed_with, succeeded, process_result_cases,
}
use react_go_workflow.Engine.Safety.Settled.{settled}
use react_go_workflow.Engine.Safety.Wave.{Marked, mark_wave-Marked}
use react_go_workflow.Engine.Safety.Answers.{execute_wave-IsKnown, ready-answered, All-ids}
use react_go_workflow.Engine.Safety.Results.{step_by_id-id}

-- From `r` to `t` only what settles becomes done, nothing is unsettled, and no failure is forgotten.
pub record Careful (r t : Run) : Type 0 where
  pub gained : (j : Uuid) → t.done j ≡ true → (r.done j ≡ true) ⊎ (settled t j ≡ true)
  pub stays : (j : Uuid) → settled r j ≡ true → settled t j ≡ true
  pub blamed : t.execution_err ≡ none → r.execution_err ≡ none

Careful-preorder : IsPreorder Careful
Careful-preorder = record {
  same = λ r. record { gained = λ j d. inl d; stays = λ j h. h; blamed = λ e. e };
  and_then = λ r s t a b. record {
    gained = λ j d. elim (b.gained j d) [
      | inl before ↦ elim (a.gained j before) [
        | inl first ↦ inl first
        | inr then' ↦ inr (b.stays j then')
      ]
      | inr now ↦ inr now
    ];
    stays = λ j h. b.stays j (a.stays j h);
    blamed = λ e. a.blamed (b.blamed e);
  };
}

some≢none : {A : Type 0} (a : A) → some a ≢ none
some≢none a e = cc

module _ (p : Platform) (steps : List Step) (execs : List Uuid) (g : Graph) where
  Careful-IsKept : IsKept p steps execs g Careful
  Careful-IsKept = record {
    preorder = Careful-preorder;
    lowered = λ id r. record { gained = λ j d. inl d; stays = λ j h. h; blamed = λ e. e };
    marked = λ id r new. record {
      gained = λ j d. elim (Bool-cases (id == j)) [
        | inl same ↦ inr (rw (same, update) refl)
        | inr other ↦ inl (rw (other, update) at d)
      ];
      stays = λ j h. ground (arith, h);
      blamed = λ e. e;
    };
    readied = λ id c r. record { gained = λ j d. inl d; stays = λ j h. h; blamed = λ e. e };
    failed = λ x r. record { gained = λ j d. inl d; stays = λ j h. h; blamed = λ e. absurd cc };
  }

  Careful-IsFollowed : IsFollowed p steps execs g Careful
  Careful-IsFollowed = IsKept-IsFollowed p steps execs g Careful Careful-IsKept

  Careful-Records : (s : Step) → Records p steps execs g Careful s
  Careful-Records s output r = record {
    gained = λ j d. inl d;
    stays = λ j h. ground (arith, h);
    blamed = λ e. e;
  }

  -- A failure with no error edges goes on record.
  pub process_failure-blames :
      (s : Step) (x : Error) (r : Run)
      → g.error_edges s.id ≡ []
      → (process_failure p steps execs g s x r).execution_err ≡ some (step_failed s.name x)
  unfolding process_failure
  process_failure-blames s x r plain = rw (plain, process_failure) refl

  settled-recorded :
      (s : Step) (output : Object) (r : Run)
      → settled (record_output p steps execs g s output r) s.id ≡ true
  settled-recorded s output r = rw (==_refl s.id) (right (r.skipped s.id))
    where
      right : (b : Bool) → (b || true) ≡ true
      right true = refl
      right false = refl

  process_success-settles :
      (fuel : ℕ) (s : Step) (output : Object) (r t : Run)
      → process_success p steps execs g fuel s output r ≡ some t
      → settled t s.id ≡ true
  unfolding process_success
  process_success-settles fuel s output r t e =
      let (u, went, rest) =
        then_some
          (follow_edges p steps execs g fuel s output (g.normal_edges s.id)
            (record_output p steps execs g s output r))
          (λ u. some (decrement_all (g.implicit_downstream s.id) u)) t e in
      let followed =
        follow_edges_ind p steps execs g Careful Careful-IsFollowed fuel s output
          (g.normal_edges s.id) _ u went in
      let lowered = subst (Careful u) (some_inj.0 rest) (
        decrement_all_ind p steps execs g Careful Careful-IsFollowed (g.implicit_downstream s.id)
          u) in
      lowered.stays s.id (followed.stays s.id (settled-recorded s output r))

  -- A step whose result was processed has settled, or a failure is on record.
  module _ (plain : (s : Uuid) → g.error_edges s ≡ []) where
    process_result-settles :
        (fuel : ℕ) (id : Uuid) (o : Outcome) (r t : Run)
        → step_by_id steps id ≢ none
        → process_result p steps execs g fuel (id, o) r ≡ some t
        → t.execution_err ≡ none
        → settled t id ≡ true
    process_result-settles fuel id o r t known e clear =
        go (process_result_cases p steps execs g fuel id o r t e)
      where
        go : Processed p steps execs g fuel id o r t → settled t id ≡ true
        go (unknown missing same) = absurd (known missing)
        go (failed_with s x found is same) = absurd (
            some≢none _ (
              sym (process_failure-blames s x r (plain s.id))
              ∙ ap (λ u. u.execution_err) (sym same)
              ∙ clear))
        go (succeeded s output found is went) =
            subst (λ i. settled t i ≡ true) (step_by_id-id steps id s found)
              (process_success-settles fuel s output r t went)

    process_results-settles :
        (fuel : ℕ) (l : List StepOutcome) (r t : Run)
        → All (λ x. step_by_id steps x.0 ≢ none) l
        → process_results p steps execs g fuel l r ≡ some t
        → t.execution_err ≡ none
        → All (λ x. settled t x.0 ≡ true) l
    unfolding process_results
    process_results-settles fuel [] r t known e clear = tt
    process_results-settles fuel ((id, o) ∷ l) r t known e clear =
        let (u, went, rest) =
          then_some (process_result p steps execs g fuel (id, o) r)
            (process_results p steps execs g fuel l) t e in
        let later =
          process_results_ind p steps execs g Careful Careful-IsKept Careful-Records fuel l u t
            rest in
        (
          later.stays id (process_result-settles fuel id o r u known.0 went (later.blamed clear)),
          process_results-settles fuel l u t known.1 rest clear,
        )

-- Whatever is done has settled, unless a failure is on record.
abbrev pub Clear : Run → Type 0
Clear r = r.execution_err ≡ none → (j : Uuid) → r.done j ≡ true → settled r j ≡ true

module _ (p : Platform) (registry : Registry) (steps : List Step) (execs : List Uuid) (g : Graph)
    (plain : (s : Uuid) → g.error_edges s ≡ []) where
  pub run_wave-Clear :
      (fuel : ℕ) (r t : Run)
      → Clear r
      → run_wave p registry steps execs g fuel (ready steps r) r ≡ some t
      → Clear t
  unfolding run_wave
  run_wave-Clear fuel r t h e clear j d = elim (careful.gained j d) [
    | inr now ↦ now
    | inl before ↦ elim (marked.only j before) [
      | inl old ↦ careful.stays j (rw same (h (sym same_err ∙ careful.blamed clear) j old))
      | inr fresh ↦
          All-ids (λ i. settled t i ≡ true) results
            (process_results-settles p steps execs g plain fuel results _ t
              (execute_wave-IsKnown p registry steps r.context wave) e clear)
            j (ready-answered p registry steps r j fresh)
    ]
  ]
    where
      wave : List Uuid
      wave = ready steps r

      results : List StepOutcome
      results = execute_wave p registry steps r.context wave

      marked : Marked wave r (mark_wave wave r)
      marked = mark_wave-Marked wave r

      same : settled (mark_wave wave r) j ≡ settled r j
      same = ap (λ u. settled u j) marked.same

      same_err : (mark_wave wave r).execution_err ≡ r.execution_err
      same_err = ap (λ u. u.execution_err) marked.same

      careful : Careful (emit (wave_effects results) (mark_wave wave r)) t
      careful =
          process_results_ind p steps execs g Careful (Careful-IsKept p steps execs g)
            (Careful-Records p steps execs g) fuel results _ t e
