-- ===== src/Engine/Safety/Blame/Waves.antt =====
-- The loop over the waves: a wave keeps what Engine/Safety/Blame says of the error of the execution.
use mathlib.Core.Option.{some_inj}
use react_go_workflow.Prelude.{
  In-append, ℕ, ◌≡◌, sym, ap, ◌∙◌, subst, inl, inr, some, List, [], ◌∷◌, ◌++◌, In, In-append_left,
  In-append_right, All, then_some,
}
use react_go_workflow.Engine.Errors.{message}
use react_go_workflow.Engine.Types.{Uuid, Step, Registry}
use react_go_workflow.Engine.Attempts.Failures.{Failure, failures, failures-append, failure_in}
use react_go_workflow.Engine.Graph.{Platform, Graph}
use react_go_workflow.Engine.Skip.{Run, emit}
use react_go_workflow.Engine.Dag.{
  StepOutcome, ready, mark_wave, wave_effects, execute_wave, process_result, process_results,
  run_wave,
}
use react_go_workflow.Engine.Safety.Answers.{IsKnown, execute_wave-IsKnown}
use react_go_workflow.Engine.Safety.Failures.{failing, failures-wave}
use react_go_workflow.Engine.Safety.Wave.{mark_wave-Marked}
use react_go_workflow.Engine.Safety.Blame.{Blames, process_result-Blames}

module _ (p : Platform) (steps : List Step) (execs : List Uuid) (g : Graph) where
  process_results-Blames :
      (fuel : ℕ) (l : List StepOutcome) (r t : Run)
      → All (λ x. IsKnown steps x.0) l
      → ((f : Failure) → In f (failing l) → In f (failures r.trace))
      → Blames p steps execs g l r
      → process_results p steps execs g fuel l r ≡ some t
      → Blames p steps execs g [] t
  unfolding process_results failing
  process_results-Blames fuel [] r t known told h e =
      subst (Blames p steps execs g []) (some_inj.0 e) h
  process_results-Blames fuel ((id, o) ∷ l) r t known told h e =
      let (r', went, rest) =
        then_some (process_result p steps execs g fuel (id, o) r)
          (process_results p steps execs g fuel l) t e in
      let (next, same) =
        process_result-Blames p steps execs g fuel id o l r r' known.0
          (λ f i. told f (In-append_left f (failure_in id o.result) (failing l) i)) h went in
      process_results-Blames fuel l r' t known.1
        (λ f i. rw same (told f (In-append_right f (failure_in id o.result) (failing l) i))) next
        rest

module _ (p : Platform) (registry : Registry) (steps : List Step) (execs : List Uuid)
    (g : Graph) where
  pub run_wave-Blames :
      (fuel : ℕ) (r t : Run)
      → Blames p steps execs g [] r
      → run_wave p registry steps execs g fuel (ready steps r) r ≡ some t
      → Blames p steps execs g [] t
  unfolding run_wave failing
  run_wave-Blames fuel r t h went =
      let wave = ready steps r in
      let l = execute_wave p registry steps r.context wave in
      let ran = emit (wave_effects l) (mark_wave wave r) in
      let marked : mark_wave wave r ≡ record r { done = (mark_wave wave r).done } =
        (mark_wave-Marked wave r).same in
      let calm : ran.execution_err ≡ r.execution_err = ap (λ u. u.execution_err) marked in
      let told : failures ran.trace ≡ failures r.trace ++ failing l =
        ap (λ u. failures (u.trace ++ wave_effects l)) marked
        ∙ failures-append r.trace (wave_effects l)
        ∙ ap (λ x. failures r.trace ++ x) (failures-wave p registry steps r.context wave) in
      process_results-Blames p steps execs g fuel l ran t
        (execute_wave-IsKnown p registry steps r.context wave)
        (λ f i. rw told (In-append_right f (failures r.trace) (failing l) i))
        (record {
          known = λ x e.
              let u = h.known x (sym calm ∙ e) in
              record {
                step = u.step;
                cause = u.cause;
                known = u.known;
                failed = rw told (
                    In-append_left (u.step.id, message u.cause) (failures r.trace) (failing l)
                      u.failed);
                no_edge = u.no_edge;
                said = u.said;
              };
          quiet = λ e f i. elim (In-append f (failures r.trace) (failing l) (subst (In f) told i)) [
            | inr now ↦ inr now
            | inl before ↦ elim (h.quiet (sym calm ∙ e) f before) [
              | inl handled ↦ inl handled
              | inr none' ↦ absurd none'
            ]
          ];
        })
        went
