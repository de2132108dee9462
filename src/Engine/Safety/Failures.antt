-- ===== src/Engine/Safety/Failures.antt =====
-- The failures of a wave are those of its results, and a skipped step adds none.
use react_go_workflow.Prelude.{
  ◌≡◌, refl, ap, ◌∙◌, inl, inr, List, [], ◌∷◌, ◌++◌, Option-cases, Bool-cases,
}
use react_go_workflow.Engine.Context.{ExecContext}
use react_go_workflow.Engine.Types.{Uuid, Step, Registry}
use react_go_workflow.Engine.Attempts.{execute_step}
use react_go_workflow.Engine.Graph.{Platform, Graph, step_by_id}
use react_go_workflow.Engine.Skip.{has_row, skip_effects}
use react_go_workflow.Engine.Dag.{StepOutcome, wave_effects, execute_wave}
use react_go_workflow.Engine.Attempts.Failures.{
  Failure, failures, failures-append, failure_in, execute_step-Tells,
}

-- The failures among the results of a wave.
unfoldable pub failing : List StepOutcome → List Failure
failing [] = []
failing ((id, o) ∷ l) = failure_in id o.result ++ failing l

module _ (p : Platform) (registry : Registry) (steps : List Step) (c : ExecContext) where
  pub failures-wave :
      (ids : List Uuid)
      → failures (wave_effects (execute_wave p registry steps c ids))
        ≡ failing (execute_wave p registry steps c ids)
  unfolding wave_effects execute_wave failing
  failures-wave [] = refl
  failures-wave (id ∷ ids) = elim (Option-cases (step_by_id steps id)) [
    | inl missing ↦ rw (missing, execute_wave) (failures-wave ids)
    | inr (s, found) ↦
        let o = execute_step p.format_float registry c s in
        let l = execute_wave p registry steps c ids in
        rw (found, execute_wave)
          (failures-append o.effects (wave_effects l)
            ∙ ap (λ x. x ++ failures (wave_effects l))
                (execute_step-Tells p.format_float registry c s)
            ∙ ap (λ x. failure_in s.id o.result ++ x) (failures-wave ids))
  ]

pub skip_effects-failures :
    (steps : List Step) (execs : List Uuid) (g : Graph) (id : Uuid)
    → failures (skip_effects steps execs g id) ≡ []
skip_effects-failures steps execs g id = elim (Bool-cases (has_row steps execs g id execs)) [
  | inl row ↦ rw row refl
  | inr no_row ↦ rw no_row refl
]
