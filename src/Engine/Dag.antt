-- ===== src/Engine/Dag.antt =====
-- executor.go, the loop of executeDAG: waves of steps that are ready, and what their results change.
pub mod Rule
pub mod Total
use react_go_workflow.Prelude.{
  ℕ, zero, suc, ℤ, pos, negsuc, is_positive, Bool, true, false, ◌&&◌, not, Option, none, some, List,
  [], ◌∷◌, ◌++◌, keep, length, map, Text, codes, text_eq, if◌then◌else◌, update,
}
use react_go_workflow.Value.{Value, bool, string, Fields, end, field, Object, get_field}
use react_go_workflow.Engine.Errors.{Error, step_failed, message, Result, ok, err}
use react_go_workflow.Engine.Context.{ExecContext, set_step_output}
use react_go_workflow.Engine.Types.{Uuid, Step, Edge, Workflow, Effect, Registry}
use react_go_workflow.Engine.Attempts.{Outcome, execute_step}
use react_go_workflow.Engine.Graph.{Platform, Graph, step_by_id}
use react_go_workflow.Engine.Skip.{Run, decrement, emit, each, skip_branch}

abbrev pub is_condition : Step → Bool
is_condition s = elim s.step_type [ none ↦ false | some name ↦ text_eq name (codes "condition") ]

-- res, ok := output["result"]; ok && res == true
unfoldable pub result_is_true : Object → Bool
unfolding get_field
result_is_true none = false
result_is_true (some f) = elim (get_field (codes "result") f) [ some (bool b) ↦ b | _ ↦ false ]

abbrev pub cond_result : Object → Text
cond_result output = if result_is_true output then codes "true" else codes "false"

-- An edge out of a step is left aside when the step is a condition that came out the other way.
unfoldable pub is_taken : Step → Object → Edge → Bool
unfolding result_is_true
is_taken s output e = if is_condition s then text_eq e.source_output (cond_result output) else true

abbrev pub StepOutcome : Type 0
StepOutcome = Uuid × Outcome

-- done[s.ID] is false and inDegree[s.ID] <= 0
abbrev pub is_ready : Run → Step → Bool
is_ready r s = not (r.done s.id) && not (is_positive (r.in_degree s.id))

unfoldable pub ready : List Step → Run → List Uuid
ready steps r = map (λ s. s.id) (keep (is_ready r) steps)

unfoldable pub mark_wave : List Uuid → Run → Run
mark_wave [] r = r
mark_wave (id ∷ ids) r = mark_wave ids (record r { done = update r.done id true })

unfoldable pub wave_effects : List StepOutcome → List Effect
wave_effects [] = []
wave_effects ((id, o) ∷ l) = o.effects ++ wave_effects l

unfoldable pub decrement_all : List Uuid → Run → Run
decrement_all [] r = r
decrement_all (id ∷ ids) r = decrement_all ids (decrement id r)

abbrev pub error_output : Step → Error → Object
error_output s e =
    some
      (field (codes "error") (string (message e)) (field (codes "failed_step") (string s.name) end))

module _ (p : Platform) (registry : Registry) (steps : List Step) where
  -- The goroutines of a wave. They read the context as it stands, so their results do not depend on
  -- how they interleave; their effects stand here in the order of the wave.
  unfoldable pub execute_wave : ExecContext → List Uuid → List StepOutcome
  unfolding step_by_id execute_step
  execute_wave c [] = []
  execute_wave c (id ∷ ids) = elim (step_by_id steps id) [
    | none ↦ execute_wave c ids
    | some s ↦ (s.id, execute_step p.format_float registry c s) ∷ execute_wave c ids
  ]

module _ (p : Platform) (steps : List Step) (execs : List Uuid) (g : Graph) where
  -- The error edges of a failed step: each makes its target ready.
  unfoldable pub follow_error_edges : Step → Error → List Edge → Run → Run
  unfolding set_step_output message
  follow_error_edges s e [] r = r
  follow_error_edges s e (edge ∷ edges) r = follow_error_edges s e edges (record r {
    context = set_step_output s.name (p.uuid_string s.id) (error_output s e) r.context;
    in_degree = update r.in_degree edge.target_step_id (pos 0);
  })

  unfoldable pub process_failure : Step → Error → Run → Run
  unfolding follow_error_edges
  process_failure s e r =
      let followed = follow_error_edges s e (g.error_edges s.id) r in
      elim (g.error_edges s.id) [
        | [] ↦ record followed { execution_err = some (step_failed s.name e) }
        | _ ∷ _ ↦ followed
      ]

  -- The outgoing normal edges of a completed step.
  unfoldable pub follow_edges : ℕ → Step → Object → List Edge → Run → Option Run
  unfolding is_taken skip_branch
  follow_edges fuel s output [] r = some r
  follow_edges fuel s output (e ∷ edges) r =
      if is_taken s output e
      then follow_edges fuel s output edges (decrement e.target_step_id r)
      else elim (skip_branch steps execs g fuel e.target_step_id r) [
        | none ↦ none
        | some r' ↦ follow_edges fuel s output edges r'
      ]

  abbrev pub record_output : Step → Object → Run → Run
  record_output s output r = record r {
    outputs = update r.outputs s.id (some output);
    context = set_step_output s.name (p.uuid_string s.id) output r.context;
  }

  unfoldable pub process_success : ℕ → Step → Object → Run → Option Run
  unfolding set_step_output follow_edges decrement_all
  process_success fuel s output r =
      elim (follow_edges fuel s output (g.normal_edges s.id) (record_output s output r)) [
        | none ↦ none
        | some r' ↦ some (decrement_all (g.implicit_downstream s.id) r')
      ]

  abbrev pub process_known : ℕ → Step → Result Object → Run → Option Run
  process_known fuel s (err e) r = some (process_failure s e r)
  process_known fuel s (ok output) r = process_success fuel s output r

  unfoldable pub process_result : ℕ → StepOutcome → Run → Option Run
  unfolding process_failure process_success step_by_id
  process_result fuel (id, o) r = elim (step_by_id steps id) [
    | none ↦ some r
    | some s ↦ process_known fuel s o.result r
  ]

  unfoldable pub process_results : ℕ → List StepOutcome → Run → Option Run
  unfolding process_result
  process_results fuel [] r = some r
  process_results fuel (o ∷ l) r = elim (process_result fuel o r) [
    | none ↦ none
    | some r' ↦ process_results fuel l r'
  ]

module _ (p : Platform) (registry : Registry) (steps : List Step) (execs : List Uuid)
    (g : Graph) where
  -- One round of the loop over a wave.
  unfoldable pub run_wave : ℕ → List Uuid → Run → Option Run
  unfolding mark_wave execute_wave wave_effects process_results
  run_wave fuel wave r =
      let results = execute_wave p registry steps r.context wave in
      process_results p steps execs g fuel results (emit (wave_effects results) (mark_wave wave r))
