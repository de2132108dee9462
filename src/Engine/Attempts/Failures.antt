-- ===== src/Engine/Attempts/Failures.antt =====
-- What a trace shows of the steps that failed, and what a step adds to it.
use mathlib.Core.List.{append_assoc}
use react_go_workflow.Prelude.{
  ℕ, zero, suc, ◌≡◌, refl, sym, ap, ◌∙◌, List, [], ◌∷◌, ◌++◌, Text, rounds,
}
use react_go_workflow.Value.{Object}
use react_go_workflow.Engine.Errors.{Error, message, Result, ok, err, resolve_config, resolve_input}
use react_go_workflow.Engine.Context.{ExecContext}
use react_go_workflow.Engine.Types.{
  Uuid, Step, Effect, start_step, complete_step, publish, fail_step, skip_step, sleep,
  end_execution, notify, StepRunner, Registry, get_runner,
}
use react_go_workflow.Engine.Attempts.{
  Outcome, try_runs, after_run, fail_outcome, finish_step, before, with_input, with_config,
  with_runner, execute_step, max_attempts, type_of,
}

-- A step whose row is set to failed, with the error that is stored.
abbrev pub Failure : Type 0
Failure = Uuid × Text

abbrev pub failure_of : Effect → List Failure
failure_of (fail_step id m) = (id, m) ∷ []
failure_of (start_step id) = []
failure_of (complete_step id output n) = []
failure_of (publish e) = []
failure_of (skip_step id) = []
failure_of (sleep d) = []
failure_of (end_execution s e o) = []
failure_of (notify s e) = []

abbrev pub failures : List Effect → List Failure
failures [] = []
failures (e ∷ l) = failure_of e ++ failures l

pub failures-append : (k l : List Effect) → failures (k ++ l) ≡ failures k ++ failures l
failures-append [] l = refl
failures-append (e ∷ k) l =
    rw (failures-append k l) (sym (append_assoc (failure_of e) (failures k) (failures l)))

-- The failure of a result.
unfoldable pub failure_in : Uuid → Result Object → List Failure
unfolding message
failure_in id (err e) = (id, message e) ∷ []
failure_in id (ok o) = []

-- The effects of an outcome show its failure, and no other.
abbrev pub Tells : Uuid → Outcome → Type 0
Tells id o = failures o.effects ≡ failure_in id o.result

module _ (s : Step) (runner : StepRunner) (config input : Object) where
  after_run-failures :
      (left attempt : ℕ) (answer : Result Object) (rest : Outcome)
      → failures rest.effects ≡ []
      → failures (after_run s runner config input left attempt answer rest).effects ≡ []
  after_run-failures left attempt (ok o) rest q = refl
  after_run-failures zero attempt (err e) rest q = refl
  after_run-failures (suc left) attempt (err e) rest q = q

  try_runs-failures :
      (left attempt : ℕ) → failures (try_runs s runner config input left attempt).effects ≡ []
  unfolding try_runs
  try_runs-failures zero attempt = refl
  try_runs-failures (suc left) attempt =
      after_run-failures left attempt _ _ (try_runs-failures left (suc attempt))

finish_step-Tells : (s : Step) (r : Result Object) → Tells s.id (finish_step s r)
unfolding failure_in
finish_step-Tells s (err e) = refl
finish_step-Tells s (ok o) = refl

before-Tells :
    (id : Uuid) (l : List Effect) (o : Outcome)
    → failures l ≡ []
    → Tells id o
    → Tells id (before l o)
before-Tells id l o q h = failures-append l o.effects ∙ ap (λ x. x ++ failures o.effects) q ∙ h

fail_outcome-Tells : (s : Step) (e : Error) → Tells s.id (fail_outcome s e)
unfolding failure_in
fail_outcome-Tells s e = refl

module _ (format_float : ℕ → Text) (registry : Registry) (c : ExecContext) (s : Step) where
  with_input-Tells :
      (runner : StepRunner) (config : Object) (input : Result Object)
      → Tells s.id (with_input format_float registry c s runner config input)
  with_input-Tells runner config (err e) = fail_outcome-Tells s (resolve_input e)
  with_input-Tells runner config (ok input) =
      let n = rounds (max_attempts s) in
      let tried = try_runs s runner config input n 1 in
      before-Tells s.id tried.effects (finish_step s tried.result)
        (try_runs-failures s runner config input n 1) (finish_step-Tells s tried.result)

  with_config-Tells :
      (runner : StepRunner) (config : Result Object)
      → Tells s.id (with_config format_float registry c s runner config)
  with_config-Tells runner (err e) = fail_outcome-Tells s (resolve_config e)
  with_config-Tells runner (ok config) = with_input-Tells runner config _

  with_runner-Tells :
      (runner : Result StepRunner) → Tells s.id (with_runner format_float registry c s runner)
  with_runner-Tells (err e) = fail_outcome-Tells s e
  with_runner-Tells (ok runner) = with_config-Tells runner _

  pub execute_step-Tells : Tells s.id (execute_step format_float registry c s)
  unfolding execute_step
  execute_step-Tells = with_runner-Tells (get_runner (type_of s) registry)
