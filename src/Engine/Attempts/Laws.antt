-- ===== src/Engine/Attempts/Laws.antt =====
-- What a step shows: it starts, and it is completed if it comes out well.
use react_go_workflow.Prelude.{
  ℕ, zero, suc, ◌≡◌, ◌≢◌, refl, sym, inl, List, [], ◌∷◌, ◌++◌, All, In, In-append_right, subst,
  Text,
}
use react_go_workflow.Value.{Object}
use react_go_workflow.Engine.Errors.{Error, Result, ok, err, resolve_config, resolve_input}
use react_go_workflow.Engine.Context.{ExecContext}
use react_go_workflow.Engine.Types.{
  Step, Effect, start_step, complete_step, publish, fail_step, skip_step, sleep, end_execution,
  notify, Event, execution_status, StepRunner, Registry, get_runner,
}
use react_go_workflow.Engine.Trace.{started, finished, started-append, finished-append}
use react_go_workflow.Engine.Attempts.{
  Outcome, try_runs, after_run, fail_outcome, finish_step, before, with_input, with_config,
  with_runner, execute_step, type_of,
}

-- An effect that is about a step, not about the end of the execution.
abbrev pub IsStepEffect : Effect → Type 0
IsStepEffect (publish e) = e.type ≢ execution_status
IsStepEffect (end_execution s m o) = ⊥
IsStepEffect (notify s m) = ⊥
IsStepEffect (start_step id) = Unit
IsStepEffect (complete_step id o n) = Unit
IsStepEffect (fail_step id m) = Unit
IsStepEffect (skip_step id) = Unit
IsStepEffect (sleep d) = Unit

pub All-append {κ} :
    {A : Type 0} (P : A → Type κ) (xs ys : List A) → All P xs → All P ys → All P (xs ++ ys)
All-append P [] ys a b = b
All-append P (x ∷ xs) ys a b = (a.0, All-append P xs ys a.1 b)

-- Effects that start no step and do not end the execution.
pub record IsQuiet (l : List Effect) : Type 0 where
  pub idle : started l ≡ []
  pub own : All IsStepEffect l

IsQuiet-append : (k l : List Effect) → IsQuiet k → IsQuiet l → IsQuiet (k ++ l)
IsQuiet-append k l a b = record {
  idle = rw (started-append k l, a.idle) b.idle;
  own = All-append IsStepEffect k l a.own b.own;
}

IsQuiet-publish :
    (e : Event) (l : List Effect) → e.type ≢ execution_status → IsQuiet l → IsQuiet (publish e ∷ l)
IsQuiet-publish e l other q = record { idle = q.idle; own = (other, q.own) }

module _ (s : Step) (runner : StepRunner) (config input : Object) where
  after_run-IsQuiet :
      (left attempt : ℕ) (answer : Result Object) (rest : Outcome)
      → IsQuiet rest.effects
      → IsQuiet (after_run s runner config input left attempt answer rest).effects
  after_run-IsQuiet left attempt (ok o) rest q = record { idle = refl; own = tt }
  after_run-IsQuiet zero attempt (err e) rest q = record { idle = refl; own = tt }
  after_run-IsQuiet (suc left) attempt (err e) rest q = record {
    idle = q.idle;
    own = ((λ x. cc), (tt, q.own));
  }

  try_runs-IsQuiet :
      (left attempt : ℕ) → IsQuiet (try_runs s runner config input left attempt).effects
  unfolding try_runs
  try_runs-IsQuiet zero attempt = record { idle = refl; own = tt }
  try_runs-IsQuiet (suc left) attempt =
      IsQuiet-publish _ _ (λ x. cc)
        (after_run-IsQuiet left attempt _ _ (try_runs-IsQuiet left (suc attempt)))

-- A part of executeStep that is quiet, and shows the step as completed if it comes out well.
record Shows (s : Step) (o : Outcome) : Type 0 where
  quiet : IsQuiet o.effects
  shown : (output : Object) → o.result ≡ ok output → In s.id (finished o.effects)

fail_outcome-Shows : (s : Step) (e : Error) → Shows s (fail_outcome s e)
fail_outcome-Shows s e = record {
  quiet = record { idle = refl; own = (tt, ((λ x. cc), tt)) };
  shown = λ output x. absurd (cc);
}

finish_step-Shows : (s : Step) (r : Result Object) → Shows s (finish_step s r)
finish_step-Shows s (err e) = fail_outcome-Shows s e
finish_step-Shows s (ok o) = record {
  quiet = record { idle = refl; own = (tt, ((λ x. cc), tt)) };
  shown = λ output x. inl refl;
}

before-Shows :
    (s : Step) (l : List Effect) (o : Outcome) → IsQuiet l → Shows s o → Shows s (before l o)
before-Shows s l o q h = record {
  quiet = IsQuiet-append l o.effects q h.quiet;
  shown = λ output x.
      subst (In s.id) (sym (finished-append l o.effects))
        (In-append_right s.id (finished l) _ (h.shown output x));
}

module _ (format_float : ℕ → Text) (registry : Registry) (c : ExecContext) (s : Step) where
  with_input-Shows :
      (runner : StepRunner) (config : Object) (input : Result Object)
      → Shows s (with_input format_float registry c s runner config input)
  with_input-Shows runner config (err e) = fail_outcome-Shows s (resolve_input e)
  with_input-Shows runner config (ok input) =
      before-Shows s _ _ (try_runs-IsQuiet s runner config input _ 1) (finish_step-Shows s _)

  with_config-Shows :
      (runner : StepRunner) (config : Result Object)
      → Shows s (with_config format_float registry c s runner config)
  with_config-Shows runner (err e) = fail_outcome-Shows s (resolve_config e)
  with_config-Shows runner (ok config) = with_input-Shows runner config _

  with_runner-Shows :
      (runner : Result StepRunner) → Shows s (with_runner format_float registry c s runner)
  with_runner-Shows (err e) = fail_outcome-Shows s e
  with_runner-Shows (ok runner) = with_config-Shows runner _

  -- The effects of a step.
  pub record StepEffects (o : Outcome) : Type 0 where
    pub rest : List Effect
    pub starts : o.effects ≡ start_step s.id ∷ rest
    pub quiet : IsQuiet rest
    pub shown : (output : Object) → o.result ≡ ok output → In s.id (finished rest)

  -- Running a step marks it as started first and starts nothing else, ends no execution, and marks the
  -- step as completed if its result is an output.
  pub execute_step-StepEffects : StepEffects (execute_step format_float registry c s)
  unfolding execute_step
  execute_step-StepEffects =
      let h = with_runner-Shows (get_runner (type_of s) registry) in
      record {
        rest = _;
        starts = refl;
        quiet = IsQuiet-publish _ _ (λ x. cc) h.quiet;
        shown = h.shown;
      }
