-- ===== src/Engine/Context.antt =====
-- internal/engine/context.go. The lock is not modelled: the executor writes between the waves, while
-- no step runs, and the running steps only read.
pub mod Laws
use react_go_workflow.Prelude.{none, some, List, [], Text, text_eq, lookup, insert, if◌then◌else◌}
use react_go_workflow.Value.{Object}

pub record ExecContext : Type 0 where
  pub workflow_input : Object
  pub step_outputs : List (Text × Object)
  pub secrets : List (Text × Text)
  pub env : List (Text × Text)

unfoldable pub new_exec_context : Object → ExecContext
new_exec_context input = record {
  workflow_input = input;
  step_outputs = [];
  secrets = [];
  env = [];
}

-- The output is filed under the step's name, and under its id unless that is empty.
unfoldable pub set_step_output : Text → Text → Object → ExecContext → ExecContext
unfolding insert text_eq
set_step_output name id output c =
    let named = insert name output c.step_outputs in
    record c { step_outputs = if text_eq id [] then named else insert id output named }

-- The zero value of the map is the nil map.
unfoldable pub get_step_output : Text → ExecContext → Object
unfolding lookup
get_step_output name c = elim (lookup name c.step_outputs) [ none ↦ none | some o ↦ o ]

unfoldable pub set_secret : Text → Text → ExecContext → ExecContext
unfolding insert
set_secret key value c = record c { secrets = insert key value c.secrets }

unfoldable pub set_env : Text → Text → ExecContext → ExecContext
unfolding insert
set_env key value c = record c { env = insert key value c.env }
