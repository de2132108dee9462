-- ===== src/Engine/Errors.antt =====
-- The errors of internal/engine, by what they say, and the result of fallible code.
use react_go_workflow.Prelude.{Text, codes, ◌++◌}

pub data Error : Type 0 where
  invalid_expression : (expr : Text) → Error
  unknown_root : (root : Text) → Error
  short_step_expression : Error
  short_workflow_expression : Error
  no_output_yet : (step_name : Text) → Error
  expected_output : (got : Text) → Error
  expected_input : (got : Text) → Error
  secret_arity : Error
  secret_missing : (key : Text) → Error
  env_arity : Error
  env_missing : (key : Text) → Error
  key_missing : (key : Text) → Error
  cannot_navigate : (type_name key : Text) → Error
  no_runner : (step_type : Text) → Error
  runner_error : (said : Text) → Error
  in_field : (key : Text) → Error → Error
  in_expression : (expr : Text) → Error → Error
  resolve_config : Error → Error
  resolve_input : Error → Error
  step_failed : (step_name : Text) → Error → Error
  cancelled_by_user : Error
  workflow_timed_out : Error

-- err.Error()
unfoldable pub message : Error → Text
message (invalid_expression expr) = codes "invalid expression: " ++ expr
message (unknown_root root) = codes "unknown expression root: " ++ root
message short_step_expression = codes "step expression needs at least step_name.output"
message short_workflow_expression = codes "workflow expression needs at least one field"
message (no_output_yet name) =
    codes "step '"
    ++ (name
        ++ codes
            "' has no output yet (it may not have run or the name/ID doesn't match a completed step)")
message (expected_output got) =
    codes "expected 'output' after step name, got '" ++ (got ++ codes "'")
message (expected_input got) =
    codes "expected 'input' after 'workflow', got '" ++ (got ++ codes "'")
message secret_arity = codes "secret expression should be: secrets.KEY_NAME"
message (secret_missing key) = codes "secret '" ++ (key ++ codes "' not found")
message env_arity = codes "env expression should be: env.VAR_NAME"
message (env_missing key) = codes "env var '" ++ (key ++ codes "' not found")
message (key_missing key) = codes "key '" ++ (key ++ codes "' not found")
message (cannot_navigate type_name key) =
    codes "cannot navigate into " ++ (type_name ++ (codes " with key '" ++ (key ++ codes "'")))
message (no_runner step_type) = codes "no runner registered for step type: " ++ step_type
message (runner_error said) = said
message (in_field key e) = codes "field " ++ (key ++ (codes ": " ++ message e))
message (in_expression expr e) = codes "expression " ++ (expr ++ (codes ": " ++ message e))
message (resolve_config e) = codes "resolve config: " ++ message e
message (resolve_input e) = codes "resolve input: " ++ message e
message (step_failed name e) = codes "step '" ++ (name ++ (codes "' failed: " ++ message e))
message cancelled_by_user = codes "execution cancelled by user"
message workflow_timed_out = codes "workflow timed out"

pub data Result {ℓ} (A : Type ℓ) : Type ℓ where
  ok : A → Result A
  err : Error → Result A

infixl 5 ◌>>=◌
abbrev pub ◌>>=◌ {ℓ κ} : {A : Type ℓ} {B : Type κ} → Result A → (A → Result B) → Result B
ok a >>= f = f a
err e >>= f = err e

-- fmt.Errorf("…: %w", err) around a failure.
abbrev pub wrap {ℓ} : {A : Type ℓ} → (Error → Error) → Result A → Result A
wrap f (ok a) = ok a
wrap f (err e) = err (f e)
