-- ===== src/Engine/Resolver.antt =====
-- internal/engine/resolver.go: the resolution of one expression.
use mathlib.Core.List.{reverse}
use react_go_workflow.Prelude.{
  ℕ, Bool, ◌||◌, ◌&&◌, none, some, List, [], ◌∷◌, Text, codes, text_eq, lookup, split, ◌==◌, leb,
  if◌then◌else◌,
}
use react_go_workflow.Value.{
  Value, nil_object, string, object, Object, of_object, get_field, type_name,
}
use react_go_workflow.Engine.Errors.{
  invalid_expression, unknown_root, short_step_expression, short_workflow_expression, no_output_yet,
  expected_output, expected_input, secret_arity, secret_missing, env_arity, env_missing,
  key_missing, cannot_navigate, Result, ok, err, ◌>>=◌,
}
use react_go_workflow.Engine.Context.{ExecContext, get_step_output}

-- unicode.IsSpace
unfoldable pub is_space : ℕ → Bool
is_space c =
    (leb 9 c && leb c 13)
    || c == 0x20
    || c == 0x85
    || c == 0xa0
    || c == 0x1680
    || (leb 0x2000 c && leb c 0x200a)
    || c == 0x2028
    || c == 0x2029
    || c == 0x202f
    || c == 0x205f
    || c == 0x3000

unfoldable pub trim_left : Text → Text
unfolding is_space
trim_left [] = []
trim_left (c ∷ s) = if is_space c then trim_left s else c ∷ s

-- strings.TrimSpace
unfoldable pub trim_space : Text → Text
unfolding trim_left
trim_space s = reverse (trim_left (reverse (trim_left s)))

-- A step along a path: only maps have keys.
unfoldable pub navigate_key : Value → Text → Result Value
unfolding get_field
navigate_key (object f) key = elim (get_field key f) [
  | none ↦ err (key_missing key)
  | some v ↦ ok v
]
navigate_key nil_object key = err (key_missing key)
navigate_key v key = err (cannot_navigate (type_name v) key)

unfoldable pub navigate_path : Value → List Text → Result Value
unfolding navigate_key
navigate_path v [] = ok v
navigate_path v (key ∷ path) = navigate_key v key >>= λ w. navigate_path w path

abbrev from_step_output : Text → Object → Text → List Text → Result Value
from_step_output name none word path = err (no_output_yet name)
from_step_output name (some output) word path =
    if text_eq word (codes "output")
    then navigate_path (object output) path
    else err (expected_output word)

unfoldable pub resolve_step_expr : List Text → ExecContext → Result Value
unfolding navigate_path get_step_output text_eq type_name
resolve_step_expr [] c = err short_step_expression
resolve_step_expr (name ∷ []) c = err short_step_expression
resolve_step_expr (name ∷ word ∷ path) c = from_step_output name (get_step_output name c) word path

unfoldable pub resolve_workflow_expr : List Text → ExecContext → Result Value
unfolding navigate_path
resolve_workflow_expr [] c = err short_workflow_expression
resolve_workflow_expr (word ∷ path) c =
    if text_eq word (codes "input")
    then navigate_path (of_object c.workflow_input) path
    else err (expected_input word)

unfoldable pub resolve_secret_expr : List Text → ExecContext → Result Value
unfolding lookup
resolve_secret_expr (key ∷ []) c = elim (lookup key c.secrets) [
  | none ↦ err (secret_missing key)
  | some v ↦ ok (string v)
]
resolve_secret_expr _ c = err secret_arity

unfoldable pub resolve_env_expr : List Text → ExecContext → Result Value
unfolding lookup
resolve_env_expr (key ∷ []) c = elim (lookup key c.env) [
  | none ↦ err (env_missing key)
  | some v ↦ ok (string v)
]
resolve_env_expr _ c = err env_arity

abbrev resolve_root : Text → List Text → ExecContext → Result Value
resolve_root root rest c =
    if text_eq root (codes "steps")
    then resolve_step_expr rest c
    else if text_eq root (codes "workflow")
    then resolve_workflow_expr rest c
    else if text_eq root (codes "secrets")
    then resolve_secret_expr rest c
    else if text_eq root (codes "env")
    then resolve_env_expr rest c
    else err (unknown_root root)

abbrev resolve_parts : Text → List Text → ExecContext → Result Value
resolve_parts expr (root ∷ next ∷ rest) c = resolve_root root (next ∷ rest) c
resolve_parts expr _ c = err (invalid_expression expr)

unfoldable pub resolve_expression : Text → ExecContext → Result Value
unfolding resolve_step_expr resolve_workflow_expr resolve_secret_expr resolve_env_expr trim_space
    split
resolve_expression expr c =
    let trimmed = trim_space expr in resolve_parts trimmed (split b'.' trimmed) c
