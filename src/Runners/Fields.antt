-- ===== src/Runners/Fields.antt =====
-- runners/transform.go and runners/set_variable.go.
pub mod Laws
use react_go_workflow.Prelude.{ℕ, Bool, Option, none, some, [], Text, codes, text_eq, if◌then◌else◌}
use react_go_workflow.Value.{
  Value, null, nil_object, object, array, string, Items, nil, cons, Fields, end, field, Object,
  index, set_field,
}
use react_go_workflow.Engine.Errors.{Result, ok}
use react_go_workflow.Engine.Types.{StepRunner, Call}
use react_go_workflow.Runners.Compare.{as_string}
use react_go_workflow.Runners.Items.{as_object}

-- The flat format: each entry of the mapping with a target, in the order in which `range` visits them.
unfoldable pub put_mappings : Fields → Fields → Fields
unfolding set_field text_eq
put_mappings end output = output
put_mappings (field target source f) output =
    put_mappings f (if text_eq target [] then output else set_field target source output)

abbrev put_legacy : Object → Fields → Fields
put_legacy mapping output =
    let source = as_string (index mapping (codes "source")) in
    let target = as_string (index mapping (codes "target")) in
    if text_eq target [] then output else set_field target (string source) output

-- The legacy format: a list of objects with a source and a target.
unfoldable pub put_legacy_mappings : Items → Fields → Fields
unfolding set_field index text_eq
put_legacy_mappings nil output = output
put_legacy_mappings (cons m l) output =
    put_legacy_mappings l
      (elim (as_object m) [ none ↦ output | some mapping ↦ put_legacy mapping output ])

abbrev mapped : Value → Fields
mapped (object f) = put_mappings f end
mapped (array l) = put_legacy_mappings l end
mapped _ = end

abbrev pub or_input : Fields → Object → Object
or_input end input = input
or_input (field k v f) input = some (field k v f)

-- TransformRunner.Run
unfoldable pub transform_runner : StepRunner
unfolding put_mappings put_legacy_mappings index
transform_runner call config input = ok (or_input (mapped (index config (codes "mappings"))) input)

-- SetVariableRunner.Run
unfoldable pub set_variable_runner : StepRunner
unfolding index
set_variable_runner call config input =
    let name = as_string (index config (codes "variable_name")) in
    ok (some (field name (index config (codes "value")) end))
