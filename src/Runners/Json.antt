-- ===== src/Runners/Json.antt =====
-- runners/json_parse.go. encoding/json is a parameter: what json.Unmarshal makes of a text as a map and
-- as a slice, with `none` for an error.
use react_go_workflow.Prelude.{Option, none, some, [], ◌++◌, Text, codes, text_eq, if◌then◌else◌}
use react_go_workflow.Value.{
  Value, null, nil_object, bool, int, float, string, object, array, Items, Object, index, type_name,
}
use react_go_workflow.Engine.Errors.{Result, ok, err, runner_error}
use react_go_workflow.Engine.Types.{StepRunner}
use react_go_workflow.Runners.Items.{counted}

pub record JsonDecoder : Type 0 where
  pub to_object : Text → Option Object
  pub to_array : Text → Option Items

module _ (json : JsonDecoder) where
  unfoldable pub parse_text : Text → Result Object
  unfolding text_eq
  parse_text s =
      if text_eq s []
      then err (runner_error (codes "source is an empty string — nothing to parse"))
      else elim (json.to_object s) [
        | some o ↦ ok o
        | none ↦ elim (json.to_array s) [
          | some l ↦ ok (counted (codes "items") l)
          | none ↦ err (
              runner_error
                (codes "failed to parse as JSON — make sure the source contains valid JSON"))
        ]
      ]

  abbrev wrong_type : Value → Result Object
  wrong_type v = err (
      runner_error (
        codes "expected a JSON string or object, but got "
        ++ (type_name v
            ++ codes " — check that the source expression points to the correct field")))

  unfoldable pub parse_source : Value → Result Object
  unfolding parse_text type_name
  parse_source null = err (runner_error (codes "source is empty — nothing to parse"))
  parse_source nil_object = ok none
  parse_source (object f) = ok (some f)
  parse_source (array l) = ok (counted (codes "items") l)
  parse_source (string s) = parse_text s
  parse_source (bool b) = wrong_type (bool b)
  parse_source (int n) = wrong_type (int n)
  parse_source (float x) = wrong_type (float x)

  -- JSONParseRunner.Run
  unfoldable pub json_parse_runner : StepRunner
  unfolding parse_source index
  json_parse_runner call config input = parse_source (index config (codes "source"))
